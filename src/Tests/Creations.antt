-- ===== src/Tests/Creations.antt =====
-- The theorem on a created file, over a store that keeps a repository for each path.
use context_os.Base.{
  Bool, true, none, some, [], ◌∷◌, ◌&&◌, ◌==◌, ◌≡◌, refl, sym, ap, ◌∙◌, nat_eq, list_eq, bool_eq,
  list_beq, if◌then◌else◌, beq_refl,
}
use context_os.Base.Lists.{filter, contains, any}
use context_os.Paths.Normalize.{path_normalize}
use context_os.Paths.Mirror.{resolve_mirror_location}
use context_os.Base.Text.{Str, str}
use context_os.Paths.Pure.{PurePath}
use context_os.Store.Commands.{Reply, done, failed, Session}
use context_os.Store.Operations
use context_os.Versioning.{Outcome, GitStore}
use context_os.Versioning.Tables.{Key, find_context}
use context_os.Versioning.Handlers.{Files, World, created_handle}
use context_os.Versioning.Registered.{is_active}
use context_os.Versioning.Trees.{world_of}
use context_os.Versioning.Created.{IsMirror, IsCommitted, created_handle_lem}
use context_os.Tests.Worlds.{plain_host, home, plan}
use context_os.Tests.Versions.{mirrors, stats}
use context_os.Tests.Archives.{archiving, objects, archiving-IsContent, stale}

abbrev Sessions : Type 0
Sessions = PurePath → Session archiving

abbrev is_same : PurePath → PurePath → Bool
is_same p q = p.rooted == q.rooted && p.parts == q.parts

abbrev put_session : PurePath → Session archiving → Sessions → Sessions
put_session p s g = λ q. if is_same p q then s else g q

abbrev ended : PurePath → Sessions → Reply Str × Session archiving → Outcome Sessions
ended p g (done rev, s) = Outcome.returned (put_session p s g)
ended p g (failed e, s) = Outcome.raised (put_session p s g)

abbrev repositories : GitStore
repositories = record {
  State = Sessions;
  init_repo = λ repo g. Outcome.returned g;
  write = λ repo rel content message author g.
      ended repo g (Operations.write archiving rel content message author (g repo));
  remove = λ repo rel message author g. Outcome.raised g;
  move = λ repo src dst message author g. Outcome.raised g;
  head_rev = λ repo rel g. (g repo).repo.head;
  path_exists_at_head = λ repo rel g. true;
  show_head = λ repo rel g. [];
}

returned_eq : {A : Type 0} {a b : A} → Outcome.returned a ≡ Outcome.returned b → a ≡ b
returned_eq h = cc

same_put_session : (p : PurePath) (s : Session archiving) (g : Sessions) → put_session p s g p ≡ s
same_put_session p s g = rw (beq_refl p.rooted, beq_refl p.parts)

ended-returned :
    (p : PurePath) (g g' : Sessions) (x : Reply Str × Session archiving)
    → ended p g x ≡ Outcome.returned g'
    → (rev : Str) × (x ≡ (done rev, g' p))
ended-returned p g g' (done rev, s) h =
    (rev, ap (λ t. (done rev, t)) (sym (same_put_session p s g) ∙ ap (λ f. f p) (returned_eq h)))
ended-returned p g g' (failed e, s) h = cc

repositories-IsMirror : IsMirror repositories archiving
repositories-IsMirror = record {
  session = λ g. g;
  write = λ repo rel content message author g g' h.
      ended-returned repo g g' (Operations.write archiving rel content message author (g repo)) h;
}

abbrev disk : Files
disk = record {
  get_path_stats = stats;
  read_bytes = λ path. some (str "new");
  differs = λ a b. true;
}

abbrev before : World repositories
before = record { db = record { contexts = []; locations = [] }; git = λ p. stale }

abbrev created : Outcome (World repositories)
created =
    created_handle plain_host mirrors repositories disk (home ∷ []) (str "01C") plan none before

runs : created ≡ Outcome.returned (world_of created)
unfolding created_handle list_beq find_context contains any resolve_mirror_location path_normalize
    plain_host filter Operations.write
runs = refl

created_handle_lem_example :
    IsCommitted plain_host mirrors repositories disk
      (home ∷ [])
      archiving
      objects
      archiving-IsContent
      repositories-IsMirror
      plan
      (world_of created).git
    × (k : Key) × (stats plan ≡ some k)
    × (is_active k (world_of created).db.locations ≡ true)
created_handle_lem_example =
    created_handle_lem plain_host mirrors repositories disk (home ∷ []) archiving objects
      archiving-IsContent repositories-IsMirror (str "01C") plan none before (world_of created) runs
