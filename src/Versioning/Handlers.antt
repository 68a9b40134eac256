-- ===== src/Versioning/Handlers.antt =====
-- The handlers of versioning.py, with the watch targets and the files as they are during the
-- call. Of two exceptions the first ends the call.
use context_os.Base.{
  Bool, true, false, not, ◌&&◌, Option, none, some, List, [], ◌∷◌, ◌++◌, ◌==◌, nat_eq, list_eq,
  bool_eq, if◌then◌else◌,
}
use context_os.Base.Text.{Str, str}
use context_os.Paths.Pure.{PurePath}
use context_os.Paths.Normalize.{Host}
use context_os.Paths.Mirror.{resolve_mirror_location}
use context_os.Configure.Sources.{Config, is_path_in_scope}
use context_os.Versioning.{Outcome, ◌>>=◌, resolve_actor, Bytes, GitStore}
use context_os.Versioning.Tables.{
  Key, Db, find_context, sync_location, active_location_by_id, insert_context, insert_location,
  deactivate_tree, move_tree, move_node,
}

-- `get_path_stats` and `read_bytes`, `none` where they raise, and whether the similarity of two
-- contents is below `NEW_VERSION_THRESHOLD`.
pub record Files : Type 0 where
  pub get_path_stats : Str → Option Key
  pub read_bytes : Str → Option Bytes
  pub differs : Bytes → Bytes → Bool

pub record World (G : GitStore) : Type 0 where
  pub db : Db
  pub git : G.State

-- The place in the mirror; without one the call raises.
unfoldable pub at_location :
    {G : GitStore}
    → Option (PurePath × Str)
    → (PurePath → Str → World G → Outcome (World G))
    → World G
    → Outcome (World G)
at_location none f w = Outcome.raised w
at_location (some (repo, rel)) f w = f repo rel w

-- A call of the store.
unfoldable pub with_git : {G : GitStore} → World G → Outcome G.State → Outcome (World G)
with_git w (Outcome.returned g) = Outcome.returned (record w { git = g })
with_git w (Outcome.raised g) = Outcome.raised (record w { git = g })

unfoldable pub with_content :
    {G : GitStore}
    → Option Bytes
    → (Bytes → World G → Outcome (World G))
    → World G
    → Outcome (World G)
with_content none f w = Outcome.raised w
with_content (some content) f w = f content w

module _ (host : Host) (dir : PurePath) (G : GitStore) (files : Files) (targets : List Str) where
  abbrev place : Str → Option (PurePath × Str)
  place path = resolve_mirror_location host dir path targets

  unfoldable pub init_repo : PurePath → World G → Outcome (World G)
  unfolding with_git
  init_repo repo w = with_git w (G.init_repo repo w.git)

  unfoldable pub write : PurePath → Str → Bytes → Str → Str → World G → Outcome (World G)
  unfolding with_git
  write repo rel content message author w =
      with_git w (G.write repo rel content message author w.git)

  unfoldable pub remove : PurePath → Str → Str → Str → World G → Outcome (World G)
  unfolding with_git
  remove repo rel message author w = with_git w (G.remove repo rel message author w.git)

  -- The transaction of `_append_context`: `none` where it is rolled back.
  unfoldable pub append_rows : Key → Option Str → Str → Str → Str → Db → Option Db
  unfolding sync_location active_location_by_id insert_context insert_location
  append_rows k (some c) ulid location provider db =
      some
        (record db { locations = active_location_by_id c (sync_location k location db.locations) })
  append_rows k none ulid location provider db = elim (insert_context ulid db) [
    | none ↦ none
    | some db' ↦
        insert_location
          (record {
            key = k;
            context_id = ulid;
            location = location;
            provider = provider;
            active = true;
          })
          db'
  ]

  unfoldable pub commit_rows : Option Db → World G → Outcome (World G)
  commit_rows none w = Outcome.raised w
  commit_rows (some db) w = Outcome.returned (record w { db = db })

  unfoldable pub with_stats :
      Option Key → (Key → World G → Outcome (World G)) → World G → Outcome (World G)
  with_stats none f w = Outcome.raised w
  with_stats (some k) f w = f k w

  unfoldable pub append_context : Str → Str → Str → Str → Str → World G → Outcome (World G)
  unfolding at_location init_repo write with_content append_rows commit_rows with_stats
  append_context ulid location provider label author =
      with_stats (files.get_path_stats location) λ k w. do
        w1 ←
            commit_rows (append_rows k (find_context k w.db.locations) ulid location provider w.db)
              w
        at_location (place location)
            (λ repo rel w2. do
              w3 ← init_repo repo w2
              with_content (files.read_bytes location)
                  (λ content w4.
                    write repo rel content (str "created " ++ rel ++ str " via " ++ label) author
                      w4)
                  w3)
            w1

  -- `ContextEntry.from_path` reads the file, and `ulid` is the identifier that it makes.
  unfoldable pub created_handle : Str → Str → Option Str → World G → Outcome (World G)
  unfolding append_context with_content resolve_actor
  created_handle ulid src actor = with_content (files.read_bytes src) λ content w.
      let (label, author) = resolve_actor actor in
      append_context ulid src (str "local") label author w

  unfoldable pub should_commit : PurePath → Str → Bytes → World G → Bool
  should_commit repo rel upcoming w =
      if G.path_exists_at_head repo rel w.git
      then files.differs (G.show_head repo rel w.git) upcoming
      else true

  -- `current_rev is not None and not _should_commit(...)`
  unfoldable pub is_unchanged : PurePath → Str → Bytes → World G → Bool
  unfolding should_commit
  is_unchanged repo rel upcoming w = elim (G.head_rev repo rel w.git) [
    | none ↦ false
    | some rev ↦ not (should_commit repo rel upcoming w)
  ]

  unfoldable pub modified_row :
      Option Str → Str → Str → Option Str → Bytes → World G → Outcome (World G)
  unfolding created_handle at_location init_repo write is_unchanged resolve_actor
  modified_row none ulid src actor new_content w = created_handle ulid src actor w
  modified_row (some c) ulid src actor new_content w =
      let (label, author) = resolve_actor actor in
      at_location (place src)
        (λ repo rel w1. do
          w2 ← init_repo repo w1
          if is_unchanged repo rel new_content w2
              then Outcome.returned w2
              else write repo rel new_content (str "modified " ++ rel ++ str " via " ++ label)
                  author w2)
        w

  -- `new_content` is what the temporary file holds.
  unfoldable pub modified_handle : Str → Str → Option Str → Bytes → World G → Outcome (World G)
  unfolding modified_row with_stats
  modified_handle ulid src actor new_content =
      with_stats (files.get_path_stats src)
        λ k w. modified_row (find_context k w.db.locations) ulid src actor new_content w

  unfoldable pub deleted_handle : Str → Option Str → World G → Outcome (World G)
  unfolding deactivate_tree at_location init_repo remove resolve_actor
  deleted_handle src actor w =
      let (label, author) = resolve_actor actor in
      at_location (place src)
        (λ repo rel w1. do
          w2 ← init_repo repo w1
          remove repo rel (str "deleted " ++ rel ++ str " via " ++ label) author w2)
        (record w { db = record w.db { locations = deactivate_tree src w.db.locations } })

  -- The second `try` of `moved_handle`.
  unfoldable pub move_row : Option Key → Str → Bool → Db → Option Db
  unfolding move_node
  move_row none dst active db = some db
  move_row (some k) dst active db =
      elim (move_node (find_context k db.locations) dst k active db.locations) [
        | none ↦ none
        | some rows ↦ some (record db { locations = rows })
      ]

  -- From one repository into another one: written there, then removed here.
  unfoldable pub move_across :
      PurePath → Str → PurePath → Str → Str → Str → Str → World G → Outcome (World G)
  unfolding init_repo write remove with_content
  move_across src_repo src_rel dst_repo dst_rel dst label author w = do
    w1 ← init_repo dst_repo w
    w2 ←
        with_content (files.read_bytes dst)
          (λ content w'.
            write dst_repo dst_rel content (str "moved in from " ++ src_rel ++ str " via " ++ label)
              author w')
          w1
    remove src_repo src_rel (str "moved out to " ++ dst_rel ++ str " via " ++ label) author w2

  unfoldable pub move_within : PurePath → Str → Str → Str → Str → World G → Outcome (World G)
  unfolding with_git
  move_within repo src_rel dst_rel label author w = with_git w (
      G.move repo src_rel dst_rel
        (str "moved " ++ src_rel ++ str " to " ++ dst_rel ++ str " via " ++ label) author w.git)

  -- What the move does in the mirror, by the place of the destination.
  unfoldable pub move_mirror :
      Option (PurePath × Str) → PurePath → Str → Str → Str → Str → World G → Outcome (World G)
  unfolding remove move_across move_within
  move_mirror none src_repo src_rel dst label author w =
      remove src_repo src_rel
        (str "moved out of scope: " ++ src_rel ++ str " to " ++ dst ++ str " via " ++ label) author
        w
  move_mirror (some (dst_repo, dst_rel)) src_repo src_rel dst label author w =
      if src_repo.rooted == dst_repo.rooted && src_repo.parts == dst_repo.parts
      then move_within src_repo src_rel dst_rel label author w
      else move_across src_repo src_rel dst_repo dst_rel dst label author w

  -- `config` is what `is_path_in_scope` reads.
  unfoldable pub moved_handle : Config → Str → Str → Option Str → World G → Outcome (World G)
  unfolding is_path_in_scope move_tree move_row commit_rows at_location init_repo move_mirror
      resolve_actor
  moved_handle config src dst actor w =
      let (label, author) = resolve_actor actor in
      let active = is_path_in_scope host config dst in
      let w' : World G = record w {
        db = record w.db { locations = move_tree src dst active w.db.locations };
      } in
      do
        w1 ← commit_rows (move_row (files.get_path_stats dst) dst active w'.db) w'
        at_location (place src)
            (λ src_repo src_rel w2. do
              w3 ← init_repo src_repo w2
              move_mirror (place dst) src_repo src_rel dst label author w3)
            w1

  -- The loop of `reconcile_dropped_sources`; `targets` are the old watch targets.
  unfoldable pub drop_location : Option (PurePath × Str) → World G → Outcome (World G)
  unfolding init_repo remove
  drop_location none w = Outcome.returned w
  drop_location (some (repo, rel)) w = do
    w1 ← init_repo repo w
    remove repo rel (str "left scope (dropped while offline): " ++ rel)
        (str "startup:reconcile <startup@chrono-ctx.local>") w1

  unfoldable pub reconcile_dropped_sources : List Str → World G → Outcome (World G)
  unfolding drop_location
  reconcile_dropped_sources [] w = Outcome.returned w
  reconcile_dropped_sources (location ∷ locations) w = do
    w1 ← drop_location (place location) w
    reconcile_dropped_sources locations w1
