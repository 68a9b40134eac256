-- ===== src/Versioning/Created.antt =====
-- A created file from the event to the commit: `created_handle` over the store of git_store.py.
use context_os.Base.{
  true, Option, none, some, List, ◌++◌, ◌≡◌, refl, ◌∙◌, ap, nat_eq, list_eq, Option-cases, inl, inr,
  beq_refl,
}
use context_os.Base.Text.{Str, str}
use context_os.Paths.Pure.{PurePath}
use context_os.Paths.Normalize.{Host}
use context_os.Paths.Mirror.{resolve_mirror_location}
use context_os.Store.Commands.{done, Git, Session}
use context_os.Store.Operations
use context_os.Store.Contents.{Entries, Objects, IsContent}
use context_os.Store.Committed.{write-commits}
use context_os.Versioning.{Outcome, ◌>>=◌, Bytes, GitStore, resolve_actor}
use context_os.Versioning.Tables.{Key, find_context}
use context_os.Versioning.Handlers.{
  Files, World, at_location, with_git, with_content, with_stats, commit_rows, append_rows,
  init_repo, write, append_context, created_handle,
}
use context_os.Versioning.Registered.{is_active}
use context_os.Versioning.Appended.{
  returned, returned_eq, raised-ne_returned, bind-returned, append_context-Activates,
}

-- The store keeps a session for each repository, and its `write` is that of git_store.py.
pub record IsMirror (S : GitStore) (G : Git) : Type 0 where
  pub session : S.State → PurePath → Session G
  pub write :
      (repo : PurePath) (rel : Str) (content : Bytes) (message author : Str) (g g' : S.State)
      → S.write repo rel content message author g ≡ returned g'
      → (rev : Str) × (Operations.write G rel content message author (session g repo)
          ≡ (done rev, session g' repo))

with_git-returned :
    {S : GitStore} (w w' : World S) (o : Outcome S.State)
    → with_git w o ≡ returned w'
    → o ≡ returned w'.git
unfolding with_git
with_git-returned w w' (Outcome.returned g) h = ap (λ v. returned v.git) (returned_eq h)
with_git-returned w w' (Outcome.raised g) h = absurd (raised-ne_returned h)

with_content-returned :
    {S : GitStore} (found : Option Bytes) (f : Bytes → World S → Outcome (World S)) (w w' : World S)
    → with_content found f w ≡ returned w'
    → (content : Bytes) × (found ≡ some content) × (f content w ≡ returned w')
unfolding with_content
with_content-returned none f w w' h = absurd (raised-ne_returned h)
with_content-returned (some content) f w w' h = (content, refl, h)

at_location-returned :
    {S : GitStore} (found : Option (PurePath × Str))
    (f : PurePath → Str → World S → Outcome (World S)) (w w' : World S)
    → at_location found f w ≡ returned w'
    → (repo : PurePath) × (rel : Str) × (found ≡ some (repo, rel)) × (f repo rel w ≡ returned w')
unfolding at_location
at_location-returned none f w w' h = absurd (raised-ne_returned h)
at_location-returned (some (repo, rel)) f w w' h = (repo, rel, refl, h)

module _ (host : Host) (dir : PurePath) (S : GitStore) (files : Files) (targets : List Str)
    (G : Git) (O : Objects G) (law : IsContent O) (mirror : IsMirror S G) where
  -- HEAD of the mirror of the path holds the content of the file, as the last thing read.
  pub record IsCommitted (path : Str) (g : S.State) : Type 0 where
    pub repo : PurePath
    pub rel : Str
    pub content : Bytes
    pub rev : Str
    pub tree_sha : Str
    pub sha : Str
    pub entries : Entries
    pub place : resolve_mirror_location host dir path targets ≡ some (repo, rel)
    pub read : files.read_bytes path ≡ some content
    pub head : O.head (mirror.session g repo).repo ≡ some rev
    pub root : O.root (mirror.session g repo).repo rev ≡ some tree_sha
    pub tree : O.tree (mirror.session g repo).repo tree_sha ≡ some entries
    pub entry : entries rel ≡ some sha
    pub blob : O.blob (mirror.session g repo).repo sha ≡ some content

  written-IsCommitted :
      (path : Str) (repo : PurePath) (rel : Str) (content : Bytes) (message author : Str)
      (g g' : S.State)
      → resolve_mirror_location host dir path targets ≡ some (repo, rel)
      → files.read_bytes path ≡ some content
      → S.write repo rel content message author g ≡ returned g'
      → IsCommitted path g'
  written-IsCommitted path repo rel content message author g g' e k h =
      let (rev, made) = mirror.write repo rel content message author g g' h in
      let (sha, t, blob, head, root, tree, staged) =
        write-commits G O law rel content message author rev (mirror.session g repo)
          (mirror.session g' repo) made in
      record {
        repo = repo;
        rel = rel;
        content = content;
        rev = rev;
        tree_sha = t;
        sha = sha;
        entries = O.index (mirror.session g' repo).repo;
        place = e;
        read = k;
        head = head;
        root = root;
        tree = tree;
        entry = staged rel ∙ rw (beq_refl rel);
        blob = blob;
      }

  -- The step of `_append_context` in the mirror.
  abbrev step : Str → Str → Str → PurePath → Str → World S → Outcome (World S)
  step path label author repo rel w2 = do
    w3 ← init_repo host dir S files targets repo w2
    with_content (files.read_bytes path)
        (λ content w4.
          write host dir S files targets repo rel content
            (str "created " ++ rel ++ str " via " ++ label) author w4)
        w3

  step-IsCommitted :
      (path label author : Str) (w w' : World S)
      → at_location (resolve_mirror_location host dir path targets) (step path label author) w
        ≡ returned w'
      → IsCommitted path w'.git
  unfolding write
  step-IsCommitted path label author w w' h =
      let (repo, rel, e, h1) =
        at_location-returned (resolve_mirror_location host dir path targets)
          (step path label author) w w' h in
      let put = λ (content : Bytes) (w4 : World S).
        write host dir S files targets repo rel content
          (str "created " ++ rel ++ str " via " ++ label) author w4 in
      let (w3, made, h2) =
        bind-returned (init_repo host dir S files targets repo w)
          (with_content (files.read_bytes path) put) w' h1 in
      let (content, k, h3) = with_content-returned (files.read_bytes path) put w3 w' h2 in
      written-IsCommitted path repo rel content (str "created " ++ rel ++ str " via " ++ label)
        author w3.git w'.git e k (with_git-returned w3 w' _ h3)

  append_context-IsCommitted :
      (ulid path provider label author : Str) (w w' : World S)
      → append_context host dir S files targets ulid path provider label author w ≡ returned w'
      → IsCommitted path w'.git
  unfolding append_context with_stats
  append_context-IsCommitted ulid path provider label author w w' h =
      elim (Option-cases (files.get_path_stats path)) [
        | inl e ↦ absurd (raised-ne_returned (rw (e, append_context, with_stats) at h))
        | inr (k, e) ↦
            let (w1, a, b) =
              bind-returned
                (commit_rows host dir S files targets
                  (append_rows host dir S files targets k (find_context k w.db.locations) ulid path
                    provider w.db)
                  w)
                (at_location (resolve_mirror_location host dir path targets)
                  (step path label author))
                w' (rw (e, append_context, with_stats) at h) in
            step-IsCommitted path label author w1 w' b
      ]

  -- Where `created_handle` returns, over a store whose `write` is that of git_store.py, HEAD of
  -- the mirror of the path is a commit whose tree has the content of the file at its place, and
  -- the file has an active row.
  pub created_handle_lem :
      (ulid path : Str) (actor : Option Str) (w w' : World S)
      → created_handle host dir S files targets ulid path actor w ≡ returned w'
      → IsCommitted path w'.git
        × (k : Key) × (files.get_path_stats path ≡ some k)
        × (is_active k w'.db.locations ≡ true)
  unfolding created_handle
  created_handle_lem ulid path actor w w' h =
      let (label, author) = resolve_actor actor in
      let append = λ (content : Bytes) (v : World S).
        append_context host dir S files targets ulid path (str "local") label author v in
      let (content, e, h1) = with_content-returned (files.read_bytes path) append w w' h in
      let (k, stats, on) =
        append_context-Activates host dir S files targets ulid path (str "local") label author w w'
          h1 in
      (append_context-IsCommitted ulid path (str "local") label author w w' h1, k, stats, on.0)
