-- ===== src/Startup/Scan.antt =====
-- Every file that the first scan reads has an active row when the start is over.
use context_os.Base.{
  suc, Bool, true, false, Option, none, some, List, [], ◌∷◌, ◌++◌, ◌==◌, nat_eq, list_eq, option_eq,
  if◌then◌else◌, ◌≡◌, sym, ◌∙◌, ap, Option-cases, inl, inr,
}
use context_os.Base.Lists.{All}
use context_os.Base.Text.{Str, str}
use context_os.Paths.Pure.{PurePath}
use context_os.Paths.Normalize.{Host, path_normalize}
use context_os.Configure.Sources.{Source, Yaml, parse_config}
use context_os.Configure.Targets.{derive_watch_targets}
use context_os.Versioning.{Outcome, ◌>>=◌, Bytes, GitStore}
use context_os.Versioning.Tables.{Key}
use context_os.Versioning.Handlers.{World}
use context_os.Startup.{
  collect_files, Boot, Setup, set_world, add_file, local_file_processing, add_files,
  local_directory_processing, process, local_processing, process_source, process_sources, resolved,
}
use context_os.Versioning.Registered.{is_active}
use context_os.Versioning.Appended.{
  returned, returned_eq, raised-ne_returned, bind-returned, append_context-Activates,
}

module _ (host : Host) (dir : PurePath) (Y : Yaml) (G : GitStore) (setup : Setup Y G) where
  abbrev Keeps : Boot Y G → Boot Y G → Type 0
  Keeps b b' =
      (b'.files ≡ b.files)
      × ((k : Key)
          → is_active k b.world.db.locations ≡ true
          → is_active k b'.world.db.locations ≡ true)

  -- The file of the path has an active row.
  pub record IsRegistered (b : Boot Y G) (path : Str) : Type 0 where
    pub key : Key
    pub stats : setup.disk.get_path_stats (path_normalize host path) ≡ some key
    pub active : is_active key b.world.db.locations ≡ true

  -- Where `f` returns, the paths are registered, and no row is inactive that was active.
  abbrev pub Registers : (Boot Y G → Outcome (Boot Y G)) → List Str → Type 0
  Registers f paths =
      (b b' : Boot Y G) → f b ≡ returned b' → Keeps b b' × All (IsRegistered b') paths

  keep-All :
      (b b' : Boot Y G) (paths : List Str)
      → Keeps b b'
      → All (IsRegistered b) paths
      → All (IsRegistered b') paths
  keep-All b b' [] keep h = tt
  keep-All b b' (path ∷ paths) keep h = (
    record { key = h.0.key; stats = h.0.stats; active = keep.1 h.0.key h.0.active },
    keep-All b b' paths keep h.1,
  )

  All-append :
      (b : Boot Y G) (xs ys : List Str)
      → All (IsRegistered b) xs
      → All (IsRegistered b) ys
      → All (IsRegistered b) (xs ++ ys)
  All-append b [] ys h k = k
  All-append b (x ∷ xs) ys h k = (h.0, All-append b xs ys h.1 k)

  Registers-bind :
      (f g : Boot Y G → Outcome (Boot Y G)) (ps qs : List Str)
      → Registers f ps
      → Registers g qs
      → Registers (λ b. f b >>= g) (ps ++ qs)
  Registers-bind f g ps qs hf hg b b' h =
      let (b1, a, c) = bind-returned (f b) g b' h in
      let (keep, done) = hf b b1 a in
      let (keep', done') = hg b1 b' c in
      (
        (keep'.0 ∙ keep.0, λ k e. keep'.1 k (keep.1 k e)),
        All-append b' ps qs (keep-All b1 b' ps keep' done) done',
      )

  Registers-returned : Registers (λ b. returned b) []
  Registers-returned b b' h =
      let same = sym (returned_eq h) in
      (
        (
          ap (λ (c : Boot Y G). c.files) same,
          λ k e. ap (λ (c : Boot Y G). is_active k c.world.db.locations) same ∙ e,
        ),
        tt,
      )

  Registers-if :
      (test : Bool) (f : Boot Y G → Outcome (Boot Y G)) (ps : List Str)
      → Registers f ps
      → Registers (λ b. if test then f b else returned b) (if test then ps else [])
  Registers-if true f ps h = h
  Registers-if false f ps h = Registers-returned

  pub set_world-returned :
      (b b' : Boot Y G) (o : Outcome (World G))
      → set_world b o ≡ returned b'
      → (o ≡ returned b'.world) × (b'.files ≡ b.files)
  unfolding set_world
  set_world-returned b b' (Outcome.returned w) h =
      (ap (λ c. returned c.world) (returned_eq h), ap (λ c. c.files) (sym (returned_eq h)))
  set_world-returned b b' (Outcome.raised w) h = absurd (raised-ne_returned h)

  add_file-Registers :
      (targets : List Str) (path : Str) (found : Option Bytes)
      → Registers (add_file host dir Y G setup targets path found) (path ∷ [])
  unfolding add_file
  add_file-Registers targets path none b b' h = absurd (raised-ne_returned h)
  add_file-Registers targets path (some content) b b' h =
      let (ended, same) = set_world-returned (record b { made = suc b.made }) b' _ h in
      let (k, stats, done) =
        append_context-Activates host dir G setup.disk targets (setup.gen_ulid b.made)
          (path_normalize host path) (str "local") (str "startup:scan")
          (str "startup:scan <startup@chrono-ctx.local>") b.world b'.world ended in
      ((same, done.1), (record { key = k; stats = stats; active = done.0 }, tt))

  add_files-Registers :
      (targets paths : List Str) → Registers (add_files host dir Y G setup targets paths) paths
  unfolding add_files local_file_processing
  add_files-Registers targets [] = Registers-returned
  add_files-Registers targets (path ∷ paths) =
      Registers-bind _ (add_files host dir Y G setup targets paths) (path ∷ []) paths
        (add_file-Registers targets path (setup.disk.read_bytes path))
        (add_files-Registers targets paths)

  -- The files that the scan of one path, and of the sources, reads.
  unfoldable pub scanned : Str → List Str
  unfolding collect_files
  scanned path =
      (if setup.is_file (resolved host dir Y G setup path) then path ∷ [] else [])
      ++ (if setup.is_dir (resolved host dir Y G setup path)
          then collect_files host dir Y G setup path
          else [])

  abbrev pub scanned_if : Option Str → Str → List Str
  scanned_if none path = []
  scanned_if (some kind) path = if kind == str "local" then scanned path else []

  unfoldable pub scanned_files : List Source → List Str
  unfolding scanned
  scanned_files [] = []
  scanned_files (s ∷ sources) = scanned_if s.kind s.path ++ scanned_files sources

  process-Registers :
      (targets : List Str) (path : Str)
      → Registers (process host dir Y G setup targets path) (scanned path)
  unfolding process local_file_processing local_directory_processing scanned
  process-Registers targets path =
      Registers-bind _ _ _ _
        (Registers-if (setup.is_file (resolved host dir Y G setup path)) _ (path ∷ [])
          (add_file-Registers targets path (setup.disk.read_bytes path)))
        (Registers-if (setup.is_dir (resolved host dir Y G setup path)) _
          (collect_files host dir Y G setup path)
          (add_files-Registers targets (collect_files host dir Y G setup path)))

  local_processing-Registers :
      (path : Str) → Registers (local_processing host dir Y G setup path) (scanned path)
  unfolding local_processing
  local_processing-Registers path b b' h = elim (Option-cases (parse_config host Y false b.files)) [
    | inl e ↦ absurd (raised-ne_returned (rw (e, local_processing) at h))
    | inr (config, e) ↦
        process-Registers (derive_watch_targets host setup.is_dir setup.iterate config) path b b'
          (rw (e, local_processing) at h)
  ]

  process_source-Registers :
      (kind : Option Str) (path : Str)
      → Registers (process_source host dir Y G setup kind path) (scanned_if kind path)
  unfolding process_source
  process_source-Registers none path = λ b b' h. absurd (raised-ne_returned h)
  process_source-Registers (some kind) path =
      Registers-if (kind == str "local") _ (scanned path) (local_processing-Registers path)

  pub process_sources-Registers :
      (sources : List Source)
      → Registers (process_sources host dir Y G setup sources) (scanned_files sources)
  unfolding process_sources scanned_files
  process_sources-Registers [] = Registers-returned
  process_sources-Registers (s ∷ sources) =
      Registers-bind _ _ _ _ (process_source-Registers s.kind s.path)
        (process_sources-Registers sources)
