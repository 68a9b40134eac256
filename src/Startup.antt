-- ===== src/Startup.antt =====
-- vcs/initialize.py and vcs/adapters/local_adapter.py: what the daemon does before it watches.
pub mod Scan
pub mod Initial
use context_os.Base.{
  ℕ, suc, Bool, true, false, not, Option, none, some, List, [], ◌∷◌, ◌==◌, map, nat_eq, list_eq,
  option_eq, if◌then◌else◌,
}
use context_os.Base.Lists.{filter, contains}
use context_os.Base.Text.{Str, str}
use context_os.Paths.Pure.{PurePath, to_path}
use context_os.Paths.Normalize.{Host, path_normalize}
use context_os.Configure.Sources.{Source, Yaml, ConfigFiles, parse_config, local}
use context_os.Configure.Snapshot.{store_config_snapshot}
use context_os.Configure.Targets.{derive_watch_targets, render}
use context_os.Versioning.{Outcome, ◌>>=◌, Bytes, GitStore}
use context_os.Versioning.Tables.{Db, active_locations}
use context_os.Versioning.Handlers.{Files, World, append_context, reconcile_dropped_sources}
use context_os.Versioning.Sync.{sync_source_status}

-- The config files, the database with the mirror, and how many identifiers `gen_ulid` has made.
pub record Boot (Y : Yaml) (G : GitStore) : Type 0 where
  pub files : ConfigFiles Y
  pub world : World G
  pub made : ℕ

-- What the start reads of the file system and of the modules that it calls: `gen_ulid`,
-- `Path.is_file`, `Path.is_dir` and `Path.exists`, the files of `rglob`, the order of a set, the document of an empty
-- file, the script of `init_db`, and `git_store.reset_stale_indexes`.
pub record Setup (Y : Yaml) (G : GitStore) : Type 0 where
  pub disk : Files
  pub gen_ulid : ℕ → Str
  pub is_file : PurePath → Bool
  pub is_dir : PurePath → Bool
  pub exists : PurePath → Bool
  pub files_below : PurePath → List Str
  pub iterate : List Str → List Str
  pub empty : Y.Document
  pub init_db : Db → Outcome Db
  pub reset_stale_indexes : G.State → Outcome G.State

module _ {Y : Yaml} {G : GitStore} where
  -- Calls that change one part of the state.
  unfoldable pub set_world : Boot Y G → Outcome (World G) → Outcome (Boot Y G)
  set_world b (Outcome.returned w) = Outcome.returned (record b { world = w })
  set_world b (Outcome.raised w) = Outcome.raised (record b { world = w })

  unfoldable pub set_db : Boot Y G → Outcome Db → Outcome (Boot Y G)
  set_db b (Outcome.returned db) =
      Outcome.returned (record b { world = record b.world { db = db } })
  set_db b (Outcome.raised db) = Outcome.raised (record b { world = record b.world { db = db } })

  unfoldable pub set_git : Boot Y G → Outcome G.State → Outcome (Boot Y G)
  set_git b (Outcome.returned g) =
      Outcome.returned (record b { world = record b.world { git = g } })
  set_git b (Outcome.raised g) = Outcome.raised (record b { world = record b.world { git = g } })

  unfoldable pub set_files : Boot Y G → Option (ConfigFiles Y) → Outcome (Boot Y G)
  set_files b none = Outcome.raised b
  set_files b (some files) = Outcome.returned (record b { files = files })

module _ (host : Host) (dir : PurePath) (Y : Yaml) (G : GitStore) (setup : Setup Y G) where
  -- `collect_files` of utils/helper.py.
  unfoldable pub collect_files : Str → List Str
  unfolding path_normalize render
  collect_files path =
      let p = to_path (host.resolve (path_normalize host path)) in
      if not (setup.exists p)
      then []
      else if setup.is_file p
      then path_normalize host (render p) ∷ []
      else if setup.is_dir p
      then map (path_normalize host) (setup.files_below p)
      else []

  -- `LocalAdapter.local_file_processing`, by what the read gives.
  unfoldable pub add_file : List Str → Str → Option Bytes → Boot Y G → Outcome (Boot Y G)
  unfolding set_world append_context
  add_file targets path none b = Outcome.raised b
  add_file targets path (some content) b =
      set_world (record b { made = suc b.made })
        (append_context host dir G setup.disk targets (setup.gen_ulid b.made)
          (path_normalize host path) (str "local") (str "startup:scan")
          (str "startup:scan <startup@chrono-ctx.local>") b.world)

  unfoldable pub local_file_processing : List Str → Str → Boot Y G → Outcome (Boot Y G)
  unfolding add_file
  local_file_processing targets path b = add_file targets path (setup.disk.read_bytes path) b

  unfoldable pub add_files : List Str → List Str → Boot Y G → Outcome (Boot Y G)
  unfolding local_file_processing
  add_files targets [] b = Outcome.returned b
  add_files targets (path ∷ paths) b = do
    b1 ← local_file_processing targets path b
    add_files targets paths b1

  unfoldable pub local_directory_processing : List Str → Str → Boot Y G → Outcome (Boot Y G)
  unfolding add_files collect_files
  local_directory_processing targets path b = add_files targets (collect_files path) b

  -- `Path(path).resolve()`, which expands no tilde.
  abbrev pub resolved : Str → PurePath
  resolved path = to_path (host.resolve path)

  unfoldable pub process : List Str → Str → Boot Y G → Outcome (Boot Y G)
  unfolding local_file_processing local_directory_processing
  process targets path b = do
    b1 ←
        if setup.is_file (resolved path)
        then local_file_processing targets path b
        else Outcome.returned b
    if setup.is_dir (resolved path)
        then local_directory_processing targets path b1
        else Outcome.returned b1

  -- `LocalAdapter.local_processing`, with the targets derived from config.yaml.
  unfoldable pub local_processing : Str → Boot Y G → Outcome (Boot Y G)
  unfolding process parse_config derive_watch_targets
  local_processing path b = elim (parse_config host Y false b.files) [
    | none ↦ Outcome.raised b
    | some config ↦ process (derive_watch_targets host setup.is_dir setup.iterate config) path b
  ]

  -- The body of the last loop of `Initializer.init`: `source["type"]` raises where there is none.
  unfoldable pub process_source : Option Str → Str → Boot Y G → Outcome (Boot Y G)
  unfolding local_processing
  process_source none path b = Outcome.raised b
  process_source (some kind) path b =
      if kind == str "local" then local_processing path b else Outcome.returned b

  unfoldable pub process_sources : List Source → Boot Y G → Outcome (Boot Y G)
  unfolding process_source
  process_sources [] b = Outcome.returned b
  process_sources (s ∷ sources) b = do
    b1 ← process_source s.kind s.path b
    process_sources sources b1

  -- `init_config_file`
  unfoldable pub init_config_file : ConfigFiles Y → ConfigFiles Y
  init_config_file files = elim files.config [
    | none ↦ record files { config = some setup.empty }
    | some doc ↦ files
  ]

  -- `_get_sources`, whose paths are as the file has them; `none` where `open` raises.
  unfoldable pub get_sources : ConfigFiles Y → Option (List Source)
  get_sources files = elim files.config [
    | none ↦ none
    | some doc ↦ elim (Y.safe_load doc) [ none ↦ some [] | some c ↦ some c.sources ]
  ]

  -- The targets of the snapshot; the first start has none.
  unfoldable pub old_watch_targets : ConfigFiles Y → List Str
  unfolding parse_config derive_watch_targets
  old_watch_targets files = elim (parse_config host Y true files) [
    | none ↦ []
    | some config ↦ derive_watch_targets host setup.is_dir setup.iterate config
  ]

  unfoldable pub dropped : List Str → List Str → List Str
  dropped previously_active still_active =
      filter (λ loc. not (contains still_active loc)) previously_active

  unfoldable pub sync_sources : List Source → Boot Y G → Outcome (Boot Y G)
  unfolding set_db sync_source_status collect_files
  sync_sources sources b =
      set_db b (sync_source_status host setup.disk.get_path_stats collect_files sources b.world.db)

  unfoldable pub drop_sources : List Str → List Str → Boot Y G → Outcome (Boot Y G)
  unfolding set_world active_locations dropped reconcile_dropped_sources
  drop_sources old previously_active b = set_world b (
      reconcile_dropped_sources host dir G setup.disk old
        (dropped previously_active (active_locations b.world.db.locations)) b.world)

  -- `Initializer.init`, from the reading of the old targets on.
  unfoldable pub update_sources : List Source → Boot Y G → Outcome (Boot Y G)
  unfolding set_files old_watch_targets active_locations store_config_snapshot sync_sources
      drop_sources process_sources
  update_sources sources b =
      let old = old_watch_targets b.files in
      let previously_active = active_locations b.world.db.locations in
      do
        b1 ← set_files b (store_config_snapshot host Y none b.files)
        b2 ← sync_sources sources b1
        b3 ← drop_sources old previously_active b2
        process_sources sources b3

  -- `Initializer.init`, for the sources that the constructor read.
  unfoldable pub init : List Source → Boot Y G → Outcome (Boot Y G)
  unfolding set_db set_git update_sources
  init sources b = do
    b1 ← set_db b (setup.init_db b.world.db)
    b2 ← set_git b1 (setup.reset_stale_indexes b1.world.git)
    update_sources sources b2

  -- The constructor, then `init`.
  unfoldable pub start : Boot Y G → Outcome (Boot Y G)
  unfolding init_config_file get_sources init
  start b =
      let files = init_config_file b.files in
      elim (get_sources files) [
        | none ↦ Outcome.raised b
        | some sources ↦ init sources (record b { files = files })
      ]
