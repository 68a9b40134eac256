-- ===== src/Startup/Initial.antt =====
-- What a start that returns has done: the files are registered, and the baseline is config.yaml.
use context_os.Base.{
  true, false, Option, none, some, List, ◌≡◌, sym, ◌∙◌, ap, Option-cases, inl, inr,
}
use context_os.Base.Lists.{All}
use context_os.Paths.Pure.{PurePath}
use context_os.Paths.Normalize.{Host, IsHost}
use context_os.Configure.Sources.{Source, Yaml, IsYaml, Config, ConfigFiles, read, parse_config}
use context_os.Configure.Snapshot.{store_config_snapshot, config_or}
use context_os.Configure.Baseline.{read-dump}
use context_os.Versioning.{Outcome, ◌>>=◌, GitStore}
use context_os.Versioning.Tables.{Db, active_locations}
use context_os.Startup.{
  Boot, Setup, set_db, set_git, set_files, get_sources, init_config_file, init, start,
  process_sources, old_watch_targets, sync_sources, drop_sources, update_sources,
}
use context_os.Versioning.Appended.{returned, returned_eq, raised-ne_returned, bind-returned}
use context_os.Startup.Scan.{
  set_world-returned, IsRegistered, scanned_files, process_sources-Registers,
}

some_eq : {A : Type 0} {a b : A} → some a ≡ some b → a ≡ b
some_eq h = cc

none-ne_some : {A : Type 0} {a : A} → ¬ (none ≡ some a)
none-ne_some h = cc

module _ {Y : Yaml} {G : GitStore} where
  set_db-returned :
      (b b' : Boot Y G) (o : Outcome Db) → set_db b o ≡ returned b' → b'.files ≡ b.files
  unfolding set_db
  set_db-returned b b' (Outcome.returned db) h = ap (λ c. c.files) (sym (returned_eq h))
  set_db-returned b b' (Outcome.raised db) h = absurd (raised-ne_returned h)

  set_git-returned :
      (b b' : Boot Y G) (o : Outcome G.State) → set_git b o ≡ returned b' → b'.files ≡ b.files
  unfolding set_git
  set_git-returned b b' (Outcome.returned g) h = ap (λ c. c.files) (sym (returned_eq h))
  set_git-returned b b' (Outcome.raised g) h = absurd (raised-ne_returned h)

  set_files-returned :
      (b b' : Boot Y G) (found : Option (ConfigFiles Y))
      → set_files b found ≡ returned b'
      → found ≡ some b'.files
  unfolding set_files
  set_files-returned b b' none h = absurd (raised-ne_returned h)
  set_files-returned b b' (some files) h = ap (λ c. some c.files) (returned_eq h)

module _ (host : Host) (Y : Yaml) (is_host : IsHost host) (is_yaml : IsYaml Y) where
  -- The snapshot reads as config.yaml, which is as it was.
  abbrev pub IsBaseline : ConfigFiles Y → ConfigFiles Y → Type 0
  IsBaseline files files' =
      (parse_config host Y true files' ≡ parse_config host Y false files')
      × (files'.config ≡ files.config)

  read_back :
      (files : ConfigFiles Y) (config : Config)
      → parse_config host Y false files ≡ some config
      → parse_config host Y true (record files { snapshot = some (Y.safe_dump config) })
        ≡ parse_config host Y false files
  unfolding parse_config read
  read_back files config e =
      ap some (read-dump host is_host Y is_yaml files.config config e) ∙ sym e

  store-IsBaseline :
      (files files' : ConfigFiles Y)
      → store_config_snapshot host Y none files ≡ some files'
      → IsBaseline files files'
  unfolding store_config_snapshot config_or
  store-IsBaseline files files' h = elim (Option-cases (parse_config host Y false files)) [
    | inl e ↦ absurd (none-ne_some (rw (e, store_config_snapshot, config_or) at h))
    | inr (config, e) ↦
        let stored = sym (some_eq (rw (e, store_config_snapshot, config_or) at h)) in
        (
          ap (parse_config host Y true) stored
              ∙ read_back files config e
              ∙ ap (parse_config host Y false) (sym stored),
          ap (λ f. f.config) stored,
        )
  ]

  module _ (dir : PurePath) (G : GitStore) (setup : Setup Y G) where
    -- What `init` has done where it returns.
    abbrev pub IsStarted : List Source → ConfigFiles Y → Boot Y G → Type 0
    IsStarted sources files b' =
        All (IsRegistered host dir Y G setup b') (scanned_files host dir Y G setup sources)
        × IsBaseline files b'.files

    update_sources-IsStarted :
        (sources : List Source) (b b' : Boot Y G)
        → update_sources host dir Y G setup sources b ≡ returned b'
        → IsStarted sources b.files b'
    unfolding update_sources sync_sources drop_sources
    update_sources-IsStarted sources b b' h =
        let old = old_watch_targets host dir Y G setup b.files in
        let before = active_locations b.world.db.locations in
        let scan = process_sources host dir Y G setup sources in
        let drop = λ (c : Boot Y G). drop_sources host dir Y G setup old before c >>= scan in
        let sync = λ (c : Boot Y G). sync_sources host dir Y G setup sources c >>= drop in
        let (b1, h1, k1) =
          bind-returned (set_files b (store_config_snapshot host Y none b.files)) sync b' h in
        let (b2, h2, k2) = bind-returned (sync_sources host dir Y G setup sources b1) drop b' k1 in
        let (b3, h3, k3) =
          bind-returned (drop_sources host dir Y G setup old before b2) scan b' k2 in
        let (kept, all) = process_sources-Registers host dir Y G setup sources b3 b' k3 in
        let same =
          kept.0
          ∙ (set_world-returned host dir Y G setup b2 b3 _ h3).1
          ∙ set_db-returned b1 b2 _ h2 in
        let (read, config) =
          store-IsBaseline b.files b1.files
            (set_files-returned b b1 (store_config_snapshot host Y none b.files) h1) in
        (
          all,
          (
            ap (parse_config host Y true) same ∙ read ∙ ap (parse_config host Y false) (sym same),
            ap (λ f. f.config) same ∙ config,
          ),
        )

    init-IsStarted :
        (sources : List Source) (b b' : Boot Y G)
        → init host dir Y G setup sources b ≡ returned b'
        → IsStarted sources b.files b'
    unfolding init
    init-IsStarted sources b b' h =
        let update = update_sources host dir Y G setup sources in
        let reset =
          λ (c : Boot Y G). set_git c (setup.reset_stale_indexes c.world.git) >>= update in
        let (b1, h1, k1) = bind-returned (set_db b (setup.init_db b.world.db)) reset b' h in
        let (b2, h2, k2) =
          bind-returned (set_git b1 (setup.reset_stale_indexes b1.world.git)) update b' k1 in
        rw (sym (set_git-returned b1 b2 _ h2 ∙ set_db-returned b b1 _ h1))
          (update_sources-IsStarted sources b2 b' k2)

    -- Where the constructor and `init` return, each file that the scan of a source of
    -- config.yaml read has an active row, the snapshot reads as config.yaml, and config.yaml is
    -- as it was, or as the constructor made it.
    pub start_lem :
        (b b' : Boot Y G)
        → start host dir Y G setup b ≡ returned b'
        → (sources : List Source) × (get_sources host dir Y G setup
              (init_config_file host dir Y G setup b.files)
            ≡ some sources)
          × IsStarted sources (init_config_file host dir Y G setup b.files) b'
    unfolding start
    start_lem b b' h =
        let files = init_config_file host dir Y G setup b.files in
        elim (Option-cases (get_sources host dir Y G setup files)) [
          | inl e ↦ absurd (raised-ne_returned (rw (e, start) at h))
          | inr (sources, e) ↦ (
            sources,
            e,
            init-IsStarted sources (record b { files = files }) b' (rw (e, start) at h),
          )
        ]
