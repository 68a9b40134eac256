-- ===== src/Consumers/Config.antt =====
-- `ConfigConsumer.handle`: a change of config.yaml is applied to the tables, the mirror and the
-- watches, and then becomes the baseline.
use context_os.Base.{Bool, true, false, Option, none, some, List, [], ◌∷◌, ◌++◌, nat_eq, list_eq}
use context_os.Base.Text.{Str, str}
use context_os.Event.{EventClass, Event}
use context_os.Paths.Pure.{PurePath}
use context_os.Paths.Normalize.{Host, path_normalize}
use context_os.Configure.Sources.{Config, Yaml, ConfigFiles, parse_config}
use context_os.Configure.Snapshot.{
  ConfigDiff, get_config_diff, store_config_snapshot, recover_config,
}
use context_os.Configure.Targets.{derive_watch_targets}
use context_os.Watcher.Jobs.{Observer, WatchWorker, reconcile}
use context_os.Versioning.{Outcome, ◌>>=◌, GitStore}
use context_os.Versioning.Handlers.{Files, World, created_handle, deleted_handle}

-- What the consumer works on; a consumer may have no watcher.
pub record ConfigConsumer (Y : Yaml) (G : GitStore) (O : Observer) (C : Type 0) : Type 0 where
  pub files : ConfigFiles Y
  pub world : World G
  pub watcher : Option (WatchWorker O C)

module _ (host : Host) (dir : PurePath) (Y : Yaml) (G : GitStore) (O : Observer) {C : Type 0}
    (disk : Files) (collect_files : Str → List Str) (is_dir : PurePath → Bool)
    (iterate : List Str → List Str) (ulid : Str → Str) (publish : C) where
  abbrev Consumer : Type 0
  Consumer = ConfigConsumer Y G O C

  unfoldable pub for_each :
      (Str → World G → Outcome (World G)) → List Str → World G → Outcome (World G)
  for_each f [] w = Outcome.returned w
  for_each f (x ∷ xs) w = do w1 ← f x w; for_each f xs w1

  unfoldable pub all_files : List Str → List Str
  all_files [] = []
  all_files (path ∷ paths) = collect_files path ++ all_files paths

  -- The two loops; the handlers derive the watch targets from the new configuration.
  unfoldable pub apply_diff : List Str → ConfigDiff → World G → Outcome (World G)
  unfolding for_each all_files created_handle deleted_handle
  apply_diff targets diff w = do
    w1 ←
        for_each (λ f. created_handle host dir G disk targets (ulid f) f none)
          (all_files diff.added) w
    for_each (λ f. deleted_handle host dir G disk targets f none) (all_files diff.deleted) w1

  -- The end of the handler: the watches and the baseline, if the loops returned.
  unfoldable pub settle :
      Config → List Str → WatchWorker O C → Consumer → Outcome (World G) → Outcome Consumer
  unfolding reconcile store_config_snapshot
  settle config targets watcher c (Outcome.raised w) = Outcome.raised (record c { world = w })
  settle config targets watcher c (Outcome.returned w) =
      let watcher' =
        reconcile O (path_normalize host) iterate targets publish true (str "source") watcher in
      elim (store_config_snapshot host Y (some config) c.files) [
        | none ↦ Outcome.raised (record c { world = w; watcher = some watcher' })
        | some files ↦
            Outcome.returned (record c { files = files; world = w; watcher = some watcher' })
      ]

  unfoldable pub change_with : Option Config → WatchWorker O C → Consumer → Outcome Consumer
  unfolding get_config_diff derive_watch_targets apply_diff settle
  change_with none watcher c = Outcome.raised c
  change_with (some config) watcher c =
      let targets = derive_watch_targets host is_dir iterate config in
      elim (get_config_diff host Y (some config) c.files) [
        | none ↦ Outcome.raised c
        | some diff ↦ settle config targets watcher c (apply_diff targets diff c.world)
      ]

  unfoldable pub change : Option (WatchWorker O C) → Consumer → Outcome Consumer
  unfolding change_with parse_config
  change none c = Outcome.returned c
  change (some watcher) c = change_with (parse_config host Y false c.files) watcher c

  unfoldable pub recover : Consumer → Outcome Consumer
  unfolding recover_config
  recover c = elim (recover_config host Y c.files) [
    | none ↦ Outcome.raised c
    | some files ↦ Outcome.returned (record c { files = files })
  ]

  unfoldable pub handle : Event → Consumer → Outcome Consumer
  unfolding change recover
  handle event c = elim event.cls [
    | EventClass.config_deleted ↦ recover c
    | EventClass.config_moved ↦ recover c
    | EventClass.config_modified ↦ change c.watcher c
    | EventClass.config_created ↦ change c.watcher c
    | _ ↦ Outcome.returned c
  ]
