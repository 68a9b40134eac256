-- ===== src/Consumers/Retry.antt =====
-- What a config change that raises leaves behind.
use context_os.Base.{
  Bool, false, Option, none, some, List, ◌≡◌, refl, ap, sym, ◌∙◌, nat_eq, list_eq,
}
use context_os.Base.Text.{Str}
use context_os.Event.{EventClass, Event}
use context_os.Paths.Pure.{PurePath}
use context_os.Paths.Normalize.{Host}
use context_os.Configure.Sources.{Config, Yaml, ConfigFiles, parse_config}
use context_os.Configure.Snapshot.{
  ConfigDiff, get_config_diff, store_config_snapshot, config_or, recover_config,
}
use context_os.Configure.Targets.{derive_watch_targets}
use context_os.Watcher.Jobs.{Observer, WatchWorker}
use context_os.Versioning.{Outcome, GitStore}
use context_os.Versioning.Handlers.{Files, World}
use context_os.Consumers.Config.{
  ConfigConsumer, apply_diff, settle, change_with, change, recover, handle,
}

returned-ne_raised : {W : Type 0} {a b : W} → ¬ (Outcome.returned a ≡ Outcome.raised b)
returned-ne_raised h = cc

raised_eq : {W : Type 0} {a b : W} → Outcome.raised a ≡ Outcome.raised b → a ≡ b
raised_eq h = cc

module _ (host : Host) (dir : PurePath) (Y : Yaml) (G : GitStore) (O : Observer) {C : Type 0}
    (disk : Files) (collect_files : Str → List Str) (is_dir : PurePath → Bool)
    (iterate : List Str → List Str) (ulid : Str → Str) (publish : C) where
  abbrev Consumer : Type 0
  Consumer = ConfigConsumer Y G O C

  -- The baseline and the watches are what they were.
  abbrev pub IsRetried : Consumer → Consumer → Type 0
  IsRetried c c' = (c'.files ≡ c.files) × (c'.watcher ≡ c.watcher)

  kept :
      (c c' d : Consumer)
      → d.files ≡ c.files
      → d.watcher ≡ c.watcher
      → Outcome.raised d ≡ Outcome.raised c'
      → IsRetried c c'
  kept c c' d f w h =
      let e = raised_eq h in (ap (λ x. x.files) (sym e) ∙ f, ap (λ x. x.watcher) (sym e) ∙ w)

  settle_raised :
      (config : Config) (targets : List Str) (watcher : WatchWorker O C) (c c' : Consumer)
      (applied : Outcome (World G))
      → settle host dir Y G O disk collect_files is_dir iterate ulid publish config targets watcher
          c applied
        ≡ Outcome.raised c'
      → IsRetried c c'
  unfolding settle store_config_snapshot config_or
  settle_raised config targets watcher c c' (Outcome.raised w) h =
      kept c c' (record c { world = w }) refl refl h
  settle_raised config targets watcher c c' (Outcome.returned w) h = cc

  diffed_raised :
      (config : Config) (watcher : WatchWorker O C) (c c' : Consumer) (found : Option ConfigDiff)
      → (elim found [
        | none ↦ Outcome.raised c
        | some diff ↦
            settle host dir Y G O disk collect_files is_dir iterate ulid publish config
              (derive_watch_targets host is_dir iterate config)
              watcher
              c
              (apply_diff host dir Y G O disk collect_files is_dir iterate ulid publish
                (derive_watch_targets host is_dir iterate config)
                diff
                c.world)
      ])
        ≡ Outcome.raised c'
      → IsRetried c c'
  diffed_raised config watcher c c' none h = kept c c' c refl refl h
  diffed_raised config watcher c c' (some diff) h =
      settle_raised config (derive_watch_targets host is_dir iterate config) watcher c c'
        (apply_diff host dir Y G O disk collect_files is_dir iterate ulid publish
          (derive_watch_targets host is_dir iterate config) diff c.world)
        h

  change_with_raised :
      (config : Option Config) (watcher : WatchWorker O C) (c c' : Consumer)
      → change_with host dir Y G O disk collect_files is_dir iterate ulid publish config watcher c
        ≡ Outcome.raised c'
      → IsRetried c c'
  unfolding change_with
  change_with_raised none watcher c c' h = kept c c' c refl refl h
  change_with_raised (some config) watcher c c' h =
      diffed_raised config watcher c c' (get_config_diff host Y (some config) c.files) h

  change_raised :
      (watcher : Option (WatchWorker O C)) (c c' : Consumer)
      → change host dir Y G O disk collect_files is_dir iterate ulid publish watcher c
        ≡ Outcome.raised c'
      → IsRetried c c'
  unfolding change
  change_raised none c c' h = cc
  change_raised (some watcher) c c' h =
      change_with_raised (parse_config host Y false c.files) watcher c c' h

  recovered_raised :
      (c c' : Consumer) (found : Option (ConfigFiles Y))
      → (elim found [
        | none ↦ Outcome.raised c
        | some files ↦ Outcome.returned (record c { files = files })
      ])
        ≡ Outcome.raised c'
      → IsRetried c c'
  recovered_raised c c' none h = kept c c' c refl refl h
  recovered_raised c c' (some files) h = cc

  recover_raised :
      (c c' : Consumer)
      → recover host dir Y G O disk collect_files is_dir iterate ulid publish c ≡ Outcome.raised c'
      → IsRetried c c'
  unfolding recover
  recover_raised c c' h = recovered_raised c c' (recover_config host Y c.files) h

  handle_by_class :
      (cls : EventClass) (src provider : Str) (is_directory : Bool) (actor dst : Option Str)
      (c c' : Consumer)
      → handle host dir Y G O disk collect_files is_dir iterate ulid publish
          (record {
            cls = cls;
            src = src;
            provider = provider;
            is_dir = is_directory;
            actor = actor;
            dst = dst;
          })
          c
        ≡ Outcome.raised c'
      → IsRetried c c'
  unfolding handle
  handle_by_class EventClass.config_deleted src provider is_directory actor dst c c' h =
      recover_raised c c' h
  handle_by_class EventClass.config_moved src provider is_directory actor dst c c' h =
      recover_raised c c' h
  handle_by_class EventClass.config_modified src provider is_directory actor dst c c' h =
      change_raised c.watcher c c' h
  handle_by_class EventClass.config_created src provider is_directory actor dst c c' h =
      change_raised c.watcher c c' h
  handle_by_class _ src provider is_directory actor dst c c' h = cc

  -- A config event whose handling raises, at whatever point, leaves config.yaml, the snapshot and
  -- the watches as they were. So the next event meets the whole change again.
  pub handle_raised :
      (event : Event) (c c' : Consumer)
      → handle host dir Y G O disk collect_files is_dir iterate ulid publish event c
        ≡ Outcome.raised c'
      → (c'.files ≡ c.files) × (c'.watcher ≡ c.watcher)
  handle_raised event c c' h =
      handle_by_class event.cls event.src event.provider event.is_dir event.actor event.dst c c' h
