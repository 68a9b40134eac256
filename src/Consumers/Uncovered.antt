-- ===== src/Consumers/Uncovered.antt =====
-- The files of a source taken out of config.yaml that no watch target covers any more.
use context_os.Base.{
  Bool, true, false, none, some, List, [], ◌∷◌, ◌==◌, ◌≡◌, ◌⊎◌, refl, ap, ◌∙◌, nat_eq, list_eq,
  beq_eq, Bool-cases, inl, inr, arith,
}
use context_os.Base.Lists.{contains}
use context_os.Base.Text.{Str}
use context_os.Event.{EventClass, Event}
use context_os.Paths.Pure.{PurePath}
use context_os.Paths.Normalize.{Host}
use context_os.Paths.Mirror.{resolve_mirror_location}
use context_os.Configure.Sources.{Config, Yaml, parse_config}
use context_os.Configure.Snapshot.{ConfigDiff, get_config_diff}
use context_os.Configure.Targets.{derive_watch_targets}
use context_os.Watcher.Jobs.{Observer, WatchWorker}
use context_os.Versioning.{Outcome, ◌>>=◌, GitStore}
use context_os.Versioning.Tables.{deactivate_tree}
use context_os.Versioning.Handlers.{Files, World, at_location, deleted_handle}
use context_os.Consumers.Config.{
  ConfigConsumer, for_each, all_files, apply_diff, settle, change_with, change, handle,
}
use context_os.Consumers.Retry.{IsRetried, handle_raised}

module _ (host : Host) (dir : PurePath) (Y : Yaml) (G : GitStore) (O : Observer) {C : Type 0}
    (disk : Files) (collect_files : Str → List Str) (is_dir : PurePath → Bool)
    (iterate : List Str → List Str) (ulid : Str → Str) (publish : C) where
  abbrev Consumer : Type 0
  Consumer = ConfigConsumer Y G O C

  deleted_raises :
      (targets : List Str) (f : Str) (w : World G)
      → resolve_mirror_location host dir f targets ≡ none
      → deleted_handle host dir G disk targets f none w
        ≡ Outcome.raised
            (record w { db = record w.db { locations = deactivate_tree f w.db.locations } })
  unfolding deleted_handle at_location
  deleted_raises targets f w r = rw r refl

  -- A statement that raises, in whatever state.
  abbrev Raises : (World G → Outcome (World G)) → Type 0
  Raises f = (w : World G) → (w' : World G) × (f w ≡ Outcome.raised w')

  Raises-bind :
      (o : Outcome (World G)) (f : World G → Outcome (World G))
      → Raises f
      → (w' : World G) × (o >>= f ≡ Outcome.raised w')
  Raises-bind (Outcome.returned w) f h = h w
  Raises-bind (Outcome.raised w) f h = (w, refl)

  for_each-Raises :
      (f : Str → World G → Outcome (World G)) (x : Str) (xs : List Str)
      → contains xs x ≡ true
      → Raises (f x)
      → Raises (for_each host dir Y G O disk collect_files is_dir iterate ulid publish f xs)
  unfolding for_each contains
  for_each-Raises f x [] m h w = cc
  for_each-Raises f x (y ∷ ys) m h w = elim (Bool-cases (y == x)) [
    | inl e ↦
        let (w', r) = h w in
        (
          w',
          ap
              (λ o.
                o >>= for_each host dir Y G O disk collect_files is_dir iterate ulid publish f ys)
              (ap (λ z. f z w) (beq_eq y x e) ∙ r),
        )
    | inr e ↦
        Raises-bind (f y w)
          (for_each host dir Y G O disk collect_files is_dir iterate ulid publish f ys)
          (for_each-Raises f x ys (ground arith) h)
  ]

  apply-Raises :
      (targets : List Str) (diff : ConfigDiff) (f : Str)
      → contains
          (all_files host dir Y G O disk collect_files is_dir iterate ulid publish diff.deleted)
          f
        ≡ true
      → resolve_mirror_location host dir f targets ≡ none
      → Raises
          (apply_diff host dir Y G O disk collect_files is_dir iterate ulid publish targets diff)
  unfolding apply_diff
  apply-Raises targets diff f m r w = Raises-bind _ _ (
      for_each-Raises (λ x. deleted_handle host dir G disk targets x none) f
        (all_files host dir Y G O disk collect_files is_dir iterate ulid publish diff.deleted) m
        (λ v. (
          record v { db = record v.db { locations = deactivate_tree f v.db.locations } },
          deleted_raises targets f v r,
        )))

  -- `config` has lost a source with the file `f`, which none of its watch targets covers.
  abbrev pub IsUncovered : Config → Consumer → ConfigDiff → Str → Type 0
  IsUncovered config c diff f =
      (get_config_diff host Y (some config) c.files ≡ some diff)
      × (contains
            (all_files host dir Y G O disk collect_files is_dir iterate ulid publish diff.deleted) f
          ≡ true)
      × (resolve_mirror_location host dir f (derive_watch_targets host is_dir iterate config)
          ≡ none)

  uncovered_raises :
      (config : Config) (watcher : WatchWorker O C) (c : Consumer) (diff : ConfigDiff) (f : Str)
      → IsUncovered config c diff f
      → (c' : Consumer) × (change_with host dir Y G O disk collect_files is_dir iterate ulid publish
            (some config)
            watcher
            c
          ≡ Outcome.raised c')
  unfolding change_with
  uncovered_raises config watcher c diff f (d, m, r) =
      let targets = derive_watch_targets host is_dir iterate config in
      let (w', e) = apply-Raises targets diff f m r c.world in
      (
        record c { world = w' },
        rw (change_with, d)
            (ap
                (settle host dir Y G O disk collect_files is_dir iterate ulid publish config targets
                  watcher c)
                e
              ∙ unfold settle in refl),
      )

  -- An event of a new or a rewritten config.yaml.
  abbrev pub IsChange : EventClass → Type 0
  IsChange cls = (cls ≡ EventClass.config_modified) ⊎ (cls ≡ EventClass.config_created)

  changed :
      (event : Event) (config : Config) (watcher : WatchWorker O C) (c : Consumer)
      → IsChange event.cls
      → parse_config host Y false c.files ≡ some config
      → c.watcher ≡ some watcher
      → handle host dir Y G O disk collect_files is_dir iterate ulid publish event c
        ≡ change_with host dir Y G O disk collect_files is_dir iterate ulid publish
            (some config)
            watcher
            c
  unfolding handle change
  changed event config watcher c (inl k) p w = rw (k, w, p) refl
  changed event config watcher c (inr k) p w = rw (k, w, p) refl

  -- Let config.yaml read as `config`, which has lost a source with a file that none of its watch
  -- targets covers. Then the handling of the event of the change, by a consumer that has a
  -- watcher, raises, whatever else has changed, and leaves config.yaml, the snapshot and the
  -- watches as they were; and so does the same event at the state that this leaves.
  pub removed_source_raises :
      (event : Event) (config : Config) (watcher : WatchWorker O C) (c : Consumer)
      (diff : ConfigDiff) (f : Str)
      → IsChange event.cls
      → parse_config host Y false c.files ≡ some config
      → c.watcher ≡ some watcher
      → IsUncovered config c diff f
      → (c' : Consumer) × (c'' : Consumer) × (handle host dir Y G O disk collect_files is_dir
            iterate ulid publish event c
          ≡ Outcome.raised c')
        × (handle host dir Y G O disk collect_files is_dir iterate ulid publish event c'
            ≡ Outcome.raised c'')
        × IsRetried host dir Y G O disk collect_files is_dir iterate ulid publish c c'
        × IsRetried host dir Y G O disk collect_files is_dir iterate ulid publish c c''
  removed_source_raises event config watcher c diff f k p w uncovered =
      let (c', e) = uncovered_raises config watcher c diff f uncovered in
      let first = changed event config watcher c k p w ∙ e in
      let (files, watches) =
        handle_raised host dir Y G O disk collect_files is_dir iterate ulid publish event c c'
          first in
      let again : IsUncovered config c' diff f =
        (ap (get_config_diff host Y (some config)) files ∙ uncovered.0, uncovered.1, uncovered.2) in
      let (c'', e') = uncovered_raises config watcher c' diff f again in
      let second =
        changed event config watcher c' k (ap (parse_config host Y false) files ∙ p) (watches ∙ w)
        ∙ e' in
      let (files', watches') =
        handle_raised host dir Y G O disk collect_files is_dir iterate ulid publish event c' c''
          second in
      (c', c'', first, second, (files, watches), (files' ∙ files, watches' ∙ watches))
