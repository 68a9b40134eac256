-- ===== src/Runtime/Scoped.antt =====
-- How the runtime filters the source events while config.yaml changes.
use mathlib.Core.List.{append-nil, append_assoc}
use context_os.Base.{
  true, false, Option, none, some, List, [], ◌∷◌, ◌++◌, map, if◌then◌else◌, ◌≡◌, refl, sym, ◌∙◌, ap,
  Bool-cases, inl, inr, list_beq,
}
use context_os.Base.Lists.{All, filter}
use context_os.Event.{Event, is_config, topic_for}
use context_os.Paths.Normalize.{Host}
use context_os.Configure.Sources.{Config}
use context_os.Bus.Topic.{topic_matches}
use context_os.Bus.Queue.{Message, event, LocalQueue}
use context_os.Bus.Queue
use context_os.Bus.Fanout.{LocalEventBus, Predicate, subscribe, fan_out, accepts, enqueue, put}
use context_os.Bus.Fanout
use context_os.Runtime.{
  Scope, LocalRuntime, scope_config, cached_scope, parsed_scope, is_event_in_scope, in_scope, init,
  publish, publish_all, rewrite_config,
}

-- A mailbox with more messages behind those that it has.
abbrev pub more : LocalQueue → List Message → LocalQueue
more q ms = record q { items = q.items ++ ms }

module _ (host : Host) where
  -- The runtime that `__init__` sets up, later on: its scope and what the two mailboxes hold.
  unfoldable pub at : Scope → LocalQueue → LocalQueue → LocalRuntime
  at s sources configs =
      let runtime = init host s in
      record runtime { bus = record runtime.bus { mailboxes = sources ∷ configs ∷ [] } }

  publish_config :
      (e : Event) (s : Scope) (sources configs : LocalQueue)
      → is_config e.cls ≡ true
      → publish e (at s sources configs)
        ≡ at (record s { scope_cache = none }) sources (more configs (event e ∷ []))
  unfolding at init publish subscribe Fanout.publish fan_out accepts enqueue put topic_for
      topic_matches list_beq Queue.publish
  publish_config e s sources configs h = rw h refl

  rewrite-at :
      (s : Scope) (disk : Option Config) (sources configs : LocalQueue)
      → rewrite_config disk (at s sources configs)
        ≡ at (record s { on_disk = disk }) sources configs
  unfolding rewrite_config at init
  rewrite-at s disk sources configs = refl

  publish_source :
      (e : Event) (c : Config) (disk : Option Config) (sources configs : LocalQueue)
      → is_config e.cls ≡ false
      → publish e (at (record { scope_cache = some c; on_disk = disk }) sources configs)
        ≡ at
            (record { scope_cache = some c; on_disk = disk })
            (if is_event_in_scope host c e then more sources (event e ∷ []) else sources)
            configs
  unfolding at init publish subscribe Fanout.publish fan_out accepts enqueue put topic_for
      topic_matches list_beq Queue.publish in_scope scope_config cached_scope
  publish_source e c disk sources configs h = elim (Bool-cases (is_event_in_scope host c e)) [
    | inl k ↦ rw (h, k) refl
    | inr k ↦ rw (h, k) refl
  ]

  -- Whether or not the configuration is in the cache, the first source event is tested against
  -- it, and then it is.
  publish_first :
      (e : Event) (c : Config) (sources configs : LocalQueue)
      → is_config e.cls ≡ false
      → publish e (at (record { scope_cache = none; on_disk = some c }) sources configs)
        ≡ publish e (at (record { scope_cache = some c; on_disk = some c }) sources configs)
  unfolding at init publish subscribe Fanout.publish fan_out accepts enqueue put topic_for
      topic_matches list_beq Queue.publish in_scope scope_config cached_scope parsed_scope
  publish_first e c sources configs h = rw h refl

  -- The messages of the events that are in scope.
  abbrev pub in_scope_events : Config → List Event → List Message
  in_scope_events c es = map event (filter (is_event_in_scope host c) es)

  publish_all-sources :
      (es : List Event) (c : Config) (disk : Option Config) (sources configs : LocalQueue)
      → All (λ e. is_config e.cls ≡ false) es
      → publish_all es (at (record { scope_cache = some c; on_disk = disk }) sources configs)
        ≡ at
            (record { scope_cache = some c; on_disk = disk })
            (more sources (in_scope_events c es))
            configs
  unfolding publish_all filter
  publish_all-sources [] c disk sources configs h =
      ap
        (λ ms.
          at (record { scope_cache = some c; on_disk = disk }) (record sources { items = ms })
            configs)
        (sym (append-nil sources.items))
  publish_all-sources (e ∷ es) c disk sources configs h =
      rw (publish_source e c disk sources configs h.0)
        (elim (Bool-cases (is_event_in_scope host c e)) [
          | inl k ↦ rw k (
              publish_all-sources es c disk (more sources (event e ∷ [])) configs h.1
              ∙ ap
                  (λ ms.
                    at (record { scope_cache = some c; on_disk = disk })
                      (record sources { items = ms }) configs)
                  (append_assoc sources.items (event e ∷ []) (in_scope_events c es)))
          | inr k ↦ rw k (publish_all-sources es c disk sources configs h.1)
        ])

  -- Let config.yaml be rewritten so that it reads as `config`, and a config event be published,
  -- whatever was cached before. Then of the source events that follow, the source consumer gets
  -- exactly those whose source or destination is in the scope of `config`, in their order, and
  -- the config consumer gets the config event only.
  pub config_change_seen :
      (changed e : Event) (es : List Event) (config : Config) (s : Scope)
      (sources configs : LocalQueue)
      → is_config changed.cls ≡ true
      → All (λ x. is_config x.cls ≡ false) (e ∷ es)
      → publish_all (e ∷ es) (publish changed (rewrite_config (some config) (at s sources configs)))
        ≡ at
            (record { scope_cache = some config; on_disk = some config })
            (more sources (in_scope_events config (e ∷ es)))
            (more configs (event changed ∷ []))
  unfolding publish_all
  config_change_seen changed e es config s sources configs h k =
      let configs' = more configs (event changed ∷ []) in
      ap (λ r. publish_all (e ∷ es) r)
        (ap (publish changed) (rewrite-at s (some config) sources configs)
          ∙ publish_config changed (record s { on_disk = some config }) sources configs h)
      ∙ ap (publish_all es) (publish_first e config sources configs' k.0)
      ∙ publish_all-sources (e ∷ es) config (some config) sources configs' k
