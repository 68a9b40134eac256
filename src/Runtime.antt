-- ===== src/Runtime.antt =====
-- vcs/workers/local/local_runtime.py: the two subscriptions of `LocalRuntime`, its scope cache,
-- `_publish` and `_in_scope`.
pub mod Scoped
use context_os.Base.{Bool, true, false, ◌||◌, Option, none, some, List, [], ◌∷◌, if◌then◌else◌}
use context_os.Base.Text.{Str, str}
use context_os.Event.{Event, is_config}
use context_os.Paths.Normalize.{Host}
use context_os.Configure.Sources.{Config, is_path_in_scope}
use context_os.Bus.Fanout.{LocalEventBus, Predicate, subscribe}
use context_os.Bus.Fanout

-- `_scope_cache`, and what `parse_config()` would return now, `none` where it would raise.
pub record Scope : Type 0 where
  pub scope_cache : Option Config
  pub on_disk : Option Config

-- A bus with the state that its predicates share.
pub record LocalRuntime : Type 1 where
  pub bus : LocalEventBus Scope
  pub scope : Scope

-- The parse of `_scope_config`: it is kept if it does not raise.
unfoldable pub parsed_scope : Option Config → Scope → Option Config × Scope
parsed_scope none s = (none, s)
parsed_scope (some c) s = (some c, record s { scope_cache = some c })

unfoldable pub cached_scope : Option Config → Scope → Option Config × Scope
unfolding parsed_scope
cached_scope none s = parsed_scope s.on_disk s
cached_scope (some c) s = (some c, s)

unfoldable pub scope_config : Scope → Option Config × Scope
unfolding cached_scope
scope_config s = cached_scope s.scope_cache s

module _ (host : Host) where
  unfoldable pub is_dst_in_scope : Config → Option Str → Bool
  unfolding is_path_in_scope
  is_dst_in_scope config none = false
  is_dst_in_scope config (some dst) = is_path_in_scope host config dst

  -- The test of `_in_scope` against the configuration.
  unfoldable pub is_event_in_scope : Config → Event → Bool
  unfolding is_path_in_scope is_dst_in_scope
  is_event_in_scope config e = is_path_in_scope host config e.src || is_dst_in_scope config e.dst

  unfoldable pub in_scope : Predicate Scope
  unfolding scope_config is_event_in_scope
  in_scope e s =
      let (config, s') = scope_config s in
      (elim config [ none ↦ none | some c ↦ some (is_event_in_scope c e) ], s')

  -- The subscriptions of `__init__`.
  unfoldable pub init : Scope → LocalRuntime
  unfolding subscribe in_scope
  init s =
      let (source_sub, bus) = subscribe (str "source.#") none (some in_scope) Fanout.init in
      let (config_sub, bus') = subscribe (str "config.#") none none bus in
      record { bus = bus'; scope = s }

-- `_publish`
unfoldable pub publish : Event → LocalRuntime → LocalRuntime
unfolding Fanout.publish is_config
publish e runtime =
    let s =
      if is_config e.cls then record runtime.scope { scope_cache = none } else runtime.scope in
    let (bus, s') = Fanout.publish e runtime.bus s in record { bus = bus; scope = s' }

unfoldable pub publish_all : List Event → LocalRuntime → LocalRuntime
unfolding publish
publish_all [] runtime = runtime
publish_all (e ∷ es) runtime = publish_all es (publish e runtime)

-- Another process rewrites config.yaml.
unfoldable pub rewrite_config : Option Config → LocalRuntime → LocalRuntime
rewrite_config config runtime = record runtime { scope = record runtime.scope { on_disk = config } }
