-- ===== src/Consumers/Local.antt =====
-- `LocalConsumer.handle`: the actor of an event, and the handler of its class.
use context_os.Base.{ℕ, Option, none, some, List, if◌then◌else◌}
use context_os.Base.Text.{Str}
use context_os.Event.{EventClass, Event, is_config, is_moved}
use context_os.Paths.Pure.{PurePath}
use context_os.Paths.Normalize.{Host}
use context_os.Configure.Sources
use context_os.Versioning.{Outcome, GitStore}
use context_os.Versioning.Handlers.{
  Files, World, with_content, created_handle, modified_handle, deleted_handle, moved_handle,
}
use context_os.Versioning.Hints.{Hint, consume_hint}

pub record LocalConsumer (G : GitStore) : Type 0 where
  pub hints : List Hint
  pub world : World G

module _ (host : Host) where
  -- The second hint of a move, where the first is missing.
  unfoldable pub dst_actor : Option Str → Option Str → ℕ → List Hint → Option Str × List Hint
  unfolding consume_hint
  dst_actor (some actor) dst now hints = (some actor, hints)
  dst_actor none none now hints = (none, hints)
  dst_actor none (some dst) now hints = consume_hint host dst now hints

  unfoldable pub event_actor : Option Str → Event → ℕ → List Hint → Option Str × List Hint
  unfolding dst_actor consume_hint
  event_actor (some actor) event now hints = (some actor, hints)
  event_actor none event now hints =
      let (actor, hints') = consume_hint host event.src now hints in
      if is_moved event.cls then dst_actor actor event.dst now hints' else (actor, hints')

  module _ (dir : PurePath) (G : GitStore) (files : Files) (targets : List Str)
      (config : Sources.Config) (ulid : Str) where
    -- Of the four tests at most one holds; a move has a destination.
    unfoldable pub dispatch :
        EventClass → Str → Option Str → Option Str → World G → Outcome (World G)
    unfolding created_handle modified_handle deleted_handle moved_handle with_content
    dispatch EventClass.moved src (some dst) actor w =
        moved_handle host dir G files targets config src dst actor w
    dispatch EventClass.modified src dst actor w =
        with_content (files.read_bytes src)
          (λ content w'. modified_handle host dir G files targets ulid src actor content w') w
    dispatch EventClass.deleted src dst actor w =
        deleted_handle host dir G files targets src actor w
    dispatch EventClass.created src dst actor w =
        created_handle host dir G files targets ulid src actor w
    dispatch _ src dst actor w = Outcome.returned w

    unfoldable pub with_world : List Hint → Outcome (World G) → Outcome (LocalConsumer G)
    with_world hints (Outcome.returned w) = Outcome.returned (record { hints = hints; world = w })
    with_world hints (Outcome.raised w) = Outcome.raised (record { hints = hints; world = w })

    unfoldable pub handle : Event → ℕ → LocalConsumer G → Outcome (LocalConsumer G)
    unfolding is_config event_actor dispatch with_world
    handle event now c =
        let (actor, hints) = event_actor event.actor event now c.hints in
        if is_config event.cls
        then Outcome.returned c
        else with_world hints (dispatch event.cls event.src event.dst actor c.world)
