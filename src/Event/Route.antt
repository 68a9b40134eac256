-- ===== src/Event/Route.antt =====
-- The routing key of an event and its wire name agree under the bindings of the runtime.
use context_os.Base.{
  Bool, not, Option, none, some, ◌≡◌, refl, Bool-cases, inl, inr, nat_eq, list_eq,
}
use mathlib.Core.Path.{subst}
use context_os.Base.Text.{Str, str}
use context_os.Base.{list_beq}
use context_os.Bus.Topic.{topic_matches}
use context_os.Event.{EventClass, Event, is_config, topic_for}
use context_os.Event.Wire.{class_name}

-- What a binding makes of an optional topic.
abbrev AcceptsName : Str → Option Str → Bool → Type 0
AcceptsName pattern none b = Unit
AcceptsName pattern (some name) b = topic_matches pattern name ≡ b

class_routes :
    (c : EventClass)
    → AcceptsName (str "source.#") (class_name c) (not (is_config c))
      × AcceptsName (str "config.#") (class_name c) (is_config c)
unfolding class_name is_config topic_matches list_beq
class_routes EventClass.source = (tt, tt)
class_routes EventClass.created = (refl, refl)
class_routes _ = (refl, refl)

topic_routes :
    (e : Event)
    → (topic_matches (str "source.#") (topic_for e) ≡ not (is_config e.cls))
      × (topic_matches (str "config.#") (topic_for e) ≡ is_config e.cls)
unfolding topic_for topic_matches list_beq
topic_routes e = elim (Bool-cases (is_config e.cls)) [
  | inl h ↦ rw h (refl, refl)
  | inr h ↦ rw h (refl, refl)
]

-- The two bindings of the runtime part the events: the routing key of an event of a registered
-- class, and its finer wire name, are accepted by `config.#` if the class is a config class and
-- by `source.#` if not, never by both.
pub bindings_part_events :
    (e : Event) (name : Str)
    → class_name e.cls ≡ some name
    → (topic_matches (str "source.#") (topic_for e) ≡ not (is_config e.cls))
      × (topic_matches (str "config.#") (topic_for e) ≡ is_config e.cls)
      × (topic_matches (str "source.#") name ≡ not (is_config e.cls))
      × (topic_matches (str "config.#") name ≡ is_config e.cls)
bindings_part_events e name h = (
  (topic_routes e).0,
  (topic_routes e).1,
  subst (λ o. AcceptsName (str "source.#") o (not (is_config e.cls))) h (class_routes e.cls).0,
  subst (λ o. AcceptsName (str "config.#") o (is_config e.cls)) h (class_routes e.cls).1,
)
