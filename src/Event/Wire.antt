-- ===== src/Event/Wire.antt =====
-- vcs/shared/types.py: `event_name`, `event_to_dict` and `event_from_dict`.
use context_os.Base.{
  Bool, true, false, Option, none, some, ◌≡◌, ◌↔◌, refl, List, [], ◌∷◌, arith, if◌then◌else◌, ◌==◌,
  nat_eq, list_eq, list_beq, Option-cases, inl, inr, ◌⊎◌,
}
use context_os.Base.Text.{Str, str}
use context_os.Event.{EventClass, Event, is_moved, IsWellFormed}

pub data Error : Type 0 where
  value_error key_error : Error

pub data Result (A : Type 0) : Type 0 where
  ok : A → Result A
  err : Error → Result A

infixl 5 ◌>>=◌
abbrev pub ◌>>=◌ : {A B : Type 0} → Result A → (A → Result B) → Result B
ok a >>= f = f a
err e >>= f = err e

-- The dict of one event: a field for each key, `none` where the key is missing.
pub record Wire : Type 0 where
  pub event : Option Str
  pub src : Option Str
  pub provider : Option Str
  pub is_dir : Option Bool
  pub actor : Option (Option Str)
  pub dst : Option Str

-- `_EVENT_NAMES`, in its order.
abbrev pub event_names : List (Str × EventClass)
event_names =
    (str "source.created", EventClass.created)
    ∷ (str "source.modified", EventClass.modified)
    ∷ (str "source.deleted", EventClass.deleted)
    ∷ (str "source.moved", EventClass.moved)
    ∷ (str "config.created", EventClass.config_created)
    ∷ (str "config.modified", EventClass.config_modified)
    ∷ (str "config.deleted", EventClass.config_deleted)
    ∷ (str "config.moved", EventClass.config_moved)
    ∷ []

-- `_EVENT_NAMES.get(name)`
unfoldable pub class_of : Str → List (Str × EventClass) → Option EventClass
class_of name [] = none
class_of name ((n, c) ∷ names) = if n == name then some c else class_of name names

-- `_EVENT_CLASS_NAMES[cls]`; the base class is not registered.
unfoldable pub class_name : EventClass → Option Str
class_name EventClass.source = none
class_name EventClass.created = some (str "source.created")
class_name EventClass.modified = some (str "source.modified")
class_name EventClass.deleted = some (str "source.deleted")
class_name EventClass.moved = some (str "source.moved")
class_name EventClass.config_created = some (str "config.created")
class_name EventClass.config_modified = some (str "config.modified")
class_name EventClass.config_deleted = some (str "config.deleted")
class_name EventClass.config_moved = some (str "config.moved")

abbrev or_raise : {A : Type 0} → Option A → Error → Result A
or_raise none e = err e
or_raise (some a) e = ok a

abbrev get_or : {A : Type 0} → Option A → A → A
get_or none d = d
get_or (some a) d = a

unfoldable pub event_name : Event → Result Str
unfolding class_name
event_name event = or_raise (class_name event.cls) value_error

unfoldable pub event_to_dict : Event → Result Wire
unfolding event_name
event_to_dict event = do
  name ← event_name event
  ok (record {
    event = some name;
    src = some event.src;
    provider = some event.provider;
    is_dir = some event.is_dir;
    actor = some event.actor;
    dst = event.dst;
  })

-- `kwargs["dst"] = data["dst"]`, for the classes that take it.
unfoldable pub dst_argument : EventClass → Wire → Result (Option Str)
unfolding is_moved
dst_argument cls w =
    if is_moved cls then (or_raise w.dst key_error >>= λ d. ok (some d)) else ok none

-- `data.get("event")` is `None` for a missing key, which names no class.
unfoldable pub class_of_wire : Wire → Option EventClass
unfolding class_of
class_of_wire w = elim w.event [ none ↦ none | some name ↦ class_of name event_names ]

unfoldable pub event_from_dict : Wire → Result Event
unfolding class_of_wire dst_argument
event_from_dict w = do
  cls ← or_raise (class_of_wire w) value_error
  src ← or_raise w.src key_error
  dst ← dst_argument cls w
  ok (record {
    cls = cls;
    src = src;
    provider = get_or w.provider (str "local");
    is_dir = get_or w.is_dir false;
    actor = get_or w.actor none;
    dst = dst;
  })

-- What the class found for an optional name says of it.
abbrev Names : EventClass → Option Str → Type 0
Names c none = Unit
Names c (some name) = class_of name event_names ≡ some c

class_name-Names : (c : EventClass) → Names c (class_name c)
unfolding class_name class_of list_beq
class_name-Names EventClass.source = tt
class_name-Names EventClass.created = refl
class_name-Names _ = refl

-- The dict that `event_to_dict` makes when the class has the name `name`.
abbrev wire_of : Str → Event → Wire
wire_of name e = record {
  event = some name;
  src = some e.src;
  provider = some e.provider;
  is_dir = some e.is_dir;
  actor = some e.actor;
  dst = e.dst;
}

from_wire_of :
    (e : Event) (name : Str)
    → IsWellFormed e
    → class_of name event_names ≡ some e.cls
    → event_from_dict (wire_of name e) ≡ ok e
unfolding event_from_dict
from_wire_of e name v h = ground (arith)

to_dict_cases :
    (e : Event)
    → (event_to_dict e ≡ err value_error)
      ⊎ ((name : Str) × (event_to_dict e ≡ ok (wire_of name e))
          × (class_of name event_names ≡ some e.cls))
unfolding event_to_dict
to_dict_cases e = go (class_name e.cls) refl (class_name-Names e.cls)
  where
    go :
        (o : Option Str)
        → class_name e.cls ≡ o
        → Names e.cls o
        → (event_to_dict e ≡ err value_error)
          ⊎ ((name : Str) × (event_to_dict e ≡ ok (wire_of name e))
              × (class_of name event_names ≡ some e.cls))
    go none p n = inl (rw p)
    go (some name) p n = inr (name, rw p, n)

-- An event of a registered class survives the wire: what `event_from_dict` rebuilds from the
-- dict that `event_to_dict` makes is the event itself.
pub event_from_dict-to_dict :
    (e : Event) (w : Wire) → IsWellFormed e → event_to_dict e ≡ ok w → event_from_dict w ≡ ok e
event_from_dict-to_dict e w v h = elim (to_dict_cases e) [
  | inl unnamed ↦ cc
  | inr (name, p, n) ↦ cc (from_wire_of e name v n)
]

-- Serialisation fails exactly for the base class, which no wire name is registered for.
pub event_to_dict_fails :
    (e : Event) → (event_to_dict e ≡ err value_error) ↔ (e.cls ≡ EventClass.source)
unfolding event_to_dict class_name
event_to_dict_fails e = ground arith

-- Whatever dict it is given, `event_from_dict` makes only events whose `dst` fits their class,
-- and the class is the one that the dict names.
pub event_from_dict-IsWellFormed :
    (w : Wire) (e : Event)
    → event_from_dict w ≡ ok e
    → IsWellFormed e × (class_of_wire w ≡ some e.cls) × (w.src ≡ some e.src)
unfolding event_from_dict
event_from_dict-IsWellFormed w e h = ground arith

-- Which dicts are refused, and how: an unknown name first, then a missing `src`, then a missing
-- `dst` of a class that takes one. All others give an event.
pub event_from_dict_errors :
    (w : Wire)
    → ((event_from_dict w ≡ err value_error) ↔ (class_of_wire w ≡ none))
      × ((event_from_dict w ≡ err key_error) ↔ (
          (c : EventClass) × (class_of_wire w ≡ some c)
          × ((w.src ≡ none) ⊎ ((is_moved c ≡ true) × (w.dst ≡ none)))))
event_from_dict_errors w = elim (Option-cases (class_of_wire w)) [
  | inl e ↦ unfold event_from_dict in ground arith
  | inr (c, e) ↦ unfold event_from_dict in ground arith
]
