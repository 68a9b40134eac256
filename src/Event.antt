-- ===== src/Event.antt =====
-- vcs/shared/types.py: the event classes, the routing key, and the wire form of an event.
pub mod Wire
pub mod Route
use context_os.Base.{Bool, true, false, Option, none, some, ◌≡◌, if◌then◌else◌, ◌≢◌}
use context_os.Base.Text.{Str, str}

-- The classes below `SourceEvent`, and that class itself.
pub data EventClass : Type 0 where
  source created modified deleted moved : EventClass
  config_created config_modified config_moved config_deleted : EventClass

-- `dst` is `none` for an instance of a class that has no such attribute.
pub record Event : Type 0 where
  pub cls : EventClass
  pub src : Str
  pub provider : Str
  pub is_dir : Bool
  pub actor : Option Str
  pub dst : Option Str

-- `issubclass(cls, MovedEvent)`
unfoldable pub is_moved : EventClass → Bool
is_moved EventClass.moved = true
is_moved EventClass.config_moved = true
is_moved _ = false

-- `isinstance(event, CreatedEvent)` and so on: a config class counts as its plain class.
unfoldable pub is_created : EventClass → Bool
is_created EventClass.created = true
is_created EventClass.config_created = true
is_created _ = false

unfoldable pub is_modified : EventClass → Bool
is_modified EventClass.modified = true
is_modified EventClass.config_modified = true
is_modified _ = false

unfoldable pub is_deleted : EventClass → Bool
is_deleted EventClass.deleted = true
is_deleted EventClass.config_deleted = true
is_deleted _ = false

-- `isinstance(event, CONFIG_EVENTS)`
unfoldable pub is_config : EventClass → Bool
is_config EventClass.config_created = true
is_config EventClass.config_modified = true
is_config EventClass.config_moved = true
is_config EventClass.config_deleted = true
is_config _ = false

-- The attribute `dst` is there exactly in the classes that declare it.
pub record IsWellFormed (e : Event) : Type 0 where
  pub has_dst : is_moved e.cls ≡ true → e.dst ≢ none
  pub no_dst : is_moved e.cls ≡ false → e.dst ≡ none

abbrev pub source_topic : Str
source_topic = str "source"

abbrev pub config_topic : Str
config_topic = str "config"

unfoldable pub topic_for : Event → Str
unfolding is_config
topic_for event = if is_config event.cls then config_topic else source_topic

-- `CreatedEvent(src=src, actor=actor)`, and the same for deletions.
abbrev pub created_event : Str → Option Str → Event
created_event src actor = record {
  cls = EventClass.created;
  src = src;
  provider = str "local";
  is_dir = false;
  actor = actor;
  dst = none;
}

abbrev pub deleted_event : Str → Event
deleted_event src = record {
  cls = EventClass.deleted;
  src = src;
  provider = str "local";
  is_dir = false;
  actor = none;
  dst = none;
}
