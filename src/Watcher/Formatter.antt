-- ===== src/Watcher/Formatter.antt =====
-- utils/formatter.py: `normalize_event`, from the events of watchdog to the event classes.
use context_os.Base.{
  Bool, true, false, ◌&&◌, Option, none, some, ◌==◌, ◌≡◌, nat_eq, list_eq, if◌then◌else◌, arith,
  Bool-cases, inl, inr, list_beq_iff,
}
use context_os.Base.Text.{Str, str}
use context_os.Event.{EventClass, Event, IsWellFormed, is_moved, is_config}
use context_os.Paths.Normalize.{Host, path_normalize}

-- The class of a watchdog event.
pub data FsClass : Type 0 where
  file_created file_deleted file_modified file_moved : FsClass
  dir_deleted dir_moved unhandled : FsClass

pub record FsEvent : Type 0 where
  pub cls : FsClass
  pub src_path : Str
  pub dest_path : Str
  pub is_directory : Bool

-- An event object of the provider "local" with no actor.
abbrev pub local_event : EventClass → Str → Bool → Option Str → Event
local_event cls src is_dir dst = record {
  cls = cls;
  src = src;
  provider = str "local";
  is_dir = is_dir;
  actor = none;
  dst = dst;
}

-- `config_path` is `get_config_path()`.
module _ (host : Host) (config_path : Str) where
  abbrev config : Str
  config = path_normalize host config_path

  -- The cases, for the normalised source. A config event that is given no source has the
  -- config path.
  unfoldable pub by_class : FsEvent → Str → Option Event
  by_class e src = elim e.cls [
    | file_created ↦
        if src == config
        then some (local_event EventClass.config_created config false none)
        else some (local_event EventClass.created src false none)
    | file_deleted ↦
        if src == config
        then some (local_event EventClass.config_deleted config false none)
        else some (local_event EventClass.deleted src false none)
    | file_modified ↦
        if src == config
        then some (local_event EventClass.config_modified config false none)
        else some (local_event EventClass.modified src false none)
    | file_moved ↦
        let dst = some (path_normalize host e.dest_path) in
        if src == config
        then some (local_event EventClass.config_moved src false dst)
        else some (local_event EventClass.moved src false dst)
    | dir_deleted ↦ some (local_event EventClass.deleted src e.is_directory none)
    | dir_moved ↦
        some
          (local_event EventClass.moved src e.is_directory (some (path_normalize host e.dest_path)))
    | unhandled ↦ none
  ]

  unfoldable pub normalize_event : FsEvent → Option Event
  unfolding by_class
  normalize_event e =
      if e.src_path == str "" then none else by_class e (path_normalize host e.src_path)

  unfoldable pub is_file : FsClass → Bool
  is_file dir_deleted = false
  is_file dir_moved = false
  is_file unhandled = false
  is_file _ = true

  by_class_lem :
      (e : FsEvent) (src : Str) (event : Event)
      → by_class e src ≡ some event
      → IsWellFormed event
        × (event.src ≡ src)
        × (is_config event.cls ≡ (is_file e.cls && src == config))
  unfolding by_class is_file is_config is_moved
  by_class_lem e src event h = ground (arith, list_beq_iff src config)

  -- An event that the watcher makes of a file-system event fits its class, has the normalised
  -- path of that event, and is a config event exactly if the path is the one of the config
  -- file and a file was concerned, not a directory.
  pub normalize_event_lem :
      (e : FsEvent) (event : Event)
      → normalize_event e ≡ some event
      → IsWellFormed event
        × (event.src ≡ path_normalize host e.src_path)
        × (is_config event.cls ≡ (is_file e.cls && path_normalize host e.src_path == config))
  unfolding normalize_event
  normalize_event_lem e event h = elim (Bool-cases (e.src_path == str "")) [
    | inl empty ↦ ground arith
    | inr full ↦ by_class_lem e (path_normalize host e.src_path) event (ground arith)
  ]
