-- ===== src/Tests/Sources.antt =====
-- The theorems on the formatter and on actor hints at concrete inputs.
use context_os.Base.{
  ◌+◌, false, none, some, [], ◌==◌, ◌≡◌, refl, nat_eq, list_eq, list_beq, ltb, if◌then◌else◌,
}
use context_os.Base.Lists.{filter}
use context_os.Base.Text.{str}
use context_os.Event.{EventClass}
use context_os.Paths.Pure.{names, names_by, split_on, is_name, join, is_absolute}
use context_os.Paths.Normalize.{path_normalize, has_windows_drive}
use context_os.Watcher.Formatter.{FsClass, FsEvent, local_event, by_class, normalize_event}
use context_os.Versioning.Hints.{set_hint, consume_hint, set_hint-consume_hint}
use context_os.Tests.Worlds.{plain_host, docs, notes, plan}

-- The config file is written.
abbrev written : FsEvent
written = record {
  cls = FsClass.file_modified;
  src_path = plan;
  dest_path = [];
  is_directory = false;
}

written_formatted :
    normalize_event plain_host plan written
    ≡ some (local_event EventClass.config_modified plan false none)
unfolding normalize_event by_class path_normalize plain_host names names_by split_on filter is_name
    join is_absolute list_beq has_windows_drive
written_formatted = refl

docs_again : path_normalize plain_host (str "/home/ann//docs") ≡ path_normalize plain_host docs
unfolding path_normalize plain_host names names_by split_on filter is_name join is_absolute list_beq
    has_windows_drive
docs_again = refl

docs-apart : (path_normalize plain_host docs == path_normalize plain_host notes) ≡ false
unfolding path_normalize plain_host names names_by split_on filter is_name join is_absolute list_beq
    has_windows_drive
docs-apart = refl

set_hint-consume_hint_example :
    let set = set_hint plain_host docs (str "mcp:agent") 5 100 [] in
    let used = (consume_hint plain_host (str "/home/ann//docs") 103 set).1 in
    ((consume_hint plain_host (str "/home/ann//docs") 103 set).0
      ≡ (if ltb (100 + 5) 103 then none else some (str "mcp:agent")))
    × ((consume_hint plain_host (str "/home/ann//docs") 104 used).0 ≡ none)
    × ((consume_hint plain_host notes 104 used).0 ≡ (consume_hint plain_host notes 104 []).0)
set_hint-consume_hint_example =
    set_hint-consume_hint plain_host docs (str "/home/ann//docs") notes (str "mcp:agent") 5 100 103
      104 [] docs_again docs-apart
