-- ===== src/Tests/Scopes.antt =====
-- The theorems on paths, mirrors, the source list and the runtime at concrete inputs.
use context_os.Base.{
  true, false, ◌&&◌, ◌||◌, Option, none, some, List, [], ◌∷◌, ◌≡◌, refl, sym, ap, ◌∙◌, nat_eq,
  list_eq, option_eq, ◌==◌, list_beq, option_beq,
}
use context_os.Base.Lists.{contains, any, All, filter}
use context_os.Base.Sets.{distinct}
use context_os.Base.Text.{Str, str, starts_with, rstrip, lstrip, delete}
use context_os.Event.{Event, EventClass, is_config, created_event}
use context_os.Bus.Queue.{event, empty}
use context_os.Paths.Pure.{
  PurePath, to_path, is_relative_to, joined, names, names_by, split_on, is_name, join, is_absolute,
}
use context_os.Paths.Normalize.{path_normalize, has_windows_drive}
use context_os.Paths.Mirror.{
  repo_dir_name, location_under, first_location, repo_path_for, resolve_mirror_location,
  source_path_for,
}
use context_os.Paths.Mirror.Sound.{resolve_mirror_location_sound}
use context_os.Paths.Mirror.Repos.{repo_path_for-injective}
use context_os.Configure.Sources.{
  Source, Config, local, sources_dedup, is_path_in_scope, parsed, put_sources, put_source,
  normalize_source, read, parse_config, add_sources,
}
use context_os.Configure.Scope.{path_of}
use context_os.Configure.Snapshot.{ConfigDiff, ◌>>=◌, get_config_diff, store_config_snapshot}
use context_os.Configure.Baseline.{is_only_in, get_config_diff-store_config_snapshot}
use context_os.Configure.Stored.{add_sources_lem}
use context_os.Configure.Grant.{
  Answer, ScopeGrant, ensure_scope, commit, says_yes, ensure_scope-commit,
}
use context_os.Configure.Targets.{
  render, source_dirs, put_target, is_covered, minimal, nearest_existing_dir, derive_watch_targets,
}
use context_os.Configure.Minimal.{derive_watch_targets-covers}
use context_os.Runtime.{Scope, publish, publish_all, rewrite_config}
use context_os.Runtime.Scoped.{at, more, in_scope_events, config_change_seen}
use context_os.Tests.Worlds.{
  plain_host, plain-IsHost, in_order, in_order-IsOrder, plain_yaml, plain-IsYaml, docs, home, notes,
  plan, docs_source, docs_config, docs_files, docs-normal, is_home_dir,
}

abbrev mirrors : PurePath
mirrors = record { rooted = true; parts = str "mirrors" ∷ [] }

no_drive :
    (has_windows_drive docs ≡ false)
    × (has_windows_drive home ≡ false)
    × (has_windows_drive plan ≡ false)
unfolding has_windows_drive
no_drive = (refl, refl, refl)

no_notes_drive : has_windows_drive notes ≡ false
unfolding has_windows_drive
no_notes_drive = refl

plan_placed :
    resolve_mirror_location plain_host mirrors plan (notes ∷ docs ∷ [])
    ≡ some (repo_path_for plain_host mirrors docs, str "plan.md")
unfolding resolve_mirror_location first_location location_under path_normalize plain_host names
    names_by split_on filter is_name join is_absolute list_beq has_windows_drive starts_with rstrip
    repo_path_for joined repo_dir_name lstrip delete
plan_placed = refl

resolve_mirror_location_sound_example :
    (t : Str) × (contains (notes ∷ docs ∷ []) t ≡ true)
    × (repo_path_for plain_host mirrors docs ≡ repo_path_for plain_host mirrors t)
    × (source_path_for plain_host t (str "plan.md") ≡ path_normalize plain_host plan)
resolve_mirror_location_sound_example =
    resolve_mirror_location_sound plain_host plain-IsHost mirrors plan (notes ∷ docs ∷ [])
      (repo_path_for plain_host mirrors docs) (str "plan.md") no_drive.2
      (no_notes_drive, (no_drive.0, tt)) plan_placed

-- The same directory, written otherwise.
abbrev docs_again : Str
docs_again = str "/home/./ann//docs/"

docs_again-normal : path_normalize plain_host docs_again ≡ docs
unfolding path_normalize plain_host names names_by split_on filter is_name join is_absolute list_beq
    has_windows_drive
docs_again-normal = refl

no_colon : contains docs b':' ≡ false
unfolding contains
no_colon = refl

no_drive_again : has_windows_drive docs_again ≡ false
unfolding has_windows_drive
no_drive_again = refl

same_repo : repo_path_for plain_host mirrors docs ≡ repo_path_for plain_host mirrors docs_again
unfolding repo_path_for
same_repo =
    ap (λ s. joined mirrors (repo_dir_name plain_host s)) (docs-normal ∙ sym docs_again-normal)

repo_path_for-injective_example :
    path_normalize plain_host docs ≡ path_normalize plain_host docs_again
repo_path_for-injective_example =
    repo_path_for-injective plain_host plain-IsHost mirrors docs docs_again no_drive.0
      no_drive_again (ap (λ s. contains s b':') docs-normal ∙ no_colon)
      (ap (λ s. contains s b':') docs_again-normal ∙ no_colon) same_repo

-- The same path twice, in two entries.
abbrev twice : List Source
twice = docs_source ∷ record { kind = none; path = docs } ∷ []

docs_read : read plain_host plain_yaml (some docs_config) ≡ some docs_config
unfolding read parsed sources_dedup put_sources put_source normalize_source
docs_read =
    ap {B = Option Config} (λ p. some (record { sources = record { kind = local; path = p } ∷ [] }))
      docs-normal

docs_parsed : parse_config plain_host plain_yaml false docs_files ≡ some docs_config
unfolding parse_config
docs_parsed = docs_read

get_config_diff-store_config_snapshot_example :
    (diff : ConfigDiff) × ((do
      stored ← store_config_snapshot plain_host plain_yaml (some docs_config) docs_files
      get_config_diff plain_host plain_yaml none stored)
      ≡ some diff)
    × ((p : Str) → contains diff.added p ≡ is_only_in docs_config docs_config p)
    × ((p : Str) → contains diff.deleted p ≡ is_only_in docs_config docs_config p)
get_config_diff-store_config_snapshot_example =
    get_config_diff-store_config_snapshot plain_host plain-IsHost plain_yaml plain-IsYaml
      (some docs_config) docs_files docs_config docs_config docs_read docs_parsed

abbrev notes_config : Config
notes_config = record { sources = record { kind = local; path = notes } ∷ [] }

add_sources_lem_example :
    (do
      written ← add_sources plain_host plain_yaml in_order (notes ∷ plan ∷ notes ∷ []) docs_files
      now ← parse_config plain_host plain_yaml false written
      some (is_path_in_scope plain_host now home))
    ≡ some (
        is_path_in_scope plain_host docs_config home
        || any
            (λ p. is_relative_to (path_of plain_host home) (path_of plain_host p))
            (notes ∷ plan ∷ notes ∷ []))
add_sources_lem_example =
    add_sources_lem plain_host plain-IsHost plain_yaml plain-IsYaml in_order
      (notes ∷ plan ∷ notes ∷ []) docs_files docs_config home in_order-IsOrder docs_parsed

abbrev pending : ScopeGrant
pending = record { allowed = true; pending_path = some notes }

ensure_scope-commit_example :
    (do
      grant ← ensure_scope plain_host plain_yaml in_order notes (Answer.accepted true) docs_files
      done ← commit plain_host plain_yaml in_order grant docs_files
      now ← parse_config plain_host plain_yaml false done.1
      some (is_path_in_scope plain_host now home))
    ≡ some (
        is_path_in_scope plain_host docs_config home
        || says_yes (Answer.accepted true)
          && is_relative_to (path_of plain_host home) (path_of plain_host notes))
ensure_scope-commit_example =
    ensure_scope-commit plain_host plain_yaml in_order plain-IsHost plain-IsYaml in_order-IsOrder
      notes home (Answer.accepted true) docs_files docs_config docs_parsed

docs_nearest : nearest_existing_dir plain_host is_home_dir docs ≡ some docs
unfolding nearest_existing_dir render to_path names names_by split_on filter is_name join
    is_absolute list_beq
docs_nearest =
    ap {A = Str} (λ s. some (path_normalize plain_host (render (to_path s)))) docs-normal
    ∙ ap some docs-normal

docs_listed : any (λ s. s.kind == local && s.path == docs_source.path) docs_config.sources ≡ true
unfolding any option_beq list_beq
docs_listed = refl

derive_watch_targets-covers_example :
    any
      (λ target. is_relative_to (to_path docs) (to_path target))
      (derive_watch_targets plain_host is_home_dir in_order docs_config)
    ≡ true
derive_watch_targets-covers_example =
    derive_watch_targets-covers plain_host plain-IsHost is_home_dir in_order in_order-IsOrder
      docs_config docs_source docs docs_listed docs_nearest

docs_target :
    contains (derive_watch_targets plain_host is_home_dir in_order docs_config) docs ≡ true
unfolding derive_watch_targets source_dirs put_target option_beq list_beq distinct minimal
    is_covered any filter contains path_normalize plain_host to_path nearest_existing_dir render
    names names_by split_on is_name join is_absolute has_windows_drive is_relative_to
docs_target = refl

-- The config file changes, then two files are created.
abbrev changed : Event
changed = record {
  cls = EventClass.config_modified;
  src = str "config.yaml";
  provider = str "local";
  is_dir = false;
  actor = none;
  dst = none;
}

abbrev stale : Scope
stale = record { scope_cache = some notes_config; on_disk = some notes_config }

changed_is_config : is_config changed.cls ≡ true
unfolding is_config
changed_is_config = refl

sources_are_not :
    All (λ e. is_config e.cls ≡ false) (created_event plan none ∷ created_event notes none ∷ [])
unfolding is_config
sources_are_not = (refl, (refl, tt))

config_change_seen_example :
    publish_all
      (created_event plan none ∷ created_event notes none ∷ [])
      (publish changed (rewrite_config (some docs_config) (at plain_host stale empty empty)))
    ≡ at plain_host
        (record { scope_cache = some docs_config; on_disk = some docs_config })
        (more empty (
          in_scope_events plain_host docs_config
            (created_event plan none ∷ created_event notes none ∷ [])))
        (more empty (event changed ∷ []))
config_change_seen_example =
    config_change_seen plain_host changed (created_event plan none) (created_event notes none ∷ [])
      docs_config stale empty empty changed_is_config sources_are_not
