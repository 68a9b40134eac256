-- ===== src/Tests/Configs.antt =====
-- The theorems on the config consumer at a concrete change.
use context_os.Base.{
  true, false, Option, none, some, List, [], ◌∷◌, ◌≡◌, refl, ap, ◌∙◌, inl, nat_eq, list_eq,
  list_beq,
}
use context_os.Base.Lists.{filter, contains}
use context_os.Base.Sets.{distinct}
use context_os.Base.Text.{Str, str}
use context_os.Event.{EventClass, Event}
use context_os.Paths.Mirror.{resolve_mirror_location, first_location}
use context_os.Configure.Sources.{
  Config, ConfigFiles, parse_config, read, parsed, sources_dedup, put_sources, put_source,
  normalize_source, local,
}
use context_os.Configure.Snapshot.{◌>>=◌, ConfigDiff, get_config_diff, config_or, diff_of, not_in}
use context_os.Configure.Targets.{derive_watch_targets, source_dirs, minimal}
use context_os.Watcher.Jobs.{WatchWorker}
use context_os.Versioning.{Outcome}
use context_os.Consumers.Config.{ConfigConsumer, all_files, handle}
use context_os.Consumers.Retry.{IsRetried}
use context_os.Consumers.Uncovered.{removed_source_raises}
use context_os.Tests.Worlds.{
  plain_host, plain_yaml, in_order, counting, docs, plan, docs_config, docs-normal, is_home_dir,
}
use context_os.Tests.Versions.{log, start, mirrors, some_files}

-- The only source is taken out of config.yaml.
abbrev no_config : Config
no_config = record { sources = [] }

abbrev changed_files : ConfigFiles plain_yaml
changed_files = record { config = some no_config; snapshot = some docs_config }

abbrev idle : WatchWorker counting Unit
idle = record { observer = 0; jobs = [] }

abbrev consumer : ConfigConsumer plain_yaml log counting Unit
consumer = record { files = changed_files; world = start; watcher = some idle }

abbrev one_file : Str → List Str
one_file path = plan ∷ []

abbrev made : Str → Str
made path = str "01C"

abbrev docs_removed : ConfigDiff
docs_removed = record { added = []; deleted = docs ∷ [] }

docs_parsed : read plain_host plain_yaml (some docs_config) ≡ some docs_config
unfolding read parsed sources_dedup put_sources put_source normalize_source
docs_parsed =
    ap {B = Option Config} (λ p. some (record { sources = record { kind = local; path = p } ∷ [] }))
      docs-normal

snapshot_parsed : parse_config plain_host plain_yaml true changed_files ≡ some docs_config
unfolding parse_config
snapshot_parsed = docs_parsed

config_parsed : parse_config plain_host plain_yaml false changed_files ≡ some no_config
unfolding parse_config read parsed sources_dedup put_sources
config_parsed = refl

abbrev diff_from : Option Config → Option ConfigDiff
diff_from prev = prev >>= λ p. some (diff_of no_config p)

removed_docs : diff_from (some docs_config) ≡ some docs_removed
unfolding diff_of not_in filter contains
removed_docs = refl

docs_diff : get_config_diff plain_host plain_yaml (some no_config) changed_files ≡ some docs_removed
unfolding get_config_diff config_or
docs_diff = ap diff_from snapshot_parsed ∙ removed_docs

unwatched :
    resolve_mirror_location plain_host mirrors plan
      (derive_watch_targets plain_host is_home_dir in_order no_config)
    ≡ none
unfolding resolve_mirror_location first_location derive_watch_targets source_dirs minimal distinct
    filter
unwatched = refl

lost_file :
    contains
      (all_files plain_host mirrors plain_yaml log counting some_files one_file is_home_dir in_order
        made tt docs_removed.deleted)
      plan
    ≡ true
unfolding all_files contains list_beq
lost_file = refl

abbrev changed : Event
changed = record {
  cls = EventClass.config_modified;
  src = str "config.yaml";
  provider = str "local";
  is_dir = false;
  actor = none;
  dst = none;
}

abbrev handled :
    ConfigConsumer plain_yaml log counting Unit
    → Outcome (ConfigConsumer plain_yaml log counting Unit)
handled =
    handle plain_host mirrors plain_yaml log counting some_files one_file is_home_dir in_order made
      tt changed

removed_source_raises_example :
    (c' : ConfigConsumer plain_yaml log counting Unit) × (c'' : ConfigConsumer plain_yaml log
      counting Unit)
    × (handled consumer ≡ Outcome.raised c')
    × (handled c' ≡ Outcome.raised c'')
    × IsRetried plain_host mirrors plain_yaml log counting some_files one_file is_home_dir in_order
        made tt consumer c'
    × IsRetried plain_host mirrors plain_yaml log counting some_files one_file is_home_dir in_order
        made tt consumer c''
removed_source_raises_example =
    removed_source_raises plain_host mirrors plain_yaml log counting some_files one_file is_home_dir
      in_order made tt changed no_config idle consumer docs_removed plan (inl refl) config_parsed
      refl (docs_diff, lost_file, unwatched)
