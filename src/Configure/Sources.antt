-- ===== src/Configure/Sources.antt =====
-- The source list: `parse_config`, `_sources_dedup`, `add_sources`, `remove_sources` and
-- `is_path_in_scope`.
use context_os.Base.{
  Bool, false, not, ◌&&◌, ◌||◌, Option, none, some, List, [], ◌∷◌, ◌++◌, map, ◌==◌, nat_eq, list_eq,
  option_eq, bool_eq, if◌then◌else◌, ◌≡◌,
}
use context_os.Base.Lists.{filter, any, contains}
use context_os.Base.Sets.{distinct}
use context_os.Base.Text.{Str, str}
use context_os.Paths.Pure.{PurePath, to_path, is_relative_to}
use context_os.Paths.Normalize.{Host, path_normalize}

-- An entry of "sources"; `kind` is `source.get("type")`.
pub record Source : Type 0 where
  pub kind : Option Str
  pub path : Str

pub record Config : Type 0 where
  pub sources : List Source

abbrev pub local : Option Str
local = some (str "local")

abbrev pub source_paths : List Source → List Str
source_paths sources = map (λ s. s.path) sources

-- PyYAML; an empty document loads as `None`.
pub record Yaml : Type 1 where
  pub Document : Type 0
  pub safe_load : Document → Option Config
  pub safe_dump : Config → Document

-- A dump loads as what was dumped.
pub record IsYaml (Y : Yaml) : Type 0 where
  pub load-dump : (c : Config) → Y.safe_load (Y.safe_dump c) ≡ some c

-- The comprehension `{s["path"]: s for s in sources}`: a later entry takes the place of an
-- earlier one of its path.
unfoldable pub put_source : List Source → Source → List Source
put_source [] s = s ∷ []
put_source (r ∷ rs) s = if r.path == s.path then s ∷ rs else r ∷ put_source rs s

unfoldable pub put_sources : List Source → List Source → List Source
unfolding put_source
put_sources acc [] = acc
put_sources acc (s ∷ sources) = put_sources (put_source acc s) sources

unfoldable pub sources_dedup : List Source → List Source
unfolding put_sources
sources_dedup sources = put_sources [] sources

-- `target == source_path or target.is_relative_to(source_path)`
unfoldable pub lies_in : PurePath → PurePath → Bool
unfolding is_relative_to
lies_in target p = target.rooted == p.rooted && target.parts == p.parts || is_relative_to target p

-- Whether one source grants the path.
unfoldable pub grants : PurePath → Source → Bool
unfolding lies_in
grants target s = s.kind == local && lies_in target (to_path s.path)

module _ (host : Host) where
  unfoldable pub normalize_source : Source → Source
  normalize_source s = record s { path = path_normalize host s.path }

  -- `parse_config`, from the loaded document on.
  unfoldable pub parsed : Option Config → Config
  unfolding sources_dedup normalize_source
  parsed none = record { sources = [] }
  parsed (some c) = record { sources = sources_dedup (map normalize_source c.sources) }

  unfoldable pub is_path_in_scope : Config → Str → Bool
  unfolding grants
  is_path_in_scope config path =
      let target = to_path (path_normalize host path) in any (λ s. grants target s) config.sources

  -- The loop of `add_sources`: its body, and the loop over the paths of the set.
  unfoldable pub add_path : Config → Str → Config
  unfolding is_path_in_scope
  add_path config path = if is_path_in_scope config path then config else record {
    sources = config.sources ++ record { kind = local; path = path_normalize host path } ∷ [];
  }

  unfoldable pub add_paths : List Str → Config → Config
  unfolding add_path
  add_paths [] config = config
  add_paths (path ∷ paths) config = add_paths paths (add_path config path)

  -- The list of `remove_sources`.
  unfoldable pub remove_paths : List Str → Config → Config
  remove_paths paths config =
      let path_set = map (path_normalize host) paths in
      record { sources = filter (λ item. not (contains path_set item.path)) config.sources }

-- config.yaml and its snapshot; `none` where there is no such file.
pub record ConfigFiles (Y : Yaml) : Type 0 where
  pub config : Option Y.Document
  pub snapshot : Option Y.Document

module _ (host : Host) (Y : Yaml) where
  unfoldable pub read : Option Y.Document → Option Config
  unfolding parsed
  read none = none
  read (some doc) = some (parsed host (Y.safe_load doc))

  -- `parse_config()` and `parse_config(from_snapshot=True)`; `none` where `open` raises.
  unfoldable pub parse_config : Bool → ConfigFiles Y → Option Config
  unfolding read
  parse_config from_snapshot files = read (if from_snapshot then files.snapshot else files.config)

  unfoldable pub dump_config : Config → ConfigFiles Y → ConfigFiles Y
  dump_config c files = record files { config = some (Y.safe_dump c) }

  -- `none` where the file cannot be read; then nothing is written.
  unfoldable pub add_sources :
      (List Str → List Str) → List Str → ConfigFiles Y → Option (ConfigFiles Y)
  unfolding parse_config dump_config add_paths
  add_sources iterate paths files = elim (parse_config false files) [
    | none ↦ none
    | some config ↦ some (dump_config (add_paths host (iterate (distinct paths)) config) files)
  ]

  unfoldable pub remove_sources : List Str → ConfigFiles Y → Option (ConfigFiles Y)
  unfolding parse_config dump_config remove_paths
  remove_sources paths files = elim (parse_config false files) [
    | none ↦ none
    | some config ↦ some (dump_config (remove_paths host paths config) files)
  ]
