-- ===== src/Configure/Snapshot.antt =====
-- The diff baseline of vcs/services/configure.py: `get_config_diff`, `store_config_snapshot` and
-- `recover_config`.
use context_os.Base.{true, false, not, Option, none, some, List, nat_eq, list_eq}
use context_os.Base.Lists.{filter, contains}
use context_os.Base.Text.{Str}
use context_os.Paths.Normalize.{Host}
use context_os.Configure.Sources.{
  Config, Yaml, ConfigFiles, source_paths, parse_config, dump_config,
}

infixl 5 ◌>>=◌
abbrev pub ◌>>=◌ : {A B : Type 0} → Option A → (A → Option B) → Option B
none >>= f = none
some a >>= f = f a

pub record ConfigDiff : Type 0 where
  pub added : List Str
  pub deleted : List Str

-- `[path for path in xs if path not in ys]`
unfoldable pub not_in : List Str → List Str → List Str
not_in ys xs = filter (λ path. not (contains ys path)) xs

unfoldable pub diff_of : Config → Config → ConfigDiff
unfolding not_in
diff_of curr prev =
    let curr_paths = source_paths curr.sources in
    let prev_paths = source_paths prev.sources in
    record { added = not_in prev_paths curr_paths; deleted = not_in curr_paths prev_paths }

module _ (host : Host) (Y : Yaml) where
  -- `config or parse_config()`: a parsed config is never falsy.
  unfoldable pub config_or : Option Config → ConfigFiles Y → Option Config
  unfolding parse_config
  config_or none files = parse_config host Y false files
  config_or (some c) files = some c

  -- `none` where a file cannot be read.
  unfoldable pub get_config_diff : Option Config → ConfigFiles Y → Option ConfigDiff
  unfolding config_or parse_config diff_of
  get_config_diff config files = do
    curr ← config_or config files
    prev ← parse_config host Y true files
    some (diff_of curr prev)

  unfoldable pub store_config_snapshot : Option Config → ConfigFiles Y → Option (ConfigFiles Y)
  unfolding config_or
  store_config_snapshot config files = do
    c ← config_or config files
    some (record files { snapshot = some (Y.safe_dump c) })

  unfoldable pub recover_config : ConfigFiles Y → Option (ConfigFiles Y)
  unfolding parse_config dump_config
  recover_config files = do c ← parse_config host Y true files; some (dump_config host Y c files)
