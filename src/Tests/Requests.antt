-- ===== src/Tests/Requests.antt =====
-- The theorem on the routes of the HTTP API at a request that has the key.
use context_os.Base.{true, Option, some, List, [], ◌∷◌, ◌≡◌, refl, nat_eq, list_eq, list_beq}
use context_os.Base.Lists.{any}
use context_os.Base.Text.{Str, str}
use context_os.Configure.Sources.{is_path_in_scope}
use context_os.Api.{
  body, status, raised, http_api_key, require_api_key, check_keys, compare_digest, allowed_by,
  list_sources, history, diff,
}
use context_os.Api.Guard.{IsGuarded, routes-IsGuarded}
use context_os.Tests.Worlds.{plain_host, docs_config}
use context_os.Tests.Mirrors.{toy}
use context_os.Tests.Rollbacks.{flat, no_logs, world}
use context_os.Tests.Versions.{mirrors}

passes : require_api_key (some (str "k1")) (some (str "k1")) ≡ body tt
unfolding require_api_key http_api_key check_keys compare_digest allowed_by any list_beq
passes = refl

unset : require_api_key (some []) (some (str "k1")) ≡ status 401
unfolding require_api_key http_api_key check_keys
unset = refl

not_ascii : require_api_key (some (str "k1")) (some (233 ∷ [])) ≡ raised
unfolding require_api_key http_api_key check_keys compare_digest allowed_by any
not_ascii = refl

abbrev key : Option Str
key = some (str "k1")

abbrev targets : List Str
targets = str "/home/ann" ∷ []

abbrev secret : Str
secret = str "/etc/passwd"

routes-IsGuarded_example :
    IsGuarded key key true world
      (list_sources plain_host mirrors toy no_logs flat docs_config targets key key [] world)
    × IsGuarded key key
        (is_path_in_scope plain_host docs_config secret)
        world
        (history plain_host mirrors toy no_logs flat docs_config targets key key secret world)
    × IsGuarded key key (is_path_in_scope plain_host docs_config secret) world (
        diff plain_host mirrors toy no_logs flat docs_config targets key key secret
          (str "c1")
          (str "c2")
          world)
routes-IsGuarded_example =
    routes-IsGuarded plain_host mirrors toy no_logs flat docs_config targets key key [] secret
      (str "c1") (str "c2") world
