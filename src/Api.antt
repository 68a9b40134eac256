-- ===== src/Api.antt =====
-- app/api/deps.py and app/api/router/v1/vcs.py: the HTTP routes, and the key that each request
-- must carry.
pub mod Guard
use context_os.Base.{
  ℕ, Bool, true, false, not, ◌&&◌, ◌||◌, Option, none, some, List, [], ◌∷◌, ◌==◌, nat_eq, list_eq,
  if◌then◌else◌, ltb,
}
use context_os.Base.Lists.{any}
use context_os.Base.Text.{Str, str}
use context_os.Paths.Pure.{PurePath}
use context_os.Paths.Normalize.{Host}
use context_os.Configure.Sources.{Config}
use context_os.Store.Commands.{Git}
use context_os.Store.Logs.{Logs, Entry}
use context_os.Versioning.Tables.{Row}
use context_os.Audit.{
  Failure, Result, ok, err, Disk, World, get_sources, get_version_list, check_diff,
}

-- How a request ends: with a body, with the status of an `HTTPException`, or with an exception
-- that FastAPI turns into the status 500.
pub data Answer (A : Type 0) : Type 0 where
  body : A → Answer A
  status : ℕ → Answer A
  raised : Answer A

-- `os.getenv("HTTP_API_KEY") or None`
unfoldable pub http_api_key : Option Str → Option Str
http_api_key none = none
http_api_key (some []) = none
http_api_key (some (c ∷ s)) = some (c ∷ s)

-- `hmac.compare_digest` of two texts raises (none) if one is not ASCII.
unfoldable pub compare_digest : Str → Str → Option Bool
compare_digest a b =
    if any (λ c. not (ltb c 128)) a || any (λ c. not (ltb c 128)) b then none else some (a == b)

unfoldable pub allowed_by : Option Bool → Answer Unit
allowed_by none = raised
allowed_by (some true) = body tt
allowed_by (some false) = status 401

-- For the key of the server and that of the request, if any; an empty one counts as none.
unfoldable pub check_keys : Option Str → Option Str → Answer Unit
unfolding compare_digest allowed_by
check_keys none given = status 401
check_keys (some configured) none = status 401
check_keys (some configured) (some given) = allowed_by (compare_digest given configured)

unfoldable pub require_api_key : Option Str → Option Str → Answer Unit
unfolding http_api_key check_keys
require_api_key configured given = check_keys (http_api_key configured) (http_api_key given)

-- The route behind its dependency.
unfoldable pub routed : {A W : Type 0} → Answer Unit → (W → Answer A × W) → W → Answer A × W
routed (body u) route w = route w
routed (status n) route w = (status n, w)
routed raised route w = (raised, w)

-- `except audit.OutOfScopeError`
unfoldable pub answer_of : {A W : Type 0} → Result A × W → Answer A × W
answer_of (ok a, w) = (body a, w)
answer_of (err Failure.out_of_scope, w) = (status 403, w)
answer_of (err e, w) = (raised, w)

-- `list_sources` catches nothing.
unfoldable pub uncaught : {A W : Type 0} → Result A × W → Answer A × W
uncaught (ok a, w) = (body a, w)
uncaught (err e, w) = (raised, w)

module _ (host : Host) (dir : PurePath) (G : Git) (L : Logs G) (D : Disk) (config : Config)
    (targets : List Str) (configured given : Option Str) where
  unfoldable pub list_sources : List Row → World G D → Answer (List (Row × Option Str)) × World G D
  unfolding routed require_api_key uncaught get_sources
  list_sources rows =
      routed (require_api_key configured given)
        (λ w. uncaught (get_sources host dir G L D config targets rows w))

  unfoldable pub history : Str → World G D → Answer (List Entry) × World G D
  unfolding routed require_api_key answer_of get_version_list
  history path =
      routed (require_api_key configured given)
        (λ w. answer_of (get_version_list host dir G L D config targets path w))

  unfoldable pub diff : Str → Str → Str → World G D → Answer Str × World G D
  unfolding routed require_api_key answer_of check_diff
  diff path v1 v2 =
      routed (require_api_key configured given)
        (λ w. answer_of (check_diff host dir G L D config targets path v1 v2 w))
