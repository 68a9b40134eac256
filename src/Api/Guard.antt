-- ===== src/Api/Guard.antt =====
-- What the key and the scope keep from the routes of the HTTP API.
use context_os.Base.{
  ℕ, Bool, true, false, not, ◌||◌, Option, none, some, List, [], ◌∷◌, ◌==◌, ◌≡◌, refl, sym, ap, ◌∙◌,
  ◌↔◌, ◌⊎◌, nat_eq, list_eq, Bool-cases, inl, inr, beq_eq, beq_refl, arith, ltb,
}
use context_os.Base.Lists.{any}
use context_os.Base.Text.{Str}
use context_os.Paths.Pure.{PurePath}
use context_os.Paths.Normalize.{Host}
use context_os.Configure.Sources.{Config, is_path_in_scope}
use context_os.Store.Commands.{Git}
use context_os.Store.Logs.{Logs}
use context_os.Versioning.Tables.{Row}
use context_os.Audit.{Disk, World, then_on, check_scope, get_version_list, check_diff}
use context_os.Api.{
  Answer, body, status, raised, http_api_key, compare_digest, allowed_by, check_keys,
  require_api_key, routed, answer_of, list_sources, history, diff,
}

abbrev pub is_ascii : Str → Bool
is_ascii s = not (any (λ c. not (ltb c 128)) s)

body-eq : {A : Type 0} (n : ℕ) (a : A) → ¬ (status n ≡ body a)
body-eq n a h = cc

raised-body : {A : Type 0} (a : A) → ¬ (raised ≡ body a)
raised-body a h = cc

digest-lem :
    (given configured : Str)
    → allowed_by (compare_digest given configured) ≡ body tt
    → (given ≡ configured) × (is_ascii configured ≡ true)
unfolding compare_digest allowed_by
digest-lem given configured h =
    elim (Bool-cases (any (λ c. not (ltb c 128)) given || any (λ c. not (ltb c 128)) configured)) [
      | inl e ↦ absurd (raised-body tt (rw e at h))
      | inr e ↦ elim (Bool-cases (given == configured)) [
        | inl same ↦ (beq_eq given configured same, ground arith)
        | inr other ↦ absurd (body-eq 401 tt (rw (e, other) at h))
      ]
    ]

-- Both sides hold the same key, which is not empty.
pub record HasKey (configured given : Option Str) : Type 0 where
  pub key : Str
  pub configured_eq : configured ≡ some key
  pub given_eq : given ≡ some key
  pub filled : http_api_key (some key) ≡ some key
  pub ascii : is_ascii key ≡ true

http_api_key-some :
    (found : Option Str) (key : Str)
    → http_api_key found ≡ some key
    → (found ≡ some key) × (http_api_key (some key) ≡ some key)
unfolding http_api_key
http_api_key-some none key h = cc
http_api_key-some (some []) key h = cc
http_api_key-some (some (c ∷ s)) key h = (h, ap http_api_key (sym h) ∙ h)

keys-lem :
    (configured given : Option Str)
    → check_keys configured given ≡ body tt
    → (key : Str) × (configured ≡ some key) × (given ≡ some key) × (is_ascii key ≡ true)
unfolding check_keys
keys-lem none given h = absurd (body-eq 401 tt h)
keys-lem (some configured) none h = absurd (body-eq 401 tt h)
keys-lem (some configured) (some given) h =
    let (same, ascii) = digest-lem given configured h in (configured, refl, ap some same, ascii)

require_api_key-HasKey :
    (configured given : Option Str)
    → require_api_key configured given ≡ body tt
    → HasKey configured given
unfolding require_api_key
require_api_key-HasKey configured given h =
    let (key, a, b, ascii) = keys-lem (http_api_key configured) (http_api_key given) h in
    let (c, filled) = http_api_key-some configured key a in
    let (g, filled_too) = http_api_key-some given key b in
    record { key = key; configured_eq = c; given_eq = g; filled = filled; ascii = ascii }

digest_refl : (key : Str) → is_ascii key ≡ true → allowed_by (compare_digest key key) ≡ body tt
unfolding compare_digest allowed_by
digest_refl key h = elim (Bool-cases (any (λ c. not (ltb c 128)) key)) [
  | inl e ↦ cc
  | inr e ↦ rw (e, beq_refl key)
]

HasKey-require_api_key :
    (configured given : Option Str)
    → HasKey configured given
    → require_api_key configured given ≡ body tt
unfolding require_api_key check_keys
HasKey-require_api_key configured given h =
    rw (h.configured_eq, h.given_eq, h.filled, digest_refl h.key h.ascii)

-- A request passes exactly if the server and the request have the same ASCII key.
pub require_api_key_lem :
    (configured given : Option Str)
    → (require_api_key configured given ≡ body tt) ↔ HasKey configured given
require_api_key_lem configured given =
    (require_api_key-HasKey configured given, HasKey-require_api_key configured given)

-- How a request without the key ends: refused, and with the state as it was.
abbrev pub Refused : {A W : Type 0} → W → Answer A × W → Type 0
Refused w (answer, w') = (w' ≡ w) × ((answer ≡ status 401) ⊎ (answer ≡ raised))

-- Without the key the request is refused; with it, and out of scope, it gets the status 403.
abbrev pub IsGuarded : {A W : Type 0} → Option Str → Option Str → Bool → W → Answer A × W → Type 0
IsGuarded configured given inside w out =
    ((¬ HasKey configured given) × Refused w out)
    ⊎ (HasKey configured given × ((inside ≡ true) ⊎ (out ≡ (status 403, w))))

allowed_by-cases :
    (found : Option Bool)
    → (allowed_by found ≡ body tt) ⊎ (allowed_by found ≡ status 401) ⊎ (allowed_by found ≡ raised)
unfolding allowed_by
allowed_by-cases none = inr (inr refl)
allowed_by-cases (some true) = inl refl
allowed_by-cases (some false) = inr (inl refl)

check_keys-cases :
    (configured given : Option Str)
    → (check_keys configured given ≡ body tt)
      ⊎ (check_keys configured given ≡ status 401)
      ⊎ (check_keys configured given ≡ raised)
unfolding check_keys
check_keys-cases none given = inr (inl refl)
check_keys-cases (some configured) none = inr (inl refl)
check_keys-cases (some configured) (some given) = allowed_by-cases (compare_digest given configured)

require_api_key-cases :
    (configured given : Option Str)
    → (require_api_key configured given ≡ body tt)
      ⊎ (require_api_key configured given ≡ status 401)
      ⊎ (require_api_key configured given ≡ raised)
unfolding require_api_key
require_api_key-cases configured given =
    check_keys-cases (http_api_key configured) (http_api_key given)

no-key :
    (configured given : Option Str) (a : Answer Unit)
    → ¬ (a ≡ body tt)
    → require_api_key configured given ≡ a
    → ¬ HasKey configured given
no-key configured given a other e key = other (sym e ∙ HasKey-require_api_key configured given key)

routed-IsGuarded :
    {A W : Type 0} (configured given : Option Str) (inside : Bool) (route : W → Answer A × W)
    (w : W)
    → (inside ≡ false → route w ≡ (status 403, w))
    → IsGuarded configured given inside w (routed (require_api_key configured given) route w)
unfolding routed
routed-IsGuarded configured given inside route w outside =
    elim (require_api_key-cases configured given) [
      | inl e ↦ inr (
        require_api_key-HasKey configured given e,
        elim (Bool-cases inside) [
          | inl in_scope ↦ inl in_scope
          | inr out ↦ inr (rw (e, outside out))
        ],
      )
      | inr (inl e) ↦
          inl (no-key configured given (status 401) (body-eq 401 tt) e, (rw e, inl (rw e)))
      | inr (inr e) ↦ inl (no-key configured given raised (raised-body tt) e, (rw e, inr (rw e)))
    ]

module _ (host : Host) (dir : PurePath) (G : Git) (L : Logs G) (D : Disk) (config : Config)
    (targets : List Str) where
  history-outside :
      (path : Str) (w : World G D)
      → is_path_in_scope host config path ≡ false
      → answer_of (get_version_list host dir G L D config targets path w) ≡ (status 403, w)
  unfolding get_version_list check_scope then_on answer_of
  history-outside path w h = rw h

  diff-outside :
      (path v1 v2 : Str) (w : World G D)
      → is_path_in_scope host config path ≡ false
      → answer_of (check_diff host dir G L D config targets path v1 v2 w) ≡ (status 403, w)
  unfolding check_diff check_scope then_on answer_of
  diff-outside path v1 v2 w h = rw h

  -- Unless both sides have the same non-empty ASCII key, each of the three routes is refused
  -- and changes nothing. With it, the history and the diff of a path out of scope are refused
  -- with the status 403, and change nothing.
  pub routes-IsGuarded :
      (configured given : Option Str) (rows : List Row) (path v1 v2 : Str) (w : World G D)
      → IsGuarded configured given true w
          (list_sources host dir G L D config targets configured given rows w)
        × IsGuarded configured given
            (is_path_in_scope host config path)
            w
            (history host dir G L D config targets configured given path w)
        × IsGuarded configured given
            (is_path_in_scope host config path)
            w
            (diff host dir G L D config targets configured given path v1 v2 w)
  unfolding list_sources history diff
  routes-IsGuarded configured given rows path v1 v2 w = (
    routed-IsGuarded configured given true _ w (λ h. cc),
    routed-IsGuarded configured given _ _ w (history-outside path w),
    routed-IsGuarded configured given _ _ w (diff-outside path v1 v2 w),
  )
