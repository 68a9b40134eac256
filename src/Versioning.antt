-- ===== src/Versioning.antt =====
-- vcs/services/versioning.py: what the handlers share. The mirror store is an interface, which
-- vcs/services/git_store.py fills.
pub mod Tables
pub mod Handlers
pub mod Sync
pub mod Trees
pub mod Hints
pub mod Registered
pub mod Appended
pub mod Created
use context_os.Base.{
  ℕ, Bool, true, false, Option, none, some, List, [], ◌∷◌, ◌++◌, ◌==◌, nat_eq, list_eq,
  if◌then◌else◌,
}
use context_os.Base.Text.{Str, str}
use context_os.Paths.Pure.{PurePath}

-- How a statement ends: it returns, or it raises. What was done before that stays done.
pub data Outcome (W : Type 0) : Type 0 where
  returned : W → Outcome W
  raised : W → Outcome W

infixl 5 ◌>>=◌
abbrev pub ◌>>=◌ : {W : Type 0} → Outcome W → (W → Outcome W) → Outcome W
Outcome.returned w >>= f = f w
Outcome.raised w >>= f = Outcome.raised w

-- `event.actor or "unknown:filesystem"`
unfoldable pub actor_or_unknown : Option Str → Str
actor_or_unknown none = str "unknown:filesystem"
actor_or_unknown (some []) = str "unknown:filesystem"
actor_or_unknown (some (c ∷ s)) = c ∷ s

-- `actor.partition(":")[0]`
unfoldable pub before_colon : Str → Str
before_colon [] = []
before_colon (c ∷ s) = let rest = before_colon s in if c == b':' then [] else c ∷ rest

-- The label and the author.
unfoldable pub resolve_actor : Option Str → Str × Str
unfolding actor_or_unknown before_colon
resolve_actor event_actor =
    let actor = actor_or_unknown event_actor in
    (actor, actor ++ str " <" ++ before_colon actor ++ str "@chrono-ctx.local>")

abbrev pub Bytes : Type 0
Bytes = List ℕ

-- The calls of git_store: a repository, a path in it, a message and an author.
pub record GitStore : Type 1 where
  pub State : Type 0
  pub init_repo : PurePath → State → Outcome State
  pub write : PurePath → Str → Bytes → Str → Str → State → Outcome State
  pub remove : PurePath → Str → Str → Str → State → Outcome State
  pub move : PurePath → Str → Str → Str → Str → State → Outcome State
  pub head_rev : PurePath → Str → State → Option Str
  pub path_exists_at_head : PurePath → Str → State → Bool
  pub show_head : PurePath → Str → State → Bytes
