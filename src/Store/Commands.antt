-- ===== src/Store/Commands.antt =====
-- The commands of git that git_store.py runs in one repository, and `_run_git`, which counts
-- them.
use context_os.Base.{ℕ, suc, Bool, Option, List}
use context_os.Base.Text.{Str}

-- How a call ends: an exception of a command (its exit code, its time limit, or
-- no binary), of
-- `_require_initialized`, of `init_repo`, of an unpacking that does not fit, or of
-- `write_with_check`, with the current revision.
pub data Error : Type 0 where
  git_failed timed_out file_not_found repo_not_initialized git_not_available malformed_output :
      Error
  concurrent_edit : (current : Option Str) → Error

pub data Reply (A : Type 0) : Type 0 where
  done : A → Reply A
  failed : Error → Reply A

abbrev pub Bytes : Type 0
Bytes = List ℕ

-- A command reads and writes the repository, and may fail or time out; what it did before
-- that stays done. A command that is run with `check=False` answers none for an exit code that
-- is not 0.
abbrev pub Command : Type 0 → Type 0 → Type 0
Command S A = S → Reply A × S

pub record Git : Type 1 where
  pub State : Type 0
  pub is_initialized : State → Bool
  pub hash_object : Bytes → Command State Str
  -- `update-index --add --cacheinfo`, for a mode, a hash and a path.
  pub update_index : Str → Str → Str → Command State Unit
  -- `rm --cached -r --ignore-unmatch`
  pub rm_cached : Str → Command State Unit
  pub write_tree : Command State Str
  pub rev_parse_head : Command State (Option Str)
  pub tree_of : Str → Command State Str
  -- `commit-tree`, for a tree, a parent, a message and an author.
  pub commit_tree : Str → Option Str → Str → Str → Command State Str
  pub update_ref_head : Str → Command State Unit
  pub log_rev : Str → Command State (Option Str)
  pub cat_file_exists : Str → Str → Command State Bool
  pub ls_tree : Str → Str → Command State (Str × Str)
  pub read_tree : Str → Command State Unit
  pub read_tree_empty : Command State Unit
  pub show : Str → Str → Command State Bytes

-- A repository, and how many commands have been run.
pub record Session (G : Git) : Type 0 where
  pub repo : G.State
  pub calls : ℕ

module _ (G : Git) where
  abbrev pub Action : Type 0 → Type 0
  Action A = Session G → Reply A × Session G

module _ {G : Git} {A B : Type 0} where
  unfoldable pub after : Reply A × Session G → (A → Action G B) → Reply B × Session G
  after (done a, s) f = f a s
  after (failed e, s) f = (failed e, s)

  infixl 5 ◌>>=◌
  abbrev pub ◌>>=◌ : Action G A → (A → Action G B) → Action G B
  m >>= f = λ s. after (m s) f

module _ {G : Git} {A : Type 0} where
  abbrev pub give : A → Action G A
  give a s = (done a, s)

  abbrev pub fail : Error → Action G A
  fail e s = (failed e, s)

  -- `_run_git`
  unfoldable pub run_git : Command G.State A → Action G A
  run_git command s =
      let (reply, repo) = command s.repo in (reply, record { repo = repo; calls = suc s.calls })
