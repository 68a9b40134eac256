-- ===== src/Store/Calls.antt =====
-- How many commands the operations run under the lock, against `GIT_TIMEOUT` and `LOCK_TIMEOUT`.
use context_os.Base.{
  ℕ, suc, ◌+◌, ◌*◌, ◌≤◌, ◌<◌, Bool, true, false, Option, none, some, ◌≡◌, refl, sym, ap, arith,
  ◌==◌, nat_eq, list_eq, Bool-cases, inl, inr,
}
use context_os.Base.Text.{Str, str}
use context_os.Store.Commands.{
  Reply, done, failed, Bytes, Command, Git, Session, Action, after, ◌>>=◌, give, run_git,
}
use context_os.Store.Operations.{
  require_initialized, commit, commit_changed, write, path_exists_at_rev, is_tracked,
  commit_removed, remove, commit_moved, move,
}

-- In seconds.
abbrev pub git_timeout : ℕ
git_timeout = 4

abbrev pub lock_timeout : ℕ
lock_timeout = 30

module _ {G : Git} where
  -- The action runs at most so many commands, however it ends.
  pub record IsWithin {A : Type 0} (n : ℕ) (m : Action G A) : Type 0 where
    pub bound : (s : Session G) → (m s).1.calls ≤ s.calls + n

  within_after :
      {A B : Type 0} (n : ℕ) (x : Reply A × Session G) (f : A → Action G B) (c : ℕ)
      → x.1.calls ≤ c
      → ((a : A) → IsWithin n (f a))
      → (after x f).1.calls ≤ c + n
  unfolding after
  within_after n (done a, s) f c h k = ground (arith, (k a).bound s)
  within_after n (failed e, s) f c h k = omega arith

  IsWithin-then :
      {A B : Type 0} (n k : ℕ) {m : Action G A} {f : A → Action G B}
      → IsWithin n m
      → ((a : A) → IsWithin k (f a))
      → IsWithin (n + k) (m >>= f)
  IsWithin-then n k {m} {f} h g = record {
    bound = λ s. ground (arith, within_after k (m s) f (s.calls + n) (h.bound s) g);
  }

  IsWithin-run : {A : Type 0} (command : Command G.State A) → IsWithin 1 (run_git command)
  unfolding run_git
  IsWithin-run command = record { bound = λ s. omega arith }

  IsWithin-give : {A : Type 0} (a : A) → IsWithin 0 (give {G = G} a)
  IsWithin-give a = record { bound = λ s. omega arith }

  IsWithin-more : {A : Type 0} (n k : ℕ) {m : Action G A} → n ≤ k → IsWithin n m → IsWithin k m
  IsWithin-more n k {m} h w = record { bound = λ s. ground (arith, w.bound s) }

module _ (G : Git) where
  IsWithin-ready : IsWithin 0 (require_initialized G)
  unfolding require_initialized
  IsWithin-ready = record {
    bound = λ s. elim (Bool-cases (G.is_initialized s.repo)) [
      | inl e ↦ rw e (omega arith)
      | inr e ↦ rw e (omega arith)
    ];
  }

  IsWithin-commit :
      (tree : Str) (parent : Option Str) (message author : Str)
      → IsWithin 2 (commit G tree parent message author)
  unfolding commit
  IsWithin-commit tree parent message author =
      IsWithin-then 1 1 (IsWithin-run (G.commit_tree tree parent message author)) λ new_rev.
        IsWithin-then 1 0 (IsWithin-run (G.update_ref_head new_rev))
          λ updated. IsWithin-give new_rev

  IsWithin-commit_changed :
      (tree : Str) (parent : Option Str) (message author : Str)
      → IsWithin 3 (commit_changed G tree parent message author)
  unfolding commit_changed
  IsWithin-commit_changed tree none message author =
      IsWithin-more 2 3 (omega arith) (IsWithin-commit tree none message author)
  IsWithin-commit_changed tree (some parent) message author =
      IsWithin-then 1 2 (IsWithin-run (G.tree_of parent)) λ old_tree.
        elim (Bool-cases (tree == old_tree)) [
          | inl e ↦ rw e (IsWithin-more 0 2 (omega arith) (IsWithin-give parent))
          | inr e ↦ rw e (IsWithin-commit tree (some parent) message author)
        ]

  IsWithin-write :
      (relpath : Str) (content : Bytes) (message author : Str)
      → IsWithin 7 (write G relpath content message author)
  unfolding write
  IsWithin-write relpath content message author = IsWithin-then 0 7 IsWithin-ready λ ready.
      IsWithin-then 1 6 (IsWithin-run (G.hash_object content)) λ blob_sha.
        IsWithin-then 1 5 (IsWithin-run (G.update_index (str "100644") blob_sha relpath)) λ staged.
          IsWithin-then 1 4 (IsWithin-run G.write_tree) λ new_tree.
            IsWithin-then 1 3 (IsWithin-run G.rev_parse_head)
              λ parent. IsWithin-commit_changed new_tree parent message author

  IsWithin-tracked : (relpath : Str) (rev : Option Str) → IsWithin 1 (is_tracked G relpath rev)
  unfolding is_tracked path_exists_at_rev
  IsWithin-tracked relpath none = IsWithin-more 0 1 (omega arith) (IsWithin-give false)
  IsWithin-tracked relpath (some parent) =
      IsWithin-then 0 1 IsWithin-ready λ ready. IsWithin-run (G.cat_file_exists parent relpath)

  IsWithin-commit_removed :
      (b : Bool) (parent : Option Str) (relpath message author : Str)
      → IsWithin 4 (commit_removed G b parent relpath message author)
  unfolding commit_removed
  IsWithin-commit_removed false parent relpath message author =
      IsWithin-more 0 4 (omega arith) (IsWithin-give none)
  IsWithin-commit_removed true parent relpath message author =
      IsWithin-then 1 3 (IsWithin-run (G.rm_cached relpath)) λ removed.
        IsWithin-then 1 2 (IsWithin-run G.write_tree) λ new_tree.
          IsWithin-then 2 0 (IsWithin-commit new_tree parent message author)
            λ new_rev. IsWithin-give (some new_rev)

  IsWithin-commit_moved :
      (b : Bool) (parent : Option Str) (src dst message author : Str)
      → IsWithin 6 (commit_moved G b parent src dst message author)
  unfolding commit_moved
  IsWithin-commit_moved true (some parent) src dst message author =
      IsWithin-then 1 5 (IsWithin-run (G.ls_tree parent src)) λ entry.
        IsWithin-then 1 4 (IsWithin-run (G.update_index entry.0 entry.1 dst))
          λ staged. IsWithin-commit_removed true (some parent) src message author
  IsWithin-commit_moved true none src dst message author =
      IsWithin-more 0 6 (omega arith) (IsWithin-give none)
  IsWithin-commit_moved false parent src dst message author =
      IsWithin-more 0 6 (omega arith) (IsWithin-give none)

  IsWithin-remove : (relpath message author : Str) → IsWithin 6 (remove G relpath message author)
  unfolding remove
  IsWithin-remove relpath message author = IsWithin-then 0 6 IsWithin-ready λ ready.
      IsWithin-then 1 5 (IsWithin-run G.rev_parse_head) λ parent.
        IsWithin-then 1 4 (IsWithin-tracked relpath parent)
          λ tracked. IsWithin-commit_removed tracked parent relpath message author

  IsWithin-move : (src dst message author : Str) → IsWithin 8 (move G src dst message author)
  unfolding move
  IsWithin-move src dst message author = IsWithin-then 0 8 IsWithin-ready λ ready.
      IsWithin-then 1 7 (IsWithin-run G.rev_parse_head) λ parent.
        IsWithin-then 1 6 (IsWithin-tracked src parent)
          λ tracked. IsWithin-commit_moved tracked parent src dst message author

  -- However they end, `write` runs at most seven commands under the lock, `remove` at most six
  -- and `move` at most eight. So the time limits of the commands of one `write` or `remove` add
  -- up to less than the time that another process waits for the lock.
  pub calls_bounded :
      (src dst : Str) (content : Bytes) (message author : Str) (s : Session G)
      → ((write G src content message author s).1.calls ≤ s.calls + 7)
        × ((remove G src message author s).1.calls ≤ s.calls + 6)
        × ((move G src dst message author s).1.calls ≤ s.calls + 8)
        × (git_timeout * 7 < lock_timeout)
  calls_bounded src dst content message author s = (
    (IsWithin-write src content message author).bound s,
    (IsWithin-remove src message author).bound s,
    (IsWithin-move src dst message author).bound s,
    omega arith,
  )

module _ {G : Git} where
  -- A call that returned was made up of calls that did.
  after_done :
      {A B : Type 0} (x : Reply A × Session G) (f : A → Action G B) (b : B) (s' : Session G)
      → after x f ≡ (done b, s')
      → (a : A) × (s1 : Session G) × (x ≡ (done a, s1)) × (f a s1 ≡ (done b, s'))
  unfolding after
  after_done (done a, s) f b s' h = (a, s, refl, h)
  after_done (failed e, s) f b s' h = cc

  run_done :
      {A : Type 0} (command : Command G.State A) (s : Session G) (a : A) (s' : Session G)
      → run_git command s ≡ (done a, s')
      → s'.calls ≡ suc s.calls
  unfolding run_git
  run_done command s a s' h = sym (ap (λ x. x.1.calls) h)

  -- The action runs exactly so many commands where it returns what passes the test.
  pub record Takes {A : Type 0} (n : ℕ) (test : A → Bool) (m : Action G A) : Type 0 where
    pub exact :
        (s : Session G) (a : A) (s' : Session G)
        → m s ≡ (done a, s')
        → test a ≡ true
        → s'.calls ≡ s.calls + n

  Takes-then :
      {A B : Type 0} (n k : ℕ) (first : A → Bool) (test : B → Bool) {m : Action G A}
      {f : A → Action G B}
      → ((a : A) → first a ≡ true)
      → Takes n first m
      → ((a : A) → Takes k test (f a))
      → Takes (n + k) test (m >>= f)
  Takes-then n k first test {m} {f} all h g = record {
    exact = λ s b s' e t.
        let (a, s1, p, q) = after_done (m s) f b s' e in
        ground (arith, h.exact s a s1 p (all a), (g a).exact s1 b s' q t);
  }

  Takes-run : {A : Type 0} (command : Command G.State A) → Takes 1 (λ a. true) (run_git command)
  Takes-run command = record { exact = λ s a s' e t. ground (arith, run_done command s a s' e) }

abbrev is_some : {A : Type 0} → Option A → Bool
is_some none = false
is_some (some a) = true

module _ (G : Git) where
  Takes-ready : Takes 0 (λ a. true) (require_initialized G)
  unfolding require_initialized
  Takes-ready = record {
    exact = λ s a s' e t. elim (Bool-cases (G.is_initialized s.repo)) [
      | inl i ↦ ground arith
      | inr i ↦ ground arith
    ];
  }

  -- Where nothing was tracked, no revision is returned.
  Takes-none : (n : ℕ) → Takes n is_some (give {G = G} {A = Option Str} none)
  Takes-none n = record { exact = λ s a s' e t. ground arith }

  Takes-give : {A : Type 0} (test : A → Bool) (a : A) → Takes 0 test (give {G = G} a)
  Takes-give test a = record { exact = λ s b s' e t. ground (arith, ap (λ x. x.1.calls) e) }

  Takes-commit :
      (tree : Str) (parent : Option Str) (message author : Str)
      → Takes 2 (λ a. true) (commit G tree parent message author)
  unfolding commit
  Takes-commit tree parent message author =
      Takes-then 1 1 (λ a. true) (λ a. true) (λ a. refl)
        (Takes-run (G.commit_tree tree parent message author))
        λ new_rev.
          Takes-then 1 0 (λ a. true) (λ a. true) (λ a. refl) (Takes-run (G.update_ref_head new_rev))
            λ updated. Takes-give (λ a. true) new_rev

  Takes-commit_moved :
      (b : Bool) (parent : Option Str) (src dst message author : Str)
      → Takes 6 is_some (commit_moved G b parent src dst message author)
  unfolding commit_moved commit_removed
  Takes-commit_moved true (some parent) src dst message author =
      Takes-then 1 5 (λ a. true) is_some (λ a. refl) (Takes-run (G.ls_tree parent src))
        λ entry.
          Takes-then 1 4 (λ a. true) is_some (λ a. refl)
            (Takes-run (G.update_index entry.0 entry.1 dst))
            λ staged.
              Takes-then 1 3 (λ a. true) is_some (λ a. refl) (Takes-run (G.rm_cached src))
                λ removed.
                  Takes-then 1 2 (λ a. true) is_some (λ a. refl) (Takes-run G.write_tree)
                    λ new_tree.
                      Takes-then 2 0 (λ a. true) is_some (λ a. refl)
                        (Takes-commit new_tree (some parent) message author)
                        λ new_rev. Takes-give is_some (some new_rev)
  Takes-commit_moved true none src dst message author = Takes-none 6
  Takes-commit_moved false parent src dst message author = Takes-none 6

  Takes-rest :
      (parent : Option Str) (src dst message author : Str)
      → Takes 7 is_some (
          is_tracked G src parent >>= λ tracked.
          commit_moved G tracked parent src dst message author)
  unfolding is_tracked path_exists_at_rev commit_moved after
  Takes-rest none src dst message author = Takes-none 7
  Takes-rest (some parent) src dst message author =
      Takes-then 1 6 (λ a. true) is_some (λ a. refl)
        (Takes-then 0 1 (λ a. true) (λ a. true) (λ a. refl) Takes-ready
          λ ready. Takes-run (G.cat_file_exists parent src))
        λ tracked. Takes-commit_moved tracked (some parent) src dst message author

  Takes-move : (src dst message author : Str) → Takes 8 is_some (move G src dst message author)
  unfolding move
  Takes-move src dst message author =
      Takes-then 0 8 (λ a. true) is_some (λ a. refl) Takes-ready
        λ ready.
          Takes-then 1 7 (λ a. true) is_some (λ a. refl) (Takes-run G.rev_parse_head)
            λ parent. Takes-rest parent src dst message author

  -- Every `move` that makes a commit has run eight commands under the lock, whose time limits
  -- together are longer than the time that another process waits for the lock.
  pub move_calls :
      (src dst message author rev : Str) (s s' : Session G)
      → move G src dst message author s ≡ (done (some rev), s')
      → (s'.calls ≡ s.calls + 8) × (lock_timeout < git_timeout * 8)
  move_calls src dst message author rev s s' h =
      ((Takes-move src dst message author).exact s (some rev) s' h refl, omega arith)
