-- ===== src/Store/Reset.antt =====
-- `reset_stale_indexes` of git_store.py: every mirror repository is reset.
use mathlib.Core.Path.{subst}
use context_os.Base.{
  Bool, true, false, none, some, List, [], ◌∷◌, ◌==◌, ◌≡◌, refl, sym, ap, ◌∙◌, nat_eq, list_eq,
  if◌then◌else◌, Bool-cases, inl, inr, beq_eq,
}
use context_os.Base.Lists.{contains}
use context_os.Base.Text.{Str}
use context_os.Store.Commands.{Reply, done, failed, Git, Session}
use context_os.Store.Operations.{reset_stale_index}
use context_os.Store.Contents.{Objects, IsContent, IsClean, unborn, at}
use context_os.Store.Committed.{IsRooted, reset_stale_index-IsClean}
use context_os.Store.Walk.{Node, repos_at, is_topmost, repos_at-topmost}

module _ (G : Git) where
  -- The repositories by their paths.
  abbrev pub Stores : Type 0
  Stores = List Str → Session G

  abbrev pub put : List Str → Session G → Stores → Stores
  put path s stores = λ p. if path == p then s else stores p

  unfoldable pub resumed :
      Reply Unit × Session G
      → List Str
      → Stores
      → (Stores → Reply Unit × Stores)
      → Reply Unit × Stores
  resumed (done u, s) path stores next = next (put path s stores)
  resumed (failed e, s) path stores next = (failed e, put path s stores)

  unfoldable pub reset_all : List (List Str) → Stores → Reply Unit × Stores
  unfolding resumed reset_stale_index
  reset_all [] stores = (done tt, stores)
  reset_all (path ∷ paths) stores =
      resumed (reset_stale_index G (stores path)) path stores (reset_all paths)

  -- The repositories that are found under the directory are returned too.
  unfoldable pub reset_stale_indexes : Node → Stores → (Reply Unit × Stores) × List (List Str)
  unfolding reset_all repos_at
  reset_stale_indexes base stores = (reset_all (repos_at base) stores, repos_at base)

  module _ (O : Objects G) (law : IsContent O) where
    -- A repository that is reset is clean, with HEAD as before; any other is untouched.
    abbrev pub IsReset : Bool → Session G → Session G → Type 0
    IsReset true s s' = IsClean O s'.repo × (O.head s'.repo ≡ O.head s.repo)
    IsReset false s s' = s' ≡ s

    some-eq : (a b : Str) → some a ≡ some b → a ≡ b
    some-eq a b h = cc

    clean-IsRooted : (r : G.State) → IsClean O r → IsRooted G O law r
    clean-IsRooted r (unborn h e) rev k =
        let wrong : none ≡ some rev = sym h ∙ k in absurd (cc wrong)
    clean-IsRooted r (at rev t h a b) rev' k =
        (t, O.index r, subst (λ x. O.root r x ≡ some t) (some-eq rev rev' (sym h ∙ k)) a, b)

    resumed-done :
        (x : Reply Unit × Session G) (path : List Str) (stores stores' : Stores)
        (next : Stores → Reply Unit × Stores)
        → resumed x path stores next ≡ (done tt, stores')
        → (x ≡ (done tt, x.1)) × (next (put path x.1 stores) ≡ (done tt, stores'))
    unfolding resumed
    resumed-done (done tt, s) path stores stores' next h = (refl, h)
    resumed-done (failed e, s) path stores stores' next h = cc (ap (λ t. t.0) h)

    put-IsRooted :
        (path : List Str) (s : Session G) (stores : Stores)
        → IsRooted G O law s.repo
        → ((p : List Str) → IsRooted G O law (stores p).repo)
        → (p : List Str) → IsRooted G O law (put path s stores p).repo
    put-IsRooted path s stores h k p = elim (Bool-cases (path == p)) [
      | inl e ↦ rw e h
      | inr e ↦ rw e (k p)
    ]

    after_clean :
        (b : Bool) (s s1 s' : Session G)
        → IsClean O s1.repo
        → O.head s1.repo ≡ O.head s.repo
        → IsReset b s1 s'
        → IsReset true s s'
    after_clean true s s1 s' h e x = (x.0, x.1 ∙ e)
    after_clean false s s1 s' h e x =
        (subst (λ t. IsClean O t.repo) (sym x) h, ap (λ t. O.head t.repo) x ∙ e)

    reset_all-IsReset :
        (paths : List (List Str)) (stores stores' : Stores) (q : List Str)
        → reset_all paths stores ≡ (done tt, stores')
        → ((p : List Str) → IsRooted G O law (stores p).repo)
        → IsReset (contains paths q) (stores q) (stores' q)
    unfolding reset_all contains
    reset_all-IsReset [] stores stores' q h rooted = ap (λ (t : Reply Unit × Stores). t.1 q) (sym h)
    reset_all-IsReset (p ∷ ps) stores stores' q h rooted =
        let x = reset_stale_index G (stores p) in
        let (e, later) = resumed-done x p stores stores' (reset_all ps) h in
        let (clean, head) = reset_stale_index-IsClean G O law (stores p) x.1 e (rooted p) in
        let ih =
          reset_all-IsReset ps (put p x.1 stores) stores' q later
            (put-IsRooted p x.1 stores (clean-IsRooted x.1.repo clean) rooted) in
        elim (Bool-cases (p == q)) [
          | inl same ↦ rw same (
              after_clean (contains ps q) (stores q) x.1 (stores' q) clean
                (head ∙ ap (λ t. O.head (stores t).repo) (beq_eq p q same)) (rw same at ih))
          | inr apart ↦ rw apart (rw apart at ih)
        ]

    -- If the reset of all mirror repositories under a directory returns, then exactly those are
    -- reset that the walk leads to, with no repository above them: each is clean, with HEAD as
    -- before, and every other repository is as it was.
    pub reset_stale_indexes_lem :
        (base : Node) (stores stores' : Stores) (path : List Str)
        → (reset_stale_indexes base stores).0 ≡ (done tt, stores')
        → ((p : List Str) → IsRooted G O law (stores p).repo)
        → IsReset (is_topmost path base) (stores path) (stores' path)
    unfolding reset_stale_indexes
    reset_stale_indexes_lem base stores stores' path h rooted =
        subst (λ b. IsReset b (stores path) (stores' path)) (repos_at-topmost path base)
          (reset_all-IsReset (repos_at base) stores stores' path h rooted)
