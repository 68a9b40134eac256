-- ===== src/Store/Contents.antt =====
-- What a commit of git_store.py holds: the objects, the index and HEAD.
use context_os.Base.{
  Option, none, some, ◌==◌, ◌≡◌, refl, ap, nat_eq, list_eq, if◌then◌else◌, Bool-cases, inl, inr,
}
use context_os.Base.Text.{Str}
use context_os.Store.Commands.{
  Reply, done, failed, Bytes, Command, Git, Session, Action, after, run_git,
}
use context_os.Store.Operations.{require_initialized}

-- The blob at each path.
abbrev pub Entries : Type 0
Entries = Str → Option Str

-- The objects of a repository, the blobs that are staged, and HEAD.
pub record Objects (G : Git) : Type 0 where
  pub blob : G.State → Str → Option Bytes
  pub tree : G.State → Str → Option Entries
  pub root : G.State → Str → Option Str
  pub index : G.State → Entries
  pub head : G.State → Option Str

module _ {G : Git} (O : Objects G) where
  -- No object is lost or changed.
  pub record Grows (r r' : G.State) : Type 0 where
    pub blob :
        (sha : Str) (content : Bytes) → O.blob r sha ≡ some content → O.blob r' sha ≡ some content
    pub tree : (sha : Str) (f : Entries) → O.tree r sha ≡ some f → O.tree r' sha ≡ some f
    pub root : (rev t : Str) → O.root r rev ≡ some t → O.root r' rev ≡ some t

  -- How each command works, where it returns: `hash-object` stores a blob, `update-index` stages
  -- an entry, `write-tree` stores the index as a tree, `commit-tree` a commit of a tree, and
  -- `update-ref` sets HEAD; `rev-parse` reads HEAD or the tree of a commit; `read-tree` sets the
  -- index to the tree of a commit or to nothing. What is not named stays.
  pub record IsContent : Type 0 where
    pub hash_object :
        (content : Bytes) (r r' : G.State) (sha : Str)
        → G.hash_object content r ≡ (done sha, r')
        → Grows r r' × (O.blob r' sha ≡ some content) × (O.index r' ≡ O.index r)
    pub update_index :
        (mode sha path : Str) (r r' : G.State)
        → G.update_index mode sha path r ≡ (done tt, r')
        → Grows r r' × ((p : Str) → O.index r' p ≡ (if path == p then some sha else O.index r p))
    pub write_tree :
        (r r' : G.State) (t : Str)
        → G.write_tree r ≡ (done t, r')
        → Grows r r' × (O.tree r' t ≡ some (O.index r)) × (O.index r' ≡ O.index r)
    pub rev_parse_head :
        (r r' : G.State) (found : Option Str)
        → G.rev_parse_head r ≡ (done found, r')
        → Grows r r' × (O.head r' ≡ found) × (O.index r' ≡ O.index r) × (O.head r ≡ found)
    pub tree_of :
        (rev t : Str) (r r' : G.State)
        → G.tree_of rev r ≡ (done t, r')
        → Grows r r' × (O.root r' rev ≡ some t) × (O.index r' ≡ O.index r) × (O.head r' ≡ O.head r)
    pub commit_tree :
        (t : Str) (parent : Option Str) (message author rev : Str) (r r' : G.State)
        → G.commit_tree t parent message author r ≡ (done rev, r')
        → Grows r r' × (O.root r' rev ≡ some t) × (O.index r' ≡ O.index r)
    pub update_ref :
        (rev : Str) (r r' : G.State)
        → G.update_ref_head rev r ≡ (done tt, r')
        → Grows r r' × (O.head r' ≡ some rev) × (O.index r' ≡ O.index r)
    pub read_tree :
        (rev t : Str) (f : Entries) (r r' : G.State)
        → G.read_tree rev r ≡ (done tt, r')
        → O.root r rev ≡ some t
        → O.tree r t ≡ some f
        → Grows r r' × (O.head r' ≡ O.head r) × (O.index r' ≡ f)
    pub read_tree_empty :
        (r r' : G.State)
        → G.read_tree_empty r ≡ (done tt, r')
        → (O.head r' ≡ O.head r) × (O.index r' ≡ (λ p. none))

  -- The index is the tree of the commit at HEAD, or nothing where there is none.
  pub data IsClean (r : G.State) : Type 0 where
    unborn : O.head r ≡ none → O.index r ≡ (λ p. none) → IsClean r
    at :
        (rev t : Str)
        → O.head r ≡ some rev
        → O.root r rev ≡ some t
        → O.tree r t ≡ some (O.index r)
        → IsClean r

module _ (G : Git) where
  pub after-done :
      {A B : Type 0} (x : Reply A × Session G) (f : A → Action G B) (b : B) (s' : Session G)
      → after x f ≡ (done b, s')
      → (a : A) × (s : Session G) × (x ≡ (done a, s)) × (f a s ≡ (done b, s'))
  unfolding after
  after-done (done a, s) f b s' h = (a, s, refl, h)
  after-done (failed e, s) f b s' h = cc

  done-eq : {A : Type 0} (a b : A) → done a ≡ done b → a ≡ b
  done-eq a b h = cc

  -- Two returns that are equal return the same.
  pub returned-eq :
      {A : Type 0} (a b : A) (s s' : Session G)
      → ◌≡◌ {A = Reply A × Session G} (done a, s) (done b, s')
      → (a ≡ b) × (s.repo ≡ s'.repo)
  returned-eq {A} a b s s' h = (done-eq a b (ap (λ x. x.0) h), ap (λ x. x.1.repo) h)

  pub run_git-done :
      {A : Type 0} (command : Command G.State A) (a : A) (s s' : Session G)
      → run_git command s ≡ (done a, s')
      → command s.repo ≡ (done a, s'.repo)
  unfolding run_git
  run_git-done command a s s' h =
      let first : (command s.repo).0 ≡ done a = ap (λ t. t.0) h in
      let second : (command s.repo).1 ≡ s'.repo = ap (λ t. t.1.repo) h in λ i. (first i, second i)

  -- A chain that returns has run its first command, which returned, and then the rest.
  pub run-done :
      {A B : Type 0} (command : Command G.State A) (f : A → Action G B) (b : B) (s s' : Session G)
      → after (run_git command s) f ≡ (done b, s')
      → (a : A) × (s1 : Session G) × (command s.repo ≡ (done a, s1.repo)) × (f a s1 ≡ (done b, s'))
  run-done command f b s s' h =
      let (a, s1, e, h1) = after-done (run_git command s) f b s' h in
      (a, s1, run_git-done command a s s1 e, h1)

  pub ready-done : (s s' : Session G) → require_initialized G s ≡ (done tt, s') → s ≡ s'
  unfolding require_initialized
  ready-done s s' h = elim (Bool-cases (G.is_initialized s.repo)) [
    | inl e ↦ ap (λ t. t.1) (rw e at h)
    | inr e ↦ let wrong = rw e at h in cc
  ]
