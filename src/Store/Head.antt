-- ===== src/Store/Head.antt =====
-- What the operations do to HEAD.
use mathlib.Core.Path.{subst}
use context_os.Base.{
  Bool, true, false, Option, none, some, ◌≡◌, refl, sym, ◌∙◌, ap, ◌==◌, nat_eq, list_eq, Bool-cases,
  inl, inr,
}
use context_os.Base.Text.{Str, str}
use context_os.Store.Commands.{
  Error, Reply, done, failed, Bytes, Command, Git, Session, Action, after, ◌>>=◌, give, run_git,
}
use context_os.Store.Operations.{
  require_initialized, commit, commit_changed, write, path_exists_at_rev, is_tracked,
  commit_removed, remove, commit_moved, move,
}

-- What git documents of HEAD: `update-ref` sets it or fails and leaves it, the other commands
-- leave it, and `rev-parse` reads it.
pub record IsGit (G : Git) : Type 0 where
  pub head : G.State → Option Str
  pub hash_object-head : (content : Bytes) (r : G.State) → head (G.hash_object content r).1 ≡ head r
  pub update_index-head :
      (mode sha path : Str) (r : G.State) → head (G.update_index mode sha path r).1 ≡ head r
  pub rm_cached-head : (path : Str) (r : G.State) → head (G.rm_cached path r).1 ≡ head r
  pub write_tree-head : (r : G.State) → head (G.write_tree r).1 ≡ head r
  pub rev_parse-head : (r : G.State) → head (G.rev_parse_head r).1 ≡ head r
  pub rev_parse-reads :
      (r : G.State) (found : Option Str) → (G.rev_parse_head r).0 ≡ done found → head r ≡ found
  pub tree_of-head : (rev : Str) (r : G.State) → head (G.tree_of rev r).1 ≡ head r
  pub commit_tree-head :
      (tree : Str) (parent : Option Str) (message author : Str) (r : G.State)
      → head (G.commit_tree tree parent message author r).1 ≡ head r
  pub cat_file-head :
      (rev path : Str) (r : G.State) → head (G.cat_file_exists rev path r).1 ≡ head r
  pub ls_tree-head : (rev path : Str) (r : G.State) → head (G.ls_tree rev path r).1 ≡ head r
  pub update_ref-sets :
      (rev : Str) (r : G.State)
      → (G.update_ref_head rev r).0 ≡ done tt
      → head (G.update_ref_head rev r).1 ≡ some rev
  pub update_ref-leaves :
      (rev : Str) (r : G.State) (e : Error)
      → (G.update_ref_head rev r).0 ≡ failed e
      → head (G.update_ref_head rev r).1 ≡ head r

module _ (G : Git) (is_git : IsGit G) where
  abbrev pub head_of : Session G → Option Str
  head_of s = is_git.head s.repo

  -- The revision that HEAD is at after an answer, for a HEAD before: an answer may name one.
  abbrev pub or_before : Option Str → Option Str → Option Str
  or_before none before = before
  or_before (some rev) before = some rev

  abbrev pub head_after : {A : Type 0} → (A → Option Str) → Option Str → Reply A → Option Str
  head_after target before (done a) = or_before (target a) before
  head_after target before (failed e) = before

  pub record Ends {A : Type 0} (target : A → Option Str) (before : Option Str) (m : Action G A)
      : Type 0 where
    pub ends :
        (s : Session G) → head_of s ≡ before → head_of (m s).1 ≡ head_after target before (m s).0

  pub record Keeps {A : Type 0} (m : Action G A) : Type 0 where
    pub keeps : (s : Session G) → head_of (m s).1 ≡ head_of s

  run-Keeps :
      {A : Type 0} (command : Command G.State A)
      → ((r : G.State) → is_git.head (command r).1 ≡ is_git.head r)
      → Keeps (run_git command)
  unfolding run_git
  run-Keeps command h = record { keeps = λ s. h s.repo }

  Ends-after :
      {A B : Type 0} (target : B → Option Str) (before : Option Str) (x : Reply A × Session G)
      (f : A → Action G B)
      → head_of x.1 ≡ before
      → ((a : A) → x.0 ≡ done a → Ends target before (f a))
      → head_of (after x f).1 ≡ head_after target before (after x f).0
  unfolding after
  Ends-after target before (done a, s) f h k = (k a refl).ends s h
  Ends-after target before (failed e, s) f h k = h

  Ends-then :
      {A B : Type 0} (target : B → Option Str) (before : Option Str) {m : Action G A}
      {f : A → Action G B}
      → Keeps m
      → ((a : A) → Ends target before (f a))
      → Ends target before (m >>= f)
  Ends-then target before {m} {f} h g = record {
    ends = λ s e. Ends-after target before (m s) f (h.keeps s ∙ e) (λ a p. g a);
  }

  -- The continuation of `rev-parse` is given HEAD.
  Ends-read :
      {B : Type 0} (target : B → Option Str) (before : Option Str) (f : Option Str → Action G B)
      → Ends target before (f before)
      → Ends target before (run_git G.rev_parse_head >>= f)
  unfolding run_git
  Ends-read target before f g = record {
    ends = λ s e.
        Ends-after target before (run_git G.rev_parse_head s) f (is_git.rev_parse-head s.repo ∙ e)
          (λ a p.
            subst (λ x. Ends target before (f x)) (sym e ∙ is_git.rev_parse-reads s.repo a p) g);
  }

  Ends-give :
      {A : Type 0} (target : A → Option Str) (before : Option Str) (a : A)
      → or_before (target a) before ≡ before
      → Ends target before (give a)
  Ends-give target before a h = record { ends = λ s e. e ∙ sym h }

  ready-Keeps : Keeps (require_initialized G)
  unfolding require_initialized
  ready-Keeps = record {
    keeps =
        λ s. elim (Bool-cases (G.is_initialized s.repo)) [ inl e ↦ rw e refl | inr e ↦ rw e refl ];
  }

  update_answer :
      {B : Type 0} (target : B → Option Str) (before : Option Str) (rev : Str) (b : B)
      (x : Reply Unit × Session G)
      → target b ≡ some rev
      → (x.0 ≡ done tt → head_of x.1 ≡ some rev)
      → ((e : Error) → x.0 ≡ failed e → head_of x.1 ≡ before)
      → head_of (after x (λ updated. give b)).1
        ≡ head_after target before (after x (λ updated. give b)).0
  unfolding after
  update_answer target before rev b (done u, s) t h k =
      h refl ∙ ap (λ o. or_before o before) (sym t)
  update_answer target before rev b (failed e, s) t h k = k e refl

  -- `update-ref` and the answer after it.
  Ends-update :
      {B : Type 0} (target : B → Option Str) (before : Option Str) (rev : Str) (b : B)
      → target b ≡ some rev
      → Ends target before (run_git (G.update_ref_head rev) >>= λ updated. give b)
  unfolding run_git
  Ends-update target before rev b t = record {
    ends = λ s e.
        update_answer target before rev b (run_git (G.update_ref_head rev) s) t
          (is_git.update_ref-sets rev s.repo) (λ x p. is_git.update_ref-leaves rev s.repo x p ∙ e);
  }

  Ends-commit :
      (before : Option Str) (tree : Str) (parent : Option Str) (message author : Str)
      → Ends some before (commit G tree parent message author)
  unfolding commit
  Ends-commit before tree parent message author =
      Ends-then some before
        (run-Keeps (G.commit_tree tree parent message author)
          (is_git.commit_tree-head tree parent message author))
        λ new_rev. Ends-update some before new_rev new_rev refl

  Ends-commit_changed :
      (before : Option Str) (tree message author : Str)
      → Ends some before (commit_changed G tree before message author)
  unfolding commit_changed
  Ends-commit_changed none tree message author = Ends-commit none tree none message author
  Ends-commit_changed (some parent) tree message author =
      Ends-then some (some parent) (run-Keeps (G.tree_of parent) (is_git.tree_of-head parent))
        λ old_tree. elim (Bool-cases (tree == old_tree)) [
          | inl e ↦ rw e (Ends-give some (some parent) parent refl)
          | inr e ↦ rw e (Ends-commit (some parent) tree (some parent) message author)
        ]

  Ends-write :
      (before : Option Str) (relpath : Str) (content : Bytes) (message author : Str)
      → Ends some before (write G relpath content message author)
  unfolding write
  Ends-write before relpath content message author = Ends-then some before ready-Keeps λ ready.
      Ends-then some before (run-Keeps (G.hash_object content) (is_git.hash_object-head content))
        λ blob_sha.
          Ends-then some before
            (run-Keeps (G.update_index (str "100644") blob_sha relpath)
              (is_git.update_index-head (str "100644") blob_sha relpath))
            λ staged.
              Ends-then some before (run-Keeps G.write_tree is_git.write_tree-head) λ new_tree.
                Ends-read some before (λ parent. commit_changed G new_tree parent message author)
                  (Ends-commit_changed before new_tree message author)

  -- `write` is all or nothing for HEAD: where it returns a revision, HEAD is at that revision,
  -- which may be the one that it was at before; where it fails, at whatever command, HEAD is
  -- where it was.
  pub write-head :
      (relpath : Str) (content : Bytes) (message author : Str) (s : Session G)
      → head_of (write G relpath content message author s).1
        ≡ head_after some (head_of s) (write G relpath content message author s).0
  write-head relpath content message author s =
      (Ends-write (head_of s) relpath content message author).ends s refl

  some-after :
      (before : Option Str) (x : Reply Str × Session G)
      → head_of x.1 ≡ head_after some before x.0
      → head_of (after x (λ rev. give (some rev))).1
        ≡ head_after (λ o. o) before (after x (λ rev. give (some rev))).0
  unfolding after
  some-after before (done rev, s) h = h
  some-after before (failed e, s) h = h

  Ends-some :
      (before : Option Str) (m : Action G Str)
      → Ends some before m
      → Ends (λ o. o) before (m >>= λ rev. give (some rev))
  Ends-some before m h = record { ends = λ s e. some-after before (m s) (h.ends s e) }

  Keeps-after :
      {A B : Type 0} (before : Option Str) (x : Reply A × Session G) (f : A → Action G B)
      → head_of x.1 ≡ before
      → ((a : A) → Keeps (f a))
      → head_of (after x f).1 ≡ before
  unfolding after
  Keeps-after before (done a, s) f h k = (k a).keeps s ∙ h
  Keeps-after before (failed e, s) f h k = h

  tracked-Keeps : (relpath : Str) (rev : Option Str) → Keeps (is_tracked G relpath rev)
  unfolding is_tracked path_exists_at_rev
  tracked-Keeps relpath none = record { keeps = λ s. refl }
  tracked-Keeps relpath (some rev) = record {
    keeps = λ s.
        Keeps-after (head_of s) (require_initialized G s)
          (λ ready. run_git (G.cat_file_exists rev relpath)) (ready-Keeps.keeps s)
          (λ ready. run-Keeps (G.cat_file_exists rev relpath) (is_git.cat_file-head rev relpath));
  }

  Ends-removed :
      (b : Bool) (before parent : Option Str) (relpath message author : Str)
      → Ends (λ o. o) before (commit_removed G b parent relpath message author)
  unfolding commit_removed
  Ends-removed false before parent relpath message author = Ends-give (λ o. o) before none refl
  Ends-removed true before parent relpath message author =
      Ends-then (λ o. o) before (run-Keeps (G.rm_cached relpath) (is_git.rm_cached-head relpath))
        λ removed.
          Ends-then (λ o. o) before (run-Keeps G.write_tree is_git.write_tree-head)
            λ new_tree.
              Ends-some before (commit G new_tree parent message author)
                (Ends-commit before new_tree parent message author)

  Ends-moved :
      (b : Bool) (before parent : Option Str) (src dst message author : Str)
      → Ends (λ o. o) before (commit_moved G b parent src dst message author)
  unfolding commit_moved
  Ends-moved true before (some parent) src dst message author =
      Ends-then (λ o. o) before (run-Keeps (G.ls_tree parent src) (is_git.ls_tree-head parent src))
        λ entry.
          Ends-then (λ o. o) before
            (run-Keeps (G.update_index entry.0 entry.1 dst)
              (is_git.update_index-head entry.0 entry.1 dst))
            λ staged. Ends-removed true before (some parent) src message author
  Ends-moved true before none src dst message author = Ends-give (λ o. o) before none refl
  Ends-moved false before parent src dst message author = Ends-give (λ o. o) before none refl

  Ends-remove :
      (before : Option Str) (relpath message author : Str)
      → Ends (λ o. o) before (remove G relpath message author)
  unfolding remove
  Ends-remove before relpath message author =
      Ends-then (λ o. o) before ready-Keeps
        λ ready.
          Ends-then (λ o. o) before (run-Keeps G.rev_parse_head is_git.rev_parse-head)
            λ parent.
              Ends-then (λ o. o) before (tracked-Keeps relpath parent)
                λ tracked. Ends-removed tracked before parent relpath message author

  Ends-move :
      (before : Option Str) (src dst message author : Str)
      → Ends (λ o. o) before (move G src dst message author)
  unfolding move
  Ends-move before src dst message author =
      Ends-then (λ o. o) before ready-Keeps
        λ ready.
          Ends-then (λ o. o) before (run-Keeps G.rev_parse_head is_git.rev_parse-head)
            λ parent.
              Ends-then (λ o. o) before (tracked-Keeps src parent)
                λ tracked. Ends-moved tracked before parent src dst message author

  -- So are `remove` and `move`: HEAD is at the revision that is returned, or, where none is
  -- returned since nothing was tracked, or a command failed, where it was.
  pub remove-move-head :
      (src dst message author : Str) (s : Session G)
      → (head_of (remove G src message author s).1
          ≡ head_after (λ o. o) (head_of s) (remove G src message author s).0)
        × (head_of (move G src dst message author s).1
            ≡ head_after (λ o. o) (head_of s) (move G src dst message author s).0)
  remove-move-head src dst message author s = (
    (Ends-remove (head_of s) src message author).ends s refl,
    (Ends-move (head_of s) src dst message author).ends s refl,
  )
