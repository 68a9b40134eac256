-- ===== src/Store/Committed.antt =====
-- What `write` of git_store.py commits, and what `reset_stale_index` restores.
use mathlib.Core.Path.{subst}
use context_os.Base.{
  true, false, Option, none, some, ◌==◌, ◌≡◌, sym, ap, ◌∙◌, nat_eq, list_eq, if◌then◌else◌,
  Bool-cases, ◌⊎◌, inl, inr, beq_eq,
}
use context_os.Base.Text.{Str, str}
use context_os.Store.Commands.{done, Bytes, Git, Session, give}
use context_os.Store.Operations.{
  require_initialized, commit, commit_changed, write, read_head, reset_stale_index,
}
use context_os.Store.Contents.{
  Entries, Objects, Grows, IsContent, IsClean, unborn, at, after-done, returned-eq, run_git-done,
  run-done, ready-done,
}

module _ (G : Git) (O : Objects G) (law : IsContent O) where
  -- The commit `rev` of the tree `t`, which holds `f`, is HEAD; the index and the blobs are kept.
  record Holds (rev t : Str) (f : Entries) (r r' : G.State) : Type 0 where
    head : O.head r' ≡ some rev
    root : O.root r' rev ≡ some t
    tree : O.tree r' t ≡ some f
    index : O.index r' ≡ O.index r
    blob :
        (sha : Str) (content : Bytes) → O.blob r sha ≡ some content → O.blob r' sha ≡ some content

  commit-Holds :
      (t : Str) (parent : Option Str) (message author rev : Str) (f : Entries) (s s' : Session G)
      → commit G t parent message author s ≡ (done rev, s')
      → O.tree s.repo t ≡ some f
      → Holds rev t f s.repo s'.repo
  unfolding commit
  commit-Holds t parent message author rev f s s' h k =
      let (new, s1, e1, h1) = run-done G (G.commit_tree t parent message author) _ rev s s' h in
      let (u, s2, e2, h2) = run-done G (G.update_ref_head new) _ rev s1 s' h1 in
      let made = law.commit_tree t parent message author new s.repo s1.repo e1 in
      let set = law.update_ref new s1.repo s2.repo e2 in
      let (same, last) = returned-eq G new rev s2 s' h2 in
      ending rev new s2.repo s'.repo same last (record {
        head = set.1;
        root = set.0.root new t made.1;
        tree = set.0.tree t f (made.0.tree t f k);
        index = set.2 ∙ made.2;
        blob = λ sha content b. set.0.blob sha content (made.0.blob sha content b);
      })
    where
      ending :
          (rev new : Str) (r2 r' : G.State)
          → new ≡ rev
          → r2 ≡ r'
          → Holds new t f s.repo r2
          → Holds rev t f s.repo r'
      ending rev new r2 r' p q x =
          subst (λ a. Holds a t f s.repo r') p (subst (Holds new t f s.repo) q x)

  commit_changed-Holds :
      (t : Str) (parent : Option Str) (message author rev : Str) (f : Entries) (s s' : Session G)
      → commit_changed G t parent message author s ≡ (done rev, s')
      → O.head s.repo ≡ parent
      → O.tree s.repo t ≡ some f
      → Holds rev t f s.repo s'.repo
  unfolding commit_changed
  commit_changed-Holds t none message author rev f s s' h at_head k =
      commit-Holds t none message author rev f s s' h k
  commit_changed-Holds t (some parent) message author rev f s s' h at_head k =
      let (old, s1, e1, h1) = run-done G (G.tree_of parent) _ rev s s' h in
      let known = law.tree_of parent old s.repo s1.repo e1 in
      by_tree old s1 known h1 (Bool-cases (t == old))
    where
      by_tree :
          (old : Str) (s1 : Session G)
          → Grows O s.repo s1.repo
            × (O.root s1.repo parent ≡ some old)
            × (O.index s1.repo ≡ O.index s.repo)
            × (O.head s1.repo ≡ O.head s.repo)
          → (if t == old then give parent else commit G t (some parent) message author) s1
            ≡ (done rev, s')
          → ((t == old) ≡ true) ⊎ ((t == old) ≡ false)
          → Holds rev t f s.repo s'.repo
      by_tree old s1 known h1 (inl e) =
          let h2 : (done parent, s1) ≡ (done rev, s') = rw e at h1 in
          let (same, last) = returned-eq G parent rev s1 s' h2 in
          subst (λ a. Holds a t f s.repo s'.repo) same
            (subst (Holds parent t f s.repo) last (record {
              head = known.3 ∙ at_head;
              root = known.1 ∙ ap some (sym (beq_eq t old e));
              tree = known.0.tree t f k;
              index = known.2;
              blob = known.0.blob;
            }))
      by_tree old s1 known h1 (inr e) =
          let x =
            commit-Holds t (some parent) message author rev f s1 s' (rw e at h1)
              (known.0.tree t f k) in
          record {
            head = x.head;
            root = x.root;
            tree = x.tree;
            index = x.index ∙ known.2;
            blob = λ sha content b. x.blob sha content (known.0.blob sha content b);
          }

  -- Where `write` returns a revision, also where it made no new commit, that revision is HEAD, and
  -- its tree is what was staged before with one entry set: that of the path, to a blob of the
  -- content. The index is that tree too.
  pub write-commits :
      (relpath : Str) (content : Bytes) (message author rev : Str) (s s' : Session G)
      → write G relpath content message author s ≡ (done rev, s')
      → (sha t : Str) × (O.blob s'.repo sha ≡ some content)
        × (O.head s'.repo ≡ some rev)
        × (O.root s'.repo rev ≡ some t)
        × (O.tree s'.repo t ≡ some (O.index s'.repo))
        × ((p : Str) → O.index s'.repo p ≡ (if relpath == p then some sha else O.index s.repo p))
  unfolding write
  write-commits relpath content message author rev s s' h =
      let (u, s0, e0, h0) = after-done G (require_initialized G s) _ rev s' h in
      let (sha, s1, e1, h1) = run-done G (G.hash_object content) _ rev s0 s' h0 in
      let (v, s2, e2, h2) = run-done G (G.update_index (str "100644") sha relpath) _ rev s1 s' h1 in
      let (t, s3, e3, h3) = run-done G G.write_tree _ rev s2 s' h2 in
      let (parent, s4, e4, h4) = run-done G G.rev_parse_head _ rev s3 s' h3 in
      let first : O.index s0.repo ≡ O.index s.repo =
        ap (λ x. O.index x.repo) (sym (ready-done G s s0 e0)) in
      let stored = law.hash_object content s0.repo s1.repo sha e1 in
      let staged = law.update_index (str "100644") sha relpath s1.repo s2.repo e2 in
      let saved = law.write_tree s2.repo s3.repo t e3 in
      let read = law.rev_parse_head s3.repo s4.repo parent e4 in
      let x =
        commit_changed-Holds t parent message author rev (O.index s2.repo) s4 s' h4 read.1
          (read.0.tree t (O.index s2.repo) saved.1) in
      let same : O.index s'.repo ≡ O.index s2.repo = x.index ∙ read.2 ∙ saved.2 in
      (
        sha,
        t,
        x.blob sha content (
            read.0.blob sha content
              (saved.0.blob sha content (staged.0.blob sha content stored.1))),
        x.head,
        x.root,
        x.tree ∙ ap some (sym same),
        λ p.
            ap (λ (f : Entries). f p) same
            ∙ staged.1 p
            ∙ ap (λ (o : Option Str). if relpath == p then some sha else o)
                (ap (λ (f : Entries). f p) (stored.2 ∙ first)),
      )

  -- The commit at HEAD, if there is one, and its tree are in the store.
  abbrev pub IsRooted : G.State → Type 0
  IsRooted r =
      (rev : Str)
      → O.head r ≡ some rev
      → (t : Str) × (f : Entries) × (O.root r rev ≡ some t) × (O.tree r t ≡ some f)

  read_head-IsClean :
      (found : Option Str) (s s' : Session G)
      → read_head G found s ≡ (done tt, s')
      → O.head s.repo ≡ found
      → IsRooted s.repo
      → IsClean O s'.repo × (O.head s'.repo ≡ found)
  unfolding read_head
  read_head-IsClean none s s' h e rooted =
      let emptied =
        law.read_tree_empty s.repo s'.repo (run_git-done G G.read_tree_empty tt s s' h) in
      (unborn (emptied.0 ∙ e) emptied.1, emptied.0 ∙ e)
  read_head-IsClean (some rev) s s' h e rooted =
      let (t, f, has, holds) = rooted rev e in
      let read =
        law.read_tree rev t f s.repo s'.repo (run_git-done G (G.read_tree rev) tt s s' h) has
          holds in
      (
        at rev t (read.1 ∙ e) (read.0.root rev t has)
            (read.0.tree t f holds ∙ ap some (sym read.2)),
        read.1 ∙ e,
      )

  -- Where `reset_stale_index` returns, whatever was staged before, the index is the tree of the
  -- commit at HEAD, or nothing where there is no commit; HEAD is what it was.
  pub reset_stale_index-IsClean :
      (s s' : Session G)
      → reset_stale_index G s ≡ (done tt, s')
      → IsRooted s.repo
      → IsClean O s'.repo × (O.head s'.repo ≡ O.head s.repo)
  unfolding reset_stale_index
  reset_stale_index-IsClean s s' h rooted =
      let (u, s0, e0, h0) = after-done G (require_initialized G s) _ tt s' h in
      let (found, s1, e1, h1) = run-done G G.rev_parse_head _ tt s0 s' h0 in
      let same = ready-done G s s0 e0 in
      let read = law.rev_parse_head s0.repo s1.repo found e1 in
      let before : O.head s.repo ≡ found = ap (λ x. O.head x.repo) same ∙ read.3 in
      let kept : IsRooted s1.repo = λ rev e.
        let (t, f, has, holds) = rooted rev (before ∙ sym read.1 ∙ e) in
        let has0 : O.root s0.repo rev ≡ some t = subst (λ x. O.root x.repo rev ≡ some t) same has in
        let holds0 : O.tree s0.repo t ≡ some f = subst (λ x. O.tree x.repo t ≡ some f) same holds in
        (t, f, read.0.root rev t has0, read.0.tree t f holds0) in
      let (clean, head) = read_head-IsClean found s1 s' h1 read.1 kept in (clean, head ∙ sym before)
