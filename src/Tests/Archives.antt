-- ===== src/Tests/Archives.antt =====
-- The theorems on what is committed, at a git that numbers its trees and commits.
use context_os.Base.{
  ℕ, zero, suc, true, Option, none, some, List, [], ◌∷◌, ◌++◌, ◌==◌, ◌≡◌, refl, sym, ap, ◌∙◌,
  nat_eq, list_eq, list_beq, if◌then◌else◌,
}
use context_os.Base.Lists.{length, get_elem?}
use context_os.Base.Text.{Str, str}
use context_os.Store.Commands.{Reply, done, failed, Error, Git, Session, after, run_git}
use context_os.Store.Operations.{
  require_initialized, commit, commit_changed, write, read_head, reset_stale_index,
}
use context_os.Store.Contents.{Entries, Objects, Grows, IsContent}
use context_os.Store.Walk.{Node, file, dir, end, entry, is_initialized, is_topmost}
use context_os.Store.Reset.{Stores, put, reset_stale_indexes, IsReset, reset_stale_indexes_lem}
use context_os.Store.Committed.{IsRooted, write-commits}

-- A blob is its own name; a tree and a commit have their number as a name.
pub record Archive : Type 0 where
  pub trees : List Entries
  pub roots : List Str
  pub index : Entries
  pub head : Option Str

abbrev pub nth : {A : Type 0} → List A → Str → Option A
nth xs [] = none
nth xs (n ∷ s) = get_elem? xs n

get_elem?-append :
    {A : Type 0} (xs ys : List A) (n : ℕ) (a : A)
    → get_elem? xs n ≡ some a
    → get_elem? (xs ++ ys) n ≡ some a
get_elem?-append [] ys n a h = cc
get_elem?-append (x ∷ xs) ys zero a h = h
get_elem?-append (x ∷ xs) ys (suc n) a h = get_elem?-append xs ys n a h

nth-append :
    {A : Type 0} (xs ys : List A) (s : Str) (a : A) → nth xs s ≡ some a → nth (xs ++ ys) s ≡ some a
nth-append xs ys [] a h = cc
nth-append xs ys (n ∷ s) a h = get_elem?-append xs ys n a h

nth-last : {A : Type 0} (xs : List A) (a : A) → nth (xs ++ a ∷ []) (length xs ∷ []) ≡ some a
nth-last [] a = refl
nth-last (x ∷ xs) a = nth-last xs a

abbrev pub stage : Str → Str → Entries → Entries
stage path sha f = λ p. if path == p then some sha else f p

abbrev pub root_of : Option Str → Reply Str
root_of none = failed Error.git_failed
root_of (some t) = done t

-- The index is set where the tree is there.
abbrev pub read_into : Option Entries → Archive → Reply Unit × Archive
read_into none r = (failed Error.git_failed, r)
read_into (some f) r = (done tt, record r { index = f })

abbrev pub tree_at : Archive → Option Str → Option Entries
tree_at r none = none
tree_at r (some t) = nth r.trees t

abbrev pub archiving : Git
archiving = record {
  State = Archive;
  is_initialized = λ r. true;
  hash_object = λ content r. (done content, r);
  update_index = λ mode sha path r. (done tt, record r { index = stage path sha r.index });
  rm_cached = λ path r. (failed Error.git_failed, r);
  write_tree = λ r. (done (length r.trees ∷ []), record r { trees = r.trees ++ r.index ∷ [] });
  rev_parse_head = λ r. (done r.head, r);
  tree_of = λ rev r. (root_of (nth r.roots rev), r);
  commit_tree = λ t parent message author r.
      (done (length r.roots ∷ []), record r { roots = r.roots ++ t ∷ [] });
  update_ref_head = λ rev r. (done tt, record r { head = some rev });
  log_rev = λ path r. (done r.head, r);
  cat_file_exists = λ rev path r. (done true, r);
  ls_tree = λ rev path r. (failed Error.git_failed, r);
  read_tree = λ rev r. read_into (tree_at r (nth r.roots rev)) r;
  read_tree_empty = λ r. (done tt, record r { index = λ p. none });
  show = λ rev path r. (failed Error.git_failed, r);
}

abbrev pub objects : Objects archiving
objects = record {
  blob = λ r sha. some sha;
  tree = λ r sha. nth r.trees sha;
  root = λ r rev. nth r.roots rev;
  index = λ r. r.index;
  head = λ r. r.head;
}

-- Objects are only added.
kept-Grows : (r r' : Archive) → r.trees ≡ r'.trees → r.roots ≡ r'.roots → Grows objects r r'
kept-Grows r r' p q = record {
  blob = λ sha content h. h;
  tree = λ sha f h. ap (λ xs. nth xs sha) (sym p) ∙ h;
  root = λ rev t h. ap (λ xs. nth xs rev) (sym q) ∙ h;
}

tree-Grows :
    (r r' : Archive) (f : Entries)
    → r.trees ++ f ∷ [] ≡ r'.trees
    → r.roots ≡ r'.roots
    → Grows objects r r'
tree-Grows r r' f p q = record {
  blob = λ sha content h. h;
  tree = λ sha g h. ap (λ xs. nth xs sha) (sym p) ∙ nth-append r.trees (f ∷ []) sha g h;
  root = λ rev t h. ap (λ xs. nth xs rev) (sym q) ∙ h;
}

root-Grows :
    (r r' : Archive) (u : Str)
    → r.trees ≡ r'.trees
    → r.roots ++ u ∷ [] ≡ r'.roots
    → Grows objects r r'
root-Grows r r' u p q = record {
  blob = λ sha content h. h;
  tree = λ sha f h. ap (λ xs. nth xs sha) (sym p) ∙ h;
  root = λ rev t h. ap (λ xs. nth xs rev) (sym q) ∙ nth-append r.roots (u ∷ []) rev t h;
}

reply-eq : {A : Type 0} (a b : A) → done a ≡ done b → a ≡ b
reply-eq a b h = cc

parts :
    {A : Type 0} (a b : A) (r r' : Archive)
    → ◌≡◌ {A = Reply A × Archive} (done a, r) (done b, r')
    → (a ≡ b) × (r ≡ r')
parts a b r r' h = (reply-eq a b (ap (λ x. x.0) h), ap (λ x. x.1) h)

root_of-done : (o : Option Str) (t : Str) → root_of o ≡ done t → o ≡ some t
root_of-done none t h = cc
root_of-done (some u) t h = ap some (reply-eq u t h)

read_into-done :
    (f g : Option Entries) (r r' : Archive) (e : Entries)
    → read_into f r ≡ (done tt, r')
    → f ≡ g
    → g ≡ some e
    → Grows objects r r' × (r'.head ≡ r.head) × (r'.index ≡ e)
read_into-done none g r r' e h p q = cc
read_into-done (some f) g r r' e h p q =
    let same = ap (λ x. x.1) h in
    (
      kept-Grows r r' (ap (λ x. x.trees) same) (ap (λ x. x.roots) same),
      ap (λ x. x.head) (sym same),
      ap (λ x. x.index) (sym same) ∙ (let both : some f ≡ some e = p ∙ q in cc both),
    )

pub archiving-IsContent : IsContent objects
archiving-IsContent = record {
  hash_object = λ content r r' sha h.
      let (a, e) = parts content sha r r' h in
      (
        kept-Grows r r' (ap (λ x. x.trees) e) (ap (λ x. x.roots) e),
        ap some (sym a),
        ap (λ x. x.index) (sym e),
      );
  update_index = λ mode sha path r r' h.
      let (a, e) = parts tt tt (record r { index = stage path sha r.index }) r' h in
      (
        kept-Grows r r' (ap (λ x. x.trees) e) (ap (λ x. x.roots) e),
        λ p. ap (λ x. x.index p) (sym e),
      );
  write_tree = λ r r' t h.
      let r2 : Archive = record r { trees = r.trees ++ r.index ∷ [] } in
      let (a, e) = parts (length r.trees ∷ []) t r2 r' h in
      (
        tree-Grows r r' r.index (ap (λ x. x.trees) e) (ap (λ x. x.roots) e),
        ap (λ x. nth x.trees t) (sym e)
            ∙ ap (nth (r.trees ++ r.index ∷ [])) (sym a)
            ∙ nth-last r.trees r.index,
        ap (λ x. x.index) (sym e),
      );
  rev_parse_head = λ r r' found h.
      let (a, e) = parts r.head found r r' h in
      (
        kept-Grows r r' (ap (λ x. x.trees) e) (ap (λ x. x.roots) e),
        ap (λ x. x.head) (sym e) ∙ a,
        ap (λ x. x.index) (sym e),
        a,
      );
  tree_of = λ rev t r r' h.
      let e : r ≡ r' = ap (λ x. x.1) h in
      let found = root_of-done (nth r.roots rev) t (ap (λ x. x.0) h) in
      (
        kept-Grows r r' (ap (λ x. x.trees) e) (ap (λ x. x.roots) e),
        ap (λ x. nth x.roots rev) (sym e) ∙ found,
        ap (λ x. x.index) (sym e),
        ap (λ x. x.head) (sym e),
      );
  commit_tree = λ t parent message author rev r r' h.
      let r2 : Archive = record r { roots = r.roots ++ t ∷ [] } in
      let (a, e) = parts (length r.roots ∷ []) rev r2 r' h in
      (
        root-Grows r r' t (ap (λ x. x.trees) e) (ap (λ x. x.roots) e),
        ap (λ x. nth x.roots rev) (sym e)
            ∙ ap (nth (r.roots ++ t ∷ [])) (sym a)
            ∙ nth-last r.roots t,
        ap (λ x. x.index) (sym e),
      );
  update_ref = λ rev r r' h.
      let (a, e) = parts tt tt (record r { head = some rev }) r' h in
      (
        kept-Grows r r' (ap (λ x. x.trees) e) (ap (λ x. x.roots) e),
        ap (λ x. x.head) (sym e),
        ap (λ x. x.index) (sym e),
      );
  read_tree = λ rev t f r r' h p q.
      read_into-done (tree_at r (nth r.roots rev)) (nth r.trees t) r r' f h (ap (tree_at r) p) q;
  read_tree_empty = λ r r' h.
      let (a, e) = parts tt tt (record r { index = λ p. none }) r' h in
      (ap (λ x. x.head) (sym e), ap (λ x. x.index) (sym e));
}

-- No commit yet, and an entry that a killed call left staged.
abbrev left : Entries
left = stage (str "b.md") (str "old") (λ p. none)

abbrev pub stale : Session archiving
stale = record { repo = record { trees = []; roots = []; index = left; head = none }; calls = 0 }

abbrev both : Entries
both = stage (str "a.md") (str "new") left

abbrev filed : Session archiving
filed = record {
  repo = record { trees = both ∷ []; roots = (0 ∷ []) ∷ []; index = both; head = some (0 ∷ []) };
  calls = 6;
}

written :
    write archiving (str "a.md") (str "new") (str "m") (str "a") stale ≡ (done (0 ∷ []), filed)
unfolding write require_initialized commit_changed commit after run_git
written = refl

write-commits_example :
    (sha t : Str) × (objects.blob filed.repo sha ≡ some (str "new"))
    × (objects.head filed.repo ≡ some (0 ∷ []))
    × (objects.root filed.repo (0 ∷ []) ≡ some t)
    × (objects.tree filed.repo t ≡ some (objects.index filed.repo))
    × ((p : Str)
        → objects.index filed.repo p
          ≡ (if str "a.md" == p then some sha else objects.index stale.repo p))
write-commits_example =
    write-commits archiving objects archiving-IsContent (str "a.md") (str "new") (str "m") (str "a")
      (0 ∷ []) stale filed written

-- Something is staged after the commit.
abbrev dirty : Session archiving
dirty = record {
  repo = record { trees = both ∷ []; roots = (0 ∷ []) ∷ []; index = left; head = some (0 ∷ []) };
  calls = 6;
}

abbrev clean : Session archiving
clean = record { repo = filed.repo; calls = 8 }

some-eq : (a b : Str) → some a ≡ some b → a ≡ b
some-eq a b h = cc

dirty-IsRooted : IsRooted archiving objects archiving-IsContent dirty.repo
dirty-IsRooted rev e = (0 ∷ [], both, ap (nth ((0 ∷ []) ∷ [])) (sym (some-eq (0 ∷ []) rev e)), refl)

-- A bare repository, and a directory that holds it and a file.
abbrev bare : Node
bare = dir (entry (str "HEAD") file (entry (str "objects") (dir end) end))

abbrev mirrors_dir : Node
mirrors_dir = dir (entry (str "docs") bare (entry (str "README") file end))

abbrev all_dirty : Stores archiving
all_dirty p = dirty

abbrev one_clean : Stores archiving
one_clean = put archiving (str "docs" ∷ []) clean all_dirty

all_reset : (reset_stale_indexes archiving mirrors_dir all_dirty).0 ≡ (done tt, one_clean)
unfolding reset_stale_indexes reset_stale_index require_initialized read_head after run_git
    is_initialized list_beq
all_reset = refl

reset_stale_indexes_lem_example :
    IsReset archiving objects archiving-IsContent
      (is_topmost (str "docs" ∷ []) mirrors_dir)
      dirty
      (one_clean (str "docs" ∷ []))
reset_stale_indexes_lem_example =
    reset_stale_indexes_lem archiving objects archiving-IsContent mirrors_dir all_dirty one_clean
      (str "docs" ∷ []) all_reset (λ p. dirty-IsRooted)
