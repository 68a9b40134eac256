-- ===== src/Store/Walk.antt =====
-- `existing_mirror_repos` and `reset_stale_indexes` of git_store.py: the walk over the mirror
-- repositories under a directory, by their paths below it.
use context_os.Base.{
  Bool, true, false, not, ◌&&◌, ◌||◌, List, [], ◌∷◌, ◌++◌, map, ◌==◌, ◌≡◌, refl, ap, ◌∙◌, nat_eq,
  list_eq, if◌then◌else◌, Bool-cases, inl, inr, arith, list_beq,
}
use context_os.Base.Lists.{contains, contains-append}
use context_os.Base.Text.{Str, str}

-- Directories and their entries.
mutual
  pub data Node : Type 0 where
    file : Node
    dir : Nodes → Node

  pub data Nodes : Type 0 where
    end : Nodes
    entry : Str → Node → Nodes → Nodes

unfoldable pub is_dir : Node → Bool
is_dir file = false
is_dir (dir es) = true

unfoldable pub has_dir : Str → Nodes → Bool
unfolding is_dir
has_dir name end = false
has_dir name (entry n node es) = (n == name && is_dir node) || has_dir name es

unfoldable pub has_file : Str → Nodes → Bool
unfolding is_dir
has_file name end = false
has_file name (entry n node es) = (n == name && not (is_dir node)) || has_file name es

-- `_is_initialized`
unfoldable pub is_initialized : Nodes → Bool
unfolding has_dir has_file
is_initialized es =
    has_dir (str ".git") es || (has_file (str "HEAD") es && has_dir (str "objects") es)

-- `existing_mirror_repos`: `os.walk` from the top, which does not go below a repository.
unfoldable mutual
  unfolding is_initialized

  pub repos_at : Node → List (List Str)
  repos_at file = []
  repos_at (dir es) = let below = repos_in es in if is_initialized es then [] ∷ [] else below

  pub repos_in : Nodes → List (List Str)
  repos_in end = []
  repos_in (entry name node es) = map (λ path. name ∷ path) (repos_at node) ++ repos_in es

-- The path leads to a repository, and to none before that.
mutual
  pub is_topmost : List Str → Node → Bool
  is_topmost path file = false
  is_topmost [] (dir es) = is_initialized es
  is_topmost (name ∷ path) (dir es) = not (is_initialized es) && leads_in name path es

  pub leads_in : Str → List Str → Nodes → Bool
  leads_in name path end = false
  leads_in name path (entry n node es) =
      (n == name && is_topmost path node) || leads_in name path es

cons-beq :
    (n name : Str) (p path : List Str) → ((n ∷ p) == (name ∷ path)) ≡ (n == name && p == path)
unfolding list_beq
cons-beq n name p path = refl

nil-beq : (n : Str) (p : List Str) → ((n ∷ p) == []) ≡ false
unfolding list_beq
nil-beq n p = refl

cons-nil-beq : (n : Str) (p : List Str) → ([] == (n ∷ p)) ≡ false
unfolding list_beq
cons-nil-beq n p = refl

contains-map_cons :
    (n name : Str) (path : List Str) (ps : List (List Str))
    → contains (map (λ p. n ∷ p) ps) (name ∷ path) ≡ (n == name && contains ps path)
unfolding contains
contains-map_cons n name path [] = ground arith
contains-map_cons n name path (p ∷ ps) =
    ground (arith, cons-beq n name p path, contains-map_cons n name path ps)

contains-map_nil : (n : Str) (ps : List (List Str)) → contains (map (λ p. n ∷ p) ps) [] ≡ false
unfolding contains
contains-map_nil n [] = refl
contains-map_nil n (p ∷ ps) = ground (arith, nil-beq n p, contains-map_nil n ps)

repos_in-nil : (es : Nodes) → contains (repos_in es) [] ≡ false
unfolding repos_in contains
repos_in-nil end = refl
repos_in-nil (entry n node es) =
    contains-append (map (λ p. n ∷ p) (repos_at node)) (repos_in es) []
    ∙ ap (λ b. b || contains (repos_in es) []) (contains-map_nil n (repos_at node))
    ∙ repos_in-nil es

one-cons : (name : Str) (path : List Str) → contains ([] ∷ []) (name ∷ path) ≡ false
unfolding contains
one-cons name path = ground (arith, cons-nil-beq name path)

one-nil : contains {A = List Str} ([] ∷ []) [] ≡ true
unfolding contains list_beq
one-nil = refl

mutual
  unfolding repos_at repos_in is_topmost leads_in contains

  pub repos_at-topmost :
      (path : List Str) (node : Node) → contains (repos_at node) path ≡ is_topmost path node
  repos_at-topmost path file = refl
  repos_at-topmost [] (dir es) = elim (Bool-cases (is_initialized es)) [
    | inl e ↦ rw e one-nil
    | inr e ↦ rw e (repos_in-nil es)
  ]
  repos_at-topmost (name ∷ path) (dir es) = elim (Bool-cases (is_initialized es)) [
    | inl e ↦ rw e (one-cons name path)
    | inr e ↦ rw e (repos_in-leads name path es)
  ]

  repos_in-leads :
      (name : Str) (path : List Str) (es : Nodes)
      → contains (repos_in es) (name ∷ path) ≡ leads_in name path es
  repos_in-leads name path end = refl
  repos_in-leads name path (entry n node es) =
      contains-append (map (λ p. n ∷ p) (repos_at node)) (repos_in es) (name ∷ path)
      ∙ ap (λ b. b || contains (repos_in es) (name ∷ path))
          (contains-map_cons n name path (repos_at node)
            ∙ ap (λ b. n == name && b) (repos_at-topmost path node))
      ∙ ap (λ b. (n == name && is_topmost path node) || b) (repos_in-leads name path es)
