-- ===== src/Audit/Dicts.antt =====
-- What the dicts of `rollback_session` hold, and that each path is reported once.
use context_os.Base.{
  ℕ, ◌+◌, Bool, Option, none, some, List, [], ◌∷◌, ◌==◌, ◌≡◌, refl, nat_eq, list_eq, if◌then◌else◌,
  arith, list_beq_iff,
}
use context_os.Base.Lists.{contains, count}
use context_os.Base.Text.{Str}
use context_os.Store.Logs.{Commit}
use context_os.Audit.Rollback.{Dict, setdefault, assign, lookup, index_paths, index_commits}

-- The first and the last commit of a list that names the path.
abbrev pub first_with : Str → List Commit → Option Commit
first_with k [] = none
first_with k (c ∷ cs) = let rest = first_with k cs in if contains c.paths k then some c else rest

abbrev pub last_with : Str → List Commit → Option Commit
last_with k [] = none
last_with k (c ∷ cs) = elim (last_with k cs) [
  | none ↦ if contains c.paths k then some c else none
  | some d ↦ some d
]

abbrev or_else : Option Commit → Option Commit → Option Commit
or_else none b = b
or_else (some a) b = some a

lookup-setdefault :
    (k j : Str) (v : Commit) (d : Dict)
    → lookup k (setdefault j v d) ≡ (if j == k then or_else (lookup k d) (some v) else lookup k d)
unfolding lookup setdefault
lookup-setdefault k j v [] = ground arith
lookup-setdefault k j v ((i, w) ∷ d) =
    ground (arith, lookup-setdefault k j v d, list_beq_iff i j, list_beq_iff i k, list_beq_iff j k)

lookup-assign :
    (k j : Str) (v : Commit) (d : Dict)
    → lookup k (assign j v d) ≡ (if j == k then some v else lookup k d)
unfolding lookup assign
lookup-assign k j v [] = refl
lookup-assign k j v ((i, w) ∷ d) =
    ground (arith, lookup-assign k j v d, list_beq_iff i j, list_beq_iff i k, list_beq_iff j k)

abbrev when : Bool → Commit → Option Commit
when b c = if b then some c else none

index_paths-lookup :
    (k : Str) (c : Commit) (ps : List Str) (e l : Dict)
    → (lookup k (index_paths ps c (e, l)).0 ≡ or_else (lookup k e) (when (contains ps k) c))
      × (lookup k (index_paths ps c (e, l)).1 ≡ or_else (when (contains ps k) c) (lookup k l))
unfolding index_paths contains
index_paths-lookup k c [] e l = ground arith
index_paths-lookup k c (p ∷ ps) e l = ground (
  arith,
  index_paths-lookup k c ps (setdefault p c e) (assign p c l),
  lookup-setdefault k p c e,
  lookup-assign k p c l,
)

index_commits-lookup :
    (k : Str) (cs : List Commit) (e l : Dict)
    → (lookup k (index_commits cs (e, l)).0 ≡ or_else (lookup k e) (first_with k cs))
      × (lookup k (index_commits cs (e, l)).1 ≡ or_else (last_with k cs) (lookup k l))
unfolding index_commits
index_commits-lookup k [] e l = ground arith
index_commits-lookup k (c ∷ cs) e l = ground (
  arith,
  index_paths-lookup k c c.paths e l,
  index_commits-lookup k cs (index_paths c.paths c (e, l)).0 (index_paths c.paths c (e, l)).1,
)

abbrev pub keys : Dict → List Str
keys [] = []
keys ((k, v) ∷ d) = k ∷ keys d

abbrev pub ones : Option Commit → ℕ
ones none = 0
ones (some c) = 1

count-setdefault :
    (k j : Str) (v : Commit) (d : Dict)
    → count k (keys (setdefault j v d)) ≡ (
        if j == k
        then elim (lookup k d) [ none ↦ count k (keys d) + 1 | some w ↦ count k (keys d) ]
        else count k (keys d))
unfolding count lookup setdefault
count-setdefault k j v [] = ground arith
count-setdefault k j v ((i, w) ∷ d) =
    ground (arith, count-setdefault k j v d, list_beq_iff i j, list_beq_iff i k, list_beq_iff j k)

-- No key stands twice.
abbrev IsUnique : Dict → Type 0
IsUnique d = (k : Str) → count k (keys d) ≡ ones (lookup k d)

setdefault-IsUnique : (j : Str) (v : Commit) (d : Dict) → IsUnique d → IsUnique (setdefault j v d)
setdefault-IsUnique j v d h k =
    ground (arith, count-setdefault k j v d, lookup-setdefault k j v d, h k)

index_paths-IsUnique :
    (c : Commit) (ps : List Str) (e l : Dict) → IsUnique e → IsUnique (index_paths ps c (e, l)).0
unfolding index_paths
index_paths-IsUnique c [] e l h = h
index_paths-IsUnique c (p ∷ ps) e l h =
    index_paths-IsUnique c ps (setdefault p c e) (assign p c l) (setdefault-IsUnique p c e h)

index_commits-IsUnique :
    (cs : List Commit) (e l : Dict) → IsUnique e → IsUnique (index_commits cs (e, l)).0
unfolding index_commits
index_commits-IsUnique [] e l h = h
index_commits-IsUnique (c ∷ cs) e l h =
    index_commits-IsUnique cs (index_paths c.paths c (e, l)).0 (index_paths c.paths c (e, l)).1
      (index_paths-IsUnique c c.paths e l h)

empty-IsUnique : IsUnique []
unfolding count lookup
empty-IsUnique k = refl

-- The dicts that the session rollback fills from the commits: `earliest_by_path` has exactly the
-- paths that a commit names, each once, with the first such commit, and `latest_by_path` has
-- the last such commit of each.
pub index_commits_lem :
    (k : Str) (cs : List Commit)
    → (lookup k (index_commits cs ([], [])).0 ≡ first_with k cs)
      × (lookup k (index_commits cs ([], [])).1 ≡ last_with k cs)
      × (count k (keys (index_commits cs ([], [])).0) ≡ ones (first_with k cs))
index_commits_lem k cs =
    let both = index_commits-lookup k cs [] [] in
    let once = index_commits-IsUnique cs [] [] empty-IsUnique k in
    unfold lookup in ground (arith, both.0, both.1, once)
