-- ===== src/Configure/Targets.antt =====
-- The directories to watch: `derive_watch_targets` and `_nearest_existing_dir`. Which paths are
-- directories is a parameter.
use context_os.Base.{
  ℕ, zero, suc, Bool, not, ◌&&◌, Option, none, some, List, [], ◌∷◌, ◌==◌, nat_eq, list_eq,
  option_eq, if◌then◌else◌,
}
use context_os.Base.Lists.{filter, any, length}
use context_os.Base.Sets.{distinct}
use context_os.Base.Text.{Str}
use context_os.Paths.Pure.{PurePath, to_path, is_relative_to, slash, join}
use context_os.Paths.Normalize.{Host, path_normalize}
use context_os.Configure.Sources.{Source, Config, local}

-- `str(p)`, for a path that has a root or a name.
unfoldable pub render : PurePath → Str
render p = if p.rooted then slash ∷ join p.parts else join p.parts

-- `p.parent`: the anchor is its own parent.
unfoldable pub init : List Str → List Str
init [] = []
init (w ∷ []) = []
init (w ∷ v ∷ ws) = w ∷ init (v ∷ ws)

unfoldable pub parent : PurePath → PurePath
unfolding init
parent p = record p { parts = init p.parts }

abbrev pub is_anchor : PurePath → Bool
is_anchor p = p.parts == []

-- The `while` loop, which leaves with the directory that it found; `none` where it returns. Each
-- round takes a name away.
unfoldable pub climb : (PurePath → Bool) → ℕ → PurePath → Option PurePath
unfolding parent
climb is_dir zero p = none
climb is_dir (suc fuel) p =
    let above = climb is_dir fuel (parent p) in
    if is_dir p then some p else if is_anchor p then none else above

module _ (host : Host) (is_dir : PurePath → Bool) where
  -- What follows the loop.
  unfoldable pub above_anchor : Option PurePath → Option Str
  unfolding render
  above_anchor none = none
  above_anchor (some p) = if is_anchor p then none else some (path_normalize host (render p))

  unfoldable pub nearest_existing_dir : Str → Option Str
  unfolding climb above_anchor render
  nearest_existing_dir path =
      let p = to_path (path_normalize host path) in
      if is_dir p
      then some (path_normalize host (render p))
      else above_anchor (climb is_dir (suc (length p.parts)) (parent p))

  -- The loop of `derive_watch_targets`.
  unfoldable pub put_target : Option Str → List Str → List Str
  put_target none dirs = dirs
  put_target (some target) dirs = target ∷ dirs

  unfoldable pub source_dirs : List Source → List Str
  unfolding nearest_existing_dir put_target
  source_dirs [] = []
  source_dirs (s ∷ sources) =
      let dirs = source_dirs sources in
      if s.kind == local then put_target (nearest_existing_dir s.path) dirs else dirs

-- Another directory of the set holds this one.
unfoldable pub is_covered : List Str → Str → Bool
is_covered dirs d = any (λ o. not (o == d) && is_relative_to (to_path d) (to_path o)) dirs

unfoldable pub minimal : List Str → List Str
unfolding is_covered
minimal dirs = filter (λ d. not (is_covered dirs d)) dirs

unfoldable pub derive_watch_targets :
    Host → (PurePath → Bool) → (List Str → List Str) → Config → List Str
unfolding source_dirs minimal
derive_watch_targets host is_dir iterate config =
    minimal (iterate (distinct (source_dirs host is_dir config.sources)))
