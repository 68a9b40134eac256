-- ===== src/Paths/Mirror.antt =====
-- vcs/services/mirror_path.py: which mirror repository, and which path in it, holds a source path.
pub mod Sound
pub mod Repos
use context_os.Base.{
  ℕ, ◌+◌, Bool, true, false, Option, none, some, List, [], ◌∷◌, ◌++◌, ◌==◌, nat_eq, list_eq,
  if◌then◌else◌, ◌≡◌, refl, list_beq,
}
use context_os.Base.Lists.{length, drop}
use context_os.Base.Text.{Str, str, starts_with, rstrip, lstrip, delete}
use context_os.Paths.Pure.{slash, PurePath, joined}
use context_os.Paths.Normalize.{Host, path_normalize}

unfoldable pub repo_dir_name : Host → Str → Str
unfolding lstrip delete
repo_dir_name host watch_target = lstrip slash (delete b':' (path_normalize host watch_target))

-- `GIT_REPO_DIR` is a setting.
module _ (host : Host) (git_repo_dir : PurePath) where
  unfoldable pub repo_path_for : Str → PurePath
  unfolding repo_dir_name joined
  repo_path_for watch_target =
      joined git_repo_dir (repo_dir_name host (path_normalize host watch_target))

  -- One target of the loop: the repository and the path in it, if the target covers the path.
  unfoldable pub location_under : Str → Str → Option (PurePath × Str)
  unfolding repo_dir_name joined starts_with rstrip
  location_under normalized target =
      let target_norm = path_normalize host target in
      let base = rstrip slash target_norm in
      if normalized == target_norm
      then some (joined git_repo_dir (repo_dir_name host target_norm), [])
      else if starts_with normalized (base ++ slash ∷ [])
      then some
          (joined git_repo_dir (repo_dir_name host target_norm), drop (length base + 1) normalized)
      else none

  unfoldable pub first_location : Str → List Str → Option (PurePath × Str)
  unfolding location_under
  first_location normalized [] = none
  first_location normalized (target ∷ targets) = elim (location_under normalized target) [
    | some found ↦ some found
    | none ↦ first_location normalized targets
  ]

  -- `none` is a raised `PathNotWatchedError`.
  unfoldable pub resolve_mirror_location : Str → List Str → Option (PurePath × Str)
  unfolding first_location
  resolve_mirror_location source_path watch_targets =
      first_location (path_normalize host source_path) watch_targets

-- `_source_path_for` of vcs/services/audit.py.
unfoldable pub source_path_for : Host → Str → Str → Str
unfolding rstrip
source_path_for host watch_target relpath =
    let normalized = path_normalize host watch_target in
    if relpath == [] then normalized else rstrip slash normalized ++ slash ∷ relpath
