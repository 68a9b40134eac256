-- ===== src/Store/Operations.antt =====
-- The operations of git_store.py. The lock of the repository is held from the first command of
-- `write`, `remove`, `move` and `reset_stale_index` to the last.
use context_os.Base.{
  Bool, true, false, Option, none, some, ◌==◌, nat_eq, list_eq, option_eq, if◌then◌else◌,
}
use context_os.Base.Text.{Str, str}
use context_os.Store.Commands.{Error, Bytes, Git, Action, after, ◌>>=◌, give, fail, run_git}

module _ (G : Git) where
  unfoldable pub require_initialized : Action G Unit
  require_initialized s =
      if G.is_initialized s.repo then give tt s else fail Error.repo_not_initialized s

  -- `new_rev = _commit_tree(...); _update_ref_head(...)`
  unfoldable pub commit : Str → Option Str → Str → Str → Action G Str
  unfolding run_git after
  commit new_tree parent message author = do
    new_rev ← run_git (G.commit_tree new_tree parent message author)
    updated ← run_git (G.update_ref_head new_rev)
    give new_rev

  -- The end of `write`, by the parent commit.
  unfoldable pub commit_changed : Str → Option Str → Str → Str → Action G Str
  unfolding commit
  commit_changed new_tree none message author = commit new_tree none message author
  commit_changed new_tree (some parent) message author = do
    old_tree ← run_git (G.tree_of parent)
    if new_tree == old_tree then give parent else commit new_tree (some parent) message author

  unfoldable pub write : Str → Bytes → Str → Str → Action G Str
  unfolding require_initialized commit_changed
  write relpath content message author = do
    ready ← require_initialized
    blob_sha ← run_git (G.hash_object content)
    staged ← run_git (G.update_index (str "100644") blob_sha relpath)
    new_tree ← run_git G.write_tree
    parent ← run_git G.rev_parse_head
    commit_changed new_tree parent message author

  unfoldable pub path_exists_at_rev : Str → Str → Action G Bool
  unfolding require_initialized
  path_exists_at_rev relpath rev = do
    ready ← require_initialized
    run_git (G.cat_file_exists rev relpath)

  -- `parent is None or not path_exists_at_rev(repo_path, relpath, parent)`, negated.
  unfoldable pub is_tracked : Str → Option Str → Action G Bool
  unfolding path_exists_at_rev
  is_tracked relpath none = give false
  is_tracked relpath (some parent) = path_exists_at_rev relpath parent

  unfoldable pub commit_removed : Bool → Option Str → Str → Str → Str → Action G (Option Str)
  unfolding commit
  commit_removed false parent relpath message author = give none
  commit_removed true parent relpath message author = do
    removed ← run_git (G.rm_cached relpath)
    new_tree ← run_git G.write_tree
    new_rev ← commit new_tree parent message author
    give (some new_rev)

  unfoldable pub remove : Str → Str → Str → Action G (Option Str)
  unfolding require_initialized is_tracked commit_removed
  remove relpath message author = do
    ready ← require_initialized
    parent ← run_git G.rev_parse_head
    tracked ← is_tracked relpath parent
    commit_removed tracked parent relpath message author

  -- The end of `move`, where the source is tracked at the parent.
  unfoldable pub commit_moved : Bool → Option Str → Str → Str → Str → Str → Action G (Option Str)
  unfolding commit_removed
  commit_moved true (some parent) src dst message author = do
    entry ← run_git (G.ls_tree parent src)
    staged ← run_git (G.update_index entry.0 entry.1 dst)
    commit_removed true (some parent) src message author
  commit_moved _ _ src dst message author = give none

  unfoldable pub move : Str → Str → Str → Str → Action G (Option Str)
  unfolding require_initialized is_tracked commit_moved
  move src dst message author = do
    ready ← require_initialized
    parent ← run_git G.rev_parse_head
    tracked ← is_tracked src parent
    commit_moved tracked parent src dst message author

  unfoldable pub read_head : Option Str → Action G Unit
  unfolding run_git
  read_head none = run_git G.read_tree_empty
  read_head (some head) = run_git (G.read_tree head)

  unfoldable pub reset_stale_index : Action G Unit
  unfolding require_initialized read_head
  reset_stale_index = do
    ready ← require_initialized
    head ← run_git G.rev_parse_head
    read_head head

  -- An empty output counts as no revision.
  unfoldable pub head_rev : Str → Action G (Option Str)
  unfolding require_initialized run_git
  head_rev relpath = do ready ← require_initialized; run_git (G.log_rev relpath)

  unfoldable pub show : Str → Str → Action G Bytes
  unfolding require_initialized run_git
  show relpath rev = do ready ← require_initialized; run_git (G.show rev relpath)

  unfoldable pub checked : Option Str → Bool → Str → Action G Unit
  unfolding head_rev
  checked none force relpath = give tt
  checked (some expected) true relpath = give tt
  checked (some expected) false relpath = do
    current ← head_rev relpath
    if current == some expected then give tt else fail (Error.concurrent_edit current)

  unfoldable pub write_with_check : Str → Bytes → Str → Str → Option Str → Bool → Action G Str
  unfolding checked write
  write_with_check relpath content message author expected_rev force = do
    fresh ← checked expected_rev force relpath
    write relpath content message author
