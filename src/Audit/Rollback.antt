-- ===== src/Audit/Rollback.antt =====
-- `rollback_session` of vcs/services/audit.py.
use context_os.Base.{
  Bool, true, false, Option, none, some, List, [], ◌∷◌, ◌++◌, ◌==◌, nat_eq, list_eq, option_eq,
  if◌then◌else◌,
}
use context_os.Base.Text.{Str, str}
use context_os.Paths.Pure.{PurePath}
use context_os.Paths.Normalize.{Host}
use context_os.Paths.Mirror.{repo_path_for, source_path_for}
use context_os.Configure.Sources.{Config}
use context_os.Store.Commands.{Error, Git}
use context_os.Store.Operations
use context_os.Store.Logs.{Logs, Commit, init_repo, commits_by_author, commit_info}
use context_os.Audit.{
  Failure, Result, ok, err, Disk, World, Call, ◌>>=◌, yield, throw, in_repo, on_disk, check_scope,
}

-- A dict in the order of its keys' first insertion.
abbrev pub Dict : Type 0
Dict = List (Str × Commit)

unfoldable pub setdefault : Str → Commit → Dict → Dict
setdefault k v [] = (k, v) ∷ []
setdefault k v ((j, w) ∷ d) = if j == k then (j, w) ∷ d else (j, w) ∷ setdefault k v d

unfoldable pub assign : Str → Commit → Dict → Dict
assign k v [] = (k, v) ∷ []
assign k v ((j, w) ∷ d) = if j == k then (k, v) ∷ d else (j, w) ∷ assign k v d

unfoldable pub lookup : Str → Dict → Option Commit
lookup k [] = none
lookup k ((j, w) ∷ d) = let rest = lookup k d in if j == k then some w else rest

-- The loops that fill `earliest_by_path` and `latest_by_path`.
unfoldable pub index_paths : List Str → Commit → Dict × Dict → Dict × Dict
unfolding setdefault assign
index_paths [] commit dicts = dicts
index_paths (relpath ∷ paths) commit (earliest, latest) =
    index_paths paths commit (setdefault relpath commit earliest, assign relpath commit latest)

unfoldable pub index_commits : List Commit → Dict × Dict → Dict × Dict
unfolding index_paths
index_commits [] dicts = dicts
index_commits (commit ∷ commits) dicts =
    index_commits commits (index_paths commit.paths commit dicts)

pub record Report : Type 0 where
  pub rolled_back : List Str
  pub failed : List (Str × Failure)

-- What the `except` of the loop catches.
unfoldable pub is_caught : Failure → Bool
is_caught Failure.out_of_scope = true
is_caught (Failure.of_store (Error.concurrent_edit current)) = true
is_caught _ = false

module _ (host : Host) (dir : PurePath) (G : Git) (L : Logs G) (D : Disk) (config : Config)
    (actor_label : Str) where
  abbrev author : Str
  author = str "cli:rollback-session <cli@chrono-ctx.local>"

  unfoldable pub found : Option Commit → Call G D Commit
  found none = throw Failure.key_error
  found (some commit) = yield commit

  -- `current_rev != expected_rev`, with the call that fills the message.
  unfoldable pub check_current : PurePath → Str → Str → Option Str → Call G D Unit
  unfolding in_repo
  check_current repo relpath expected current = if current == some expected then yield tt else (do
    info ← in_repo repo (commit_info G L relpath)
    throw (Failure.of_store (Error.concurrent_edit current)))

  unfoldable pub undo_create : PurePath → Str → Str → Call G D Unit
  unfolding in_repo on_disk
  undo_create repo relpath source_path = do
    removed ← in_repo repo (
        Operations.remove G relpath
          (str "rollback session " ++ actor_label ++ str ": undo create of " ++ relpath) author)
    on_disk (D.unlink source_path)

  unfoldable pub revert : PurePath → Str → Str → Str → Option Str → Call G D Unit
  unfolding in_repo on_disk
  revert repo relpath source_path rev current = do
    content ← in_repo repo (Operations.show G relpath rev)
    new_rev ← in_repo repo (
        Operations.write_with_check G relpath content
          (str "rollback session "
            ++ actor_label
            ++ str ": revert "
            ++ relpath
            ++ str " to "
            ++ rev)
          author current false)
    on_disk (D.write_bytes source_path content)

  -- By whether the path existed before the earliest commit.
  unfoldable pub restore_from : Bool → PurePath → Str → Str → Str → Option Str → Call G D Unit
  unfolding undo_create revert
  restore_from false repo relpath source_path rev current = undo_create repo relpath source_path
  restore_from true repo relpath source_path rev current =
      revert repo relpath source_path rev current

  -- By the parent of the earliest commit.
  unfoldable pub restore : PurePath → Str → Str → Option Str → Option Str → Call G D Unit
  unfolding undo_create restore_from in_repo
  restore repo relpath source_path none current = undo_create repo relpath source_path
  restore repo relpath source_path (some rev) current = do
    existed ← in_repo repo (Operations.path_exists_at_rev G relpath rev)
    restore_from existed repo relpath source_path rev current

  -- The body of the `try`.
  unfoldable pub rollback_path : Str → Dict → Str → Commit → Call G D Unit
  unfolding check_scope found lookup check_current restore in_repo repo_path_for source_path_for
  rollback_path target latest relpath earliest =
      let repo = repo_path_for host dir target in
      let source_path = source_path_for host target relpath in
      do
        scoped ← check_scope host dir G L D config source_path
        last ← found (lookup relpath latest)
        current ← in_repo repo (Operations.head_rev G relpath)
        fresh ← check_current repo relpath last.rev current
        restore repo relpath source_path earliest.parent current

  unfoldable pub note : Str → Report → Result Unit × World G D → Result Report × World G D
  unfolding is_caught
  note relpath report (ok u, w) =
      (ok (record report { rolled_back = report.rolled_back ++ relpath ∷ [] }), w)
  note relpath report (err e, w) = (
    if is_caught e
        then ok (record report { failed = report.failed ++ (relpath, e) ∷ [] })
        else err e,
    w,
  )

  unfoldable pub rollback_paths : Str → Dict → Dict → Report → Call G D Report
  unfolding rollback_path note
  rollback_paths target latest [] report = yield report
  rollback_paths target latest ((relpath, earliest) ∷ paths) report =
      (λ w. note relpath report (rollback_path target latest relpath earliest w))
      >>= rollback_paths target latest paths

  unfoldable pub rollback_targets : List Str → Report → Call G D Report
  unfolding rollback_paths index_commits in_repo repo_path_for
  rollback_targets [] report = yield report
  rollback_targets (target ∷ targets) report =
      let repo = repo_path_for host dir target in
      in_repo repo (init_repo G L) >>= λ made.
      in_repo repo (commits_by_author G L actor_label) >>= λ commits.
      rollback_paths target (index_commits commits ([], [])).1 (index_commits commits ([], [])).0
        report
      >>= rollback_targets targets

  unfoldable pub rollback_session : List Str → Call G D Report
  unfolding rollback_targets
  rollback_session targets =
      if actor_label == str "unknown:filesystem"
      then throw Failure.invalid_session_actor
      else rollback_targets targets (record { rolled_back = []; failed = [] })
