-- ===== src/Audit.antt =====
-- vcs/services/audit.py: what its operations work on, how they fail, and the reading ones.
-- config.yaml does not change during a call.
pub mod Rollback
pub mod Dicts
pub mod Untouched
pub mod Reports
use context_os.Base.{
  ℕ, Bool, true, false, ◌&&◌, Option, none, some, List, [], ◌∷◌, ◌++◌, ◌==◌, nat_eq, list_eq,
  bool_eq, if◌then◌else◌,
}
use context_os.Base.Text.{Str, str}
use context_os.Paths.Pure.{PurePath}
use context_os.Paths.Normalize.{Host}
use context_os.Paths.Mirror.{resolve_mirror_location}
use context_os.Configure.Sources.{Config, is_path_in_scope}
use context_os.Store.Commands.{Error, Reply, done, failed, Bytes, Git, Session, Action}
use context_os.Store.Operations
use context_os.Store.Logs.{Logs, Entry, init_repo, log_history, diff}
use context_os.Versioning.Tables.{Row}

-- The exceptions: those of this module, that of mirror_path.py, those of git_store.py and those of
-- the file system and of the codec, that of a dict without the key,
-- and any that reading config.yaml raises.
pub data Failure : Type 0 where
  out_of_scope invalid_session_actor path_not_watched os_error unicode_error key_error
        config_unreadable :
      Failure
  of_store : Error → Failure

pub data Result (A : Type 0) : Type 0 where
  ok : A → Result A
  err : Failure → Result A

-- The file system: `write_bytes`, `unlink(missing_ok=True)`, `unlink()`,
-- `parent.mkdir(parents=True, exist_ok=True)` and `shutil.move`, false where they raise, and
-- reading a file.
pub record Disk : Type 1 where
  pub State : Type 0
  pub write_bytes : Str → Bytes → State → Bool × State
  pub unlink : Str → State → Bool × State
  pub remove : Str → State → Bool × State
  pub make_parent : Str → State → Bool × State
  pub move : Str → Str → State → Bool × State
  pub read_bytes : Str → State → Option Bytes

pub record World (G : Git) (D : Disk) : Type 0 where
  pub repos : PurePath → Session G
  pub disk : D.State

unfoldable pub is_same_path : PurePath → PurePath → Bool
is_same_path p q = p.rooted == q.rooted && p.parts == q.parts

unfoldable pub reply_of : {A : Type 0} → Reply A → Result A
reply_of (done a) = ok a
reply_of (failed e) = err (Failure.of_store e)

module _ (G : Git) (D : Disk) where
  abbrev pub Call : Type 0 → Type 0
  Call A = World G D → Result A × World G D

module _ {G : Git} {D : Disk} {A B : Type 0} where
  unfoldable pub then_on : Result A × World G D → (A → Call G D B) → Result B × World G D
  then_on (ok a, w) f = f a w
  then_on (err e, w) f = (err e, w)

  infixl 5 ◌>>=◌
  abbrev pub ◌>>=◌ : Call G D A → (A → Call G D B) → Call G D B
  m >>= f = λ w. then_on (m w) f

module _ {G : Git} {D : Disk} {A : Type 0} where
  abbrev pub yield : A → Call G D A
  yield a w = (ok a, w)

  abbrev pub throw : Failure → Call G D A
  throw e w = (err e, w)

  -- A call of git_store on one repository.
  unfoldable pub in_repo : PurePath → Action G A → Call G D A
  unfolding reply_of is_same_path
  in_repo p action w =
      let (reply, s) = action (w.repos p) in
      (reply_of reply, record w { repos = λ q. if is_same_path p q then s else w.repos q })

module _ {G : Git} {D : Disk} where
  -- A call of the file system.
  unfoldable pub on_disk : (D.State → Bool × D.State) → Call G D Unit
  on_disk f w =
      let (fine, d) = f w.disk in
      (if fine then ok tt else err Failure.os_error, record w { disk = d })

module _ (host : Host) (dir : PurePath) (G : Git) (L : Logs G) (D : Disk) (config : Config) where
  unfoldable pub check_scope : Str → Call G D Unit
  unfolding is_path_in_scope
  check_scope path =
      if is_path_in_scope host config path then yield tt else throw Failure.out_of_scope

  -- `watch_targets` as given, or as derived from config.yaml.
  module _ (targets : List Str) where
    unfoldable pub version_at : Option (PurePath × Str) → Call G D (Option Str)
    unfolding in_repo
    version_at none = yield none
    version_at (some (repo, rel)) = do
      made ← in_repo repo (init_repo G L)
      in_repo repo (Operations.head_rev G rel)

    -- `current_version` of vcs/services/versioning.py.
    unfoldable pub current_version : Str → Call G D (Option Str)
    unfolding version_at resolve_mirror_location
    current_version path = version_at (resolve_mirror_location host dir path targets)

    -- The rows of `locations`, each with its version.
    unfoldable pub get_sources : List Row → Call G D (List (Row × Option Str))
    unfolding current_version
    get_sources [] = yield []
    get_sources (row ∷ rows) =
        let rest = get_sources rows in
        current_version row.location >>= λ version.
        rest >>= λ sources. yield ((row, version) ∷ sources)

    unfoldable pub history_at : Option (PurePath × Str) → Call G D (List Entry)
    unfolding in_repo
    history_at none = yield []
    history_at (some (repo, rel)) = do
      made ← in_repo repo (init_repo G L)
      in_repo repo (log_history G L rel)

    unfoldable pub get_version_list : Str → Call G D (List Entry)
    unfolding check_scope history_at resolve_mirror_location
    get_version_list path = do
      scoped ← check_scope path
      history_at (resolve_mirror_location host dir path targets)

    unfoldable pub diff_of_known : PurePath → Str → Str → Str → Option Str → Call G D Str
    unfolding in_repo
    diff_of_known repo rel v1 v2 none = yield []
    diff_of_known repo rel v1 v2 (some rev) = in_repo repo (diff G L rel v1 v2)

    unfoldable pub diff_at : Option (PurePath × Str) → Str → Str → Call G D Str
    unfolding in_repo diff_of_known
    diff_at none v1 v2 = yield []
    diff_at (some (repo, rel)) v1 v2 = do
      made ← in_repo repo (init_repo G L)
      rev ← in_repo repo (Operations.head_rev G rel)
      diff_of_known repo rel v1 v2 rev

    unfoldable pub check_diff : Str → Str → Str → Call G D Str
    unfolding check_scope diff_at resolve_mirror_location
    check_diff path v1 v2 = do
      scoped ← check_scope path
      diff_at (resolve_mirror_location host dir path targets) v1 v2

    unfoldable pub rollback_at : Str → Str → Option (PurePath × Str) → Call G D Str
    unfolding in_repo on_disk
    rollback_at path rev none = throw Failure.path_not_watched
    rollback_at path rev (some (repo, rel)) = do
      made ← in_repo repo (init_repo G L)
      expected_rev ← in_repo repo (Operations.head_rev G rel)
      content ← in_repo repo (Operations.show G rel rev)
      new_rev ← in_repo repo (
          Operations.write_with_check G rel content
            (str "rollback " ++ rel ++ str " to " ++ rev ++ str " via cli:rollback")
            (str "cli:rollback <cli@chrono-ctx.local>") expected_rev false)
      written ← on_disk (D.write_bytes path content)
      yield new_rev

    unfoldable pub rollback_source : Str → Str → Call G D Str
    unfolding check_scope rollback_at resolve_mirror_location
    rollback_source path rev = do
      scoped ← check_scope path
      rollback_at path rev (resolve_mirror_location host dir path targets)
