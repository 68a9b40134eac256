-- ===== src/Mcp.antt =====
-- app/mcp/server.py: the tools of the MCP server. A tool answers with a dict or raises.
pub mod Guarded
pub mod Written
pub mod Elsewhere
pub mod Contents
pub mod Tools
use context_os.Base.{
  ℕ, Bool, true, false, not, ◌&&◌, Option, none, some, List, [], ◌∷◌, ◌++◌, ◌==◌, nat_eq, list_eq,
  option_eq, if◌then◌else◌,
}
use context_os.Base.Text.{Str, str}
use context_os.Base.Utf8.{encode, decode}
use context_os.Paths.Pure.{PurePath}
use context_os.Paths.Normalize.{Host, path_normalize}
use context_os.Configure.Sources.{Config, Yaml, ConfigFiles, parse_config}
use context_os.Configure.Targets.{derive_watch_targets}
use context_os.Configure.Grant.{Answer, ScopeGrant, ensure_scope}
use context_os.Configure.Grant
use context_os.Store.Commands.{Error, Bytes, Git}
use context_os.Store.Logs.{Logs}
use context_os.Versioning.Hints.{Hint, set_hint}
use context_os.Audit.{
  Failure, Result, ok, err, Disk, World, Call, then_on, ◌>>=◌, yield, throw, on_disk,
  current_version,
}

-- The dict that a tool returns, by its "status"; `persisted` is false where "scope_persisted" is.
pub data Reply : Type 0 where
  denied : (reason : Str) → Reply
  failed : Failure → Reply
  conflict : (current : Option Str) → Reply
  done : (persisted : Bool) → Reply
  content_read : (persisted : Bool) (content : Str) (version : Option Str) (lossy : Bool) → Reply

-- Whether an exception is one of `IO_ERRORS`.
unfoldable pub is_io_error : Failure → Bool
is_io_error Failure.os_error = true
is_io_error Failure.unicode_error = true
is_io_error (Failure.of_store Error.timed_out) = true
is_io_error (Failure.of_store Error.file_not_found) = true
is_io_error _ = false

-- What a call meets: the client's answers to the prompts, the session, the time, the lifetime
-- of a hint, and whether the database of the hints can be written.
pub record Request : Type 0 where
  pub answer : Answer
  pub second_answer : Answer
  pub session_id : Str
  pub now : ℕ
  pub ttl_seconds : ℕ
  pub database : Bool

pub record Server (Y : Yaml) (G : Git) (D : Disk) : Type 0 where
  pub config : ConfigFiles Y
  pub hints : List Hint
  pub world : World G D

module _ {G : Git} {D : Disk} where
  -- `save_to_file(text, path, mode="w")`: the file is emptied before the text is encoded.
  unfoldable pub write_encoded : Str → Option Bytes → Call G D Unit
  unfolding on_disk
  write_encoded path none = throw Failure.unicode_error
  write_encoded path (some content) = on_disk (D.write_bytes path content)

  unfoldable pub save_text : Str → Str → Call G D Unit
  unfolding write_encoded on_disk
  save_text path text = do
    opened ← on_disk (D.write_bytes path [])
    write_encoded path (encode text)

  unfoldable pub read_bytes : Str → Call G D Bytes
  read_bytes path w = elim (D.read_bytes path w.disk) [
    | none ↦ (err Failure.os_error, w)
    | some content ↦ (ok content, w)
  ]

-- `replaced` is `raw.decode("utf-8", errors="replace")`.
module _ (host : Host) (replaced : Bytes → Str) where
  unfoldable pub decoded : Bytes → Str × Bool
  decoded raw = elim (decode raw) [ none ↦ (replaced raw, true) | some text ↦ (text, false) ]

  unfoldable pub read_text_file : {G : Git} {D : Disk} → Str → Call G D (Str × Bool)
  unfolding read_bytes decoded
  read_text_file path = do raw ← read_bytes (path_normalize host path); yield (decoded raw)

module _ (host : Host) (dir : PurePath) (Y : Yaml) (G : Git) (L : Logs G) (D : Disk)
    (is_dir : PurePath → Bool) (iterate : List Str → List Str) (replaced : Bytes → Str) where
  abbrev pub Tool : Type 0
  Tool = Server Y G D → Result Reply × Server Y G D

  -- The `except IO_ERRORS` of a tool, and what follows where the call returns.
  unfoldable pub caught : {A : Type 0} → Result A × World G D → (A → Tool) → Tool
  unfolding is_io_error
  caught (ok a, w) next s = next a (record s { world = w })
  caught (err e, w) next s =
      (if is_io_error e then ok (failed e) else err e, record s { world = w })

  -- `_commit_grants`: the grants that were written before one raises stay written.
  unfoldable pub commit_grants : List ScopeGrant → ConfigFiles Y → Bool × ConfigFiles Y
  unfolding Grant.commit
  commit_grants [] files = (true, files)
  commit_grants (grant ∷ grants) files = elim (Grant.commit host Y iterate grant files) [
    | none ↦ (false, files)
    | some (settled, written) ↦ commit_grants grants written
  ]

  unfoldable pub finish : List ScopeGrant → Tool
  unfolding commit_grants
  finish grants s =
      let (persisted, files) = commit_grants grants s.config in
      (ok (done persisted), record s { config = files })

  unfoldable pub finish_read : ScopeGrant → (Str × Bool) × Option Str → Tool
  unfolding commit_grants
  finish_read grant ((content, lossy), version) s =
      let (persisted, files) = commit_grants (grant ∷ []) s.config in
      (ok (content_read persisted content version lossy), record s { config = files })

  -- `current_version(path)`, which reads config.yaml for the watch targets.
  unfoldable pub version_of : Str → ConfigFiles Y → Call G D (Option Str)
  unfolding current_version parse_config derive_watch_targets
  version_of path files = elim (parse_config host Y false files) [
    | none ↦ throw Failure.os_error
    | some config ↦
        current_version host dir G L D config (derive_watch_targets host is_dir iterate config) path
  ]

  unfoldable pub compared : Str → (Tool) → Option Str → Tool
  compared expected next actual s =
      if actual == some expected then next s else (ok (conflict actual), s)

  -- `_check_expected_version`, and what follows where it finds no conflict.
  unfoldable pub check_expected_version : Str → Option Str → Tool → Tool
  unfolding caught version_of compared
  check_expected_version path none next s = next s
  check_expected_version path (some expected) next s =
      caught (version_of path s.config s.world) (compared expected next) s

  -- `_set_actor_hint`, which never fails.
  unfoldable pub set_actor_hint : Str → Request → Server Y G D → Server Y G D
  unfolding set_hint
  set_actor_hint path r s =
      if r.database
      then record s {
        hints = set_hint host path (str "agent:" ++ r.session_id) r.ttl_seconds r.now s.hints;
      }
      else s

  -- `grant = await ensure_scope(ctx, path)`; config.yaml may be unreadable.
  unfoldable pub with_grant : Str → Option ScopeGrant → (ScopeGrant → Tool) → Tool
  with_grant reason none next s = (err Failure.config_unreadable, s)
  with_grant reason (some grant) next s =
      if grant.allowed then next grant s else (ok (denied reason), s)

  unfoldable pub scoped : Str → Str → Answer → (ScopeGrant → Tool) → Tool
  unfolding ensure_scope with_grant
  scoped reason path answer next s =
      with_grant reason (ensure_scope host Y iterate path answer s.config) next s

  abbrev out_of_scope : Str
  out_of_scope = str "path out of scope"

  unfoldable pub read_file : Str → Request → Tool
  unfolding scoped read_text_file version_of caught finish_read
  read_file path r = scoped out_of_scope path r.answer (λ grant s.
      caught
        ((read_text_file host replaced path >>= λ text.
            version_of path s.config >>= λ version. yield (text, version))
          s.world)
        (finish_read grant) s)

  unfoldable pub write_file : Str → Str → Option Str → Request → Tool
  unfolding scoped check_expected_version set_actor_hint save_text caught finish
  write_file path content expected r = scoped out_of_scope path r.answer (λ grant.
      check_expected_version path expected (λ s.
        let hinted = set_actor_hint path r s in
        caught (save_text path content hinted.world) (λ saved. finish (grant ∷ [])) hinted))

  unfoldable pub create_file : Str → Str → Request → Tool
  unfolding scoped set_actor_hint on_disk save_text caught finish
  create_file path content r = scoped out_of_scope path r.answer (λ grant s.
      let hinted = set_actor_hint path r s in
      caught ((on_disk (D.make_parent path) >>= λ made. save_text path content) hinted.world)
        (λ saved. finish (grant ∷ [])) hinted)

  unfoldable pub delete_file : Str → Option Str → Request → Tool
  unfolding scoped check_expected_version set_actor_hint on_disk caught finish
  delete_file path expected r = scoped out_of_scope path r.answer (λ grant.
      check_expected_version path expected (λ s.
        let hinted = set_actor_hint path r s in
        caught (on_disk (D.remove path) hinted.world) (λ removed. finish (grant ∷ [])) hinted))

  unfoldable pub move_file : Str → Str → Request → Tool
  unfolding scoped set_actor_hint on_disk caught finish
  move_file src dst r = scoped (str "src out of scope") src r.answer (λ src_grant.
      scoped (str "dst out of scope") dst r.second_answer (λ dst_grant s.
        let hinted = set_actor_hint dst r (set_actor_hint src r s) in
        caught ((on_disk (D.make_parent dst) >>= λ made. on_disk (D.move src dst)) hinted.world)
          (λ moved. finish (src_grant ∷ dst_grant ∷ [])) hinted))
