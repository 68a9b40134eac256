-- ===== src/Mcp/Tools.antt =====
-- The five tools of the MCP server leave alone what they must.
use context_os.Base.{Bool, Option, none, some, List, [], ◌∷◌, ◌≡◌, refl, ◌∙◌}
use context_os.Base.Text.{Str}
use context_os.Paths.Pure.{PurePath}
use context_os.Paths.Normalize.{Host, path_normalize}
use context_os.Configure.Sources.{Yaml}
use context_os.Configure.Grant.{ScopeGrant}
use context_os.Store.Commands.{Bytes, Git}
use context_os.Store.Logs.{Logs}
use context_os.Audit.{Failure, Result, ok, err, Disk, World, ◌>>=◌, yield, on_disk}
use context_os.Audit.Untouched.{IsStill}
use context_os.Mcp.{
  Request, Server, save_text, read_bytes, decoded, read_text_file, caught, finish, finish_read,
  version_of, set_actor_hint, read_file, write_file, create_file, delete_file, move_file,
}
use context_os.Mcp.Guarded.{
  then_on-still, version_of-IsStill, Leaves, caught-Leaves, finish-Leaves, scoped-Leaves,
  checked-Leaves, hinted-config,
}

module _ (host : Host) (dir : PurePath) (Y : Yaml) (G : Git) (L : Logs G) (D : Disk)
    (is_dir : PurePath → Bool) (iterate : List Str → List Str) (replaced : Bytes → Str) where
  -- The last part of a tool that writes: the call of the file system, then the grants.
  written-Leaves :
      (x : Result Unit × World G D) (grants : List ScopeGrant) (s s' : Server Y G D)
      → s'.config ≡ s.config
      → Leaves host dir Y G L D is_dir iterate replaced s (
          caught host dir Y G L D is_dir iterate replaced x
            (λ done. finish host dir Y G L D is_dir iterate replaced grants)
            s')
  written-Leaves x grants s s' h =
      caught-Leaves host dir Y G L D is_dir iterate replaced x
        (λ done. finish host dir Y G L D is_dir iterate replaced grants) s s' h
        (λ done.
          finish-Leaves host dir Y G L D is_dir iterate replaced grants s
            (record s' { world = x.1 }))

  read_bytes-still :
      (found : Option Bytes) (w : World G D)
      → (elim found as (λ _. Result Bytes × World G D) [
        | none ↦ (err Failure.os_error, w)
        | some content ↦ (ok content, w)
      ]).1.disk
        ≡ w.disk
  read_bytes-still none w = refl
  read_bytes-still (some content) w = refl

  read_bytes-IsStill : (path : Str) → IsStill (read_bytes {G = G} {D = D} path)
  unfolding read_bytes
  read_bytes-IsStill path w = read_bytes-still (D.read_bytes path w.disk) w

  read_text_file-IsStill :
      (path : Str) → IsStill (read_text_file host replaced {G = G} {D = D} path)
  unfolding read_text_file
  read_text_file-IsStill path w =
      then_on-still (read_bytes (path_normalize host path) w)
        (λ raw. yield (decoded host replaced raw)) (λ raw v. refl)
      ∙ read_bytes-IsStill (path_normalize host path) w

  read_file-Leaves :
      (path : Str) (r : Request) (s : Server Y G D)
      → Leaves host dir Y G L D is_dir iterate replaced s
          (read_file host dir Y G L D is_dir iterate replaced path r s)
  unfolding read_file finish_read
  read_file-Leaves path r s =
      scoped-Leaves host dir Y G L D is_dir iterate replaced _ path r.answer _ s (λ grant.
        caught-Leaves host dir Y G L D is_dir iterate replaced _
          (finish_read host dir Y G L D is_dir iterate replaced grant) s s refl
          (λ found.
            then_on-still (read_text_file host replaced path s.world) _ (λ text w.
              then_on-still (version_of host dir Y G L D is_dir iterate replaced path s.config w)
                (λ version. yield (text, version)) (λ version v. refl)
              ∙ version_of-IsStill host dir Y G L D is_dir iterate replaced path s.config w)
            ∙ read_text_file-IsStill path s.world))

  write_file-Leaves :
      (path content : Str) (expected : Option Str) (r : Request) (s : Server Y G D)
      → Leaves host dir Y G L D is_dir iterate replaced s
          (write_file host dir Y G L D is_dir iterate replaced path content expected r s)
  unfolding write_file
  write_file-Leaves path content expected r s =
      scoped-Leaves host dir Y G L D is_dir iterate replaced _ path r.answer _ s (λ grant.
        checked-Leaves host dir Y G L D is_dir iterate replaced path expected _ s (λ t same.
          let hinted = set_actor_hint host dir Y G L D is_dir iterate replaced path r t in
          written-Leaves (save_text path content hinted.world) (grant ∷ []) s hinted
            (hinted-config host dir Y G L D is_dir iterate replaced path r t ∙ same)))

  create_file-Leaves :
      (path content : Str) (r : Request) (s : Server Y G D)
      → Leaves host dir Y G L D is_dir iterate replaced s
          (create_file host dir Y G L D is_dir iterate replaced path content r s)
  unfolding create_file
  create_file-Leaves path content r s =
      scoped-Leaves host dir Y G L D is_dir iterate replaced _ path r.answer _ s (λ grant.
        let hinted = set_actor_hint host dir Y G L D is_dir iterate replaced path r s in
        written-Leaves
          ((on_disk (D.make_parent path) >>= λ made. save_text path content) hinted.world)
          (grant ∷ []) s hinted (hinted-config host dir Y G L D is_dir iterate replaced path r s))

  delete_file-Leaves :
      (path : Str) (expected : Option Str) (r : Request) (s : Server Y G D)
      → Leaves host dir Y G L D is_dir iterate replaced s
          (delete_file host dir Y G L D is_dir iterate replaced path expected r s)
  unfolding delete_file
  delete_file-Leaves path expected r s =
      scoped-Leaves host dir Y G L D is_dir iterate replaced _ path r.answer _ s (λ grant.
        checked-Leaves host dir Y G L D is_dir iterate replaced path expected _ s (λ t same.
          let hinted = set_actor_hint host dir Y G L D is_dir iterate replaced path r t in
          written-Leaves (on_disk (D.remove path) hinted.world) (grant ∷ []) s hinted
            (hinted-config host dir Y G L D is_dir iterate replaced path r t ∙ same)))

  move_file-Leaves :
      (src dst : Str) (r : Request) (s : Server Y G D)
      → Leaves host dir Y G L D is_dir iterate replaced s
          (move_file host dir Y G L D is_dir iterate replaced src dst r s)
  unfolding move_file
  move_file-Leaves src dst r s =
      scoped-Leaves host dir Y G L D is_dir iterate replaced _ src r.answer _ s (λ src_grant.
        scoped-Leaves host dir Y G L D is_dir iterate replaced _ dst r.second_answer _ s
          (λ dst_grant.
            let once = set_actor_hint host dir Y G L D is_dir iterate replaced src r s in
            let hinted = set_actor_hint host dir Y G L D is_dir iterate replaced dst r once in
            written-Leaves
              ((on_disk (D.make_parent dst) >>= λ made. on_disk (D.move src dst)) hinted.world)
              (src_grant ∷ dst_grant ∷ []) s hinted
              (hinted-config host dir Y G L D is_dir iterate replaced dst r once
                ∙ hinted-config host dir Y G L D is_dir iterate replaced src r s)))

  -- Each of the five tools: where it answers "denied", nothing at all is changed; where it answers
  -- "conflict", the config, the hints and the files are unchanged; where it answers "error" or
  -- raises, no approval was written to config.yaml; and where a read answers, the files are
  -- unchanged.
  pub tools_guarded :
      (path other content : Str) (expected : Option Str) (r : Request) (s : Server Y G D)
      → Leaves host dir Y G L D is_dir iterate replaced s
          (read_file host dir Y G L D is_dir iterate replaced path r s)
        × Leaves host dir Y G L D is_dir iterate replaced s
            (write_file host dir Y G L D is_dir iterate replaced path content expected r s)
        × Leaves host dir Y G L D is_dir iterate replaced s
            (create_file host dir Y G L D is_dir iterate replaced path content r s)
        × Leaves host dir Y G L D is_dir iterate replaced s
            (delete_file host dir Y G L D is_dir iterate replaced path expected r s)
        × Leaves host dir Y G L D is_dir iterate replaced s
            (move_file host dir Y G L D is_dir iterate replaced path other r s)
  tools_guarded path other content expected r s = (
    read_file-Leaves path r s,
    write_file-Leaves path content expected r s,
    create_file-Leaves path content r s,
    delete_file-Leaves path expected r s,
    move_file-Leaves path other r s,
  )
