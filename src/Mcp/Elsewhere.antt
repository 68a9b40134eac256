-- ===== src/Mcp/Elsewhere.antt =====
-- What `create_file` of the MCP server does with a path that its scope check reads otherwise.
use context_os.Base.{Bool, true, some, List, [], ◌∷◌, ◌≡◌, ◌≢◌, refl, sym, ap, ◌∙◌, nat_eq, list_eq}
use context_os.Base.Text.{Str}
use context_os.Base.Utf8.{encode}
use context_os.Paths.Pure.{PurePath}
use context_os.Paths.Normalize.{Host, path_normalize}
use context_os.Configure.Sources.{Yaml}
use context_os.Configure.Grant.{ScopeGrant, ensure_scope}
use context_os.Store.Commands.{Bytes, Git}
use context_os.Store.Logs.{Logs}
use context_os.Audit.{Result, ok, err, Disk, World, then_on, on_disk}
use context_os.Mcp.{
  Reply, Request, Server, write_encoded, save_text, caught, finish, commit_grants, set_actor_hint,
  with_grant, scoped, create_file,
}
use context_os.Mcp.Contents.{IsDisk, then_on-unit, saved-content}
use context_os.Mcp.Written.{IsDone, finished, created-elsewhere}

module _ (host : Host) (dir : PurePath) (Y : Yaml) (G : Git) (L : Logs G) (D : Disk)
    (is_dir : PurePath → Bool) (iterate : List Str → List Str) (replaced : Bytes → Str)
    (law : IsDisk D) where
  -- A file system on which the directory of the path can be made and the path be written.
  abbrev pub IsWritable : Str → Type 0
  IsWritable path =
      ((d : D.State) → (D.make_parent path d).0 ≡ true)
      × ((content : Bytes) (d : D.State) → (D.write_bytes path content d).0 ≡ true)

  on_disk-fine :
      (f : D.State → Bool × D.State) (w : World G D) → (f w.disk).0 ≡ true → (on_disk f w).0 ≡ ok tt
  unfolding on_disk
  on_disk-fine f w h = rw h

  then_on-fine :
      {A : Type 0} (x : Result Unit × World G D) (f : Unit → World G D → Result A × World G D)
      → x.0 ≡ ok tt
      → then_on x f ≡ f tt x.1
  unfolding then_on
  then_on-fine (ok tt, w) f h = refl
  then_on-fine (err e, w) f h = cc

  saved-fine :
      (path text : Str) (bs : Bytes) (w : World G D)
      → IsWritable path
      → encode text ≡ some bs
      → (save_text path text w).0 ≡ ok tt
  unfolding save_text write_encoded
  saved-fine path text bs w (makes, writes) e =
      let opened = on_disk (D.write_bytes path []) w in
      ap (λ t. t.0)
        (then_on-fine opened (λ u. write_encoded path (encode text))
          (on_disk-fine (D.write_bytes path []) w (writes [] w.disk)))
      ∙ rw e (on_disk-fine (D.write_bytes path bs) opened.1 (writes bs opened.1.disk))

  caught-fine :
      (x : Result Unit × World G D) (grants : List ScopeGrant) (s : Server Y G D)
      → x.0 ≡ ok tt
      → (p : Bool) × IsDone host dir Y G L D is_dir iterate replaced
          (caught host dir Y G L D is_dir iterate replaced x
            (λ u. finish host dir Y G L D is_dir iterate replaced grants)
            s)
          p
  unfolding caught finish
  caught-fine (ok tt, w) grants s h =
      ((commit_grants host dir Y G L D is_dir iterate replaced grants s.config).0, refl)
  caught-fine (err e, w) grants s h = cc

  granted :
      (path content : Str) (r : Request) (s : Server Y G D) (grant : ScopeGrant)
      → ensure_scope host Y iterate path r.answer s.config ≡ some grant
      → grant.allowed ≡ true
      → let hinted = set_actor_hint host dir Y G L D is_dir iterate replaced path r s in
        let made = on_disk (D.make_parent path) hinted.world in
        create_file host dir Y G L D is_dir iterate replaced path content r s
        ≡ caught host dir Y G L D is_dir iterate replaced
            (then_on made (λ u. save_text path content))
            (λ u. finish host dir Y G L D is_dir iterate replaced (grant ∷ []))
            hinted
  unfolding create_file scoped with_grant
  granted path content r s grant e allowed = rw (e, allowed) refl

  -- Let the client be granted the path as `ensure_scope` reads it, by its normal form, but let the
  -- path lead elsewhere, as with a leading tilde. If the file system makes the directory and
  -- takes the file, and the content can be encoded, then `create_file` answers "ok": the content
  -- is where the path leads, and the file of the normal form is as it was before.
  pub create-elsewhere :
      (path content : Str) (bs : Bytes) (r : Request) (s : Server Y G D) (grant : ScopeGrant)
      → ensure_scope host Y iterate path r.answer s.config ≡ some grant
      → grant.allowed ≡ true
      → law.place path ≢ law.place (path_normalize host path)
      → IsWritable path
      → encode content ≡ some bs
      → let (answer, s') = create_file host dir Y G L D is_dir iterate replaced path content r s in
        (p : Bool) × (answer ≡ ok (Reply.done p))
        × (D.read_bytes path s'.world.disk ≡ some bs)
        × (D.read_bytes (path_normalize host path) s'.world.disk
            ≡ D.read_bytes (path_normalize host path) s.world.disk)
  create-elsewhere path content bs r s grant e allowed apart writable encoded =
      let hinted = set_actor_hint host dir Y G L D is_dir iterate replaced path r s in
      let made = on_disk (D.make_parent path) hinted.world in
      let x = then_on made (λ u. save_text path content) in
      let runs = granted path content r s grant e allowed in
      let fine =
        ap (λ t. t.0)
          (then_on-fine made (λ u. save_text path content)
            (on_disk-fine (D.make_parent path) hinted.world (writable.0 hinted.world.disk)))
        ∙ saved-fine path content bs made.1 writable encoded in
      let (p, answered) = caught-fine x (grant ∷ []) hinted fine in
      let done = ap (λ t. t.0) runs ∙ answered in
      let (same, kept) =
        finished host dir Y G L D is_dir iterate replaced x (grant ∷ []) hinted p answered in
      let (a, b, c) = then_on-unit D law made (λ u. save_text path content) fine in
      let (bs', e', read) = saved-content D law path path content made.1 b refl in
      (
        p,
        done,
        ap (λ t. D.read_bytes path t.1.world.disk) runs
            ∙ ap (λ w. D.read_bytes path w.disk) (kept ∙ c)
            ∙ read
            ∙ sym e'
            ∙ encoded,
        created-elsewhere host dir Y G L D is_dir iterate replaced law path content r s p apart
            done,
      )
