-- ===== src/Mcp/Written.antt =====
-- Write and create, then read: what the tools of the MCP server promise of a file's content.
use context_os.Base.{
  Bool, false, Option, none, some, List, [], ◌∷◌, ◌==◌, ◌≡◌, ◌≢◌, ◌⊎◌, refl, sym, ap, ◌∙◌, nat_eq,
  list_eq, option_eq, Bool-cases, inl, inr, arith,
}
use context_os.Base.Text.{Str}
use context_os.Base.Utf8.{encode}
use context_os.Paths.Pure.{PurePath}
use context_os.Paths.Normalize.{Host, path_normalize}
use context_os.Configure.Sources.{Yaml}
use context_os.Configure.Grant.{Answer, ScopeGrant, ensure_scope}
use context_os.Store.Commands.{Bytes, Git}
use context_os.Store.Logs.{Logs}
use context_os.Audit.{Result, ok, err, Disk, World, then_on, on_disk}
use context_os.Mcp.{
  Reply, Request, Server, write_encoded, save_text, read_text_file, is_io_error, caught, finish,
  version_of, compared, check_expected_version, set_actor_hint, with_grant, scoped, write_file,
  create_file,
}
use context_os.Mcp.Contents.{IsDisk, then_on-unit, saved-read}

module _ (host : Host) (dir : PurePath) (Y : Yaml) (G : Git) (L : Logs G) (D : Disk)
    (is_dir : PurePath → Bool) (iterate : List Str → List Str) (replaced : Bytes → Str) where
  abbrev Tool : Type 0
  Tool = Server Y G D → Result Reply × Server Y G D

  -- The tool answers "ok".
  abbrev pub IsDone : Result Reply × Server Y G D → Bool → Type 0
  IsDone x persisted = x.0 ≡ ok (Reply.done persisted)

  with_grant-done :
      (reason : Str) (grant : Option ScopeGrant) (next : ScopeGrant → Tool) (s : Server Y G D)
      (p : Bool)
      → IsDone (with_grant host dir Y G L D is_dir iterate replaced reason grant next s) p
      → (g : ScopeGrant) × (with_grant host dir Y G L D is_dir iterate replaced reason grant next s
          ≡ next g s)
  unfolding with_grant
  with_grant-done reason none next s p h = cc
  with_grant-done reason (some grant) next s p h = elim (Bool-cases grant.allowed) [
    | inl e ↦ (grant, rw e refl)
    | inr e ↦ let wrong : ok (Reply.denied reason) ≡ ok (Reply.done p) = ground arith in absurd (cc)
  ]

  scoped-done :
      (reason path : Str) (answer : Answer) (next : ScopeGrant → Tool) (s : Server Y G D) (p : Bool)
      → IsDone (scoped host dir Y G L D is_dir iterate replaced reason path answer next s) p
      → (g : ScopeGrant) × (scoped host dir Y G L D is_dir iterate replaced reason path answer next
            s
          ≡ next g s)
  unfolding scoped
  scoped-done reason path answer next s p h =
      with_grant-done reason (ensure_scope host Y iterate path answer s.config) next s p h

  caught-done :
      {A : Type 0} (x : Result A × World G D) (next : A → Tool) (s : Server Y G D) (p : Bool)
      → IsDone (caught host dir Y G L D is_dir iterate replaced x next s) p
      → (a : A) × (x.0 ≡ ok a)
        × (caught host dir Y G L D is_dir iterate replaced x next s
            ≡ next a (record s { world = x.1 }))
  unfolding caught
  caught-done (ok a, w) next s p h = (a, refl, refl)
  caught-done (err e, w) next s p h = elim (Bool-cases (is_io_error e)) [
    | inl io ↦ absurd (ground arith)
    | inr other ↦ absurd (ground arith)
  ]

  compared-done :
      (expected : Str) (next : Tool) (actual : Option Str) (s : Server Y G D) (p : Bool)
      → IsDone (compared host dir Y G L D is_dir iterate replaced expected next actual s) p
      → compared host dir Y G L D is_dir iterate replaced expected next actual s ≡ next s
  unfolding compared
  compared-done expected next actual s p h = elim (Bool-cases (actual == some expected)) [
    | inl e ↦ rw e refl
    | inr e ↦
        let wrong : ok (Reply.conflict actual) ≡ ok (Reply.done p) = ground arith in absurd (cc)
  ]

  checked-done :
      (path : Str) (expected : Option Str) (next : Tool) (s : Server Y G D) (p : Bool)
      → IsDone
          (check_expected_version host dir Y G L D is_dir iterate replaced path expected next s)
          p
      → (s' : Server Y G D) × (check_expected_version host dir Y G L D is_dir iterate replaced path
            expected next s
          ≡ next s')
  unfolding check_expected_version
  checked-done path none next s p h = (s, refl)
  checked-done path (some expected) next s p h =
      let x = version_of host dir Y G L D is_dir iterate replaced path s.config s.world in
      let (actual, e, k) =
        caught-done x (compared host dir Y G L D is_dir iterate replaced expected next) s p h in
      let s' : Server Y G D = record s { world = x.1 } in
      (s', k ∙ compared-done expected next actual s' p (ap (λ t. t.0) (sym k) ∙ h))

  -- A tool that ends with the grants: the call of the file system has returned, and the tool
  -- leaves what that left.
  pub finished :
      (x : Result Unit × World G D) (grants : List ScopeGrant) (s : Server Y G D) (p : Bool)
      → IsDone
          (caught host dir Y G L D is_dir iterate replaced x
            (λ u. finish host dir Y G L D is_dir iterate replaced grants)
            s)
          p
      → (x.0 ≡ ok tt)
        × ((caught host dir Y G L D is_dir iterate replaced x
              (λ u. finish host dir Y G L D is_dir iterate replaced grants)
              s).1.world
            ≡ x.1)
  unfolding finish
  finished x grants s p h =
      let (u, e, k) =
        caught-done x (λ u. finish host dir Y G L D is_dir iterate replaced grants) s p h in
      (e, ap (λ t. t.1.world) k)

  module _ (law : IsDisk D) where
    write-read :
        (path content : Str) (expected : Option Str) (r : Request) (s : Server Y G D) (p : Bool)
        → law.place path ≡ law.place (path_normalize host path)
        → IsDone (write_file host dir Y G L D is_dir iterate replaced path content expected r s) p
        → (read_text_file host replaced path
            (write_file host dir Y G L D is_dir iterate replaced path content expected r
              s).1.world).0
          ≡ ok (content, false)
    unfolding write_file
    write-read path content expected r s p same h =
        let (g, e1) = scoped-done _ path r.answer _ s p h in
        let (s', e2) = checked-done path expected _ s p (ap (λ t. t.0) (sym e1) ∙ h) in
        let hinted = set_actor_hint host dir Y G L D is_dir iterate replaced path r s' in
        let x = save_text path content hinted.world in
        let (fine, kept) = finished x (g ∷ []) hinted p (ap (λ t. t.0) (sym (e1 ∙ e2)) ∙ h) in
        ap (λ t. (read_text_file host replaced path t.1.world).0) (e1 ∙ e2)
        ∙ ap (λ w. (read_text_file host replaced path w).0) kept
        ∙ saved-read D law host replaced path content hinted.world fine same

    create-read :
        (path content : Str) (r : Request) (s : Server Y G D) (p : Bool)
        → law.place path ≡ law.place (path_normalize host path)
        → IsDone (create_file host dir Y G L D is_dir iterate replaced path content r s) p
        → (read_text_file host replaced path
            (create_file host dir Y G L D is_dir iterate replaced path content r s).1.world).0
          ≡ ok (content, false)
    unfolding create_file
    create-read path content r s p same h =
        let (g, e) = scoped-done _ path r.answer _ s p h in
        let hinted = set_actor_hint host dir Y G L D is_dir iterate replaced path r s in
        let made = on_disk (D.make_parent path) hinted.world in
        let x = then_on made (λ u. save_text path content) in
        let (fine, kept) = finished x (g ∷ []) hinted p (ap (λ t. t.0) (sym e) ∙ h) in
        let (a, b, c) = then_on-unit D law made (λ u. save_text path content) fine in
        ap (λ t. (read_text_file host replaced path t.1.world).0) e
        ∙ ap (λ w. (read_text_file host replaced path w).0) (kept ∙ c)
        ∙ saved-read D law host replaced path content made.1 b same

    -- Let the path lead to where its normal form leads, and let `x` be the end of `write_file`,
    -- with or without an expected version, or of `create_file`. If it answers "ok", then the
    -- content reads back as it was given, and not lossy.
    pub written-read :
        (path content : Str) (expected : Option Str) (r : Request) (s : Server Y G D) (p : Bool)
        (x : Result Reply × Server Y G D)
        → law.place path ≡ law.place (path_normalize host path)
        → (x ≡ write_file host dir Y G L D is_dir iterate replaced path content expected r s)
          ⊎ (x ≡ create_file host dir Y G L D is_dir iterate replaced path content r s)
        → x.0 ≡ ok (Reply.done p)
        → (read_text_file host replaced path x.1.world).0 ≡ ok (content, false)
    written-read path content expected r s p x same (inl e) h =
        ap (λ t. (read_text_file host replaced path t.1.world).0) e
        ∙ write-read path content expected r s p same (ap (λ t. t.0) (sym e) ∙ h)
    written-read path content expected r s p x same (inr e) h =
        ap (λ t. (read_text_file host replaced path t.1.world).0) e
        ∙ create-read path content r s p same (ap (λ t. t.0) (sym e) ∙ h)

    saved-elsewhere :
        (path other text : Str) (w : World G D)
        → law.place path ≢ law.place other
        → (save_text path text w).0 ≡ ok tt
        → D.read_bytes other (save_text path text w).1.disk ≡ D.read_bytes other w.disk
    unfolding save_text
    saved-elsewhere path other text w apart h =
        let opened = on_disk (D.write_bytes path []) w in
        let (a, b, c) = then_on-unit D law opened (λ u. write_encoded path (encode text)) h in
        ap (λ v. D.read_bytes other v.disk) c
        ∙ encoded-elsewhere (encode text) opened.1 b
        ∙ unfold on_disk in law.read-write_other path other [] w.disk apart
      where
        encoded-elsewhere :
            (found : Option Bytes) (v : World G D)
            → (write_encoded path found v).0 ≡ ok tt
            → D.read_bytes other (write_encoded path found v).1.disk ≡ D.read_bytes other v.disk
        encoded-elsewhere none v k = unfold write_encoded in refl
        encoded-elsewhere (some bs) v k =
            unfold write_encoded on_disk in law.read-write_other path other bs v.disk apart

    hinted-disk :
        (path : Str) (r : Request) (s : Server Y G D)
        → (set_actor_hint host dir Y G L D is_dir iterate replaced path r s).world ≡ s.world
    unfolding set_actor_hint
    hinted-disk path r s = elim (Bool-cases r.database) [ inl e ↦ rw e refl | inr e ↦ rw e refl ]

    -- A creation that answers "ok" leaves the other file.
    pub created-elsewhere :
        (path content : Str) (r : Request) (s : Server Y G D) (p : Bool)
        → law.place path ≢ law.place (path_normalize host path)
        → (create_file host dir Y G L D is_dir iterate replaced path content r s).0
          ≡ ok (Reply.done p)
        → D.read_bytes
            (path_normalize host path)
            (create_file host dir Y G L D is_dir iterate replaced path content r s).1.world.disk
          ≡ D.read_bytes (path_normalize host path) s.world.disk
    unfolding create_file
    created-elsewhere path content r s p apart h =
        let target = path_normalize host path in
        let (g, e) = scoped-done _ path r.answer _ s p h in
        let hinted = set_actor_hint host dir Y G L D is_dir iterate replaced path r s in
        let made = on_disk (D.make_parent path) hinted.world in
        let x = then_on made (λ u. save_text path content) in
        let (fine, kept) = finished x (g ∷ []) hinted p (ap (λ t. t.0) (sym e) ∙ h) in
        let (a, b, c) = then_on-unit D law made (λ u. save_text path content) fine in
        ap (λ t. D.read_bytes target t.1.world.disk) e
        ∙ ap (λ w. D.read_bytes target w.disk) (kept ∙ c)
        ∙ saved-elsewhere path target content made.1 apart b
        ∙ unfold on_disk in
          law.read-make_parent path target hinted.world.disk
          ∙ ap (λ w. D.read_bytes target w.disk) (hinted-disk path r s)
