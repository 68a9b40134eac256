-- ===== src/Mcp/Guarded.antt =====
-- What a tool of the MCP server leaves alone, by how it ends.
use context_os.Base.{
  Bool, true, false, Option, none, some, List, ◌==◌, ◌≡◌, refl, ◌∙◌, nat_eq, list_eq, option_eq,
  if◌then◌else◌, Bool-cases, inl, inr,
}
use context_os.Base.Text.{Str}
use context_os.Paths.Pure.{PurePath}
use context_os.Paths.Normalize.{Host}
use context_os.Paths.Mirror.{resolve_mirror_location}
use context_os.Configure.Sources.{Config, Yaml, ConfigFiles, parse_config}
use context_os.Configure.Targets.{derive_watch_targets}
use context_os.Configure.Grant.{Answer, ScopeGrant, ensure_scope}
use context_os.Store.Commands.{Bytes, Git}
use context_os.Store.Logs.{Logs, init_repo}
use context_os.Store.Operations
use context_os.Audit.{
  Failure, Result, ok, err, Disk, World, Call, then_on, in_repo, version_at, current_version,
}
use context_os.Audit.Untouched.{IsStill, in_repo-IsStill}
use context_os.Mcp.{
  Reply, Request, Server, is_io_error, caught, finish, version_of, compared, check_expected_version,
  set_actor_hint, with_grant, scoped,
}

module _ {G : Git} {D : Disk} where
  pub then_on-still :
      {A B : Type 0} (r : Result A × World G D) (f : A → Call G D B)
      → ((a : A) → IsStill (f a))
      → (then_on r f).1.disk ≡ r.1.disk
  unfolding then_on
  then_on-still (ok a, w) f h = h a w
  then_on-still (err e, w) f h = refl

module _ (host : Host) (dir : PurePath) (Y : Yaml) (G : Git) (L : Logs G) (D : Disk)
    (is_dir : PurePath → Bool) (iterate : List Str → List Str) (replaced : Bytes → Str) where
  abbrev Tool : Type 0
  Tool = Server Y G D → Result Reply × Server Y G D

  version_at-IsStill :
      (config : Config) (targets : List Str) (place : Option (PurePath × Str))
      → IsStill (version_at host dir G L D config targets place)
  unfolding version_at
  version_at-IsStill config targets none w = refl
  version_at-IsStill config targets (some (repo, rel)) w =
      then_on-still (in_repo repo (init_repo G L) w) _
        (λ made. in_repo-IsStill repo (Operations.head_rev G rel))
      ∙ in_repo-IsStill repo (init_repo G L) w

  version-IsStill :
      (path : Str) (found : Option Config)
      → IsStill (elim found [
        | none ↦ λ w. (err Failure.os_error, w)
        | some config ↦
            current_version host dir G L D config
              (derive_watch_targets host is_dir iterate config)
              path
      ])
  unfolding current_version
  version-IsStill path none w = refl
  version-IsStill path (some config) w =
      let targets = derive_watch_targets host is_dir iterate config in
      version_at-IsStill config targets (resolve_mirror_location host dir path targets) w

  pub version_of-IsStill :
      (path : Str) (files : ConfigFiles Y)
      → IsStill (version_of host dir Y G L D is_dir iterate replaced path files)
  unfolding version_of
  version_of-IsStill path files w = version-IsStill path (parse_config host Y false files) w

  -- What the end of a tool says of the state `s'`, against the state `s` before.
  abbrev pub Leaves : Server Y G D → Result Reply × Server Y G D → Type 0
  Leaves s (ok (Reply.denied reason), s') = s' ≡ s
  Leaves s (ok (Reply.conflict current), s') =
      (s'.config ≡ s.config) × (s'.hints ≡ s.hints) × (s'.world.disk ≡ s.world.disk)
  Leaves s (ok (Reply.failed e), s') = s'.config ≡ s.config
  Leaves s (ok (Reply.done persisted), s') = Unit
  Leaves s (ok (Reply.content_read persisted content version lossy), s') =
      s'.world.disk ≡ s.world.disk
  Leaves s (err e, s') = s'.config ≡ s.config

  failed-Leaves :
      (io : Bool) (e : Failure) (s s' : Server Y G D)
      → s'.config ≡ s.config
      → Leaves s (if io then ok (Reply.failed e) else err e, s')
  failed-Leaves true e s s' h = h
  failed-Leaves false e s s' h = h

  pub caught-Leaves :
      {A : Type 0} (x : Result A × World G D) (next : A → Tool) (s s' : Server Y G D)
      → s'.config ≡ s.config
      → ((a : A) → Leaves s (next a (record s' { world = x.1 })))
      → Leaves s (caught host dir Y G L D is_dir iterate replaced x next s')
  unfolding caught
  caught-Leaves (ok a, w) next s s' h k = k a
  caught-Leaves (err e, w) next s s' h k =
      failed-Leaves (is_io_error e) e s (record s' { world = w }) h

  pub finish-Leaves :
      (grants : List ScopeGrant) (s s' : Server Y G D)
      → Leaves s (finish host dir Y G L D is_dir iterate replaced grants s')
  unfolding finish
  finish-Leaves grants s s' = tt

  allowed-Leaves :
      (allowed : Bool) (reason : Str) (tool : Result Reply × Server Y G D) (s : Server Y G D)
      → Leaves s tool
      → Leaves s (if allowed then tool else (ok (Reply.denied reason), s))
  allowed-Leaves true reason tool s h = h
  allowed-Leaves false reason tool s h = refl

  granted-Leaves :
      (reason : Str) (grant : Option ScopeGrant) (next : ScopeGrant → Tool) (s : Server Y G D)
      → ((g : ScopeGrant) → Leaves s (next g s))
      → Leaves s (with_grant host dir Y G L D is_dir iterate replaced reason grant next s)
  unfolding with_grant
  granted-Leaves reason none next s h = refl
  granted-Leaves reason (some grant) next s h =
      allowed-Leaves grant.allowed reason (next grant s) s (h grant)

  pub scoped-Leaves :
      (reason path : Str) (answer : Answer) (next : ScopeGrant → Tool) (s : Server Y G D)
      → ((g : ScopeGrant) → Leaves s (next g s))
      → Leaves s (scoped host dir Y G L D is_dir iterate replaced reason path answer next s)
  unfolding scoped
  scoped-Leaves reason path answer next s h =
      granted-Leaves reason (ensure_scope host Y iterate path answer s.config) next s h

  compared-Leaves :
      (expected : Str) (next : Tool) (actual : Option Str) (s s' : Server Y G D)
      → s'.config ≡ s.config
      → s'.hints ≡ s.hints
      → s'.world.disk ≡ s.world.disk
      → Leaves s (next s')
      → Leaves s (compared host dir Y G L D is_dir iterate replaced expected next actual s')
  unfolding compared
  compared-Leaves expected next actual s s' p q r h = elim (Bool-cases (actual == some expected)) [
    | inl e ↦ rw e h
    | inr e ↦ rw e (p, q, r)
  ]

  pub checked-Leaves :
      (path : Str) (expected : Option Str) (next : Tool) (s : Server Y G D)
      → ((s' : Server Y G D) → s'.config ≡ s.config → Leaves s (next s'))
      → Leaves s
          (check_expected_version host dir Y G L D is_dir iterate replaced path expected next s)
  unfolding check_expected_version
  checked-Leaves path none next s h = h s refl
  checked-Leaves path (some expected) next s h =
      let x = version_of host dir Y G L D is_dir iterate replaced path s.config s.world in
      caught-Leaves x (compared host dir Y G L D is_dir iterate replaced expected next) s s refl
        (λ actual.
          compared-Leaves expected next actual s (record s { world = x.1 }) refl refl
            (version_of-IsStill path s.config s.world) (h (record s { world = x.1 }) refl))

  pub hinted-config :
      (path : Str) (r : Request) (s : Server Y G D)
      → (set_actor_hint host dir Y G L D is_dir iterate replaced path r s).config ≡ s.config
  unfolding set_actor_hint
  hinted-config path r s = elim (Bool-cases r.database) [ inl e ↦ rw e refl | inr e ↦ rw e refl ]
