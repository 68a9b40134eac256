-- ===== src/Audit/Untouched.antt =====
-- What a path that `rollback_session` reports as failed has lost: nothing.
use context_os.Base.{
  Bool, true, false, Option, none, some, ◌==◌, ◌≡◌, refl, ◌∙◌, nat_eq, list_eq, option_eq, arith,
  Bool-cases, inl, inr,
}
use context_os.Base.Text.{Str}
use context_os.Paths.Pure.{PurePath}
use context_os.Paths.Normalize.{Host}
use context_os.Paths.Mirror.{repo_path_for, source_path_for}
use context_os.Configure.Sources.{Config, is_path_in_scope}
use context_os.Store.Commands.{Error, Git, Action}
use context_os.Store.Operations
use context_os.Store.Logs.{Logs, Commit, commit_info}
use context_os.Audit.{
  Failure, Result, ok, err, Disk, World, Call, then_on, ◌>>=◌, throw, in_repo, on_disk, check_scope,
}
use context_os.Audit.Rollback.{
  Dict, lookup, is_caught, found, check_current, undo_create, revert, restore_from, restore,
  rollback_path,
}

module _ {G : Git} {D : Disk} {A : Type 0} where
  -- The call leaves the files alone.
  abbrev pub IsStill : Call G D A → Type 0
  IsStill m = (w : World G D) → (m w).1.disk ≡ w.disk

  -- It leaves them alone if it fails in a way that the loop catches.
  abbrev IsSafe : Call G D A → Type 0
  IsSafe m =
      (w : World G D) (e : Failure) → (m w).0 ≡ err e → is_caught e ≡ true → (m w).1.disk ≡ w.disk

  pub in_repo-IsStill : (p : PurePath) (action : Action G A) → IsStill (in_repo p action)
  unfolding in_repo
  in_repo-IsStill p action w = refl

module _ {G : Git} {D : Disk} where
  on_disk-IsSafe : (f : D.State → Bool × D.State) → IsSafe (on_disk {G = G} {D = D} f)
  unfolding on_disk is_caught
  on_disk-IsSafe f w e h c = elim (Bool-cases (f w.disk).0) [
    | inl fine ↦ absurd (ground arith)
    | inr bad ↦ let same : Failure.os_error ≡ e = ground arith in absurd (ground arith)
  ]

module _ {G : Git} {D : Disk} {A B : Type 0} where
  then_on-safe :
      (r : Result A × World G D) (f : A → Call G D B) (w : World G D) (e : Failure)
      → r.1.disk ≡ w.disk
      → ((a : A) → IsSafe (f a))
      → (then_on r f).0 ≡ err e
      → is_caught e ≡ true
      → (then_on r f).1.disk ≡ w.disk
  unfolding then_on
  then_on-safe (ok a, v) f w e p q h c = q a v e h c ∙ p
  then_on-safe (err x, v) f w e p q h c = p

  >>=-IsSafe :
      (m : Call G D A) (f : A → Call G D B)
      → IsStill m
      → ((a : A) → IsSafe (f a))
      → IsSafe (m >>= f)
  >>=-IsSafe m f p q w e h c = then_on-safe (m w) f w e (p w) q h c

  in_repo->>= :
      (p : PurePath) (action : Action G A) (f : A → Call G D B)
      → ((a : A) → IsSafe (f a))
      → IsSafe (in_repo p action >>= f)
  in_repo->>= p action f h = >>=-IsSafe (in_repo p action) f (in_repo-IsStill p action) h

module _ (host : Host) (dir : PurePath) (G : Git) (L : Logs G) (D : Disk) (config : Config)
    (actor_label : Str) where
  check_scope-IsStill : (path : Str) → IsStill (check_scope host dir G L D config path)
  unfolding check_scope
  check_scope-IsStill path w = elim (Bool-cases (is_path_in_scope host config path)) [
    | inl e ↦ rw e refl
    | inr e ↦ rw e refl
  ]

  found-IsStill : (c : Option Commit) → IsStill (found host dir G L D config actor_label c)
  unfolding found
  found-IsStill none w = refl
  found-IsStill (some c) w = refl

  then_on-thrown :
      {A : Type 0} (B : Type 0) (r : Result A × World G D) (e : Failure)
      → (then_on {B = B} r (λ a. throw e)).1.disk ≡ r.1.disk
  unfolding then_on
  then_on-thrown B (ok a, w) e = refl
  then_on-thrown B (err x, w) e = refl

  check_current-IsStill :
      (repo : PurePath) (relpath expected : Str) (current : Option Str)
      → IsStill (check_current host dir G L D config actor_label repo relpath expected current)
  unfolding check_current
  check_current-IsStill repo relpath expected current w =
      elim (Bool-cases (current == some expected)) [
        | inl e ↦ rw e refl
        | inr e ↦ rw e (
            then_on-thrown Unit (in_repo repo (commit_info G L relpath) w)
              (Failure.of_store (Error.concurrent_edit current))
            ∙ in_repo-IsStill repo (commit_info G L relpath) w)
      ]

  undo_create-IsSafe :
      (repo : PurePath) (relpath source_path : Str)
      → IsSafe (undo_create host dir G L D config actor_label repo relpath source_path)
  unfolding undo_create
  undo_create-IsSafe repo relpath source_path =
      in_repo->>= repo (Operations.remove G relpath _ _) _
        (λ removed. on_disk-IsSafe (D.unlink source_path))

  revert-IsSafe :
      (repo : PurePath) (relpath source_path rev : Str) (current : Option Str)
      → IsSafe (revert host dir G L D config actor_label repo relpath source_path rev current)
  unfolding revert
  revert-IsSafe repo relpath source_path rev current =
      in_repo->>= repo (Operations.show G relpath rev) _ (λ content.
        in_repo->>= repo (Operations.write_with_check G relpath content _ _ current false) _
          (λ new_rev. on_disk-IsSafe (D.write_bytes source_path content)))

  restore_from-IsSafe :
      (existed : Bool) (repo : PurePath) (relpath source_path rev : Str) (current : Option Str)
      → IsSafe (
          restore_from host dir G L D config actor_label existed repo relpath source_path rev
            current)
  unfolding restore_from
  restore_from-IsSafe false repo relpath source_path rev current =
      undo_create-IsSafe repo relpath source_path
  restore_from-IsSafe true repo relpath source_path rev current =
      revert-IsSafe repo relpath source_path rev current

  restore-IsSafe :
      (repo : PurePath) (relpath source_path : Str) (parent current : Option Str)
      → IsSafe (restore host dir G L D config actor_label repo relpath source_path parent current)
  unfolding restore
  restore-IsSafe repo relpath source_path none current = undo_create-IsSafe repo relpath source_path
  restore-IsSafe repo relpath source_path (some rev) current =
      in_repo->>= repo (Operations.path_exists_at_rev G relpath rev) _
        (λ existed. restore_from-IsSafe existed repo relpath source_path rev current)

  -- If undoing the actor's changes of a path fails in a way that the loop reports (the path is
  -- out of scope, or its last commit is not the actor's last, or changes under the check of the
  -- write), then no file was changed.
  pub rollback_path-untouched :
      (target relpath : Str) (latest : Dict) (earliest : Commit) (w : World G D) (e : Failure)
      → (rollback_path host dir G L D config actor_label target latest relpath earliest w).0 ≡ err e
      → is_caught e ≡ true
      → (rollback_path host dir G L D config actor_label target latest relpath earliest w).1.disk
        ≡ w.disk
  unfolding rollback_path
  rollback_path-untouched target relpath latest earliest =
      let repo = repo_path_for host dir target in
      let source_path = source_path_for host target relpath in
      >>=-IsSafe (check_scope host dir G L D config source_path) _ (check_scope-IsStill source_path)
        (λ scoped.
          >>=-IsSafe (found host dir G L D config actor_label (lookup relpath latest)) _
            (found-IsStill (lookup relpath latest))
            (λ last. in_repo->>= repo (Operations.head_rev G relpath) _ (λ current.
              >>=-IsSafe
                (check_current host dir G L D config actor_label repo relpath last.rev current) _
                (check_current-IsStill repo relpath last.rev current)
                (λ fresh. restore-IsSafe repo relpath source_path earliest.parent current))))
