-- ===== src/Audit/Reports.antt =====
-- The report of `rollback_session`: each path that the actor touched is named once.
use context_os.Base.{
  ℕ, ◌+◌, List, [], ◌∷◌, ◌++◌, ◌≡◌, refl, sym, ap, ◌∙◌, nat_eq, list_eq, arith, Bool-cases, inl,
  inr,
}
use context_os.Base.Lists.{count}
use context_os.Base.Text.{Str}
use context_os.Paths.Pure.{PurePath}
use context_os.Paths.Normalize.{Host}
use context_os.Configure.Sources.{Config}
use context_os.Store.Commands.{Git}
use context_os.Store.Logs.{Logs, Commit}
use context_os.Audit.{Failure, Result, ok, err, Disk, World, Call, then_on}
use context_os.Audit.Rollback.{
  Dict, index_commits, Report, is_caught, note, rollback_path, rollback_paths,
}
use context_os.Audit.Dicts.{keys, first_with, ones, index_commits_lem}

abbrev pub failed_paths : List (Str × Failure) → List Str
failed_paths [] = []
failed_paths ((p, e) ∷ fs) = p ∷ failed_paths fs

-- How often a report names a path.
abbrev pub reported : Str → Report → ℕ
reported k r = count k r.rolled_back + count k (failed_paths r.failed)

count-snoc : (k p : Str) (ps : List Str) → count k (ps ++ p ∷ []) ≡ count k (p ∷ ps)
unfolding count
count-snoc k p [] = refl
count-snoc k p (q ∷ ps) = ground (arith, count-snoc k p ps)

count-failed_snoc :
    (k p : Str) (e : Failure) (fs : List (Str × Failure))
    → count k (failed_paths (fs ++ (p, e) ∷ [])) ≡ count k (p ∷ failed_paths fs)
unfolding count
count-failed_snoc k p e [] = refl
count-failed_snoc k p e ((q, x) ∷ fs) = ground (arith, count-failed_snoc k p e fs)

reported-rolled_back :
    (k p : Str) (r : Report)
    → reported k (record r { rolled_back = r.rolled_back ++ p ∷ [] })
      ≡ reported k r + count k (p ∷ [])
unfolding count
reported-rolled_back k p r = ground (arith, count-snoc k p r.rolled_back)

reported-failed :
    (k p : Str) (e : Failure) (r : Report)
    → reported k (record r { failed = r.failed ++ (p, e) ∷ [] }) ≡ reported k r + count k (p ∷ [])
unfolding count
reported-failed k p e r = ground (arith, count-failed_snoc k p e r.failed)

count-cons : (k p : Str) (ps : List Str) → count k (p ∷ ps) ≡ count k (p ∷ []) + count k ps
unfolding count
count-cons k p ps = ground arith

module _ (host : Host) (dir : PurePath) (G : Git) (L : Logs G) (D : Disk) (config : Config)
    (actor_label : Str) where
  note-reported :
      (k p : Str) (r r' : Report) (x : Result Unit × World G D)
      → (note host dir G L D config actor_label p r x).0 ≡ ok r'
      → reported k r' ≡ reported k r + count k (p ∷ [])
  unfolding note
  note-reported k p r r' (ok u, w) h =
      let e : record r { rolled_back = r.rolled_back ++ p ∷ [] } ≡ r' = cc in
      ap (reported k) (sym e) ∙ reported-rolled_back k p r
  note-reported k p r r' (err e, w) h = elim (Bool-cases (is_caught e)) [
    | inl caught ↦
        let found : record r { failed = r.failed ++ (p, e) ∷ [] } ≡ r' = ground arith in
        ap (reported k) (sym found) ∙ reported-failed k p e r
    | inr other ↦ absurd (ground arith)
  ]

  then_on-ok :
      (x : Result Report × World G D) (f : Report → Call G D Report) (r' : Report)
      → (then_on x f).0 ≡ ok r'
      → (r : Report) × (x.0 ≡ ok r) × ((f r x.1).0 ≡ ok r')
  unfolding then_on
  then_on-ok (ok r, w) f r' h = (r, refl, h)
  then_on-ok (err e, w) f r' h = cc

  rollback_paths-reported :
      (target k : Str) (latest paths : Dict) (r r' : Report) (w : World G D)
      → (rollback_paths host dir G L D config actor_label target latest paths r w).0 ≡ ok r'
      → reported k r' ≡ reported k r + count k (keys paths)
  unfolding rollback_paths
  rollback_paths-reported target k latest [] r r' w h =
      let e : r ≡ r' = cc in ap (reported k) (sym e) ∙ unfold count in omega arith
  rollback_paths-reported target k latest ((p, c) ∷ paths) r r' w h =
      let x =
        note host dir G L D config actor_label p r
          (rollback_path host dir G L D config actor_label target latest p c w) in
      let (r1, e, later) =
        then_on-ok x (rollback_paths host dir G L D config actor_label target latest paths) r' h in
      omega (
        arith,
        rollback_paths-reported target k latest paths r1 r' x.1 later,
        note-reported k p r r1 (rollback_path host dir G L D config actor_label target latest p c w)
            e,
        count-cons k p (keys paths),
      )

  -- If the rollback of one repository returns, the report names exactly the paths that the commits
  -- of the actor name, once each: as rolled back or as failed.
  pub rollback_paths-accounts :
      (target k : Str) (commits : List Commit) (r : Report) (w : World G D)
      → let dicts = index_commits commits ([], []) in
        (rollback_paths host dir G L D config actor_label target dicts.1 dicts.0
            (record { rolled_back = []; failed = [] })
            w).0
          ≡ ok r
        → reported k r ≡ ones (first_with k commits)
  unfolding count
  rollback_paths-accounts target k commits r w h =
      let dicts = index_commits commits ([], []) in
      omega (
        arith,
        rollback_paths-reported target k dicts.1 dicts.0 (record { rolled_back = []; failed = [] })
            r w h,
        (index_commits_lem k commits).2,
      )
