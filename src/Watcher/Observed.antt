-- ===== src/Watcher/Observed.antt =====
-- What the observer of a watch worker is asked to do, as jobs come and go.
use context_os.Base.{
  ◌≤◌, Bool, true, false, Option, none, some, List, [], ◌∷◌, ◌==◌, list_eq, nat_eq, ◌≡◌, refl, ◌∙◌,
  ap, arith, list_beq_iff, Bool-cases, inl, inr, if◌then◌else◌,
}
use context_os.Base.Lists.{contains, count, All}
use context_os.Base.Sets.{contains-count}
use context_os.Base.Text.{Str}
use context_os.Watcher.Jobs.{
  Observer, Job, WatchWorker, unschedule, remove_first, remove_watch, remove_all, add_watch,
  add_all,
}

module _ {H C : Type 0} where
  -- The watch of the first job of the path.
  abbrev pub watch_of : Str → List (Job H C) → Option H
  watch_of path [] = none
  watch_of path (job ∷ jobs) = if job.path == path then some job.watch else watch_of path jobs

  found-watch_of : (p : Str) (jobs : List (Job H C)) → (remove_first p jobs).0 ≡ watch_of p jobs
  unfolding remove_first
  found-watch_of p [] = refl
  found-watch_of p (job ∷ jobs) = elim (Bool-cases (job.path == p)) [
    | inl e ↦ rw e
    | inr e ↦ rw e (found-watch_of p jobs)
  ]

  watch_of-other :
      (p q : Str) (jobs : List (Job H C))
      → (p == q) ≡ false
      → watch_of q (remove_first p jobs).1 ≡ watch_of q jobs
  unfolding remove_first
  watch_of-other p q [] h = refl
  watch_of-other p q (job ∷ jobs) h = ground (
    arith,
    watch_of-other p q jobs h,
    list_beq_iff job.path p,
    list_beq_iff job.path q,
    list_beq_iff p q,
  )

module _ (O : Observer) {C : Type 0} where
  -- The watches of the first jobs of the paths are stopped, one after the other.
  abbrev pub stopped : List Str → List (Job O.Handle C) → O.State → O.State
  stopped [] jobs o = o
  stopped (p ∷ ps) jobs o = stopped ps jobs (unschedule O o (watch_of p jobs))

  stopped-other :
      (p : Str) (ps : List Str) (jobs : List (Job O.Handle C)) (o : O.State)
      → contains ps p ≡ false
      → stopped ps (remove_first p jobs).1 o ≡ stopped ps jobs o
  unfolding contains
  stopped-other p [] jobs o h = refl
  stopped-other p (q ∷ ps) jobs o h =
      ap (λ found. stopped ps (remove_first p jobs).1 (unschedule O o found))
        (watch_of-other p q jobs (ground (arith, list_beq_iff q p, list_beq_iff p q)))
      ∙ stopped-other p ps jobs (unschedule O o (watch_of q jobs)) (ground arith)

-- The paths are watched, one after the other.
abbrev pub started : (O : Observer) → Bool → List Str → O.State → O.State
started O recursive [] o = o
started O recursive (p ∷ ps) o = started O recursive ps (O.schedule o p recursive).1

module _ (O : Observer) {C : Type 0} (path_normalize : Str → Str)
    (iterate : List Str → List Str) where
  pub observer-remove_all :
      (ps : List Str) (w : WatchWorker O C)
      → All (λ p. path_normalize p ≡ p) ps
      → ((x : Str) → count x ps ≤ 1)
      → (remove_all O path_normalize iterate ps w).observer ≡ stopped O ps w.jobs w.observer
  unfolding remove_all remove_watch count
  observer-remove_all [] w n once = refl
  observer-remove_all (p ∷ ps) w n once =
      observer-remove_all ps (remove_watch O path_normalize iterate p w) n.1
        (λ x. ground (arith, once x))
      ∙ ap
          (λ q.
            stopped O ps (remove_first q w.jobs).1
              (unschedule O w.observer (remove_first q w.jobs).0))
          n.0
      ∙ ap (λ found. stopped O ps (remove_first p w.jobs).1 (unschedule O w.observer found))
          (found-watch_of p w.jobs)
      ∙ stopped-other O p ps w.jobs (unschedule O w.observer (watch_of p w.jobs))
          (ground (arith, once p, contains-count ps p, list_beq_iff p p))

  pub observer-add_all :
      (ps : List Str) (callback : C) (recursive : Bool) (tag : Str) (w : WatchWorker O C)
      → All (λ p. path_normalize p ≡ p) ps
      → (add_all O path_normalize iterate ps callback recursive tag w).observer
        ≡ started O recursive ps w.observer
  unfolding add_all add_watch
  observer-add_all [] callback recursive tag w n = refl
  observer-add_all (p ∷ ps) callback recursive tag w n =
      observer-add_all ps callback recursive tag
        (add_watch O path_normalize iterate p callback recursive tag true w) n.1
      ∙ ap (λ q. started O recursive ps (O.schedule w.observer q recursive).1) n.0
