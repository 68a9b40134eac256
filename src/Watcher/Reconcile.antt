-- ===== src/Watcher/Reconcile.antt =====
-- `reconcile` makes the watch set of a tag exactly the desired one, and is idempotent.
use native.Mathlib.Nat.{le_trans}
use mathlib.Core.List.{append-nil, append_assoc}
use context_os.Base.{
  ◌≤◌, Bool, true, not, ◌&&◌, List, [], ◌∷◌, ◌++◌, map, list_eq, nat_eq, ◌≡◌, refl, sym, ◌∙◌, ap,
  arith, beq_refl,
}
use context_os.Base.Lists.{contains, count, contains-append, All}
use context_os.Base.Sets.{
  count-difference_le, IsOrder, difference, contains-difference, difference-nil, All-of_contains,
}
use context_os.Base.Text.{Str}
use context_os.Watcher.Jobs.{
  Observer, Job, WatchWorker, add_watch, remove_first, remove_watch, tagged, remove_all, add_all,
  reconcile,
}
use context_os.Watcher.Observed.{stopped, started, observer-remove_all, observer-add_all}
use context_os.Watcher.Views.{
  paths, others, IsSingle, outside, remove_first-eq, outside-nil, count-remove_first, tagged-append,
  others-append, contains-tagged-outside, others-outside, apart, tagged-own, others-own,
  tagged-normal, contains-normal,
}

-- Paths that normalising leaves alone.
abbrev pub AreNormal : (Str → Str) → List Str → Type 0
AreNormal path_normalize ps = All (λ p. path_normalize p ≡ p) ps

-- The elements of `xs` that `ys` lacks, once each.
abbrev pub IsDifference : List Str → List Str → List Str → Type 0
IsDifference zs xs ys =
    ((x : Str) → contains zs x ≡ (contains xs x && not (contains ys x)))
    × ((x : Str) → count x zs ≤ 1)

module _ (O : Observer) {C : Type 0} (path_normalize : Str → Str)
    (iterate : List Str → List Str) where
  jobs-remove_watch :
      (p : Str) (w : WatchWorker O C)
      → path_normalize p ≡ p
      → (remove_watch O path_normalize iterate p w).jobs ≡ (remove_first p w.jobs).1
  unfolding remove_watch
  jobs-remove_watch p w n = rw n

  jobs-remove_all :
      (ps : List Str) (w : WatchWorker O C)
      → AreNormal path_normalize ps
      → IsSingle w.jobs
      → (remove_all O path_normalize iterate ps w).jobs ≡ outside ps w.jobs
  unfolding remove_all
  jobs-remove_all [] w n single = sym (outside-nil w.jobs)
  jobs-remove_all (p ∷ ps) w n single =
      jobs-remove_all ps (remove_watch O path_normalize iterate p w) n.1
        (λ x. rw (jobs-remove_watch p w n.0) (le_trans (count-remove_first p w.jobs x) (single x)))
      ∙ ap (outside ps) (jobs-remove_watch p w n.0)
      ∙ remove_first-eq p ps w.jobs (single p)

  views-add_watch :
      (p : Str) (callback : C) (recursive : Bool) (tag : Str) (w : WatchWorker O C)
      → path_normalize p ≡ p
      → let w' = add_watch O path_normalize iterate p callback recursive tag true w in
        (tagged tag w'.jobs ≡ tagged tag w.jobs ++ p ∷ [])
        × (others tag w'.jobs ≡ others tag w.jobs)
  unfolding add_watch
  views-add_watch p callback recursive tag w n = (
    tagged-append tag w.jobs (job ∷ [])
        ∙ ap (λ ps. tagged tag w.jobs ++ ps) (tagged-own tag job (beq_refl tag) ∙ rw n),
    others-append tag w.jobs (job ∷ [])
        ∙ ap (λ jobs. others tag w.jobs ++ jobs) (others-own tag job (beq_refl tag))
        ∙ append-nil (others tag w.jobs),
  )
    where
      job : Job O.Handle C
      job = record {
        path = path_normalize p;
        callback = callback;
        watch = (O.schedule w.observer (path_normalize p) recursive).0;
        tag = tag;
        debounced = true;
      }

  views-add_all :
      (ps : List Str) (callback : C) (recursive : Bool) (tag : Str) (w : WatchWorker O C)
      → AreNormal path_normalize ps
      → let w' = add_all O path_normalize iterate ps callback recursive tag w in
        (tagged tag w'.jobs ≡ tagged tag w.jobs ++ ps) × (others tag w'.jobs ≡ others tag w.jobs)
  unfolding add_all
  views-add_all [] callback recursive tag w n = (sym (append-nil _), refl)
  views-add_all (p ∷ ps) callback recursive tag w n =
      let w' = add_watch O path_normalize iterate p callback recursive tag true w in
      let (t, o) = views-add_watch p callback recursive tag w n.0 in
      let (ts, os) = views-add_all ps callback recursive tag w' n.1 in
      (ts ∙ ap (λ xs. xs ++ ps) t ∙ append_assoc (tagged tag w.jobs) (p ∷ []) ps, os ∙ o)

  module _ (order : IsOrder iterate)
      (idem : (p : Str) → path_normalize (path_normalize p) ≡ path_normalize p) where
    -- Nothing is done where the watch set is already the desired one.
    reconcile_settled :
        (desired : List Str) (callback : C) (recursive : Bool) (tag : Str) (w : WatchWorker O C)
        → ((x : Str) → contains (tagged tag w.jobs) x ≡ contains (map path_normalize desired) x)
        → reconcile O path_normalize iterate desired callback recursive tag w ≡ w
    unfolding reconcile
    reconcile_settled desired callback recursive tag w same = rw (
      difference-nil iterate order (tagged tag w.jobs) (map path_normalize desired) same,
      difference-nil iterate order (map path_normalize desired) (tagged tag w.jobs)
          (λ x. sym (same x)),
    )

    -- After `reconcile` the tag's jobs watch exactly the desired paths, and the jobs of all
    -- other tags are what they were. The observer was asked to stop, once each, the watches of
    -- the tag's paths that are not desired, and then to watch, once each, the desired paths that
    -- the tag did not have. The conditions: no path is watched twice before, under whatever
    -- tags, the jobs' paths are normalised, as `add_watch` leaves them, and normalising a path
    -- again changes nothing.
    pub reconcile_exact :
        (desired : List Str) (callback : C) (recursive : Bool) (tag : Str) (w : WatchWorker O C)
        → IsSingle w.jobs
        → AreNormal path_normalize (paths w.jobs)
        → let w' = reconcile O path_normalize iterate desired callback recursive tag w in
          ((x : Str) → contains (tagged tag w'.jobs) x ≡ contains (map path_normalize desired) x)
          × (others tag w'.jobs ≡ others tag w.jobs)
          × (gone : List Str) × (new : List Str) × IsDifference gone
              (tagged tag w.jobs)
              (map path_normalize desired)
          × IsDifference new (map path_normalize desired) (tagged tag w.jobs)
          × (w'.observer ≡ started O recursive new (stopped O gone w.jobs w.observer))
    unfolding reconcile
    reconcile_exact desired callback recursive tag w single n = (
      λ x. ground (
        arith,
        ap (λ xs. contains xs x) added.0,
        contains-append (tagged tag kept.jobs) new x,
        ap (λ jobs. contains (tagged tag jobs) x) removed,
        contains-tagged-outside tag gone w.jobs x,
        contains-difference iterate order current paths' x,
        contains-difference iterate order paths' current x,
      ),
      added.1
          ∙ ap (others tag) removed
          ∙ others-outside tag gone w.jobs (λ x m. ground (
            arith,
            apart tag w.jobs x single m,
            contains-difference iterate order current paths' x,
          )),
      gone,
      new,
      (
        contains-difference iterate order current paths',
        count-difference_le iterate order current paths',
      ),
      (
        contains-difference iterate order paths' current,
        count-difference_le iterate order paths' current,
      ),
      observer-add_all O path_normalize iterate new callback recursive tag kept new_normal
          ∙ ap (started O recursive new) (
              observer-remove_all O path_normalize iterate gone w gone_normal
                (count-difference_le iterate order current paths')),
    )
      where
        paths' : List Str
        paths' = map path_normalize desired

        current : List Str
        current = tagged tag w.jobs

        gone : List Str
        gone = difference iterate current paths'

        new : List Str
        new = difference iterate paths' current

        kept : WatchWorker O C
        kept = remove_all O path_normalize iterate gone w

        gone_normal : AreNormal path_normalize gone
        gone_normal =
            All-of_contains (λ p. path_normalize p ≡ p) gone
              (λ x m.
                tagged-normal path_normalize tag w.jobs x n
                  (ground (arith, contains-difference iterate order current paths' x)))

        new_normal : AreNormal path_normalize new
        new_normal =
            All-of_contains (λ p. path_normalize p ≡ p) new
              (λ x m.
                contains-normal path_normalize idem desired x
                  (ground (arith, contains-difference iterate order paths' current x)))

        removed : kept.jobs ≡ outside gone w.jobs
        removed = jobs-remove_all gone w gone_normal single

        added :
            (tagged tag (add_all O path_normalize iterate new callback recursive tag kept).jobs
              ≡ tagged tag kept.jobs ++ new)
            × (others tag (add_all O path_normalize iterate new callback recursive tag kept).jobs
                ≡ others tag kept.jobs)
        added = views-add_all new callback recursive tag kept new_normal

    -- A second `reconcile` with the same paths changes nothing, neither jobs nor observer.
    pub reconcile_idem :
        (desired : List Str) (callback : C) (recursive : Bool) (tag : Str) (w : WatchWorker O C)
        → IsSingle w.jobs
        → AreNormal path_normalize (paths w.jobs)
        → let w' = reconcile O path_normalize iterate desired callback recursive tag w in
          reconcile O path_normalize iterate desired callback recursive tag w' ≡ w'
    reconcile_idem desired callback recursive tag w single n =
        reconcile_settled desired callback recursive tag
          (reconcile O path_normalize iterate desired callback recursive tag w)
          (reconcile_exact desired callback recursive tag w single n).0
