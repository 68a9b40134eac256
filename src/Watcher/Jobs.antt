-- ===== src/Watcher/Jobs.antt =====
-- `WatchWorker`: its jobs over an observer of the watchdog library, which is a parameter.
use context_os.Base.{
  Bool, true, Option, none, some, List, [], ◌∷◌, ◌++◌, map, ◌==◌, list_eq, nat_eq, if◌then◌else◌,
}
use context_os.Base.Lists.{filter}
use context_os.Base.Sets.{difference}
use context_os.Base.Text.{Str}

-- watchdog's `Observer`: `schedule` gives a handle, which `unschedule` takes.
pub record Observer : Type 1 where
  pub State : Type 0
  pub Handle : Type 0
  pub schedule : State → Str → Bool → Handle × State
  pub unschedule : State → Handle → State

-- An entry `(path, callback, watch, tag)`; callbacks are of type `C`. `debounced` is what the
-- handler of the watch closes over.
pub record Job (H C : Type 0) : Type 0 where
  pub path : Str
  pub callback : C
  pub watch : H
  pub tag : Str
  pub debounced : Bool

module _ {H C : Type 0} where
  -- The watch of the first job of the path, and the jobs without that one.
  unfoldable pub remove_first : Str → List (Job H C) → Option H × List (Job H C)
  remove_first path [] = (none, [])
  remove_first path (job ∷ jobs) =
      let (found, rest) = remove_first path jobs in
      if job.path == path then (some job.watch, jobs) else (found, job ∷ rest)

  -- `{job[0] for job in self.jobs if job[3] == tag}`
  unfoldable pub tagged : Str → List (Job H C) → List Str
  tagged tag jobs = map (λ job. job.path) (filter (λ job. job.tag == tag) jobs)

module _ (O : Observer) (C : Type 0) where
  pub record WatchWorker : Type 0 where
    pub observer : O.State
    pub jobs : List (Job O.Handle C)

module _ (O : Observer) where
  unfoldable pub unschedule : O.State → Option O.Handle → O.State
  unschedule o none = o
  unschedule o (some watch) = O.unschedule o watch

-- `path_normalize`, and the order in which a set of texts is gone through.
module _ (O : Observer) {C : Type 0} (path_normalize : Str → Str)
    (iterate : List Str → List Str) where
  unfoldable pub add_watch : Str → C → Bool → Str → Bool → WatchWorker O C → WatchWorker O C
  add_watch path callback recursive tag debounce w =
      let p = path_normalize path in
      let (watch, observer) = O.schedule w.observer p recursive in
      record {
        observer = observer;
        jobs =
            w.jobs
            ++ record {
              path = p;
              callback = callback;
              watch = watch;
              tag = tag;
              debounced = debounce;
            }
              ∷ [];
      }

  -- The job is looked for by its path alone; without one nothing happens.
  unfoldable pub remove_watch : Str → WatchWorker O C → WatchWorker O C
  unfolding remove_first unschedule
  remove_watch path w =
      let (found, jobs) = remove_first (path_normalize path) w.jobs in
      record { observer = unschedule O w.observer found; jobs = jobs }

  unfoldable pub remove_all : List Str → WatchWorker O C → WatchWorker O C
  unfolding remove_watch
  remove_all [] w = w
  remove_all (p ∷ ps) w = remove_all ps (remove_watch p w)

  unfoldable pub add_all : List Str → C → Bool → Str → WatchWorker O C → WatchWorker O C
  unfolding add_watch
  add_all [] callback recursive tag w = w
  add_all (p ∷ ps) callback recursive tag w =
      add_all ps callback recursive tag (add_watch p callback recursive tag true w)

  unfoldable pub reconcile : List Str → C → Bool → Str → WatchWorker O C → WatchWorker O C
  unfolding tagged difference remove_all add_all
  reconcile paths callback recursive tag w =
      let desired = map path_normalize paths in
      let current = tagged tag w.jobs in
      add_all (difference iterate desired current) callback recursive tag
        (remove_all (difference iterate current desired) w)
