-- ===== src/Watcher/Stray.antt =====
-- Where a directory is watched under two tags, `reconcile` may stop the wrong watch: it looks for
-- a job by its path alone.
use context_os.Base.{
  Bool, true, false, List, [], ◌∷◌, map, ◌==◌, list_eq, nat_eq, ◌≡◌, refl, ◌∙◌, ap, beq_refl,
  beq_of_eq, beq_of_ne, ne_of_beq, beq_eq, sym, some, list_beq,
}
use context_os.Base.Lists.{filter, contains}
use context_os.Base.Sets.{IsOrder, difference, distinct, iterate-single, iterate-nil}
use context_os.Base.Text.{Str, str}
use context_os.Watcher.Jobs.{
  Observer, Job, WatchWorker, add_watch, remove_first, remove_watch, tagged, remove_all, add_all,
  reconcile, unschedule,
}

module _ (iterate : List Str → List Str) (order : IsOrder iterate) where
  difference-single : (d : Str) → difference iterate (d ∷ []) [] ≡ d ∷ []
  unfolding difference filter distinct contains
  difference-single d = iterate-single iterate order d

  difference-empty : (ds : List Str) → difference iterate [] ds ≡ []
  unfolding difference filter distinct
  difference-empty ds = iterate-nil iterate order

abbrev source : Str
source = str "source"

-- The job is of the directory `d`, and is tagged "source" or not.
abbrev IsJob : {H C : Type 0} → Str → Bool → Job H C → Type 0
IsJob d b job = (job.path ≡ d) × ((job.tag == source) ≡ b)

config-ne-source : (str "config" == source) ≡ false
unfolding list_beq
config-ne-source = refl

module _ {H C : Type 0} {d : Str} (job : Job H C) (is_job : IsJob d true job) where
  tagged-source : tagged source (job ∷ []) ≡ d ∷ []
  unfolding tagged filter
  tagged-source = rw (is_job.1, is_job.0)

  tagged-not_config : tagged (str "config") (job ∷ []) ≡ []
  unfolding tagged filter
  tagged-not_config = rw (
      beq_of_ne job.tag (str "config") λ c.
        ne_of_beq (str "config") source config-ne-source (sym c ∙ beq_eq job.tag source is_job.1))

module _ (O : Observer) {C : Type 0} (path_normalize : Str → Str) (iterate : List Str → List Str)
    (order : IsOrder iterate) (d : Str) (normal : path_normalize d ≡ d) (callback : C) where
  reconcile_by :
      (desired : List Str) (w : WatchWorker O C) (gone new : List Str)
      → difference iterate (tagged source w.jobs) (map path_normalize desired) ≡ gone
      → difference iterate (map path_normalize desired) (tagged source w.jobs) ≡ new
      → reconcile O path_normalize iterate desired callback true source w
        ≡ add_all O path_normalize iterate new callback true source
            (remove_all O path_normalize iterate gone w)
  unfolding reconcile
  reconcile_by desired w gone new p q = rw (p, q)

  module _ (config_job : Job O.Handle C) (is_config : IsJob d false config_job) where
    tagged-config : tagged source (config_job ∷ []) ≡ []
    unfolding tagged filter
    tagged-config = rw is_config.1

    -- The source watch of the same directory comes to stand behind the config watch.
    source_added :
        (w : WatchWorker O C)
        → w.jobs ≡ config_job ∷ []
        → (job : Job O.Handle C) × IsJob d true job
          × ((reconcile O path_normalize iterate (d ∷ []) callback true source w).jobs
              ≡ config_job ∷ job ∷ [])
          × ((reconcile O path_normalize iterate (d ∷ []) callback true source w).observer
              ≡ (O.schedule w.observer d true).1)
    unfolding add_all remove_all add_watch
    source_added w e = (
      record {
        path = path_normalize d;
        callback = callback;
        watch = (O.schedule w.observer (path_normalize d) true).0;
        tag = source;
        debounced = true;
      },
      (normal, beq_refl source),
      ap (λ v. v.jobs) (adds w e) ∙ rw e,
      ap (λ v. v.observer) (adds w e) ∙ ap (λ q. (O.schedule w.observer q true).1) normal,
    )
      where
        adds :
            (v : WatchWorker O C)
            → v.jobs ≡ config_job ∷ []
            → reconcile O path_normalize iterate (d ∷ []) callback true source v
              ≡ add_watch O path_normalize iterate d callback true source true v
        adds v e' =
            reconcile_by (d ∷ []) v [] (d ∷ [])
              (rw (e', tagged-config) (difference-empty iterate order (path_normalize d ∷ [])))
              (rw (e', tagged-config, normal) (difference-single iterate order d))

    tagged-both :
        (job : Job O.Handle C) → IsJob d true job → tagged source (config_job ∷ job ∷ []) ≡ d ∷ []
    unfolding tagged filter
    tagged-both job (p, t) = rw (is_config.1, t, p)

    remove_first-head :
        (job : Job O.Handle C)
        → remove_first d (config_job ∷ job ∷ []) ≡ (some config_job.watch, job ∷ [])
    unfolding remove_first
    remove_first-head job = rw (beq_of_eq config_job.path d is_config.0)

    -- Taking the directory out of the sources removes the first job of that path, and stops its
    -- watch.
    source_removed :
        (w : WatchWorker O C) (job : Job O.Handle C)
        → IsJob d true job
        → w.jobs ≡ config_job ∷ job ∷ []
        → let w' = reconcile O path_normalize iterate [] callback true source w in
          (w'.jobs ≡ job ∷ []) × (w'.observer ≡ O.unschedule w.observer config_job.watch)
    unfolding add_all remove_all remove_watch
    source_removed w job (p, t) e =
        let removes =
          reconcile_by [] w (d ∷ []) []
            (rw (e, tagged-both job (p, t)) (difference-single iterate order d))
            (difference-empty iterate order (tagged source w.jobs)) in
        let first =
          ap (λ q. remove_first q w.jobs) normal ∙ ap (remove_first d) e ∙ remove_first-head job in
        (
          ap (λ v. v.jobs) removes ∙ ap (λ v. v.1) first,
          ap (λ v. v.observer) removes
              ∙ ap (λ v. unschedule O w.observer v.0) first
              ∙ unfold unschedule in refl,
        )

  -- One run. A worker without jobs first watches the directory `d` of the config file, as the
  -- start does that has `d` not among its sources; then `d` becomes a source, and then it is taken
  -- out of the sources. The last `reconcile` stops the watch of the config file, not that of the
  -- source, and leaves no job of the tag "config", and one of the tag "source", of which none is
  -- desired.
  pub config_watch_lost :
      (w : WatchWorker O C)
      → w.jobs ≡ []
      → let w1 = add_watch O path_normalize iterate d callback false (str "config") false w in
        let w2 = reconcile O path_normalize iterate (d ∷ []) callback true source w1 in
        let w3 = reconcile O path_normalize iterate [] callback true source w2 in
        let (config_watch, o1) = O.schedule w.observer d false in
        let (source_watch, o2) = O.schedule o1 d true in
        (tagged (str "config") w3.jobs ≡ [])
        × (tagged source w3.jobs ≡ d ∷ [])
        × (w3.observer ≡ O.unschedule o2 config_watch)
  config_watch_lost w e =
      let (job, is_job, p, o) = source_added config_job is_config w1 w1_jobs in
      let w2 = reconcile O path_normalize iterate (d ∷ []) callback true source w1 in
      let (q, r) = source_removed config_job is_config w2 job is_job p in
      (
        ap (tagged (str "config")) q ∙ tagged-not_config job is_job,
        ap (tagged source) q ∙ tagged-source job is_job,
        r
            ∙ ap (λ x. O.unschedule x config_job.watch)
                (o ∙ ap (λ x. (O.schedule x d true).1) w1_observer)
            ∙ ap (O.unschedule (O.schedule (O.schedule w.observer d false).1 d true).1)
                (ap (λ x. (O.schedule w.observer x false).0) normal),
      )
    where
      w1 : WatchWorker O C
      w1 = add_watch O path_normalize iterate d callback false (str "config") false w

      config_job : Job O.Handle C
      config_job = record {
        path = path_normalize d;
        callback = callback;
        watch = (O.schedule w.observer (path_normalize d) false).0;
        tag = str "config";
        debounced = false;
      }

      is_config : IsJob d false config_job
      is_config = (normal, config-ne-source)

      w1_jobs : w1.jobs ≡ config_job ∷ []
      w1_jobs = unfold add_watch in rw e

      w1_observer : w1.observer ≡ (O.schedule w.observer d false).1
      w1_observer = unfold add_watch in ap (λ x. (O.schedule w.observer x false).1) normal
