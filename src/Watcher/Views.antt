-- ===== src/Watcher/Views.antt =====
-- The paths that the jobs of a tag watch, and the other jobs, as jobs come and go.
use mathlib.Core.Path.{subst}
use context_os.Base.{
  ◌+◌, ◌≤◌, true, false, not, ◌&&◌, List, [], ◌∷◌, ◌++◌, map, ◌==◌, list_eq, nat_eq, ◌≡◌, refl, sym,
  ◌∙◌, ap, arith, list_beq_iff, beq_eq, Bool-cases, inl, inr,
}
use context_os.Base.Lists.{filter, contains, count, All}
use context_os.Base.Sets.{contains-count}
use context_os.Base.Text.{Str}
use context_os.Watcher.Jobs.{Job, remove_first, tagged}

module _ {H C : Type 0} where
  abbrev pub paths : List (Job H C) → List Str
  paths jobs = map (λ job. job.path) jobs

  -- The jobs of all other tags.
  unfoldable pub others : Str → List (Job H C) → List (Job H C)
  others tag jobs = filter (λ job. not (job.tag == tag)) jobs

  -- No path is watched twice.
  abbrev pub IsSingle : List (Job H C) → Type 0
  IsSingle jobs = (x : Str) → count x (paths jobs) ≤ 1

  -- The jobs whose paths are not listed.
  unfoldable pub outside : List Str → List (Job H C) → List (Job H C)
  outside ps jobs = filter (λ job. not (contains ps job.path)) jobs

  pub count-outside :
      (ps : List Str) (jobs : List (Job H C)) (x : Str)
      → count x (paths (outside ps jobs)) ≤ count x (paths jobs)
  unfolding outside filter count
  count-outside ps [] x = omega arith
  count-outside ps (job ∷ jobs) x = ground (arith, count-outside ps jobs x)

  outside-of_none :
      (p : Str) (ps : List Str) (jobs : List (Job H C))
      → count p (paths jobs) ≡ 0
      → outside (p ∷ ps) jobs ≡ outside ps jobs
  unfolding outside filter count contains
  outside-of_none p ps [] h = refl
  outside-of_none p ps (job ∷ jobs) h =
      ground (arith, outside-of_none p ps jobs, list_beq_iff p job.path, list_beq_iff job.path p)

  -- Where a path has one job at most, dropping the first is dropping all.
  pub remove_first-eq :
      (p : Str) (ps : List Str) (jobs : List (Job H C))
      → count p (paths jobs) ≤ 1
      → outside ps (remove_first p jobs).1 ≡ outside (p ∷ ps) jobs
  unfolding outside filter count contains remove_first
  remove_first-eq p ps [] h = refl
  remove_first-eq p ps (job ∷ jobs) h = ground (
    arith,
    remove_first-eq p ps jobs,
    outside-of_none p ps jobs,
    list_beq_iff p job.path,
    list_beq_iff job.path p,
  )

  pub outside-nil : (jobs : List (Job H C)) → outside [] jobs ≡ jobs
  unfolding outside filter contains
  outside-nil [] = refl
  outside-nil (job ∷ jobs) = ground (arith, outside-nil jobs)

  pub count-remove_first :
      (p : Str) (jobs : List (Job H C)) (x : Str)
      → count x (paths (remove_first p jobs).1) ≤ count x (paths jobs)
  unfolding count remove_first
  count-remove_first p [] x = omega arith
  count-remove_first p (job ∷ jobs) x = ground (arith, count-remove_first p jobs x)

  pub tagged-append :
      (tag : Str) (xs ys : List (Job H C)) → tagged tag (xs ++ ys) ≡ tagged tag xs ++ tagged tag ys
  unfolding tagged filter
  tagged-append tag [] ys = refl
  tagged-append tag (x ∷ xs) ys = ground (arith, tagged-append tag xs ys)

  pub others-append :
      (tag : Str) (xs ys : List (Job H C)) → others tag (xs ++ ys) ≡ others tag xs ++ others tag ys
  unfolding others filter
  others-append tag [] ys = refl
  others-append tag (x ∷ xs) ys = ground (arith, others-append tag xs ys)

  pub contains-tagged-outside :
      (tag : Str) (ps : List Str) (jobs : List (Job H C)) (x : Str)
      → contains (tagged tag (outside ps jobs)) x
        ≡ (contains (tagged tag jobs) x && not (contains ps x))
  unfolding tagged outside filter contains
  contains-tagged-outside tag ps [] x = refl
  contains-tagged-outside tag ps (job ∷ jobs) x =
      ground (arith, contains-tagged-outside tag ps jobs x, list_beq_iff job.path x)

  pub others-outside :
      (tag : Str) (ps : List Str) (jobs : List (Job H C))
      → ((x : Str) → contains (paths (others tag jobs)) x ≡ true → contains ps x ≡ false)
      → others tag (outside ps jobs) ≡ others tag jobs
  unfolding others outside filter contains
  others-outside tag ps [] h = refl
  others-outside tag ps (job ∷ jobs) h = elim (Bool-cases (job.tag == tag)) [
    | inl same ↦ ground (arith, others-outside tag ps jobs (λ x m. h x (ground arith)))
    | inr other ↦ ground (
      arith,
      h job.path (ground (arith, list_beq_iff job.path job.path)),
      others-outside tag ps jobs (λ x m. h x (ground arith)),
    )
  ]

  count-by_tag :
      (tag : Str) (jobs : List (Job H C)) (x : Str)
      → count x (paths jobs) ≡ count x (tagged tag jobs) + count x (paths (others tag jobs))
  unfolding tagged others filter count
  count-by_tag tag [] x = omega arith
  count-by_tag tag (job ∷ jobs) x = ground (arith, count-by_tag tag jobs x)

  -- Under `IsSingle` a path of one tag is no path of another.
  pub apart :
      (tag : Str) (jobs : List (Job H C)) (x : Str)
      → IsSingle jobs
      → contains (paths (others tag jobs)) x ≡ true
      → contains (tagged tag jobs) x ≡ false
  apart tag jobs x single m = ground (
    arith,
    single x,
    count-by_tag tag jobs x,
    contains-count (tagged tag jobs) x,
    contains-count (paths (others tag jobs)) x,
  )

  -- A single job that has the tag.
  pub tagged-own :
      (tag : Str) (job : Job H C) → (job.tag == tag) ≡ true → tagged tag (job ∷ []) ≡ job.path ∷ []
  unfolding tagged filter
  tagged-own tag job e = rw e

  pub others-own :
      (tag : Str) (job : Job H C) → (job.tag == tag) ≡ true → others tag (job ∷ []) ≡ []
  unfolding others filter
  others-own tag job e = rw e

  module _ (path_normalize : Str → Str) where
    pub tagged-normal :
        (tag : Str) (jobs : List (Job H C)) (x : Str)
        → All (λ p. path_normalize p ≡ p) (paths jobs)
        → contains (tagged tag jobs) x ≡ true
        → path_normalize x ≡ x
    unfolding tagged contains filter
    tagged-normal tag [] x n h = cc
    tagged-normal tag (job ∷ jobs) x n h = elim (Bool-cases (job.path == x)) [
      | inl e ↦ subst (λ y. path_normalize y ≡ y) (beq_eq _ _ e) n.0
      | inr e ↦ tagged-normal tag jobs x n.1 (ground arith)
    ]

module _ (path_normalize : Str → Str) where
  pub contains-normal :
      ((p : Str) → path_normalize (path_normalize p) ≡ path_normalize p)
      → (ps : List Str) (x : Str) → contains (map path_normalize ps) x ≡ true
      → path_normalize x ≡ x
  unfolding contains
  contains-normal idem [] x h = cc
  contains-normal idem (p ∷ ps) x h = elim (Bool-cases (path_normalize p == x)) [
    | inl e ↦ ap path_normalize (sym (beq_eq _ _ e)) ∙ idem p ∙ beq_eq _ _ e
    | inr e ↦ contains-normal idem ps x (ground arith)
  ]
