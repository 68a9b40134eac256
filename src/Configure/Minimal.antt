-- ===== src/Configure/Minimal.antt =====
-- The watch targets cover every source directory, and none lies in another.
use context_os.Base.{
  ℕ, zero, suc, ◌<◌, Bool, true, false, not, ◌&&◌, Option, none, some, List, [], ◌∷◌, ◌==◌, nat_eq,
  list_eq, option_eq, ◌≡◌, refl, sym, ◌∙◌, ap, arith, Bool-cases, inl, inr, beq_eq, beq_of_eq,
  beq_refl, bool_beq_iff, list_beq,
}
use context_os.Base.Lists.{any, contains, length, any_mono, contains-filter}
use context_os.Base.Sets.{
  distinct, IsOrder, contains-iterate, contains-distinct, any-of_contains, any_witness,
}
use context_os.Base.Text.{Str}
use context_os.Paths.Pure.{PurePath, to_path, is_prefix, is_relative_to}
use context_os.Paths.Normalize.{Host, IsHost, path_normalize}
use context_os.Configure.Sources.{Source, Config, local}
use context_os.Configure.Scope.{is_relative_to_refl, is_relative_to_trans}
use context_os.Configure.Canonical.{path_normalize-canonical}
use context_os.Configure.Targets.{
  render, climb, parent, nearest_existing_dir, source_dirs, put_target, above_anchor, is_covered,
  minimal, derive_watch_targets,
}

abbrev lies_under : Str → Str → Bool
lies_under d o = is_relative_to (to_path d) (to_path o)

prefix_shorter :
    (qs ps : List Str) → is_prefix qs ps ≡ true → (qs == ps) ≡ false → length qs < length ps
unfolding is_prefix list_beq
prefix_shorter [] [] h k = cc
prefix_shorter [] (p ∷ ps) h k = omega arith
prefix_shorter (q ∷ qs) [] h k = cc
prefix_shorter (q ∷ qs) (p ∷ ps) h k = ground (arith, prefix_shorter qs ps)

same_path : (p q : PurePath) → p.rooted ≡ q.rooted → p.parts ≡ q.parts → p ≡ q
same_path p q h k =
    ap {B = PurePath} (λ b. record { rooted = b; parts = p.parts }) h
    ∙ ap {B = PurePath} (λ ws. record { rooted = q.rooted; parts = ws }) k

-- A text is the path that it stands for.
abbrev AreCanonical : List Str → Type 0
AreCanonical dirs =
    (d o : Str) → contains dirs d ≡ true → contains dirs o ≡ true → to_path d ≡ to_path o → d ≡ o

depth : Str → ℕ
depth d = length (to_path d).parts

deeper :
    (d o : Str)
    → (to_path d ≡ to_path o → d ≡ o)
    → lies_under d o ≡ true
    → (o == d) ≡ false
    → depth o < depth d
unfolding depth is_relative_to
deeper d o canonical h k = elim (Bool-cases ((to_path o).parts == (to_path d).parts)) [
  | inl e ↦
      let same = canonical (
        same_path (to_path d) (to_path o)
          ((bool_beq_iff (to_path d).rooted (to_path o).rooted).0 (ground arith))
          (sym (beq_eq (to_path o).parts (to_path d).parts e))) in
      ground (arith, beq_of_eq o d (sym same))
  | inr e ↦ prefix_shorter (to_path o).parts (to_path d).parts (ground arith) e
]

module _ (dirs : List Str) (canonical : AreCanonical dirs) where
  covered :
      (fuel : ℕ) (d : Str)
      → depth d < fuel
      → contains dirs d ≡ true
      → any (lies_under d) (minimal dirs) ≡ true
  unfolding minimal is_covered
  covered zero d h m = ground arith
  covered (suc fuel) d h m = elim (Bool-cases (is_covered dirs d)) [
    | inl e ↦
        let (o, mo, below) = any_witness (λ o. not (o == d) && lies_under d o) dirs e in
        let other : (o == d) ≡ false = ground arith in
        let under : lies_under d o ≡ true = ground arith in
        any_mono (lies_under o) (lies_under d) (minimal dirs)
          (λ x e. is_relative_to_trans (to_path d) (to_path o) (to_path x) under e)
          (covered fuel o (ground (arith, deeper d o (canonical d o m mo) under other)) mo)
    | inr e ↦
        any-of_contains (lies_under d) (minimal dirs) d
          (contains-filter (λ x. not (is_covered dirs x)) dirs d ∙ ground arith)
          (is_relative_to_refl (to_path d))
  ]

  antichain :
      (d o : Str)
      → contains (minimal dirs) d ≡ true
      → contains dirs o ≡ true
      → lies_under d o ≡ true
      → d ≡ o
  unfolding minimal is_covered
  antichain d o m mo h = elim (Bool-cases (o == d)) [
    | inl e ↦ sym (beq_eq o d e)
    | inr e ↦ ground (
      arith,
      any-of_contains (λ x. not (x == d) && lies_under d x) dirs o mo (rw (e, h) refl),
      contains-filter (λ x. not (is_covered dirs x)) dirs d,
    )
  ]

minimal-contains :
    (dirs : List Str) (o : Str) → contains (minimal dirs) o ≡ true → contains dirs o ≡ true
unfolding minimal
minimal-contains dirs o m = ground (arith, contains-filter (λ x. not (is_covered dirs x)) dirs o)

module _ (host : Host) (is_host : IsHost host) (is_dir : PurePath → Bool) where
  -- The directories are normalised paths.
  ArePaths : List Str → Type 0
  ArePaths dirs = (d : Str) → contains dirs d ≡ true → (s : Str) × (path_normalize host s ≡ d)

  cons-ArePaths :
      (t : Str) (dirs : List Str)
      → (s : Str) × (path_normalize host s ≡ t)
      → ArePaths dirs
      → ArePaths (t ∷ dirs)
  unfolding ArePaths contains
  cons-ArePaths t dirs p h d m = elim (Bool-cases (t == d)) [
    | inl e ↦ (p.0, p.1 ∙ beq_eq t d e)
    | inr e ↦ h d (ground arith)
  ]

  above_anchor-path :
      (found : Option PurePath) (t : Str)
      → above_anchor host is_dir found ≡ some t
      → (s : Str) × (path_normalize host s ≡ t)
  unfolding above_anchor
  above_anchor-path none t h = cc
  above_anchor-path (some p) t h = (render p, ground arith)

  nearest-path :
      (path t : Str)
      → nearest_existing_dir host is_dir path ≡ some t
      → (s : Str) × (path_normalize host s ≡ t)
  unfolding nearest_existing_dir
  nearest-path path t h =
      let p = to_path (path_normalize host path) in
      elim (Bool-cases (is_dir p)) [
        | inl e ↦ (render p, ground arith)
        | inr e ↦
            above_anchor-path (climb is_dir (suc (length p.parts)) (parent p)) t (ground arith)
      ]

  put_target-ArePaths :
      (found : Option Str) (dirs : List Str)
      → ((t : Str) → found ≡ some t → (s : Str) × (path_normalize host s ≡ t))
      → ArePaths dirs
      → ArePaths (put_target host is_dir found dirs)
  unfolding put_target
  put_target-ArePaths none dirs p h = h
  put_target-ArePaths (some t) dirs p h = cons-ArePaths t dirs (p t refl) h

  source_dirs-ArePaths : (sources : List Source) → ArePaths (source_dirs host is_dir sources)
  unfolding source_dirs
  source_dirs-ArePaths [] = unfold ArePaths contains in λ d m. cc
  source_dirs-ArePaths (s ∷ sources) = elim (Bool-cases (s.kind == local)) [
    | inl e ↦ rw e (
        put_target-ArePaths (nearest_existing_dir host is_dir s.path)
          (source_dirs host is_dir sources) (nearest-path s.path) (source_dirs-ArePaths sources))
    | inr e ↦ rw e (source_dirs-ArePaths sources)
  ]

  put_target-keeps :
      (found : Option Str) (dirs : List Str) (d : Str)
      → contains dirs d ≡ true
      → contains (put_target host is_dir found dirs) d ≡ true
  unfolding put_target contains
  put_target-keeps none dirs d m = m
  put_target-keeps (some t) dirs d m = ground arith

  put_target-puts :
      (dirs : List Str) (d : Str) → contains (put_target host is_dir (some d) dirs) d ≡ true
  unfolding put_target contains
  put_target-puts dirs d = ground (arith, beq_refl d)

  source_dirs-contains :
      (sources : List Source) (source : Source) (d : Str)
      → any (λ s. s.kind == local && s.path == source.path) sources ≡ true
      → nearest_existing_dir host is_dir source.path ≡ some d
      → contains (source_dirs host is_dir sources) d ≡ true
  unfolding source_dirs any
  source_dirs-contains [] source d m h = cc
  source_dirs-contains (s ∷ sources) source d m h =
      let found = nearest_existing_dir host is_dir s.path in
      let dirs = source_dirs host is_dir sources in
      elim (Bool-cases (s.kind == local)) [
        | inl e ↦ rw e (elim (Bool-cases (s.path == source.path)) [
          | inl same ↦
              rw (ap (nearest_existing_dir host is_dir) (beq_eq s.path source.path same) ∙ h)
                (put_target-puts dirs d)
          | inr other ↦
              put_target-keeps found dirs d (source_dirs-contains sources source d (ground arith) h)
        ])
        | inr e ↦ rw e (source_dirs-contains sources source d (ground arith) h)
      ]

  module _ (iterate : List Str → List Str) (order : IsOrder iterate) where
    -- The set of the directories.
    abbrev dirs_of : Config → List Str
    dirs_of config = iterate (distinct (source_dirs host is_dir config.sources))

    contains-dirs :
        (config : Config) (d : Str)
        → contains (dirs_of config) d ≡ contains (source_dirs host is_dir config.sources) d
    contains-dirs config d =
        contains-iterate iterate order (distinct (source_dirs host is_dir config.sources)) d
        ∙ contains-distinct (source_dirs host is_dir config.sources) d

    canonical_dirs : (config : Config) → AreCanonical (dirs_of config)
    unfolding ArePaths
    canonical_dirs config d o md mo h =
        let (s, es) = source_dirs-ArePaths config.sources d (sym (contains-dirs config d) ∙ md) in
        let (t, et) = source_dirs-ArePaths config.sources o (sym (contains-dirs config o) ∙ mo) in
        sym es
        ∙ path_normalize-canonical host is_host s t (ap to_path es ∙ h ∙ ap to_path (sym et))
        ∙ et

    -- The nearest existing directory of every local source lies in a watch target, or is one.
    pub derive_watch_targets-covers :
        (config : Config) (source : Source) (d : Str)
        → any (λ s. s.kind == local && s.path == source.path) config.sources ≡ true
        → nearest_existing_dir host is_dir source.path ≡ some d
        → any
            (λ target. is_relative_to (to_path d) (to_path target))
            (derive_watch_targets host is_dir iterate config)
          ≡ true
    unfolding derive_watch_targets
    derive_watch_targets-covers config source d m h =
        covered (dirs_of config) (canonical_dirs config) (suc (depth d)) d (omega arith)
          (contains-dirs config d ∙ source_dirs-contains config.sources source d m h)

    -- A watch target that lies in a watch target is that one.
    pub derive_watch_targets-antichain :
        (config : Config) (d o : Str)
        → contains (derive_watch_targets host is_dir iterate config) d ≡ true
        → contains (derive_watch_targets host is_dir iterate config) o ≡ true
        → is_relative_to (to_path d) (to_path o) ≡ true
        → d ≡ o
    unfolding derive_watch_targets
    derive_watch_targets-antichain config d o md mo h =
        antichain (dirs_of config) (canonical_dirs config) d o md
          (minimal-contains (dirs_of config) o mo) h
