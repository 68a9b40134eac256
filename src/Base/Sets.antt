-- ===== src/Base/Sets.antt =====
-- Python sets: the elements of a list once each, gone through in an order that is not specified.
use Prim.Native.Nat.{◌≤◌}
use mathlib.Core.Path.{◌≡◌, refl, sym, ◌∙◌, ap}
use mathlib.Core.Bool.{Bool, true, false, not, ◌&&◌}
use mathlib.Core.List.{List, [], ◌∷◌}
use native.Mathlib.Omega.{arith}
use context_os.Base.Equality.{Eq}
use mathlib.Core.Logic.{inl, inr}
use context_os.Base.Lists.{any, contains, count, filter, contains-filter, All}
use context_os.Base.Tests.{if◌then◌else◌, ltb, Bool-cases}

module _ {ℓ} {A : Type ℓ} ⦃e : Eq A⦄ where
  -- The elements of a list, each once.
  unfoldable pub distinct : List A → List A
  distinct [] = []
  distinct (x ∷ xs) = let rest = distinct xs in if contains rest x then rest else x ∷ rest

  -- The order in which a set is gone through: each element as often as it is listed.
  abbrev pub IsOrder : (List A → List A) → Type ℓ
  IsOrder iterate = (xs : List A) (x : A) → count x (iterate xs) ≡ count x xs

  pub contains-distinct : (xs : List A) (a : A) → contains (distinct xs) a ≡ contains xs a
  unfolding distinct contains
  contains-distinct [] a = refl
  contains-distinct (x ∷ xs) a =
      ground (arith, contains-distinct xs a, contains-distinct xs x, e.beq_iff x a)

  pub contains-count : (xs : List A) (a : A) → contains xs a ≡ ltb 0 (count a xs)
  unfolding contains count
  contains-count [] a = refl
  contains-count (x ∷ xs) a = ground (arith, contains-count xs a)

  pub count-filter_le : (p : A → Bool) (xs : List A) (a : A) → count a (filter p xs) ≤ count a xs
  unfolding count filter
  count-filter_le p [] a = omega arith
  count-filter_le p (x ∷ xs) a = ground (arith, count-filter_le p xs a)

  pub count-distinct_le : (xs : List A) (a : A) → count a (distinct xs) ≤ 1
  unfolding count distinct
  count-distinct_le [] a = omega arith
  count-distinct_le (x ∷ xs) a =
      ground (arith, count-distinct_le xs a, e.beq_iff x a, contains-count (distinct xs) x)

  pub All-of_contains {κ} :
      (P : A → Type κ) (xs : List A) → ((x : A) → contains xs x ≡ true → P x) → All P xs
  unfolding contains
  All-of_contains P [] h = tt
  All-of_contains P (x ∷ xs) h =
      (h x (ground (arith, (e.beq_iff x x).1)), All-of_contains P xs (λ y m. h y (ground arith)))

  pub filter-nil :
      (p : A → Bool) (xs : List A)
      → ((x : A) → contains xs x ≡ true → p x ≡ false)
      → filter p xs ≡ []
  unfolding filter contains
  filter-nil p [] h = refl
  filter-nil p (x ∷ xs) h =
      ground (
        arith,
        h x (ground (arith, (e.beq_iff x x).1)),
        filter-nil p xs (λ y m. h y (ground arith)),
      )

  -- `xs - ys`, gone through in the order of the set.
  unfoldable pub difference : (List A → List A) → List A → List A → List A
  difference iterate xs ys = iterate (filter (λ x. not (contains ys x)) (distinct xs))

  module _ (iterate : List A → List A) (order : IsOrder iterate) where
    pub contains-iterate : (xs : List A) (a : A) → contains (iterate xs) a ≡ contains xs a
    contains-iterate xs a = cc (contains-count xs a, contains-count (iterate xs) a, order xs a)

    pub iterate-nil : iterate [] ≡ []
    unfolding count
    iterate-nil = go (iterate []) (order [])
      where
        go : (ys : List A) → ((a : A) → count a ys ≡ count a []) → ys ≡ []
        go [] h = refl
        go (y ∷ ys) h = absurd (ground (arith, h y, (e.beq_iff y y).1))

    pub contains-difference :
        (xs ys : List A) (a : A)
        → contains (difference iterate xs ys) a ≡ (contains xs a && not (contains ys a))
    unfolding difference
    contains-difference xs ys a =
        contains-iterate _ a
        ∙ contains-filter (λ x. not (contains ys x)) (distinct xs) a
        ∙ ap (λ b. b && not (contains ys a)) (contains-distinct xs a)

    pub difference-nil :
        (xs ys : List A) → ((a : A) → contains xs a ≡ contains ys a) → difference iterate xs ys ≡ []
    unfolding difference
    difference-nil xs ys h =
        ap iterate (filter-nil (λ x. not (contains ys x)) (distinct xs) λ a m. go a m) ∙ iterate-nil
      where
        go : (a : A) → contains (distinct xs) a ≡ true → not (contains ys a) ≡ false
        go a m = ground (arith, h a, contains-distinct xs a)

    pub count-difference_le : (xs ys : List A) (a : A) → count a (difference iterate xs ys) ≤ 1
    unfolding difference
    count-difference_le xs ys a = omega (
      arith,
      order (filter (λ x. not (contains ys x)) (distinct xs)) a,
      count-filter_le (λ x. not (contains ys x)) (distinct xs) a,
      count-distinct_le xs a,
    )

    pub iterate-single : (a : A) → iterate (a ∷ []) ≡ a ∷ []
    unfolding count
    iterate-single a = go (iterate (a ∷ [])) (order (a ∷ []))
      where
        go : (ys : List A) → ((x : A) → count x ys ≡ count x (a ∷ [])) → ys ≡ a ∷ []
        go [] h = absurd (ground (arith, h a, (e.beq_iff a a).1))
        go (y ∷ []) h = ground (arith, h y, e.beq_iff a y, e.beq_iff y y)
        go (y ∷ z ∷ ys) h = absurd (
            ground (
              arith,
              h y,
              h z,
              h a,
              e.beq_iff a y,
              e.beq_iff a z,
              e.beq_iff y y,
              e.beq_iff z z,
              e.beq_iff a a,
              e.beq_iff z a,
              e.beq_iff y a,
            ))

  pub any-of_contains :
      (p : A → Bool) (xs : List A) (x : A) → contains xs x ≡ true → p x ≡ true → any p xs ≡ true
  unfolding any contains
  any-of_contains p [] x m h = cc
  any-of_contains p (y ∷ xs) x m h = ground (arith, any-of_contains p xs x, e.beq_iff y x)

  pub any_witness :
      (p : A → Bool) (xs : List A)
      → any p xs ≡ true
      → (x : A) × (contains xs x ≡ true) × (p x ≡ true)
  unfolding any contains
  any_witness p [] h = cc
  any_witness p (y ∷ xs) h = elim (Bool-cases (p y)) [
    | inl now ↦ (y, ground (arith, (e.beq_iff y y).1), now)
    | inr later ↦ let (x, m, q) = any_witness p xs (ground arith) in (x, ground arith, q)
  ]

  any_le :
      (p : A → Bool) (xs ys : List A)
      → ((x : A) → contains xs x ≡ contains ys x)
      → any p xs ≡ true
      → any p ys ≡ true
  any_le p xs ys same h =
      let (x, m, q) = any_witness p xs h in any-of_contains p ys x (sym (same x) ∙ m) q

  -- A test of the elements of a set does not depend on how they are listed.
  pub any-same :
      (p : A → Bool) (xs ys : List A)
      → ((x : A) → contains xs x ≡ contains ys x)
      → any p xs ≡ any p ys
  any-same p xs ys same = ground (arith, any_le p xs ys same, any_le p ys xs (λ x. sym (same x)))
