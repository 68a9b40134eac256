-- ===== src/Configure/Scope.antt =====
-- What the operations on the source list do to the scope, and that the parsed list has no path
-- twice.
use context_os.Base.{
  ◌≤◌, true, false, ◌||◌, Option, none, some, List, [], ◌∷◌, ◌++◌, ◌==◌, nat_eq, list_eq, option_eq,
  bool_eq, if◌then◌else◌, ◌≡◌, refl, sym, suc, ◌∙◌, ap, arith, Bool-cases, inl, inr, list_beq_iff,
  beq_refl, beq_eq, bool_beq_iff, option_beq, list_beq,
}
use context_os.Base.Lists.{any, contains, count, any-append, any_mono}
use context_os.Base.Sets.{
  distinct, IsOrder, contains-iterate, contains-distinct, contains-count, any-same,
}
use context_os.Base.Text.{Str}
use context_os.Paths.Pure.{PurePath, to_path, is_relative_to, is_prefix}
use context_os.Paths.Normalize.{Host, path_normalize}
use context_os.Configure.Sources.{
  Source, Config, local, source_paths, put_source, put_sources, sources_dedup, lies_in, grants,
  is_path_in_scope, add_path, add_paths,
}

is_prefix_refl : (xs : List Str) → is_prefix xs xs ≡ true
unfolding is_prefix
is_prefix_refl [] = refl
is_prefix_refl (x ∷ xs) = ground (arith, beq_refl x, is_prefix_refl xs)

is_prefix_trans :
    (xs ys zs : List Str) → is_prefix xs ys ≡ true → is_prefix ys zs ≡ true → is_prefix xs zs ≡ true
unfolding is_prefix
is_prefix_trans [] ys zs h k = refl
is_prefix_trans (x ∷ xs) [] zs h k = cc
is_prefix_trans (x ∷ xs) (y ∷ ys) [] h k = cc
is_prefix_trans (x ∷ xs) (y ∷ ys) (z ∷ zs) h k =
    ground (arith, is_prefix_trans xs ys zs, list_beq_iff x y, list_beq_iff y z, list_beq_iff x z)

-- `lies_in` is pathlib's order: the test for equality adds nothing.
pub lies_in-eq : (p q : PurePath) → lies_in p q ≡ is_relative_to p q
unfolding lies_in is_relative_to
lies_in-eq p q = ground (arith, list_beq_iff p.parts q.parts, is_prefix_refl q.parts)

pub is_relative_to_refl : (p : PurePath) → is_relative_to p p ≡ true
unfolding is_relative_to
is_relative_to_refl p = ground (arith, is_prefix_refl p.parts, bool_beq_iff p.rooted p.rooted)

pub is_relative_to_trans :
    (p q r : PurePath)
    → is_relative_to p q ≡ true
    → is_relative_to q r ≡ true
    → is_relative_to p r ≡ true
unfolding is_relative_to
is_relative_to_trans p q r h k = ground (
  arith,
  is_prefix_trans r.parts q.parts p.parts,
  bool_beq_iff p.rooted q.rooted,
  bool_beq_iff q.rooted r.rooted,
  bool_beq_iff p.rooted r.rooted,
)

pub grants-downward :
    (p q : PurePath) (s : Source)
    → is_relative_to q p ≡ true
    → grants p s ≡ true
    → grants q s ≡ true
unfolding grants
grants-downward p q s k h = ground (
  arith,
  lies_in-eq p (to_path s.path),
  lies_in-eq q (to_path s.path),
  is_relative_to_trans q p (to_path s.path) k,
)

module _ (host : Host) where
  abbrev pub path_of : Str → PurePath
  path_of p = to_path (path_normalize host p)

  -- What lies in a path of the scope is in scope.
  pub scope-downward :
      (c : Config) (p q : Str)
      → is_path_in_scope host c p ≡ true
      → is_relative_to (path_of q) (path_of p) ≡ true
      → is_path_in_scope host c q ≡ true
  unfolding is_path_in_scope
  scope-downward c p q h k =
      any_mono (grants (path_of p)) (grants (path_of q)) c.sources
        (λ s e. grants-downward (path_of p) (path_of q) s k e) h

  -- One new source grants what lies in its path, and takes nothing away.
  pub scope-append :
      (c : Config) (p q : Str)
      → is_path_in_scope host
          (record {
            sources = c.sources ++ record { kind = local; path = path_normalize host p } ∷ [];
          })
          q
        ≡ (is_path_in_scope host c q || is_relative_to (path_of q) (path_of p))
  unfolding is_path_in_scope
  scope-append c p q =
      any-append (grants (path_of q)) c.sources
        (record { kind = local; path = path_normalize host p } ∷ [])
      ∙ ap (λ b. any (grants (path_of q)) c.sources || b)
          (unfold any grants option_beq list_beq in
            ground (arith, lies_in-eq (path_of q) (path_of p)))

  add_path-scope :
      (c : Config) (p q : Str)
      → is_path_in_scope host (add_path host c p) q
        ≡ (is_path_in_scope host c q || is_relative_to (path_of q) (path_of p))
  unfolding add_path
  add_path-scope c p q = ground (arith, scope-downward c p q, scope-append c p q)

  pub add_paths-scope :
      (ps : List Str) (c : Config) (q : Str)
      → is_path_in_scope host (add_paths host ps c) q
        ≡ (is_path_in_scope host c q || any (λ p. is_relative_to (path_of q) (path_of p)) ps)
  unfolding add_paths any
  add_paths-scope [] c q = ground arith
  add_paths-scope (p ∷ ps) c q =
      ground (arith, add_paths-scope ps (add_path host c p) q, add_path-scope c p q)

  -- After `add_sources` has gone through the set of its paths, in whatever order, a path is in
  -- scope exactly if it was before, or if it is one of the added paths or lies below one: a
  -- path that is skipped was covered, and no other path comes in.
  pub add_paths-exact :
      (iterate : List Str → List Str) (paths : List Str) (c : Config) (q : Str)
      → IsOrder iterate
      → is_path_in_scope host (add_paths host (iterate (distinct paths)) c) q
        ≡ (is_path_in_scope host c q || any (λ p. is_relative_to (path_of q) (path_of p)) paths)
  add_paths-exact iterate paths c q order =
      add_paths-scope (iterate (distinct paths)) c q
      ∙ ap (λ b. is_path_in_scope host c q || b)
          (any-same (λ p. is_relative_to (path_of q) (path_of p)) (iterate (distinct paths)) paths
            (λ x. contains-iterate iterate order (distinct paths) x ∙ contains-distinct paths x))

-- The first and the last source of a path.
unfoldable pub first_source : Str → List Source → Option Source
first_source p [] = none
first_source p (s ∷ sources) = if s.path == p then some s else first_source p sources

unfoldable pub last_source : Str → List Source → Option Source → Option Source
last_source p [] found = found
last_source p (s ∷ sources) found = last_source p sources (if s.path == p then some s else found)

first_source-put :
    (p : Str) (acc : List Source) (s : Source)
    → first_source p (put_source acc s) ≡ (if s.path == p then some s else first_source p acc)
unfolding first_source put_source
first_source-put p [] s = refl
first_source-put p (r ∷ acc) s = ground (
  arith,
  first_source-put p acc s,
  list_beq_iff r.path s.path,
  list_beq_iff r.path p,
  list_beq_iff s.path p,
)

first_source-put_sources :
    (p : Str) (sources acc : List Source)
    → first_source p (put_sources acc sources) ≡ last_source p sources (first_source p acc)
unfolding put_sources last_source
first_source-put_sources p [] acc = refl
first_source-put_sources p (s ∷ sources) acc =
    first_source-put_sources p sources (put_source acc s)
    ∙ ap (last_source p sources) (first_source-put p acc s)

cons-same : (p q : Str) (ps : List Str) → (p == q) ≡ true → q ∷ ps ≡ p ∷ ps
cons-same p q ps h = ap (λ x. x ∷ ps) (sym (beq_eq p q h))

-- The paths after one step of the comprehension.
put_source-paths :
    (acc : List Source) (s : Source)
    → source_paths (put_source acc s) ≡ (
        if contains (source_paths acc) s.path
        then source_paths acc
        else source_paths acc ++ s.path ∷ [])
unfolding contains put_source
put_source-paths [] s = refl
put_source-paths (r ∷ acc) s =
    ground (arith, put_source-paths acc s, cons-same r.path s.path (source_paths acc))

count-snoc :
    (ps : List Str) (p x : Str)
    → count x (ps ++ p ∷ []) ≡ (if p == x then suc (count x ps) else count x ps)
unfolding count
count-snoc [] p x = refl
count-snoc (q ∷ ps) p x = ground (arith, count-snoc ps p x)

-- An element that is not in the list does not occur twice when it is put at its end.
count-append_new :
    (ps : List Str) (p x : Str)
    → contains ps p ≡ false
    → count x ps ≤ 1
    → count x (ps ++ p ∷ []) ≤ 1
count-append_new ps p x h k = elim (Bool-cases (p == x)) [
  | inl same ↦
      ground (arith, count-snoc ps p x, contains-count ps x, ap (contains ps) (beq_eq p x same))
  | inr other ↦ ground (arith, count-snoc ps p x)
]

count-put_source :
    (acc : List Source) (s : Source) (x : Str)
    → ((y : Str) → count y (source_paths acc) ≤ 1)
    → count x (source_paths (put_source acc s)) ≤ 1
count-put_source acc s x h = elim (Bool-cases (contains (source_paths acc) s.path)) [
  | inl old ↦ ground (arith, ap (count x) (put_source-paths acc s), h x)
  | inr new ↦ ground (
    arith,
    ap (count x) (put_source-paths acc s),
    count-append_new (source_paths acc) s.path x new (h x),
  )
]

count-put_sources :
    (sources acc : List Source) (x : Str)
    → ((y : Str) → count y (source_paths acc) ≤ 1)
    → count x (source_paths (put_sources acc sources)) ≤ 1
unfolding put_sources
count-put_sources [] acc x h = h x
count-put_sources (s ∷ sources) acc x h =
    count-put_sources sources (put_source acc s) x (λ y. count-put_source acc s y h)

-- Whatever the sources are, the list that `_sources_dedup` makes of them has each path at most
-- once, and the source it has for a path is the last one that was listed for it.
pub sources_dedup_lem :
    (sources : List Source) (p : Str)
    → count p (source_paths (sources_dedup sources)) ≤ 1
      × first_source p (sources_dedup sources) ≡ last_source p sources none
unfolding sources_dedup first_source count
sources_dedup_lem sources p =
    (count-put_sources sources [] p (λ y. omega arith), first_source-put_sources p sources [])
