-- ===== src/Configure/Baseline.antt =====
-- What the snapshot promises: the diff against it, and the way back from it.
use mathlib.Core.List.{append-nil, append_assoc}
use context_os.Base.{
  Bool, ◌&&◌, ◌≤◌, ◌+◌, false, not, Option, none, some, List, [], ◌∷◌, ◌++◌, map, ◌==◌, nat_eq,
  list_eq, ◌≡◌, refl, sym, ◌∙◌, ap, arith, Bool-cases, inl, inr, beq_refl,
}
use context_os.Base.Lists.{contains, count, contains-append, contains-filter, All}
use context_os.Base.Sets.{contains-count}
use context_os.Base.Text.{Str}
use context_os.Paths.Normalize.{Host, path_normalize, IsHost}
use context_os.Paths.Normalize.{path_normalize_idem}
use context_os.Configure.Sources.{
  Source, Config, Yaml, IsYaml, ConfigFiles, source_paths, put_source, put_sources, sources_dedup,
  normalize_source, parsed, read, parse_config, dump_config,
}
use context_os.Configure.Scope.{sources_dedup_lem}
use context_os.Configure.Snapshot.{
  ◌>>=◌, ConfigDiff, not_in, diff_of, config_or, get_config_diff, store_config_snapshot,
  recover_config,
}

count-append : (x : Str) (ps qs : List Str) → count x (ps ++ qs) ≡ count x ps + count x qs
unfolding count
count-append x [] qs = ground arith
count-append x (p ∷ ps) qs = ground (arith, count-append x ps qs)

source_paths-append :
    (xs ys : List Source) → source_paths (xs ++ ys) ≡ source_paths xs ++ source_paths ys
source_paths-append [] ys = refl
source_paths-append (s ∷ xs) ys = ap (λ ps. s.path ∷ ps) (source_paths-append xs ys)

put_source_new :
    (acc : List Source) (s : Source)
    → contains (source_paths acc) s.path ≡ false
    → put_source acc s ≡ acc ++ s ∷ []
unfolding put_source contains
put_source_new [] s h = refl
put_source_new (r ∷ acc) s h = ground (arith, put_source_new acc s)

new_path :
    (acc rest : List Source) (s : Source)
    → count s.path (source_paths (acc ++ s ∷ rest)) ≤ 1
    → contains (source_paths acc) s.path ≡ false
unfolding count
new_path acc rest s h = ground (
  arith,
  contains-count (source_paths acc) s.path,
  ap (count s.path) (source_paths-append acc (s ∷ rest)),
  count-append s.path (source_paths acc) (s.path ∷ source_paths rest),
  beq_refl s.path,
)

put_sources_new :
    (rest acc : List Source)
    → ((x : Str) → count x (source_paths (acc ++ rest)) ≤ 1)
    → put_sources acc rest ≡ acc ++ rest
unfolding put_sources
put_sources_new [] acc h = sym (append-nil acc)
put_sources_new (s ∷ rest) acc h =
    ap (λ xs. put_sources xs rest) (put_source_new acc s (new_path acc rest s (h s.path)))
    ∙ put_sources_new rest (acc ++ s ∷ []) (λ x. rw (append_assoc acc (s ∷ []) rest) (h x))
    ∙ append_assoc acc (s ∷ []) rest

put_source-All {κ} :
    (P : Source → Type κ) (acc : List Source) (s : Source)
    → All P acc
    → P s
    → All P (put_source acc s)
unfolding put_source
put_source-All P [] s h k = (k, h)
put_source-All P (r ∷ acc) s h k = elim (Bool-cases (r.path == s.path)) [
  | inl e ↦ rw e ((k, h.1))
  | inr e ↦ rw e ((h.0, put_source-All P acc s h.1 k))
]

put_sources-All {κ} :
    (P : Source → Type κ) (sources acc : List Source)
    → All P acc
    → All P sources
    → All P (put_sources acc sources)
unfolding put_sources
put_sources-All P [] acc h k = h
put_sources-All P (s ∷ sources) acc h k =
    put_sources-All P sources (put_source acc s) (put_source-All P acc s h k.0) k.1

-- A source of the one configuration has the path, and none of the other one.
abbrev pub is_only_in : Config → Config → Str → Bool
is_only_in c d p = contains (source_paths c.sources) p && not (contains (source_paths d.sources) p)

diff_of-added :
    (curr prev : Config) (p : Str) → contains (diff_of curr prev).added p ≡ is_only_in curr prev p
unfolding diff_of not_in
diff_of-added curr prev p =
    contains-filter (λ q. not (contains (source_paths prev.sources) q)) (source_paths curr.sources)
      p

diff_of-deleted :
    (curr prev : Config) (p : Str) → contains (diff_of curr prev).deleted p ≡ is_only_in prev curr p
unfolding diff_of not_in
diff_of-deleted curr prev p =
    contains-filter (λ q. not (contains (source_paths curr.sources) q)) (source_paths prev.sources)
      p

module _ (host : Host) (is_host : IsHost host) where
  IsNormal : Source → Type 0
  IsNormal s = path_normalize host s.path ≡ s.path

  normalized : (xs : List Source) → All IsNormal (map (normalize_source host) xs)
  unfolding normalize_source IsNormal
  normalized [] = tt
  normalized (s ∷ xs) = (path_normalize_idem host is_host s.path, normalized xs)

  map-normal : (xs : List Source) → All IsNormal xs → map (normalize_source host) xs ≡ xs
  unfolding normalize_source IsNormal
  map-normal [] h = refl
  map-normal (s ∷ xs) h =
      ap (λ p. record s { path = p } ∷ map (normalize_source host) xs) h.0
      ∙ ap (λ ys. s ∷ ys) (map-normal xs h.1)

  dedup-distinct :
      (xs : List Source) → ((x : Str) → count x (source_paths xs) ≤ 1) → sources_dedup xs ≡ xs
  unfolding sources_dedup
  dedup-distinct xs h = put_sources_new xs [] h

  dedup-IsNormal :
      (xs : List Source) → All IsNormal (sources_dedup (map (normalize_source host) xs))
  unfolding sources_dedup
  dedup-IsNormal xs =
      put_sources-All IsNormal (map (normalize_source host) xs) [] tt (normalized xs)

  -- Parsing what was parsed before changes nothing.
  pub parsed_idem : (doc : Option Config) → parsed host (some (parsed host doc)) ≡ parsed host doc
  unfolding parsed
  parsed_idem none = unfold sources_dedup put_sources in refl
  parsed_idem (some c) =
      ap (λ xs. record { sources = sources_dedup xs })
        (map-normal (sources_dedup (map (normalize_source host) c.sources))
          (dedup-IsNormal c.sources))
      ∙ ap (λ xs. record { sources = xs })
          (dedup-distinct (sources_dedup (map (normalize_source host) c.sources))
            (λ x. (sources_dedup_lem (map (normalize_source host) c.sources) x).0))

  module _ (Y : Yaml) (is_yaml : IsYaml Y) where
    reload :
        (doc : Option Config) (c : Config)
        → some (parsed host doc) ≡ some c
        → parsed host (some c) ≡ c
    reload doc c h = let e = parsed_idem doc in cc

    -- What was read once is what its dump is read as.
    pub read-dump :
        (doc : Option Y.Document) (c : Config)
        → read host Y doc ≡ some c
        → parsed host (Y.safe_load (Y.safe_dump c)) ≡ c
    unfolding read
    read-dump none c h = cc
    read-dump (some doc) c h = ap (parsed host) (is_yaml.load-dump c) ∙ reload (Y.safe_load doc) c h

    -- Take a configuration `seen` that was read, and store it as the snapshot when config.yaml
    -- has in the meantime been rewritten, so that it now reads as `now`. The next diff adds
    -- exactly the paths that `now` has and `seen` has not, and deletes exactly those that `seen`
    -- has and `now` has not.
    pub get_config_diff-store_config_snapshot :
        (doc : Option Y.Document) (files : ConfigFiles Y) (seen now : Config)
        → read host Y doc ≡ some seen
        → parse_config host Y false files ≡ some now
        → (diff : ConfigDiff) × ((do
          stored ← store_config_snapshot host Y (some seen) files
          get_config_diff host Y none stored)
            ≡ some diff)
          × ((p : Str) → contains diff.added p ≡ is_only_in now seen p)
          × ((p : Str) → contains diff.deleted p ≡ is_only_in seen now p)
    unfolding store_config_snapshot get_config_diff config_or parse_config
    get_config_diff-store_config_snapshot doc files seen now h k = (
      diff_of now seen,
      rw (read-dump doc seen h, k) refl,
      diff_of-added now seen,
      diff_of-deleted now seen,
    )

    -- A configuration that was read and stored as the snapshot is what config.yaml reads as after
    -- `recover_config`, whatever config.yaml was before.
    pub recover_config-store_config_snapshot :
        (doc : Option Y.Document) (files : ConfigFiles Y) (seen : Config)
        → read host Y doc ≡ some seen
        → (do
          stored ← store_config_snapshot host Y (some seen) files
          recovered ← recover_config host Y stored
          parse_config host Y false recovered)
          ≡ some seen
    unfolding store_config_snapshot recover_config config_or parse_config dump_config
    recover_config-store_config_snapshot doc files seen h =
        rw (read-dump doc seen h, read-dump doc seen h) refl

-- Whatever two configurations are compared, the deleted paths taken off the old list, and the
-- added paths put behind it, leave the paths of the new list.
pub diff_of-exact :
    (curr prev : Config) (p : Str)
    → contains
        (not_in (diff_of curr prev).deleted (source_paths prev.sources)
          ++ (diff_of curr prev).added)
        p
      ≡ contains (source_paths curr.sources) p
unfolding diff_of not_in
diff_of-exact curr prev p =
    let now = source_paths curr.sources in
    let old = source_paths prev.sources in
    ground (
      arith,
      contains-append (not_in (not_in now old) old) (not_in old now) p,
      contains-filter (λ q. not (contains (not_in now old) q)) old p,
      contains-filter (λ q. not (contains old q)) now p,
      contains-filter (λ q. not (contains now q)) old p,
    )
