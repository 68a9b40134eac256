-- ===== src/Configure/Stored.antt =====
-- What `add_sources` leaves in config.yaml: what the next `parse_config` makes of it.
use mathlib.Core.List.{map-append}
use context_os.Base.{
  Bool, true, false, ◌||◌, Option, some, List, [], ◌∷◌, ◌++◌, map, ◌==◌, nat_eq, list_eq, option_eq,
  ◌≡◌, refl, sym, ◌∙◌, ap, arith, Bool-cases, inl, inr, beq_eq, beq_of_eq,
}
use context_os.Base.Lists.{any}
use context_os.Base.Sets.{distinct, IsOrder}
use context_os.Base.Text.{Str}
use context_os.Paths.Pure.{PurePath, to_path, is_relative_to}
use context_os.Paths.Normalize.{Host, path_normalize, IsHost, path_normalize_idem}
use context_os.Configure.Sources.{
  Source, Config, Yaml, IsYaml, ConfigFiles, local, put_source, put_sources, sources_dedup,
  normalize_source, parsed, lies_in, grants, is_path_in_scope, add_path, add_paths, read,
  parse_config, dump_config, add_sources,
}
use context_os.Configure.Scope.{path_of, add_paths-exact}
use context_os.Configure.Snapshot.{◌>>=◌}
use context_os.Configure.Baseline.{read-dump}

put_sources-append :
    (xs ys acc : List Source) → put_sources acc (xs ++ ys) ≡ put_sources (put_sources acc xs) ys
unfolding put_sources
put_sources-append [] ys acc = refl
put_sources-append (x ∷ xs) ys acc = put_sources-append xs ys (put_source acc x)

same-grants :
    (t : PurePath) (r s : Source)
    → s.kind ≡ local
    → (r.path == s.path) ≡ true
    → grants t r ≡ true
    → grants t s ≡ true
unfolding grants
same-grants t r s k e h =
    ground
      (arith, ap (λ p. lies_in t (to_path p)) (beq_eq r.path s.path e), beq_of_eq s.kind local k)

any-put_source :
    (t : PurePath) (acc : List Source) (s : Source)
    → s.kind ≡ local
    → any (grants t) (put_source acc s) ≡ (any (grants t) acc || grants t s)
unfolding any put_source
any-put_source t [] s k = ground arith
any-put_source t (r ∷ acc) s k = ground (arith, any-put_source t acc s k, same-grants t r s k)

any-snoc :
    (p : Source → Bool) (xs : List Source) (s : Source) → any p (xs ++ s ∷ []) ≡ (any p xs || p s)
unfolding any
any-snoc p [] s = ground arith
any-snoc p (x ∷ xs) s = ground (arith, any-snoc p xs s)

module _ (host : Host) (is_host : IsHost host) where
  -- The scope of the configuration is the one that it has when it is dumped and parsed again.
  IsStable : Config → Type 0
  IsStable c =
      (q : Str) → is_path_in_scope host (parsed host (some c)) q ≡ is_path_in_scope host c q

  abbrev granted : Str → Source
  granted p = record { kind = local; path = path_normalize host p }

  normalize-granted : (p : Str) → normalize_source host (granted p) ≡ granted p
  unfolding normalize_source
  normalize-granted p =
      ap (λ x. record { kind = local; path = x }) (path_normalize_idem host is_host p)

  sources-append :
      (xs : List Source) (p : Str)
      → sources_dedup (map (normalize_source host) (xs ++ granted p ∷ []))
        ≡ put_source (sources_dedup (map (normalize_source host) xs)) (granted p)
  unfolding sources_dedup
  sources-append xs p =
      ap (put_sources []) (map-append (normalize_source host) xs (granted p ∷ []))
      ∙ put_sources-append (map (normalize_source host) xs) (normalize_source host (granted p) ∷ [])
          []
      ∙ ap (λ s. put_sources (put_sources [] (map (normalize_source host) xs)) (s ∷ []))
          (normalize-granted p)

  append-IsStable :
      (c : Config) (p : Str)
      → IsStable c
      → IsStable (record { sources = c.sources ++ granted p ∷ [] })
  unfolding IsStable is_path_in_scope parsed
  append-IsStable c p h q =
      let t = path_of host q in
      ap (any (grants t)) (sources-append c.sources p)
      ∙ any-put_source t (sources_dedup (map (normalize_source host) c.sources)) (granted p) refl
      ∙ ap (λ b. b || grants t (granted p)) (h q)
      ∙ sym (any-snoc (grants t) c.sources (granted p))

  add_path-IsStable : (c : Config) (p : Str) → IsStable c → IsStable (add_path host c p)
  unfolding add_path
  add_path-IsStable c p h = elim (Bool-cases (is_path_in_scope host c p)) [
    | inl e ↦ rw e h
    | inr e ↦ rw e (append-IsStable c p h)
  ]

  add_paths-IsStable : (ps : List Str) (c : Config) → IsStable c → IsStable (add_paths host ps c)
  unfolding add_paths
  add_paths-IsStable [] c h = h
  add_paths-IsStable (p ∷ ps) c h =
      add_paths-IsStable ps (add_path host c p) (add_path-IsStable c p h)

  module _ (Y : Yaml) (is_yaml : IsYaml Y) where
    read-IsStable : (doc : Option Y.Document) (c : Config) → read host Y doc ≡ some c → IsStable c
    unfolding IsStable
    read-IsStable doc c h q =
        ap (λ x. is_path_in_scope host x q)
          (ap (parsed host) (sym (is_yaml.load-dump c)) ∙ read-dump host is_host Y is_yaml doc c h)

    add_sources-read :
        (iterate : List Str → List Str) (paths : List Str) (files : ConfigFiles Y) (config : Config)
        → parse_config host Y false files ≡ some config
        → add_sources host Y iterate paths files
          ≡ some (dump_config host Y (add_paths host (iterate (distinct paths)) config) files)
    unfolding add_sources
    add_sources-read iterate paths files config h = rw (add_sources, h) refl

    pub parse_config-dump_config :
        (c : Config) (files : ConfigFiles Y)
        → parse_config host Y false (dump_config host Y c files) ≡ some (parsed host (some c))
    unfolding parse_config dump_config read
    parse_config-dump_config c files = ap (λ x. some (parsed host x)) (is_yaml.load-dump c)

    read_of :
        (files : ConfigFiles Y) (c : Config)
        → parse_config host Y false files ≡ some c
        → read host Y files.config ≡ some c
    unfolding parse_config
    read_of files c h = h

    -- Let config.yaml read as `config`. After `add_sources`, whatever the order in which it goes
    -- through the set of its paths, config.yaml reads as a configuration that has exactly the
    -- scope of `config` and the added paths with all that lies below them.
    pub add_sources_lem :
        (iterate : List Str → List Str) (paths : List Str) (files : ConfigFiles Y) (config : Config)
        (q : Str)
        → IsOrder iterate
        → parse_config host Y false files ≡ some config
        → (do
          written ← add_sources host Y iterate paths files
          now ← parse_config host Y false written
          some (is_path_in_scope host now q))
          ≡ some (
              is_path_in_scope host config q
              || any (λ p. is_relative_to (path_of host q) (path_of host p)) paths)
    unfolding IsStable
    add_sources_lem iterate paths files config q order h =
        let c = add_paths host (iterate (distinct paths)) config in
        rw (add_sources-read iterate paths files config h, parse_config-dump_config c files)
          (ap some (
            add_paths-IsStable (iterate (distinct paths)) config
              (read-IsStable files.config config (read_of files config h)) q
            ∙ add_paths-exact host iterate paths config q order))
