-- ===== src/Paths/Mirror/Sound.antt =====
-- A path is mirrored exactly if a watch target covers it, and its place in the mirror determines it.
use context_os.Base.{
  ℕ, ◌+◌, true, false, ◌||◌, none, some, List, [], ◌∷◌, ◌++◌, ◌==◌, nat_eq, list_eq, bool_eq, ◌≡◌,
  refl, ap, ◌∙◌, sym, arith, beq_eq, beq_refl, inl, inr, ◌≢◌, ◌≤◌, ◌↔◌, list_beq_iff, Option-cases,
}
use context_os.Base.Lists.{any, All, length, drop, contains}
use context_os.Base.Text.{Str, starts_with, rstrip}
use context_os.Paths.Pure.{slash, is_slash, join, IsName, PurePath, to_path, is_relative_to}
use context_os.Paths.Normalize.{
  Host, IsHost, path_normalize, path_normalize-cases, has_windows_drive,
}
use context_os.Paths.Under.{covers-names, to_path-join, rstrip-path}
use context_os.Paths.Mirror.{
  repo_path_for, location_under, resolve_mirror_location, source_path_for,
}

starts_with-drop :
    (s p : Str) (c : ℕ) → starts_with s (p ++ c ∷ []) ≡ true → p ++ c ∷ drop (length p + 1) s ≡ s
unfolding starts_with
starts_with-drop [] [] c h = cc
starts_with-drop (d ∷ s) [] c h = ground arith
starts_with-drop [] (e ∷ p) c h = cc
starts_with-drop (d ∷ s) (e ∷ p) c h = ground (arith, starts_with-drop s p c)

rstrip-snoc : (x : Str) → rstrip slash (x ++ slash ∷ []) ≡ rstrip slash x
unfolding rstrip
rstrip-snoc [] = refl
rstrip-snoc (c ∷ x) = rw (rstrip-snoc x, rstrip)

length-rstrip : (x : Str) → length (rstrip slash x) ≤ length x
unfolding rstrip
length-rstrip [] = omega arith
length-rstrip (c ∷ x) = ground (arith, length-rstrip x)

length-snoc : (x : Str) (c : ℕ) → length (x ++ c ∷ []) ≡ length x + 1
length-snoc [] c = omega arith
length-snoc (d ∷ x) c = omega (arith, length-snoc x c)

no_trailing_slash :
    (x w : Str) (ws : List Str)
    → All (IsName is_slash) (w ∷ ws)
    → x ++ slash ∷ [] ≢ slash ∷ join (w ∷ ws)
no_trailing_slash x w ws h e = absurd (
    omega (
      arith,
      length-snoc x slash,
      length-rstrip x,
      ap length (sym (rstrip-snoc x) ∙ ap (rstrip slash) e ∙ rstrip-path w ws h ∙ sym e),
    ))

no_room : (x : Str) → (slash ∷ x) ++ slash ∷ [] ≢ slash ∷ join []
unfolding join
no_room [] e = cc
no_room (c ∷ x) e = cc

roots_meet :
    (ns ts : List Str)
    → All (IsName is_slash) ns
    → All (IsName is_slash) ts
    → rstrip slash (slash ∷ join ts) ++ slash ∷ [] ≡ slash ∷ join ns
    → slash ∷ join ts ≡ slash ∷ join ns
roots_meet (n ∷ ns) ts hn ht e =
    absurd (no_trailing_slash (rstrip slash (slash ∷ join ts)) n ns hn e)
roots_meet [] [] hn ht e = refl
roots_meet [] (t ∷ ts) hn ht e =
    absurd (no_room (join (t ∷ ts)) (sym (ap (λ x. x ++ slash ∷ []) (rstrip-path t ts ht)) ∙ e))

module _ (host : Host) (is_host : IsHost host) where
  -- A path with no Windows drive in front, by its names.
  pub posix_names :
      (s : Str)
      → has_windows_drive s ≡ false
      → (ns : List Str) × All (IsName is_slash) ns × (path_normalize host s ≡ slash ∷ join ns)
  posix_names s h = elim (path_normalize-cases host is_host s) [
    | inl (t, e) ↦
        (is_host.resolved_names t, is_host.resolved_are_names t, e ∙ is_host.resolve-eq t)
    | inr (w, e) ↦ absurd (cc)
  ]

  -- The test of the loop, by pathlib's order.
  pub covers-relative :
      (s t : Str)
      → has_windows_drive s ≡ false
      → has_windows_drive t ≡ false
      → (path_normalize host s == path_normalize host t
          || starts_with
              (path_normalize host s)
              (rstrip slash (path_normalize host t) ++ slash ∷ []))
        ≡ is_relative_to (to_path (path_normalize host s)) (to_path (path_normalize host t))
  covers-relative s t hs ht =
      let (ns, kn, en) = posix_names s hs in
      let (ts, kt, et) = posix_names t ht in
      rw (en, et)
        (covers-names ts ns kt kn
          ∙ sym (rw (to_path-join ns kn, to_path-join ts kt) (unfold is_relative_to in refl)))

  -- Only the root ends in a separator, and then the target is the root too.
  root_target :
      (s t : Str)
      → has_windows_drive s ≡ false
      → has_windows_drive t ≡ false
      → rstrip slash (path_normalize host t) ++ slash ∷ [] ≡ path_normalize host s
      → path_normalize host t ≡ path_normalize host s
  root_target s t hs ht e =
      let (ns, kn, en) = posix_names s hs in
      let (ts, kt, et) = posix_names t ht in
      et
      ∙ roots_meet ns ts kn kt (ap (λ x. rstrip slash x ++ slash ∷ []) (sym et) ∙ e ∙ en)
      ∙ sym en

  -- The target's own path, behind which the covered path goes on: the path in the mirror tells
  -- the source path again.
  module _ (dir : PurePath) where
    source_path-location :
        (s t : Str) (repo : PurePath) (rel : Str)
        → has_windows_drive s ≡ false
        → has_windows_drive t ≡ false
        → location_under host dir (path_normalize host s) t ≡ some (repo, rel)
        → (repo ≡ repo_path_for host dir t) × (source_path_for host t rel ≡ path_normalize host s)
    unfolding location_under repo_path_for source_path_for
    source_path-location s t repo rel hs ht e = ground (
      arith,
      beq_eq (path_normalize host s) (path_normalize host t),
      beq_refl {A = Str} [],
      list_beq_iff rel [],
      starts_with-drop (path_normalize host s) (rstrip slash (path_normalize host t)) slash,
      root_target s t hs ht,
    )

    -- Let neither the source path nor any watch target have a Windows drive. Where
    -- `resolve_mirror_location` finds a place for the source path, the repository is that of a
    -- watch target, and the target and the path in the repository give the normalised source
    -- path back by `_source_path_for`.
    pub resolve_mirror_location_sound :
        (s : Str) (targets : List Str) (repo : PurePath) (rel : Str)
        → has_windows_drive s ≡ false
        → All (λ t. has_windows_drive t ≡ false) targets
        → resolve_mirror_location host dir s targets ≡ some (repo, rel)
        → (t : Str) × (contains targets t ≡ true)
          × (repo ≡ repo_path_for host dir t)
          × (source_path_for host t rel ≡ path_normalize host s)
    unfolding resolve_mirror_location contains
    resolve_mirror_location_sound s [] repo rel h k e = cc
    resolve_mirror_location_sound s (t ∷ targets) repo rel h k e =
        elim (Option-cases (location_under host dir (path_normalize host s) t)) [
          | inl no_cover ↦
              let (u, m, q, r) =
                resolve_mirror_location_sound s targets repo rel h k.1 (ground arith) in
              (u, ground arith, q, r)
          | inr (found, p) ↦
              let (q, r) = source_path-location s t repo rel h k.0 (ground arith) in
              (t, ground (arith, beq_refl t), q, r)
        ]

    -- Let neither the source path nor any watch target have a Windows drive. The source path has
    -- no place in any mirror exactly if no watch target is the path itself or one of its
    -- ancestors, by the names of the normalised paths.
    pub resolve_mirror_location-none :
        (s : Str) (targets : List Str)
        → has_windows_drive s ≡ false
        → All (λ t. has_windows_drive t ≡ false) targets
        → (resolve_mirror_location host dir s targets ≡ none) ↔ (
            any
              (λ t.
                is_relative_to (to_path (path_normalize host s)) (to_path (path_normalize host t)))
              targets
            ≡ false)
    unfolding resolve_mirror_location any
    resolve_mirror_location-none s [] h k = ground arith
    resolve_mirror_location-none s (t ∷ targets) h k =
        ground (arith, resolve_mirror_location-none s targets h k.1, covers-relative s t h k.0)
