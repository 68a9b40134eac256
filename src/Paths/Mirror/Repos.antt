-- ===== src/Paths/Mirror/Repos.antt =====
-- The mirror repositories: each below the mirror directory, and one for each target.
use context_os.Base.{
  ℕ, true, false, List, [], ◌∷◌, ◌++◌, nat_eq, list_eq, bool_eq, ◌≡◌, refl, ap, ◌∙◌, sym, arith,
  beq_refl,
}
use context_os.Base.Lists.{any, All, contains}
use context_os.Base.Text.{Str, lstrip, delete}
use context_os.Paths.Pure.{
  slash, is_slash, join, names, IsName, is_absolute, is_prefix, PurePath, is_relative_to, joined,
  names_by-join,
}
use context_os.Paths.Normalize.{
  Host, IsHost, path_normalize, path_normalize_idem, has_windows_drive,
}
use context_os.Paths.Under.{named-ne-nil}
use context_os.Paths.Mirror.{repo_dir_name, repo_path_for}
use context_os.Paths.Mirror.Sound.{posix_names}

lstrip-relative : (x : Str) → is_absolute (lstrip slash x) ≡ false
unfolding lstrip is_absolute
lstrip-relative [] = refl
lstrip-relative (c ∷ x) = ground (arith, lstrip-relative x)

is_prefix-append : (xs ys : List Str) → is_prefix xs (xs ++ ys) ≡ true
unfolding is_prefix
is_prefix-append [] ys = refl
is_prefix-append (x ∷ xs) ys = ground (arith, beq_refl x, is_prefix-append xs ys)

-- Whatever the watch target is, also an absolute one, its repository lies below the mirror
-- directory: the name of the repository never replaces that directory.
pub repo_path_for-below :
    (host : Host) (dir : PurePath) (t : Str) → is_relative_to (repo_path_for host dir t) dir ≡ true
unfolding repo_path_for repo_dir_name joined is_relative_to
repo_path_for-below host dir t = ground (
  arith,
  lstrip-relative (delete b':' (path_normalize host (path_normalize host t))),
  is_prefix-append dir.parts
      (names (lstrip slash (delete b':' (path_normalize host (path_normalize host t))))),
)

lstrip-names :
    (ns : List Str)
    → All (IsName is_slash) ns
    → (lstrip slash (join ns) ≡ join ns) × (is_absolute (join ns) ≡ false)
unfolding lstrip join is_absolute
lstrip-names [] h = (refl, refl)
lstrip-names ([] ∷ ns) h = absurd (named-ne-nil [] h.0.named refl)
lstrip-names ((c ∷ w) ∷ []) h = unfold any in ground (arith, h.0.no_sep)
lstrip-names ((c ∷ w) ∷ v ∷ ns) h = unfold any in ground (arith, h.0.no_sep)

lstrip-slash : (x : Str) → lstrip slash (slash ∷ x) ≡ lstrip slash x
unfolding lstrip
lstrip-slash x = refl

delete-absent : (c : ℕ) (x : Str) → contains x c ≡ false → delete c x ≡ x
unfolding delete contains
delete-absent c [] h = refl
delete-absent c (d ∷ x) h = ground (arith, delete-absent c x)

append-injective : (xs ys zs : List Str) → xs ++ ys ≡ xs ++ zs → ys ≡ zs
append-injective [] ys zs e = e
append-injective (x ∷ xs) ys zs e = append-injective xs ys zs (cc)

module _ (host : Host) (is_host : IsHost host) (dir : PurePath) where
  repo_dir_name-eq :
      (t : Str) (ns : List Str)
      → All (IsName is_slash) ns
      → contains (path_normalize host t) b':' ≡ false
      → path_normalize host t ≡ slash ∷ join ns
      → repo_dir_name host (path_normalize host t) ≡ join ns
  unfolding repo_dir_name
  repo_dir_name-eq t ns h k e =
      ap (λ x. lstrip slash (delete b':' x)) (path_normalize_idem host is_host t)
      ∙ ap (lstrip slash) (delete-absent b':' (path_normalize host t) k)
      ∙ ap (lstrip slash) e
      ∙ lstrip-slash (join ns)
      ∙ (lstrip-names ns h).0

  -- The repository of a target that has no colon is at the target's names below the mirror
  -- directory.
  repo_path_for-names :
      (t : Str) (ns : List Str)
      → All (IsName is_slash) ns
      → contains (path_normalize host t) b':' ≡ false
      → path_normalize host t ≡ slash ∷ join ns
      → repo_path_for host dir t ≡ record dir { parts = dir.parts ++ ns }
  unfolding repo_path_for joined names
  repo_path_for-names t ns h k e =
      rw (repo_dir_name-eq t ns h k e)
        (rw ((lstrip-names ns h).1, names_by-join is_slash refl ns h))

  -- Two watch targets without a colon or a Windows drive share a repository only if they are the
  -- same directory.
  pub repo_path_for-injective :
      (t u : Str)
      → has_windows_drive t ≡ false
      → has_windows_drive u ≡ false
      → contains (path_normalize host t) b':' ≡ false
      → contains (path_normalize host u) b':' ≡ false
      → repo_path_for host dir t ≡ repo_path_for host dir u
      → path_normalize host t ≡ path_normalize host u
  repo_path_for-injective t u ht hu ct cu e =
      let (ns, kn, en) = posix_names host is_host t ht in
      let (ms, km, em) = posix_names host is_host u hu in
      let same = append-injective dir.parts ns ms (
        ap (λ p. p.parts)
          (sym (repo_path_for-names t ns kn ct en) ∙ e ∙ repo_path_for-names u ms km cu em)) in
      en ∙ ap (λ ws. slash ∷ join ws) same ∙ sym em
