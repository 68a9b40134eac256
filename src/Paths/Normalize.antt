-- ===== src/Paths/Normalize.antt =====
-- utils/helper.py: `path_normalize`. The parts of pathlib that ask the operating system, which
-- are `expanduser` and `resolve`, are a parameter.
use context_os.Base.{
  ℕ, Bool, true, false, not, ◌&&◌, ◌||◌, List, [], ◌∷◌, ◌==◌, nat_eq, list_eq, if◌then◌else◌, leb,
  ◌≡◌, refl, ap, ◌∙◌, arith, Bool-cases, inl, inr, ◌⊎◌,
}
use context_os.Base.Lists.{All}
use context_os.Base.Text.{Str}
use context_os.Paths.Pure.{
  slash, names_by, is_slash, join, is_absolute, IsName, names_by-join, names_by-names,
  names_by-slash,
}

-- `str(Path(p).expanduser())`, and `Path(p).resolve(strict=False).as_posix()`.
pub record Host : Type 0 where
  pub expanduser : Str → Str
  pub resolve : Str → Str

unfoldable pub is_letter : ℕ → Bool
is_letter c = leb b'A' c && leb c b'Z' || leb b'a' c && leb c b'z'

abbrev pub is_windows_sep : ℕ → Bool
is_windows_sep c = c == slash || c == b'\\'

-- `_WINDOWS_DRIVE_RE.match(s)`, for `^[A-Za-z]:[\\/]`.
unfoldable pub has_windows_drive : Str → Bool
unfolding is_letter
has_windows_drive (d ∷ colon ∷ sep ∷ s) = is_letter d && colon == b':' && is_windows_sep sep
has_windows_drive _ = false

-- `PureWindowsPath(s).as_posix()` of a text with a drive and a root.
unfoldable pub windows_as_posix : Str → Str
unfolding names_by join
windows_as_posix (d ∷ colon ∷ s) = d ∷ colon ∷ slash ∷ join (names_by is_windows_sep s)
windows_as_posix s = s

unfoldable pub path_normalize : Host → Str → Str
unfolding is_absolute has_windows_drive windows_as_posix
path_normalize host path =
    let p = host.expanduser path in
    if not (is_absolute p) && has_windows_drive path then windows_as_posix path else host.resolve p

-- `~` stands at the head.
unfoldable pub has_tilde : Str → Bool
has_tilde [] = false
has_tilde (c ∷ s) = c == b'~'

-- What pathlib documents: only a leading `~` is expanded, `resolve` gives an absolute path in
-- normal form, and resolving one again changes nothing.
pub record IsHost (host : Host) : Type 0 where
  pub expanduser-plain : (s : Str) → has_tilde s ≡ false → host.expanduser s ≡ s
  pub resolved_names : Str → List Str
  pub resolved_are_names : (s : Str) → All (IsName is_slash) (resolved_names s)
  pub resolve-eq : (s : Str) → host.resolve s ≡ slash ∷ join (resolved_names s)
  pub resolve-resolve : (s : Str) → host.resolve (host.resolve s) ≡ host.resolve s

windows_as_posix_idem : (s : Str) → windows_as_posix (windows_as_posix s) ≡ windows_as_posix s
unfolding windows_as_posix
windows_as_posix_idem (d ∷ colon ∷ s) =
    ap (λ ws. d ∷ colon ∷ slash ∷ join ws)
      (names_by-slash is_windows_sep refl (join (names_by is_windows_sep s))
        ∙ names_by-join is_windows_sep refl (names_by is_windows_sep s)
            (names_by-names is_windows_sep s))
windows_as_posix_idem [] = refl
windows_as_posix_idem (d ∷ []) = refl

-- A Windows path with a drive and a root keeps them, and is not absolute for the host.
windows_as_posix-shape :
    (s : Str)
    → has_windows_drive s ≡ true
    → (has_windows_drive (windows_as_posix s) ≡ true)
      × (is_absolute (windows_as_posix s) ≡ false)
      × (has_tilde (windows_as_posix s) ≡ false)
unfolding has_windows_drive windows_as_posix is_absolute has_tilde
windows_as_posix-shape (d ∷ colon ∷ sep ∷ s) h = ground arith
windows_as_posix-shape _ h = cc

module _ (host : Host) (is_host : IsHost host) where
  resolved :
      (s : Str) → (has_tilde (host.resolve s) ≡ false) × (is_absolute (host.resolve s) ≡ true)
  unfolding has_tilde is_absolute
  resolved s = rw (is_host.resolve-eq s) (refl, refl)

  normalize-resolved : (s : Str) → path_normalize host (host.resolve s) ≡ host.resolve s
  unfolding path_normalize
  normalize-resolved s =
      rw (is_host.expanduser-plain (host.resolve s) (resolved s).0)
        (rw (resolved s).1 (is_host.resolve-resolve s))

  normalize-windows :
      (s : Str)
      → has_windows_drive s ≡ true
      → path_normalize host (windows_as_posix s) ≡ windows_as_posix s
  unfolding path_normalize
  normalize-windows s h =
      let (drive, relative, plain) = windows_as_posix-shape s h in
      rw (is_host.expanduser-plain (windows_as_posix s) plain)
        (rw (relative, drive) (windows_as_posix_idem s))

  -- The result is a resolved path, or a Windows path made uniform.
  pub path_normalize-cases :
      (path : Str)
      → ((s : Str) × (path_normalize host path ≡ host.resolve s))
        ⊎ ((has_windows_drive path ≡ true) × (path_normalize host path ≡ windows_as_posix path))
  unfolding path_normalize
  path_normalize-cases path =
      elim (Bool-cases (not (is_absolute (host.expanduser path)) && has_windows_drive path)) [
        | inl e ↦ inr (ground arith, rw e)
        | inr e ↦ inl (host.expanduser path, rw e)
      ]

  -- Normalising a path a second time changes nothing, also where the path is a Windows path
  -- that the host's pathlib does not take for absolute.
  pub path_normalize_idem :
      (path : Str) → path_normalize host (path_normalize host path) ≡ path_normalize host path
  path_normalize_idem path = elim (path_normalize-cases path) [
    | inl (s, e) ↦ rw e (normalize-resolved s)
    | inr (h, e) ↦ rw e (normalize-windows path h)
  ]
