-- ===== src/Configure/Canonical.antt =====
-- Of normalised paths, no two texts stand for the same path.
use context_os.Base.{
  ℕ, true, false, List, [], ◌∷◌, ◌++◌, ◌==◌, nat_eq, list_eq, ◌≡◌, refl, sym, ◌∙◌, ap, arith, inl,
  inr, if◌then◌else◌, bool_eq, list_beq,
}
use context_os.Base.Lists.{filter, any, All}
use context_os.Base.Text.{Str}
use context_os.Paths.Pure.{
  PurePath, to_path, slash, is_slash, join, names, names_by, is_absolute, IsName, is_name,
  names_by-join, names_by-names, names_by-slash, split_on-append,
}
use context_os.Paths.Normalize.{
  Host, IsHost, path_normalize, path_normalize-cases, is_windows_sep, windows_as_posix,
  has_windows_drive, is_letter,
}

-- Behind a drive there is a separator.
drive_text : List Str → Str
drive_text [] = []
drive_text (drive ∷ ns) = drive ++ slash ∷ join ns

-- The text of a normalised path.
text_of : PurePath → Str
text_of p = if p.rooted then slash ∷ join p.parts else drive_text p.parts

no_slash : (w : Str) → any is_windows_sep w ≡ false → any is_slash w ≡ false
unfolding any
no_slash [] h = refl
no_slash (c ∷ w) h = ground (arith, no_slash w)

as_slash : (ns : List Str) → All (IsName is_windows_sep) ns → All (IsName is_slash) ns
as_slash [] h = tt
as_slash (n ∷ ns) h =
    (record { no_sep = no_slash n h.0.no_sep; named = h.0.named }, as_slash ns h.1)

names-cons :
    (w : Str) (ns : List Str)
    → IsName is_slash w
    → All (IsName is_slash) ns
    → names (w ++ slash ∷ join ns) ≡ w ∷ ns
unfolding names names_by filter
names-cons w ns k h =
    rw (split_on-append is_slash refl w (join ns) k.no_sep, k.named)
      (ap (λ us. w ∷ us) (names_by-join is_slash refl ns h))

drive-IsName :
    (d colon : ℕ) → is_letter d ≡ true → (colon == b':') ≡ true → IsName is_slash (d ∷ colon ∷ [])
unfolding is_letter any is_name list_beq
drive-IsName d colon h k = record { no_sep = ground arith; named = ground arith }

posix_text :
    (ns : List Str)
    → All (IsName is_slash) ns
    → text_of (to_path (slash ∷ join ns)) ≡ slash ∷ join ns
unfolding text_of to_path names is_absolute
posix_text ns h =
    ap (λ ws. slash ∷ join ws)
      (names_by-slash is_slash refl (join ns) ∙ names_by-join is_slash refl ns h)

relative_text :
    (s : Str) (ns : List Str)
    → is_absolute s ≡ false
    → names s ≡ ns
    → text_of (to_path s) ≡ drive_text ns
unfolding text_of to_path
relative_text s ns h k = rw (h, k) refl

windows_text :
    (s : Str)
    → has_windows_drive s ≡ true
    → text_of (to_path (windows_as_posix s)) ≡ windows_as_posix s
unfolding is_absolute windows_as_posix has_windows_drive is_letter drive_text
windows_text (d ∷ colon ∷ sep ∷ s) h =
    let ns = names_by is_windows_sep (sep ∷ s) in
    let kn = names_by-names is_windows_sep (sep ∷ s) in
    relative_text (d ∷ colon ∷ slash ∷ join ns) ((d ∷ colon ∷ []) ∷ ns) (ground arith) (
      names-cons (d ∷ colon ∷ []) ns (drive-IsName d colon (ground arith) (ground arith))
        (as_slash ns kn))
windows_text _ h = cc

module _ (host : Host) (is_host : IsHost host) where
  text_of-path_normalize :
      (s : Str) → text_of (to_path (path_normalize host s)) ≡ path_normalize host s
  text_of-path_normalize s = elim (path_normalize-cases host is_host s) [
    | inl (t, e) ↦
        rw (e, is_host.resolve-eq t)
          (posix_text (is_host.resolved_names t) (is_host.resolved_are_names t))
    | inr (h, e) ↦ rw e (windows_text s h)
  ]

  pub path_normalize-canonical :
      (s t : Str)
      → to_path (path_normalize host s) ≡ to_path (path_normalize host t)
      → path_normalize host s ≡ path_normalize host t
  path_normalize-canonical s t h =
      sym (text_of-path_normalize s) ∙ ap text_of h ∙ text_of-path_normalize t
