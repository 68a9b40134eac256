-- ===== src/Paths/Pure.antt =====
-- pathlib's pure paths: a root mark and the names between the separators.
use context_os.Base.{
  ℕ, Bool, true, false, not, ◌&&◌, ◌||◌, List, [], ◌∷◌, ◌++◌, ◌==◌, nat_eq, list_eq, bool_eq,
  if◌then◌else◌, ◌≡◌, refl, ap, arith, list_beq, Bool-cases, inl, inr,
}
use context_os.Base.Lists.{filter, any, All}
use context_os.Base.Text.{Str, cons_first}

abbrev pub slash : ℕ
slash = b'/'

-- The pieces between separators, which are the code points that pass the test.
unfoldable pub split_on : (ℕ → Bool) → Str → List Str
split_on is_sep [] = [] ∷ []
split_on is_sep (c ∷ s) =
    let ws = split_on is_sep s in if is_sep c then [] ∷ ws else cons_first c ws

-- Empty pieces and "." are no names.
unfoldable pub is_name : Str → Bool
is_name w = not (w == [] || w == b'.' ∷ [])

unfoldable pub names_by : (ℕ → Bool) → Str → List Str
unfolding split_on is_name
names_by is_sep s = filter is_name (split_on is_sep s)

abbrev pub is_slash : ℕ → Bool
is_slash c = c == slash

unfoldable pub names : Str → List Str
unfolding names_by
names s = names_by is_slash s

-- `"/".join(ws)`
unfoldable pub join : List Str → Str
join [] = []
join (w ∷ []) = w
join (w ∷ v ∷ ws) = w ++ slash ∷ join (v ∷ ws)

unfoldable pub is_absolute : Str → Bool
is_absolute [] = false
is_absolute (c ∷ s) = c == slash

-- `Path(s)`, up to the equality of paths.
pub record PurePath : Type 0 where
  pub rooted : Bool
  pub parts : List Str

unfoldable pub to_path : Str → PurePath
unfolding is_absolute names
to_path s = record { rooted = is_absolute s; parts = names s }

unfoldable pub is_prefix : List Str → List Str → Bool
is_prefix [] vs = true
is_prefix (w ∷ ws) [] = false
is_prefix (w ∷ ws) (v ∷ vs) = w == v && is_prefix ws vs

-- `p.is_relative_to(q)`, which holds of `q` itself.
unfoldable pub is_relative_to : PurePath → PurePath → Bool
unfolding is_prefix
is_relative_to p q = p.rooted == q.rooted && is_prefix q.parts p.parts

-- `base / s`: an absolute right side replaces the base.
unfoldable pub joined : PurePath → Str → PurePath
unfolding to_path
joined base s = if is_absolute s then to_path s else record base { parts = base.parts ++ names s }

-- A name as it stands in a path.
pub record IsName (is_sep : ℕ → Bool) (w : Str) : Type 0 where
  pub no_sep : any is_sep w ≡ false
  pub named : is_name w ≡ true

module _ (is_sep : ℕ → Bool) (slash_seps : is_sep slash ≡ true) where
  split_on-word : (w : Str) → any is_sep w ≡ false → split_on is_sep w ≡ w ∷ []
  unfolding split_on any
  split_on-word [] h = refl
  split_on-word (c ∷ w) h = ground (arith, split_on-word w)

  pub split_on-append :
      (w s : Str) → any is_sep w ≡ false → split_on is_sep (w ++ slash ∷ s) ≡ w ∷ split_on is_sep s
  unfolding split_on any
  split_on-append [] s h = rw slash_seps
  split_on-append (c ∷ w) s h = ground (arith, split_on-append w s)

  -- A leading separator brings no name.
  pub names_by-slash : (s : Str) → names_by is_sep (slash ∷ s) ≡ names_by is_sep s
  unfolding names_by split_on filter is_name list_beq
  names_by-slash s = rw slash_seps

  -- The names of a joined text are the names that were joined.
  pub names_by-join : (ws : List Str) → All (IsName is_sep) ws → names_by is_sep (join ws) ≡ ws
  unfolding names_by join filter
  names_by-join [] h = unfold split_on is_name list_beq in refl
  names_by-join (w ∷ []) h = rw (split_on-word w h.0.no_sep) (unfold filter in rw h.0.named)
  names_by-join (w ∷ v ∷ ws) h =
      rw (split_on-append w (join (v ∷ ws)) h.0.no_sep)
        (rw h.0.named (ap (λ us. w ∷ us) (names_by-join (v ∷ ws) h.1)))

module _ (is_sep : ℕ → Bool) where
  abbrev AreUnbroken : List Str → Type 0
  AreUnbroken ws = All (λ w. any is_sep w ≡ false) ws

  cons_first-unbroken :
      (c : ℕ) (ws : List Str) → is_sep c ≡ false → AreUnbroken ws → AreUnbroken (cons_first c ws)
  unfolding any
  cons_first-unbroken c [] e h = (rw e, tt)
  cons_first-unbroken c (w ∷ ws) e h = (rw e h.0, h.1)

  -- The pieces of a text hold no separator.
  split_on-unbroken : (s : Str) → AreUnbroken (split_on is_sep s)
  unfolding split_on any
  split_on-unbroken [] = (refl, tt)
  split_on-unbroken (c ∷ s) = elim (Bool-cases (is_sep c)) [
    | inl e ↦ rw e (refl, split_on-unbroken s)
    | inr e ↦ rw e (cons_first-unbroken c (split_on is_sep s) e (split_on-unbroken s))
  ]

  filter-names : (ws : List Str) → AreUnbroken ws → All (IsName is_sep) (filter is_name ws)
  unfolding filter
  filter-names [] h = tt
  filter-names (w ∷ ws) h = elim (Bool-cases (is_name w)) [
    | inl e ↦ rw e (record { no_sep = h.0; named = e }, filter-names ws h.1)
    | inr e ↦ rw e (filter-names ws h.1)
  ]

  -- What a text is split into are names.
  pub names_by-names : (s : Str) → All (IsName is_sep) (names_by is_sep s)
  unfolding names_by
  names_by-names s = filter-names (split_on is_sep s) (split_on-unbroken s)
