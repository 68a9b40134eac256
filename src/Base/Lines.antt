-- ===== src/Base/Lines.antt =====
-- Python's strip, splitlines and split with a limit, and how text that a command printed line by
-- line is read back.
use Prim.Native.Nat.{ℕ, zero, suc}
use mathlib.Core.Path.{◌≡◌, refl, ap, ◌∙◌, sym}
use mathlib.Core.Logic.{◌≢◌}
use mathlib.Core.Bool.{Bool, true, false, ◌&&◌, ◌||◌}
use mathlib.Core.Option.{Option, none, some}
use mathlib.Core.List.{List, [], ◌∷◌, ◌++◌}
use native.Mathlib.Omega.{arith}
use context_os.Base.Equality.{◌==◌, nat_eq, beq_refl}
use context_os.Base.Tests.{if◌then◌else◌, leb}
use context_os.Base.Lists.{any, contains}
use context_os.Base.Text.{Str, cons_first}

abbrev pub newline : ℕ
newline = 10

-- Where `splitlines` ends a line.
unfoldable pub is_break : ℕ → Bool
is_break c = leb 10 c && leb c 13 || leb 28 c && leb c 30 || c == 133 || leb 8232 c && leb c 8233

-- `str.isspace` of a code point.
unfoldable pub is_space : ℕ → Bool
is_space c =
    leb 9 c && leb c 13
    || leb 28 c && leb c 32
    || c == 133
    || c == 160
    || c == 5760
    || leb 8192 c && leb c 8202
    || leb 8232 c && leb c 8233
    || c == 8239
    || c == 8287
    || c == 12288

is_break-is_space : (c : ℕ) → is_break c ≡ true → is_space c ≡ true
unfolding is_break is_space
is_break-is_space c h = ground arith

unfoldable pub lstrip_space : Str → Str
lstrip_space [] = []
lstrip_space (c ∷ s) = let rest = lstrip_space s in if is_space c then rest else c ∷ s

unfoldable pub rstrip_space : Str → Str
rstrip_space [] = []
rstrip_space (c ∷ s) = elim (rstrip_space s) [
  | [] ↦ if is_space c then [] else c ∷ []
  | d ∷ t ↦ c ∷ d ∷ t
]

-- `s.strip()`
unfoldable pub strip : Str → Str
unfolding lstrip_space rstrip_space
strip s = rstrip_space (lstrip_space s)

unfoldable pub starts_line : Str → Bool
starts_line [] = false
starts_line (c ∷ s) = c == newline

-- `s.splitlines()`: a break ends a line, and "\r\n" is one break.
unfoldable pub splitlines : Str → List Str
unfolding is_break starts_line
splitlines [] = []
splitlines (c ∷ s) =
    let rest = splitlines s in
    if is_break c then if c == 13 && starts_line s then rest else [] ∷ rest else cons_first c rest

-- `s.partition(sep)`, `none` where `sep` is not in `s`.
unfoldable pub cut : ℕ → Str → Option (Str × Str)
cut sep [] = none
cut sep (c ∷ s) =
    let rest : Option (Str × Str) = elim (cut sep s) [
      | none ↦ none
      | some (a, b) ↦ some (c ∷ a, b)
    ] in
    if c == sep then some ([], s) else rest

-- `s.split(sep, maxsplit)`
unfoldable pub split_max : ℕ → ℕ → Str → List Str
unfolding cut
split_max sep zero s = s ∷ []
split_max sep (suc n) s = elim (cut sep s) [ none ↦ s ∷ [] | some (a, b) ↦ a ∷ split_max sep n b ]

pub cut-append :
    (sep : ℕ) (a b : Str) → contains a sep ≡ false → cut sep (a ++ sep ∷ b) ≡ some (a, b)
unfolding cut contains
cut-append sep [] b h = rw (beq_refl sep) refl
cut-append sep (c ∷ a) b h = ground (arith, cut-append sep a b)

pub cut-absent : (sep : ℕ) (a : Str) → contains a sep ≡ false → cut sep a ≡ none
unfolding cut contains
cut-absent sep [] h = refl
cut-absent sep (c ∷ a) h = ground (arith, cut-absent sep a)

pub split_max-append :
    (sep n : ℕ) (a b : Str)
    → contains a sep ≡ false
    → split_max sep (suc n) (a ++ sep ∷ b) ≡ a ∷ split_max sep n b
unfolding split_max
split_max-append sep n a b h = rw (split_max, cut-append sep a b h) refl

splitlines-break :
    (a : Str) (b : ℕ) (s : Str)
    → any is_break a ≡ false
    → is_break b ≡ true
    → (b == 13) ≡ false
    → splitlines (a ++ b ∷ s) ≡ a ∷ splitlines s
unfolding splitlines any
splitlines-break [] b s h e n = rw (e, n) refl
splitlines-break (c ∷ a) b s h e n = ground (arith, splitlines-break a b s)

splitlines-one :
    (c : ℕ) (a : Str) → any is_break (c ∷ a) ≡ false → splitlines (c ∷ a) ≡ (c ∷ a) ∷ []
unfolding splitlines any
splitlines-one c [] h = ground arith
splitlines-one c (d ∷ a) h = ground (arith, splitlines-one d a)

rstrip-space : (a : Str) (b : ℕ) → is_space b ≡ true → rstrip_space (a ++ b ∷ []) ≡ rstrip_space a
unfolding rstrip_space
rstrip-space [] b h = rw h refl
rstrip-space (c ∷ a) b h = rw (rstrip-space a b h) refl

rstrip-keep :
    (a t : Str) (d : ℕ) (r : Str) → rstrip_space t ≡ d ∷ r → rstrip_space (a ++ t) ≡ a ++ d ∷ r
unfolding rstrip_space
rstrip-keep [] t d r h = h
rstrip-keep (c ∷ []) t d r h = rw h refl
rstrip-keep (c ∷ e ∷ a) t d r h = rw (rstrip-keep (e ∷ a) t d r h) refl

unfoldable pub starts_blank : Str → Bool
starts_blank [] = false
starts_blank (c ∷ s) = is_space c

-- A line as a command prints it: not empty, on one line, with no blank at its ends.
pub record IsLine (l : Str) : Type 0 where
  pub filled : l ≢ []
  pub unbroken : any is_break l ≡ false
  pub head : starts_blank l ≡ false
  pub last : rstrip_space l ≡ l

-- A break other than the carriage return.
pub record IsEnd (b : ℕ) : Type 0 where
  pub breaks : is_break b ≡ true
  pub other : (b == 13) ≡ false

abbrev pub ended : List (Str × ℕ) → Str
ended [] = []
ended ((l, b) ∷ rest) = l ++ b ∷ ended rest

abbrev pub lines_of : List (Str × ℕ) → List Str
lines_of [] = []
lines_of ((l, b) ∷ rest) = l ∷ lines_of rest

abbrev pub AreLines : List (Str × ℕ) → Type 0
AreLines [] = Unit
AreLines ((l, b) ∷ rest) = IsLine l × IsEnd b × AreLines rest

-- Printed lines without the last break.
kept : Str → ℕ → List (Str × ℕ) → Str
kept l b [] = l
kept l b ((m, c) ∷ rest) = l ++ b ∷ kept m c rest

kept-filled :
    (l : Str) (b : ℕ) (rest : List (Str × ℕ))
    → IsLine l
    → (d : ℕ) × (r : Str) × (kept l b rest ≡ d ∷ r)
unfolding kept
kept-filled [] b rest h = absurd (h.filled refl)
kept-filled (d ∷ l) b [] h = (d, l, refl)
kept-filled (d ∷ l) b ((m, c) ∷ rest) h = (d, l ++ b ∷ kept m c rest, refl)

rstrip-ended :
    (l : Str) (b : ℕ) (rest : List (Str × ℕ))
    → AreLines ((l, b) ∷ rest)
    → rstrip_space (ended ((l, b) ∷ rest)) ≡ kept l b rest
unfolding kept
rstrip-ended l b [] h = rstrip-space l b (is_break-is_space b h.1.breaks) ∙ h.0.last
rstrip-ended l b ((m, c) ∷ rest) h =
    let ih = rstrip-ended m c rest h.2 in
    let (d, r, e) = kept-filled m c rest h.2.0 in
    rstrip-keep l (b ∷ ended ((m, c) ∷ rest)) b (d ∷ r)
      (rstrip-keep (b ∷ []) (ended ((m, c) ∷ rest)) d r (ih ∙ e))
    ∙ ap (λ t. l ++ b ∷ t) (sym e)

splitlines-kept :
    (l : Str) (b : ℕ) (rest : List (Str × ℕ))
    → AreLines ((l, b) ∷ rest)
    → splitlines (kept l b rest) ≡ l ∷ lines_of rest
unfolding kept
splitlines-kept [] b rest h = absurd (h.0.filled refl)
splitlines-kept (x ∷ l) b [] h = splitlines-one x l h.0.unbroken
splitlines-kept (x ∷ l) b ((m, c) ∷ rest) h =
    splitlines-break (x ∷ l) b (kept m c rest) h.0.unbroken h.1.breaks h.1.other
    ∙ ap (λ t. (x ∷ l) ∷ t) (splitlines-kept m c rest h.2)

lstrip-filled : (l t : Str) → l ≢ [] → starts_blank l ≡ false → lstrip_space (l ++ t) ≡ l ++ t
unfolding starts_blank lstrip_space
lstrip-filled [] t h e = absurd (h refl)
lstrip-filled (c ∷ l) t h e = rw e refl

-- What was printed line by line is read back.
pub splitlines-strip-ended :
    (ls : List (Str × ℕ)) → AreLines ls → splitlines (strip (ended ls)) ≡ lines_of ls
unfolding strip
splitlines-strip-ended [] h = unfold splitlines rstrip_space lstrip_space in refl
splitlines-strip-ended ((l, b) ∷ rest) h =
    ap (λ t. splitlines (rstrip_space t)) (lstrip-filled l (b ∷ ended rest) h.0.filled h.0.head)
    ∙ ap splitlines (rstrip-ended l b rest h)
    ∙ splitlines-kept l b rest h
