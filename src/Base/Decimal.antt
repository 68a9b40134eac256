-- ===== src/Base/Decimal.antt =====
-- Decimal numerals: `str` of a number that is not negative, and `int` of an ASCII text.
use Prim.Native.Nat.{ℕ, zero, suc, ◌+◌, ◌-◌, ◌*◌, ◌/◌, ◌%◌, ◌<◌}
use mathlib.Core.Path.{◌≡◌, refl, ap, ◌∙◌}
use mathlib.Core.List.{[], ◌∷◌}
use mathlib.Core.Bool.{Bool, true, false, not, ◌&&◌}
use mathlib.Core.Logic.{inl, inr}
use mathlib.Core.Option.{Option, none, some}
use native.Mathlib.Omega.{arith}
use context_os.Base.Equality.{◌==◌, nat_eq}
use context_os.Base.Tests.{if◌then◌else◌, leb, ltb, Bool-cases}
use context_os.Base.Lists.{any}
use context_os.Base.Lines.{is_space, strip, lstrip_space, rstrip_space}
use context_os.Base.Text.{Str}

-- `negsuc n` is -(n + 1).
pub data ℤ : Type 0 where
  pos : ℕ → ℤ
  negsuc : ℕ → ℤ

-- -n
unfoldable pub negate : ℕ → ℤ
negate zero = pos 0
negate (suc n) = negsuc n

-- The digits of a number before those of `rest`; each round divides by ten, so `n + 1` rounds are
-- enough.
unfoldable pub digits : ℕ → ℕ → Str → Str
digits zero n rest = rest
digits (suc fuel) n rest =
    let above = digits fuel (n / 10) ((b'0' + n % 10) ∷ rest) in
    if ltb n 10 then (b'0' + n) ∷ rest else above

-- `str(n)`
unfoldable pub decimal : ℕ → Str
unfolding digits
decimal n = digits (suc n) n []

abbrev pub is_digit : ℕ → Bool
is_digit c = leb b'0' c && leb c b'9'

-- The rest of the digits, with the value so far, and whether an underscore came last: one may
-- stand between two digits.
unfoldable pub scan : ℕ → Bool → Str → Option ℕ
scan n under [] = if under then none else some n
scan n under (c ∷ s) =
    let next = scan (n * 10 + (c - b'0')) false s in
    let skip = scan n true s in
    if is_digit c then next else if c == b'_' && not under then skip else none

unfoldable pub unsigned : Str → Option ℕ
unfolding scan
unsigned [] = none
unsigned (c ∷ s) = if is_digit c then scan (c - b'0') false s else none

unfoldable pub with_sign : (ℕ → ℤ) → Option ℕ → Option ℤ
with_sign sign none = none
with_sign sign (some n) = some (sign n)

unfoldable pub signed : Str → Option ℤ
unfolding unsigned with_sign negate
signed [] = none
signed (c ∷ s) =
    if c == b'-'
    then with_sign negate (unsigned s)
    else if c == b'+'
    then with_sign pos (unsigned s)
    else with_sign pos (unsigned (c ∷ s))

-- `int(s)`; none is a ValueError.
unfoldable pub int_of : Str → Option ℤ
unfolding signed strip
int_of s = signed (strip s)

unsigned-digits :
    (fuel n : ℕ) (rest : Str) → n < fuel → unsigned (digits fuel n rest) ≡ scan n false rest
unfolding digits unsigned scan
unsigned-digits zero n rest h = absurd (omega arith)
unsigned-digits (suc fuel) n rest h =
    ground (arith, unsigned-digits fuel (n / 10) ((b'0' + n % 10) ∷ rest))

solid-digits :
    (fuel n : ℕ) (rest : Str)
    → any is_space rest ≡ false
    → any is_space (digits fuel n rest) ≡ false
unfolding digits any is_space
solid-digits zero n rest h = h
solid-digits (suc fuel) n rest h =
    ground (arith, solid-digits fuel (n / 10) ((b'0' + n % 10) ∷ rest))

rstrip-solid : (s : Str) → any is_space s ≡ false → rstrip_space s ≡ s
unfolding rstrip_space any
rstrip-solid [] h = refl
rstrip-solid (c ∷ []) h = ground arith
rstrip-solid (c ∷ d ∷ s) h = ground (arith, rstrip-solid (d ∷ s))

lstrip-solid : (s : Str) → any is_space s ≡ false → lstrip_space s ≡ s
unfolding lstrip_space any
lstrip-solid [] h = refl
lstrip-solid (c ∷ s) h = ground arith

signed-unsigned : (s : Str) (n : ℕ) → unsigned s ≡ some n → signed s ≡ some (pos n)
unfolding signed unsigned with_sign
signed-unsigned [] n h = cc
signed-unsigned (c ∷ s) n h = elim (Bool-cases (is_digit c)) [
  | inl e ↦
      let minus : (c == b'-') ≡ false = ground arith in
      let plus : (c == b'+') ≡ false = ground arith in rw (minus, plus, h) refl
  | inr e ↦ let wrong : none ≡ some n = ground arith in absurd (cc)
]

-- A number that is not negative is read back from its digits.
pub int_of-decimal : (n : ℕ) → int_of (decimal n) ≡ some (pos n)
unfolding int_of decimal strip
int_of-decimal n =
    let solid = solid-digits (suc n) n [] (unfold any in refl) in
    ap (λ t. signed (rstrip_space t)) (lstrip-solid (digits (suc n) n []) solid)
    ∙ ap signed (rstrip-solid (digits (suc n) n []) solid)
    ∙ signed-unsigned (digits (suc n) n []) n
        (unsigned-digits (suc n) n [] (omega arith) ∙ unfold scan in refl)
