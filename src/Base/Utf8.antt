-- ===== src/Base/Utf8.antt =====
-- UTF-8, as `str.encode` and a strict `bytes.decode` have it.
use Prim.Native.Nat.{ℕ, zero, suc, ◌+◌, ◌-◌, ◌*◌, ◌/◌, ◌%◌, ◌<◌, ◌≤◌}
use mathlib.Core.Path.{◌≡◌, refl, ap, ◌∙◌, sym}
use mathlib.Core.Logic.{inl, inr}
use mathlib.Core.Bool.{Bool, true, false, ◌&&◌, ◌||◌}
use mathlib.Core.Option.{Option, none, some}
use mathlib.Core.List.{List, [], ◌∷◌, ◌++◌}
use native.Mathlib.Omega.{arith}
use context_os.Base.Tests.{if◌then◌else◌, ltb, leb, Bool-cases}
use context_os.Base.Text.{Str}

-- The code points that are encoded: no surrogates.
unfoldable pub is_scalar : ℕ → Bool
is_scalar c = ltb c 0xD800 || leb 0xE000 c && ltb c 0x110000

unfoldable pub encode_char : ℕ → List ℕ
encode_char c =
    if ltb c 0x80
    then c ∷ []
    else if ltb c 0x800
    then (0xC0 + c / 64) ∷ (0x80 + c % 64) ∷ []
    else if ltb c 0x10000
    then (0xE0 + c / 4096) ∷ (0x80 + c / 64 % 64) ∷ (0x80 + c % 64) ∷ []
    else (0xF0 + c / 262144) ∷ (0x80 + c / 4096 % 64) ∷ (0x80 + c / 64 % 64) ∷ (0x80 + c % 64) ∷ []

-- `s.encode("utf-8")`; none is a UnicodeEncodeError.
unfoldable pub encode : Str → Option (List ℕ)
unfolding is_scalar encode_char
encode [] = some []
encode (c ∷ s) = elim (encode s) [
  | none ↦ none
  | some bs ↦ if is_scalar c then some (encode_char c ++ bs) else none
]

-- Puts a decoded code point before the rest.
unfoldable pub put_char : ℕ → Option Str → Option Str
put_char c none = none
put_char c (some s) = some (c ∷ s)

-- `decode_from n acc least bytes`: `n` more bytes are wanted for the code point whose bits so far
-- are `acc`, and which is at least `least`.
unfoldable pub decode_from : ℕ → ℕ → ℕ → List ℕ → Option Str
unfolding put_char is_scalar
decode_from zero acc least [] = some []
decode_from (suc n) acc least [] = none
decode_from zero acc least (b ∷ bs) =
    let one = put_char b (decode_from 0 0 0 bs) in
    let two = decode_from 1 (b - 0xC0) 0x80 bs in
    let three = decode_from 2 (b - 0xE0) 0x800 bs in
    let four = decode_from 3 (b - 0xF0) 0x10000 bs in
    if ltb b 0x80
    then one
    else if ltb b 0xC0
    then none
    else if ltb b 0xE0
    then two
    else if ltb b 0xF0
    then three
    else if ltb b 0xF8
    then four
    else none
decode_from (suc zero) acc least (b ∷ bs) =
    let c = acc * 64 + (b - 0x80) in
    let rest = put_char c (decode_from 0 0 0 bs) in
    if leb 0x80 b && ltb b 0xC0 && leb least c && is_scalar c then rest else none
decode_from (suc (suc n)) acc least (b ∷ bs) =
    let rest = decode_from (suc n) (acc * 64 + (b - 0x80)) least bs in
    if leb 0x80 b && ltb b 0xC0 then rest else none

-- `b.decode("utf-8")`; none is a UnicodeDecodeError.
unfoldable pub decode : List ℕ → Option Str
unfolding decode_from
decode bs = decode_from 0 0 0 bs

lead_one :
    (b acc least : ℕ) (bs : List ℕ)
    → b < 0x80
    → decode_from 0 acc least (b ∷ bs) ≡ put_char b (decode_from 0 0 0 bs)
unfolding decode_from
lead_one b acc least bs h = ground arith

lead_two :
    (x acc least : ℕ) (bs : List ℕ)
    → x < 32
    → decode_from 0 acc least ((0xC0 + x) ∷ bs) ≡ decode_from 1 x 0x80 bs
unfolding decode_from
lead_two x acc least bs h =
    let e : 0xC0 + x - 0xC0 ≡ x = omega arith in
    let over0 : ltb (0xC0 + x) 0x80 ≡ false = ground arith in
    let over1 : ltb (0xC0 + x) 0xC0 ≡ false = ground arith in
    let under : ltb (0xC0 + x) 0xE0 ≡ true = ground arith in rw (e, over0, over1, under) refl

lead_three :
    (x acc least : ℕ) (bs : List ℕ)
    → x < 16
    → decode_from 0 acc least ((0xE0 + x) ∷ bs) ≡ decode_from 2 x 0x800 bs
unfolding decode_from
lead_three x acc least bs h =
    let e : 0xE0 + x - 0xE0 ≡ x = omega arith in
    let over0 : ltb (0xE0 + x) 0x80 ≡ false = ground arith in
    let over1 : ltb (0xE0 + x) 0xC0 ≡ false = ground arith in
    let over2 : ltb (0xE0 + x) 0xE0 ≡ false = ground arith in
    let under : ltb (0xE0 + x) 0xF0 ≡ true = ground arith in rw (e, over0, over1, over2, under) refl

lead_four :
    (x acc least : ℕ) (bs : List ℕ)
    → x < 8
    → decode_from 0 acc least ((0xF0 + x) ∷ bs) ≡ decode_from 3 x 0x10000 bs
unfolding decode_from
lead_four x acc least bs h =
    let e : 0xF0 + x - 0xF0 ≡ x = omega arith in
    let over0 : ltb (0xF0 + x) 0x80 ≡ false = ground arith in
    let over1 : ltb (0xF0 + x) 0xC0 ≡ false = ground arith in
    let over2 : ltb (0xF0 + x) 0xE0 ≡ false = ground arith in
    let over3 : ltb (0xF0 + x) 0xF0 ≡ false = ground arith in
    let under : ltb (0xF0 + x) 0xF8 ≡ true = ground arith in
    rw (e, over0, over1, over2, over3, under) refl

more :
    (n x acc least : ℕ) (bs : List ℕ)
    → x < 64
    → decode_from (suc (suc n)) acc least ((0x80 + x) ∷ bs)
      ≡ decode_from (suc n) (acc * 64 + x) least bs
unfolding decode_from
more n x acc least bs h = let e : 0x80 + x - 0x80 ≡ x = omega arith in ground arith

last :
    (x acc least c : ℕ) (bs : List ℕ)
    → x < 64
    → acc * 64 + x ≡ c
    → leb least c ≡ true
    → is_scalar c ≡ true
    → decode_from 1 acc least ((0x80 + x) ∷ bs) ≡ put_char c (decode_from 0 0 0 bs)
unfolding decode_from
last x acc least c bs h e l k =
    let e' : acc * 64 + (0x80 + x - 0x80) ≡ c = omega arith in
    let low : leb 0x80 (0x80 + x) ≡ true = ground arith in
    let high : ltb (0x80 + x) 0xC0 ≡ true = ground arith in rw (e', low, high, l, k) refl

char_two :
    (c : ℕ) (bs : List ℕ)
    → is_scalar c ≡ true
    → 0x80 ≤ c
    → c < 0x800
    → decode_from 0 0 0 ((0xC0 + c / 64) ∷ (0x80 + c % 64) ∷ bs) ≡ put_char c (decode_from 0 0 0 bs)
char_two c bs h lo hi =
    lead_two (c / 64) 0 0 ((0x80 + c % 64) ∷ bs) (omega arith)
    ∙ last (c % 64) (c / 64) 0x80 c bs (omega arith) (omega arith) (ground arith) h

char_three :
    (c : ℕ) (bs : List ℕ)
    → is_scalar c ≡ true
    → 0x800 ≤ c
    → c < 0x10000
    → decode_from 0 0 0 ((0xE0 + c / 4096) ∷ (0x80 + c / 64 % 64) ∷ (0x80 + c % 64) ∷ bs)
      ≡ put_char c (decode_from 0 0 0 bs)
char_three c bs h lo hi =
    lead_three (c / 4096) 0 0 ((0x80 + c / 64 % 64) ∷ (0x80 + c % 64) ∷ bs) (omega arith)
    ∙ more 0 (c / 64 % 64) (c / 4096) 0x800 ((0x80 + c % 64) ∷ bs) (omega arith)
    ∙ last (c % 64) (c / 4096 * 64 + c / 64 % 64) 0x800 c bs (omega arith) (omega arith)
        (ground arith) h

char_four :
    (c : ℕ) (bs : List ℕ)
    → is_scalar c ≡ true
    → 0x10000 ≤ c
    → c < 0x110000
    → decode_from 0 0 0
        ((0xF0 + c / 262144) ∷ (0x80 + c / 4096 % 64) ∷ (0x80 + c / 64 % 64) ∷ (0x80 + c % 64) ∷ bs)
      ≡ put_char c (decode_from 0 0 0 bs)
char_four c bs h lo hi =
    lead_four (c / 262144) 0 0
      ((0x80 + c / 4096 % 64) ∷ (0x80 + c / 64 % 64) ∷ (0x80 + c % 64) ∷ bs) (omega arith)
    ∙ more 1 (c / 4096 % 64) (c / 262144) 0x10000 ((0x80 + c / 64 % 64) ∷ (0x80 + c % 64) ∷ bs)
        (omega arith)
    ∙ more 0 (c / 64 % 64) (c / 262144 * 64 + c / 4096 % 64) 0x10000 ((0x80 + c % 64) ∷ bs)
        (omega arith)
    ∙ last (c % 64) ((c / 262144 * 64 + c / 4096 % 64) * 64 + c / 64 % 64) 0x10000 c bs
        (omega arith) (omega arith) (ground arith) h

scalar-bound : (c : ℕ) → is_scalar c ≡ true → c < 0x110000
unfolding is_scalar
scalar-bound c h = ground arith

lt_of_ltb : (a b : ℕ) → ltb a b ≡ true → a < b
lt_of_ltb a b h = ground arith

le_of_ltb : (a b : ℕ) → ltb a b ≡ false → b ≤ a
le_of_ltb a b h = ground arith

decode-char :
    (c : ℕ) (bs : List ℕ)
    → is_scalar c ≡ true
    → decode_from 0 0 0 (encode_char c ++ bs) ≡ put_char c (decode_from 0 0 0 bs)
unfolding encode_char
decode-char c bs h = elim (Bool-cases (ltb c 0x80)) [
  | inl a ↦ rw a (lead_one c 0 0 bs (lt_of_ltb c 0x80 a))
  | inr a ↦ elim (Bool-cases (ltb c 0x800)) [
    | inl b ↦ rw (a, b) (char_two c bs h (le_of_ltb c 0x80 a) (lt_of_ltb c 0x800 b))
    | inr b ↦ elim (Bool-cases (ltb c 0x10000)) [
      | inl d ↦ rw (a, b, d) (char_three c bs h (le_of_ltb c 0x800 b) (lt_of_ltb c 0x10000 d))
      | inr d ↦ rw (a, b, d) (char_four c bs h (le_of_ltb c 0x10000 d) (scalar-bound c h))
    ]
  ]
]

encode-cons :
    (c : ℕ) (s : Str) (found : Option (List ℕ)) (bs : List ℕ)
    → elim found as (λ _. Option (List ℕ)) [
      | none ↦ none
      | some r ↦ if is_scalar c then some (encode_char c ++ r) else none
    ]
      ≡ some bs
    → (r : List ℕ) × (found ≡ some r) × (is_scalar c ≡ true) × (encode_char c ++ r ≡ bs)
encode-cons c s none bs h = cc
encode-cons c s (some r) bs h = elim (Bool-cases (is_scalar c)) [
  | inl e ↦ (r, refl, e, ground arith)
  | inr e ↦ absurd (ground arith)
]

-- What is encoded is decoded again.
pub decode-encode : (s : Str) (bs : List ℕ) → encode s ≡ some bs → decode bs ≡ some s
unfolding encode decode
decode-encode [] bs h = let e : [] ≡ bs = cc in rw (← e) (unfold decode_from in refl)
decode-encode (c ∷ s) bs h =
    let (r, f, k, e) = encode-cons c s (encode s) bs h in
    ap (decode_from 0 0 0) (sym e)
    ∙ decode-char c r k
    ∙ ap (put_char c) (decode-encode s r f)
    ∙ unfold put_char in refl
