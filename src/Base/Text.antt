-- ===== src/Base/Text.antt =====
-- Python's str as the list of its code points, with the methods that the program uses.
use Prim.Native.Nat.{ℕ}
use Prim.Native.Char.{code}
use Prim.Native.String.{String}
use mathlib.Core.Path.{◌≡◌, refl}
use mathlib.Core.Bool.{Bool, true, false, ◌&&◌}
use mathlib.Core.List.{List, [], ◌∷◌}
use context_os.Base.Equality.{◌==◌, nat_eq, list_eq}
use context_os.Base.Tests.{if◌then◌else◌}

abbrev pub Str : Type 0
Str = List ℕ

-- The code points of a literal.
abbrev pub str : String → Str
str String.[] = []
str (String.◌∷◌ c s) = code c ∷ str s

-- Puts a code point before the first word.
abbrev pub cons_first : ℕ → List Str → List Str
cons_first c [] = (c ∷ []) ∷ []
cons_first c (w ∷ ws) = (c ∷ w) ∷ ws

-- `s.split(sep)` for a separator of one code point.
unfoldable pub split : ℕ → Str → List Str
split sep [] = [] ∷ []
split sep (c ∷ s) = let ws = split sep s in if c == sep then [] ∷ ws else cons_first c ws

split_test : split b'.' (str "source.#") ≡ str "source" ∷ str "#" ∷ []
unfolding split
split_test = refl

-- `s.startswith(prefix)`
unfoldable pub starts_with : Str → Str → Bool
starts_with s [] = true
starts_with [] (c ∷ prefix) = false
starts_with (d ∷ s) (c ∷ prefix) = d == c && starts_with s prefix

-- `s.rstrip(c)` and `s.lstrip(c)` for one code point, and `s.replace(c, "")`.
unfoldable pub rstrip : ℕ → Str → Str
rstrip c [] = []
rstrip c (d ∷ s) = elim (rstrip c s) [ [] ↦ (if d == c then [] else d ∷ []) | e ∷ t ↦ d ∷ e ∷ t ]

unfoldable pub lstrip : ℕ → Str → Str
lstrip c [] = []
lstrip c (d ∷ s) = let rest = lstrip c s in if d == c then rest else d ∷ s

unfoldable pub delete : ℕ → Str → Str
delete c [] = []
delete c (d ∷ s) = let rest = delete c s in if d == c then rest else d ∷ rest
