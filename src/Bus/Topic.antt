-- ===== src/Bus/Topic.antt =====
-- `topic_matches` of vcs/workers/bus.py: the table of the dynamic program, row by row.
mod Rows
pub mod Correct
use context_os.Base.{
  Bool, true, false, ◌||◌, ◌==◌, List, [], ◌∷◌, nat_eq, list_eq, if◌then◌else◌, ◌≡◌, refl, list_beq,
  map,
}
use context_os.Base.Text.{Str, str, split}

abbrev pub hash : Str
hash = str "#"

abbrev pub star : Str
star = str "*"

-- `p[i - 1] == "*" or p[i - 1] == t[j - 1]`
unfoldable pub word_matches : Str → Str → Bool
word_matches p t = p == star || p == t

-- `match[0]`: only the empty prefix of the topic is matched by the empty pattern.
unfoldable pub first_row : List Str → List Bool
first_row t = true ∷ map (λ _. false) t

-- `match[i][j]` from `match[i - 1][j - 1]`, `match[i - 1][j]` and `match[i][j - 1]`: a `#` takes
-- zero words, or one more.
unfoldable pub cell : Str → Str → Bool → Bool → Bool → Bool
unfolding word_matches
cell p w diagonal up left =
    if p == hash then up || left else if word_matches p w then diagonal else false

-- `match[i][j]` for j from 1 on, where `above` is `match[i - 1]` from j - 1 on, and `left` is
-- `match[i][j - 1]`.
unfoldable pub fill : Str → List Str → List Bool → Bool → List Bool
unfolding cell
fill p (w ∷ t) (diagonal ∷ up ∷ above) left =
    let here = cell p w diagonal up left in here ∷ fill p t (up ∷ above) here
fill p _ _ left = []

-- `match[i]` from `match[i - 1]`; its entry 0 is kept by a `#` only.
unfoldable pub next_row : Str → List Str → List Bool → List Bool
unfolding fill
next_row p t [] = []
next_row p t (b ∷ above) =
    let first = if p == hash then b else false in first ∷ fill p t (b ∷ above) first

-- The rows in turn, from `match[i]` on.
unfoldable pub rows : List Str → List Str → List Bool → List Bool
unfolding next_row
rows [] t row = row
rows (p ∷ ps) t row = rows ps t (next_row p t row)

unfoldable pub last : List Bool → Bool
last [] = false
last (b ∷ []) = b
last (b ∷ c ∷ bs) = last (c ∷ bs)

unfoldable pub topic_matches : Str → Str → Bool
unfolding split rows first_row last
topic_matches pattern topic =
    let p = split b'.' pattern in let t = split b'.' topic in last (rows p t (first_row t))

tests :
    (topic_matches (str "source.#") (str "source") ≡ true)
    × (topic_matches (str "source.#") (str "source.created.now") ≡ true)
    × (topic_matches (str "source.*") (str "source") ≡ false)
    × (topic_matches (str "#.b.*") (str "a.b.c") ≡ true)
    × (topic_matches (str "config.#") (str "source") ≡ false)
unfolding topic_matches list_beq
tests = (refl, refl, refl, refl, refl)
