-- ===== src/Bus/Topic/Rows.antt =====
-- The table of `topic_matches` computes a recursive matcher: the rows are steps through the pattern.
use context_os.Base.{
  Bool, true, false, ◌||◌, ◌&&◌, ◌==◌, List, [], ◌∷◌, map, nat_eq, list_eq, if◌then◌else◌, ◌≡◌,
  refl, ◌∙◌, sym, ap, inl, inr, arith, Bool-cases,
}
use mathlib.Core.Path.{fun_ext}
use context_os.Base.Text.{Str, split}
use context_os.Bus.Topic.{
  hash, word_matches, cell, first_row, fill, next_row, rows, last, topic_matches,
}

-- A pattern as a set of topics.
abbrev pub Topics : Type 0
Topics = List Str → Bool

unfoldable pub empty : Topics
empty [] = true
empty (w ∷ t) = false

unfoldable pub suffixes : Topics → Topics
suffixes M [] = M []
suffixes M (w ∷ t) = M (w ∷ t) || suffixes M t

unfoldable pub one_word : Str → Topics → Topics
unfolding word_matches
one_word p M [] = false
one_word p M (w ∷ t) = word_matches p w && M t

unfoldable pub step : Str → Topics → Topics
unfolding suffixes one_word
step p M t = if p == hash then suffixes M t else one_word p M t

unfoldable pub matches : List Str → Topics
matches [] = empty
matches (p ∷ ps) = step p (matches ps)

-- A row says which prefixes of the topic are matched so far: some rest of one is matched by `M`.
any_rest : Topics → List Str → List Bool → Bool
any_rest M t [] = false
any_rest M [] (b ∷ row) = b && M []
any_rest M (w ∷ t) (b ∷ row) = b && M (w ∷ t) || any_rest M t row

-- The same after the first word.
any_later : Topics → List Str → List Bool → Bool
unfolding any_rest
any_later M [] row = false
any_later M (w ∷ t) row = any_rest M t row

-- A row has an entry for each prefix of the topic.
abbrev Fits : List Str → List Bool → Type 0
Fits t [] = ⊥
Fits [] (b ∷ row) = row ≡ []
Fits (w ∷ t) (b ∷ row) = Fits t row

any_rest-cons :
    (M : Topics) (t : List Str) (b : Bool) (row : List Bool)
    → any_rest M t (b ∷ row) ≡ (b && M t || any_later M t row)
unfolding any_later
any_rest-cons M [] b row = ground arith
any_rest-cons M (w ∷ t) b row = refl

module _ (p w : Str) (diagonal up left : Bool) where
  cell-hash : (p == hash) ≡ true → cell p w diagonal up left ≡ (up || left)
  unfolding cell
  cell-hash h = rw h

  cell-word : (p == hash) ≡ false → cell p w diagonal up left ≡ (word_matches p w && diagonal)
  unfolding cell
  cell-word h = rw h (ground arith)

module _ (p : Str) (M : Topics) where
  fill-hash :
      (t : List Str) (b : Bool) (row : List Bool) (left : Bool)
      → (p == hash) ≡ true
      → Fits t (b ∷ row)
      → any_rest M t (left ∷ fill p t (b ∷ row) left)
        ≡ (left && suffixes M t || any_later (suffixes M) t row)
  unfolding any_later suffixes fill
  fill-hash [] b row left h f = ground arith
  fill-hash (w ∷ t) b (u ∷ row) left h f = ground (
    arith,
    cell-hash p w b u left h,
    fill-hash t u row (cell p w b u left) h f,
    any_rest-cons (suffixes M) t u row,
  )
  fill-hash (w ∷ t) b [] left h f = elim f [ ]

  fill-word :
      (t : List Str) (b : Bool) (row : List Bool) (left : Bool)
      → (p == hash) ≡ false
      → Fits t (b ∷ row)
      → any_rest M t (left ∷ fill p t (b ∷ row) left)
        ≡ (left && M t || any_rest (one_word p M) t (b ∷ row))
  unfolding any_rest one_word fill
  fill-word [] b row left h f = ground arith
  fill-word (w ∷ t) b (u ∷ row) left h f =
      ground (arith, cell-word p w b u left h, fill-word t u row (cell p w b u left) h f)
  fill-word (w ∷ t) b [] left h f = elim f [ ]

  any_rest-step_word :
      (t : List Str) (row : List Bool)
      → (p == hash) ≡ false
      → any_rest (step p M) t row ≡ any_rest (one_word p M) t row
  any_rest-step_word t row h = ap (λ N. any_rest N t row) (fun_ext (λ u. unfold step in rw h))

  any_rest-step-suffixes :
      (t : List Str) (row : List Bool)
      → (p == hash) ≡ true
      → any_rest (step p M) t row ≡ any_rest (suffixes M) t row
  any_rest-step-suffixes t row h = ap (λ N. any_rest N t row) (fun_ext (λ u. unfold step in rw h))

  any_rest-step-hash :
      (t : List Str) (b : Bool) (row : List Bool)
      → (p == hash) ≡ true
      → any_rest (step p M) t (b ∷ row) ≡ (b && suffixes M t || any_later (suffixes M) t row)
  any_rest-step-hash t b row h =
      any_rest-step-suffixes t (b ∷ row) h ∙ any_rest-cons (suffixes M) t b row

  -- One row of the table is one step of the pattern.
  any_rest-next_row :
      (t : List Str) (row : List Bool)
      → Fits t row
      → any_rest M t (next_row p t row) ≡ any_rest (step p M) t row
  unfolding next_row
  any_rest-next_row t (b ∷ row) f = elim (Bool-cases (p == hash)) [
    | inl h ↦ ground (arith, fill-hash t b row b h f, any_rest-step-hash t b row h)
    | inr h ↦ ground (arith, fill-word t b row false h f, any_rest-step_word t (b ∷ row) h)
  ]
  any_rest-next_row t [] f = elim f [ ]

Fits-fill :
    (p : Str) (t : List Str) (b : Bool) (row : List Bool) (first left : Bool)
    → Fits t (b ∷ row)
    → Fits t (first ∷ fill p t (b ∷ row) left)
unfolding fill
Fits-fill p [] b row first left f = refl
Fits-fill p (w ∷ t) b (u ∷ row) first left f =
    Fits-fill p t u row (cell p w b u left) (cell p w b u left) f
Fits-fill p (w ∷ t) b [] first left f = elim f [ ]

Fits-next_row : (p : Str) (t : List Str) (row : List Bool) → Fits t row → Fits t (next_row p t row)
unfolding next_row
Fits-next_row p t (b ∷ row) f =
    let first = if p == hash then b else false in Fits-fill p t b row first first f
Fits-next_row p t [] f = elim f [ ]

any_rest-empty : (t : List Str) (row : List Bool) → Fits t row → any_rest empty t row ≡ last row
unfolding any_rest empty last
any_rest-empty t [] f = elim f [ ]
any_rest-empty [] (b ∷ c ∷ row) f = cc
any_rest-empty [] (b ∷ []) f = ground arith
any_rest-empty (w ∷ t) (b ∷ c ∷ row) f = ground (arith, any_rest-empty t (c ∷ row) f)
any_rest-empty (w ∷ t) (b ∷ []) f = elim f [ ]

last-rows :
    (ps t : List Str) (row : List Bool)
    → Fits t row
    → last (rows ps t row) ≡ any_rest (matches ps) t row
unfolding rows matches
last-rows [] t row f = sym (any_rest-empty t row f)
last-rows (p ∷ ps) t row f =
    last-rows ps t (next_row p t row) (Fits-next_row p t row f)
    ∙ any_rest-next_row p (matches ps) t row f

Fits-false : (t : List Str) (b : Bool) → Fits t (b ∷ map (λ _. false) t)
Fits-false [] b = refl
Fits-false (w ∷ t) b = Fits-false t false

any_rest-false : (M : Topics) (t : List Str) → any_later M t (map (λ _. false) t) ≡ false
unfolding any_later
any_rest-false M [] = refl
any_rest-false M (w ∷ t) = rw any_rest-cons (any_rest-false M t)

-- The table computes the recursive matcher.
pub topic_matches-eq-matches :
    (pattern topic : Str)
    → topic_matches pattern topic ≡ matches (split b'.' pattern) (split b'.' topic)
unfolding topic_matches
topic_matches-eq-matches pattern topic =
    last-rows p t (first_row t) (Fits-false t true)
    ∙ any_rest-cons (matches p) t true (map (λ _. false) t)
    ∙ ground (arith, any_rest-false (matches p) t)
  where
    p : List Str
    p = split b'.' pattern

    t : List Str
    t = split b'.' topic
