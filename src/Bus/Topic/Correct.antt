-- ===== src/Bus/Topic/Correct.antt =====
-- `topic_matches` decides AMQP topic matching, given as a relation on words.
use context_os.Base.{
  true, ◌||◌, ◌==◌, List, [], ◌∷◌, nat_eq, list_eq, ◌≡◌, refl, ◌∙◌, sym, ◌↔◌, ◌⊎◌, inl, inr, ◌≢◌,
  arith, Bool-cases, beq_eq, ne_of_beq, beq_of_ne, beq_of_eq, list_beq_iff,
}
use context_os.Base.Text.{Str, split}
use context_os.Bus.Topic.{hash, star, topic_matches}
use context_os.Bus.Topic.Rows.{
  Topics, empty, suffixes, one_word, step, matches, topic_matches-eq-matches,
}

-- `*` stands for one word, `#` for zero or more, and any other word for itself.
pub data Matches : List Str → List Str → Type 0 where
  done : Matches [] []
  word :
      {p : Str} {ps : List Str} {w : Str} {t : List Str}
      → p ≢ hash
      → (p ≡ star) ⊎ (p ≡ w)
      → Matches ps t
      → Matches (p ∷ ps) (w ∷ t)
  none_left : {p : Str} {ps t : List Str} → p ≡ hash → Matches ps t → Matches (p ∷ ps) t
  one_more :
      {p : Str} {ps : List Str} {w : Str} {t : List Str}
      → p ≡ hash
      → Matches (p ∷ ps) t
      → Matches (p ∷ ps) (w ∷ t)

module _ (p : Str) (ps : List Str) where
  suffixes_sound :
      p ≡ hash
      → ((t : List Str) → matches ps t ≡ true → Matches ps t)
      → (t : List Str) → suffixes (matches ps) t ≡ true
      → Matches (p ∷ ps) t
  unfolding suffixes
  suffixes_sound e sound [] h = Matches.none_left e (sound [] h)
  suffixes_sound e sound (w ∷ t) h = elim (Bool-cases (matches ps (w ∷ t))) [
    | inl now ↦ Matches.none_left e (sound (w ∷ t) now)
    | inr later ↦ Matches.one_more e (suffixes_sound e sound t (ground arith))
  ]

  one_word_sound :
      p ≢ hash
      → ((t : List Str) → matches ps t ≡ true → Matches ps t)
      → (t : List Str) → one_word p (matches ps) t ≡ true
      → Matches (p ∷ ps) t
  unfolding one_word
  one_word_sound n sound [] h = cc
  one_word_sound n sound (w ∷ t) h =
      Matches.word n
        (elim (Bool-cases (p == star)) [
          | inl any_word ↦ inl (beq_eq p star any_word)
          | inr same ↦ inr (beq_eq p w (ground arith))
        ])
        (sound t (ground arith))

matches_sound : (ps t : List Str) → matches ps t ≡ true → Matches ps t
unfolding matches step empty
matches_sound [] [] h = Matches.done
matches_sound [] (w ∷ t) h = cc
matches_sound (p ∷ ps) t h = elim (Bool-cases (p == hash)) [
  | inl e ↦ suffixes_sound p ps (beq_eq p hash e) (matches_sound ps) t (ground arith)
  | inr n ↦ one_word_sound p ps (ne_of_beq p hash n) (matches_sound ps) t (ground arith)
]

suffixes_self : (M : Topics) (t : List Str) → M t ≡ true → suffixes M t ≡ true
unfolding suffixes
suffixes_self M [] h = h
suffixes_self M (w ∷ t) h = rw h

suffixes-cons :
    (M : Topics) (w : Str) (t : List Str) → suffixes M (w ∷ t) ≡ (M (w ∷ t) || suffixes M t)
unfolding suffixes
suffixes-cons M w t = refl

one_word-of_match :
    (p : Str) (ps : List Str) (w : Str) (t : List Str)
    → (p ≡ star) ⊎ (p ≡ w)
    → matches ps t ≡ true
    → one_word p (matches ps) (w ∷ t) ≡ true
unfolding one_word
one_word-of_match p ps w t (inl e) h = ground (arith, list_beq_iff p star)
one_word-of_match p ps w t (inr e) h = ground (arith, list_beq_iff p w)

step-hash : (p : Str) (M : Topics) (t : List Str) → p ≡ hash → step p M t ≡ suffixes M t
unfolding step
step-hash p M t e = rw (beq_of_eq p hash e)

step-word : (p : Str) (M : Topics) (t : List Str) → p ≢ hash → step p M t ≡ one_word p M t
unfolding step
step-word p M t n = rw (beq_of_ne p hash n)

matches_complete : {ps t : List Str} → Matches ps t → matches ps t ≡ true
unfolding matches empty
matches_complete Matches.done = refl
matches_complete (Matches.word {p = p} {ps} {w} {t} n m r) =
    ground
      (arith, step-word p (matches ps) (w ∷ t) n, one_word-of_match p ps w t m (matches_complete r))
matches_complete (Matches.none_left {p = p} {ps} {t} e r) =
    ground (arith, step-hash p (matches ps) t e, suffixes_self (matches ps) t (matches_complete r))
matches_complete (Matches.one_more {p = p} {ps} {w} {t} e r) = ground (
  arith,
  step-hash p (matches ps) t e,
  step-hash p (matches ps) (w ∷ t) e,
  suffixes-cons (matches ps) w t,
  matches_complete r,
)

-- `topic_matches` accepts a topic exactly when its dot-separated words match those of the
-- pattern: `#` stands for zero or more words, `*` for one, any other word for itself.
pub topic_matches_iff :
    (pattern topic : Str)
    → (topic_matches pattern topic ≡ true) ↔ Matches (split b'.' pattern) (split b'.' topic)
topic_matches_iff pattern topic = (
  λ h. matches_sound _ _ (sym (topic_matches-eq-matches pattern topic) ∙ h),
  λ m. topic_matches-eq-matches pattern topic ∙ matches_complete m,
)
