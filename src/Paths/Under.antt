-- ===== src/Paths/Under.antt =====
-- Text prefixes of normalised paths are the prefixes of their names.
use mathlib.Core.List.{append_assoc}
use context_os.Base.{
  ℕ, true, false, ◌&&◌, ◌||◌, List, [], ◌∷◌, ◌++◌, ◌==◌, nat_eq, list_eq, ◌≡◌, refl, ap, ◌∙◌, arith,
  list_beq, ◌≢◌, beq_of_ne,
}
use context_os.Base.Lists.{any, All}
use context_os.Base.Text.{Str, starts_with, rstrip}
use context_os.Paths.Pure.{
  slash, is_slash, join, IsName, is_name, is_prefix, to_path, names, is_absolute, names_by-slash,
  names_by-join,
}

-- Equal, or a prefix up to a separator: a prefix where both are ended by a separator.
starts_with-ended :
    (c : ℕ) (s p : Str)
    → (s == p || starts_with s (p ++ c ∷ [])) ≡ starts_with (s ++ c ∷ []) (p ++ c ∷ [])
unfolding list_beq starts_with
starts_with-ended c [] [] = ground arith
starts_with-ended c [] (d ∷ []) = ground arith
starts_with-ended c [] (d ∷ e ∷ p) = ground arith
starts_with-ended c (d ∷ s) [] = ground arith
starts_with-ended c (d ∷ s) (e ∷ p) = ground (arith, starts_with-ended c s p)

-- The names, each with a separator behind it.
ended : List Str → Str
ended [] = []
ended (w ∷ ws) = w ++ slash ∷ ended ws

join-ended : (w : Str) (ws : List Str) → join (w ∷ ws) ++ slash ∷ [] ≡ ended (w ∷ ws)
unfolding join ended
join-ended w [] = refl
join-ended w (v ∷ ws) =
    append_assoc w (slash ∷ join (v ∷ ws)) (slash ∷ []) ∙ ap (λ s. w ++ slash ∷ s) (join-ended v ws)

-- Two words up to their separators.
starts_with-word :
    (v w s p : Str)
    → any is_slash v ≡ false
    → any is_slash w ≡ false
    → starts_with (v ++ slash ∷ s) (w ++ slash ∷ p) ≡ (w == v && starts_with s p)
unfolding starts_with any list_beq
starts_with-word [] [] s p h k = refl
starts_with-word [] (c ∷ w) s p h k = ground arith
starts_with-word (c ∷ v) [] s p h k = ground arith
starts_with-word (c ∷ v) (d ∷ w) s p h k = ground (arith, starts_with-word v w s p)

starts_with-names :
    (ts ns : List Str)
    → All (IsName is_slash) ts
    → All (IsName is_slash) ns
    → starts_with (ended ns) (ended ts) ≡ is_prefix ts ns
unfolding ended is_prefix starts_with
starts_with-names [] [] h k = refl
starts_with-names [] (n ∷ ns) h k = refl
starts_with-names ([] ∷ ts) [] h k = refl
starts_with-names ((c ∷ t) ∷ ts) [] h k = refl
starts_with-names (t ∷ ts) (n ∷ ns) h k =
    starts_with-word n t (ended ns) (ended ts) k.0.no_sep h.0.no_sep
    ∙ ap (λ b. t == n && b) (starts_with-names ts ns h.1 k.1)

rstrip-cons : (c d : ℕ) (s : Str) → s ≢ [] → rstrip c s ≡ s → rstrip c (d ∷ s) ≡ d ∷ s
unfolding rstrip
rstrip-cons c d [] n h = absurd (n refl)
rstrip-cons c d (e ∷ s) n h = rw (h, rstrip)

append-ne-nil : (w s : Str) → s ≢ [] → w ++ s ≢ []
append-ne-nil [] s n = n
append-ne-nil (c ∷ w) s n = λ e. cc

rstrip-append : (c : ℕ) (w s : Str) → s ≢ [] → rstrip c s ≡ s → rstrip c (w ++ s) ≡ w ++ s
rstrip-append c [] s n h = h
rstrip-append c (d ∷ w) s n h =
    rstrip-cons c d (w ++ s) (append-ne-nil w s n) (rstrip-append c w s n h)

rstrip-word : (w : Str) → any is_slash w ≡ false → rstrip slash w ≡ w
unfolding any
rstrip-word [] h = unfold rstrip in refl
rstrip-word (c ∷ []) h = unfold rstrip in ground arith
rstrip-word (c ∷ d ∷ w) h =
    rstrip-cons slash c (d ∷ w) (λ e. cc) (rstrip-word (d ∷ w) (ground arith))

pub named-ne-nil : (w : Str) → is_name w ≡ true → w ≢ []
unfolding is_name list_beq
named-ne-nil [] h = λ e. cc
named-ne-nil (c ∷ w) h = λ e. cc

join-ne-nil : (w : Str) (ws : List Str) → All (IsName is_slash) (w ∷ ws) → join (w ∷ ws) ≢ []
unfolding join
join-ne-nil w [] h = named-ne-nil w h.0.named
join-ne-nil w (v ∷ ws) h = append-ne-nil w (slash ∷ join (v ∷ ws)) (λ e. cc)

-- A path that is not a root ends in no separator.
rstrip-join :
    (w : Str) (ws : List Str)
    → All (IsName is_slash) (w ∷ ws)
    → rstrip slash (join (w ∷ ws)) ≡ join (w ∷ ws)
unfolding join
rstrip-join w [] h = rstrip-word w h.0.no_sep
rstrip-join w (v ∷ ws) h =
    rstrip-append slash w (slash ∷ join (v ∷ ws)) (λ e. cc)
      (rstrip-cons slash slash (join (v ∷ ws)) (join-ne-nil v ws h.1) (rstrip-join v ws h.1))

pub rstrip-path :
    (w : Str) (ws : List Str)
    → All (IsName is_slash) (w ∷ ws)
    → rstrip slash (slash ∷ join (w ∷ ws)) ≡ slash ∷ join (w ∷ ws)
rstrip-path w ws h =
    rstrip-cons slash slash (join (w ∷ ws)) (join-ne-nil w ws h) (rstrip-join w ws h)

starts_with-slash : (s p : Str) → starts_with (slash ∷ s) (slash ∷ p) ≡ starts_with s p
unfolding starts_with
starts_with-slash s p = refl

ended-prefix :
    (t : Str) (ts ns : List Str)
    → All (IsName is_slash) (t ∷ ts)
    → All (IsName is_slash) ns
    → starts_with (join ns ++ slash ∷ []) (ended (t ∷ ts)) ≡ is_prefix (t ∷ ts) ns
ended-prefix t ts [] h k =
    unfold join ended any is_prefix in
    ground (
      arith,
      starts_with-word [] t [] (ended ts) refl h.0.no_sep,
      beq_of_ne t [] (named-ne-nil t h.0.named),
    )
ended-prefix t ts (n ∷ ns) h k =
    ap (λ s. starts_with s (ended (t ∷ ts))) (join-ended n ns)
    ∙ starts_with-names (t ∷ ts) (n ∷ ns) h k

-- The test of `resolve_mirror_location` on two absolute paths in normal form: one covers the
-- other exactly if its names are a prefix of the other's.
pub covers-names :
    (ts ns : List Str)
    → All (IsName is_slash) ts
    → All (IsName is_slash) ns
    → ((slash ∷ join ns) == (slash ∷ join ts)
        || starts_with (slash ∷ join ns) (rstrip slash (slash ∷ join ts) ++ slash ∷ []))
      ≡ is_prefix ts ns
covers-names [] ns h k = unfold join rstrip starts_with is_prefix in ground arith
covers-names (t ∷ ts) ns h k =
    ap
      (λ s.
        (slash ∷ join ns) == (slash ∷ join (t ∷ ts))
        || starts_with (slash ∷ join ns) (s ++ slash ∷ []))
      (rstrip-path t ts h)
    ∙ starts_with-ended slash (slash ∷ join ns) (slash ∷ join (t ∷ ts))
    ∙ starts_with-slash (join ns ++ slash ∷ []) (join (t ∷ ts) ++ slash ∷ [])
    ∙ ap (starts_with (join ns ++ slash ∷ [])) (join-ended t ts)
    ∙ ended-prefix t ts ns h k

-- An absolute path in normal form has the names that it is joined of.
pub to_path-join :
    (ns : List Str)
    → All (IsName is_slash) ns
    → to_path (slash ∷ join ns) ≡ record { rooted = true; parts = ns }
unfolding to_path names is_absolute
to_path-join ns h =
    rw (names_by-slash is_slash refl (join ns)) (rw (names_by-join is_slash refl ns h))
