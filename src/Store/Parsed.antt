-- ===== src/Store/Parsed.antt =====
-- What the readers of git_store.py make of the lines that git prints.
use mathlib.Core.List.{append_assoc}
use context_os.Base.{
  ℕ, true, false, Option, none, some, List, [], ◌∷◌, ◌++◌, ◌≡◌, refl, sym, ap, ◌∙◌, nat_eq, list_eq,
}
use context_os.Base.Lists.{contains, All}
use context_os.Base.Lines.{
  newline, is_break, strip, splitlines, split_max, cut-absent, split_max-append, IsLine, IsEnd,
  ended, lines_of, AreLines, splitlines-strip-ended,
}
use context_os.Base.Text.{Str}
use context_os.Store.Commands.{Error, done, failed, Git, Session, after, run_git}
use context_os.Store.Operations.{require_initialized}
use context_os.Store.Logs.{
  bar, Logs, Entry, four, fields, add_entry, parse_entries, unpacked, history_of, log_history,
}

abbrev pub barred : Str → Str → Str → Str → Str
barred a b c d = a ++ bar ∷ (b ++ bar ∷ (c ++ bar ∷ d))

pub fields-barred :
    (a b c d : Str)
    → contains a bar ≡ false
    → contains b bar ≡ false
    → contains c bar ≡ false
    → fields (barred a b c d) ≡ some (a, b, c, d)
unfolding fields four
fields-barred a b c d p q r =
    ap four (
      split_max-append bar 2 a (b ++ bar ∷ (c ++ bar ∷ d)) p
      ∙ ap (λ t. a ∷ t) (split_max-append bar 1 b (c ++ bar ∷ d) q)
      ∙ ap (λ t. a ∷ b ∷ t) (split_max-append bar 0 c d r))
    ∙ unfold split_max in refl

pub fields-absent : (n : Str) → contains n bar ≡ false → fields n ≡ none
unfolding fields four split_max
fields-absent n h = rw (split_max, cut-absent bar n h) refl

-- The line of a commit in the output of `log_follow`.
abbrev pub line_of : Entry → Str
line_of e = barred e.rev e.author e.timestamp e.message

pub record IsEntry (e : Entry) : Type 0 where
  pub rev : contains e.rev bar ≡ false
  pub author : contains e.author bar ≡ false
  pub timestamp : contains e.timestamp bar ≡ false
  pub line : IsLine (line_of e)

abbrev pub printed : List Entry → List (Str × ℕ)
printed [] = []
printed (e ∷ es) = (line_of e, newline) ∷ printed es

pub newline-IsEnd : IsEnd newline
unfolding is_break
newline-IsEnd = record { breaks = refl; other = refl }

printed-AreLines : (es : List Entry) → All IsEntry es → AreLines (printed es)
printed-AreLines [] h = tt
printed-AreLines (e ∷ es) h = (h.0.line, newline-IsEnd, printed-AreLines es h.1)

parse_entries-printed :
    (es : List Entry) → All IsEntry es → parse_entries (lines_of (printed es)) ≡ some es
unfolding parse_entries
parse_entries-printed [] h = refl
parse_entries-printed (e ∷ es) h =
    ap (λ f. add_entry f (parse_entries (lines_of (printed es))))
      (fields-barred e.rev e.author e.timestamp e.message h.0.rev h.0.author h.0.timestamp)
    ∙ ap (add_entry (some (e.rev, e.author, e.timestamp, e.message))) (parse_entries-printed es h.1)
    ∙ unfold add_entry in refl

add_entry-none : (f : Option (Str × Str × Str × Str)) → add_entry f none ≡ none
unfolding add_entry
add_entry-none none = refl
add_entry-none (some f) = refl

parse_entries-broken :
    (ls : List Str) (n : Str) (rest : List Str)
    → fields n ≡ none
    → parse_entries (ls ++ n ∷ rest) ≡ none
unfolding parse_entries
parse_entries-broken [] n rest h =
    ap (λ f. add_entry f (parse_entries rest)) h ∙ unfold add_entry in refl
parse_entries-broken (l ∷ ls) n rest h =
    ap (add_entry (fields l)) (parse_entries-broken ls n rest h) ∙ add_entry-none (fields l)

lines_of-append : (xs ys : List (Str × ℕ)) → lines_of (xs ++ ys) ≡ lines_of xs ++ lines_of ys
lines_of-append [] ys = refl
lines_of-append ((l, b) ∷ xs) ys = ap (λ t. l ∷ t) (lines_of-append xs ys)

ended-append : (xs ys : List (Str × ℕ)) → ended (xs ++ ys) ≡ ended xs ++ ended ys
ended-append [] ys = refl
ended-append ((l, b) ∷ xs) ys =
    rw (ended-append xs ys) (sym (append_assoc l (b ∷ ended xs) (ended ys)))

AreLines-append : (xs ys : List (Str × ℕ)) → AreLines xs → AreLines ys → AreLines (xs ++ ys)
AreLines-append [] ys p q = q
AreLines-append ((l, b) ∷ xs) ys p q = (p.0, p.1, AreLines-append xs ys p.2 q)

-- A message that holds a break prints as two lines.
split_message :
    (e : Entry) (m n : Str) (b : ℕ)
    → line_of (record e { message = m ++ b ∷ n }) ≡ line_of (record e { message = m }) ++ b ∷ n
split_message e m n b = simp append_assoc

module _ (G : Git) (L : Logs G) where
  history_of-printed :
      (out : Str) (es : List Entry) (s : Session G)
      → parse_entries (splitlines (strip out)) ≡ some es
      → (history_of G L (some out) s).0 ≡ done es
  unfolding history_of unpacked
  history_of-printed out es s h = rw (h) refl

  -- Of an initialised repository whose log prints the commits `es`, where no revision, author or
  -- timestamp holds a bar, and each printed line is non-empty, without a break and without blanks
  -- at its ends, `log_history` returns these commits, in that order.
  pub log_history_lem :
      (relpath : Str) (es : List Entry) (s : Session G)
      → All IsEntry es
      → G.is_initialized s.repo ≡ true
      → (L.log_follow relpath s.repo).0 ≡ done (some (ended (printed es)))
      → (log_history G L relpath s).0 ≡ done es
  unfolding log_history require_initialized after run_git
  log_history_lem relpath es s h ready out =
      rw (ready, out)
        (history_of-printed (ended (printed es)) es _ (
          ap parse_entries (splitlines-strip-ended (printed es) (printed-AreLines es h))
          ∙ parse_entries-printed es h))

  printed-split :
      (es later : List Entry) (e : Entry) (m n : Str) (b : ℕ)
      → ended (printed (es ++ record e { message = m ++ b ∷ n } ∷ later))
        ≡ ended
            (printed es ++ (line_of (record e { message = m }), b) ∷ (n, newline) ∷ printed later)
  printed-split [] later e m n b =
      ap (λ t. t ++ newline ∷ ended (printed later)) (split_message e m n b)
      ∙ append_assoc (line_of (record e { message = m })) (b ∷ n) (newline ∷ ended (printed later))
  printed-split (e' ∷ es) later e m n b =
      ap (λ t. line_of e' ++ newline ∷ t) (printed-split es later e m n b)

  history_of-broken :
      (out : Str) (s : Session G)
      → parse_entries (splitlines (strip out)) ≡ none
      → (history_of G L (some out) s).0 ≡ failed Error.malformed_output
  unfolding history_of unpacked
  history_of-broken out s h = rw h refl

  -- Of an initialised repository whose log prints commits as in `log_history_lem`, but for one
  -- whose message is `m`, a break `b` other than a carriage return, and a rest `n`. The commit
  -- with the message `m` alone would print as the others do, and `n` is not empty, has no break
  -- and no bar, and no blank at its ends. Then `log_history` raises.
  pub log_history-breaks :
      (relpath : Str) (es later : List Entry) (e : Entry) (m n : Str) (b : ℕ) (s : Session G)
      → All IsEntry es
      → All IsEntry later
      → IsEntry (record e { message = m })
      → IsLine n
      → contains n bar ≡ false
      → IsEnd b
      → G.is_initialized s.repo ≡ true
      → (L.log_follow relpath s.repo).0
        ≡ done (some (ended (printed (es ++ record e { message = m ++ b ∷ n } ∷ later))))
      → (log_history G L relpath s).0 ≡ failed Error.malformed_output
  unfolding log_history require_initialized after run_git
  log_history-breaks relpath es later e m n b s h k he hn plain hb ready out =
      let la = line_of (record e { message = m }) in
      let ls = (la, b) ∷ (n, newline) ∷ printed later in
      let are : AreLines (printed es ++ ls) =
        AreLines-append (printed es) ls (printed-AreLines es h)
          (he.line, hb, (hn, newline-IsEnd, printed-AreLines later k)) in
      rw (ready, out)
        (history_of-broken (ended (printed (es ++ record e { message = m ++ b ∷ n } ∷ later))) _ (
          ap (λ t. parse_entries (splitlines (strip t))) (printed-split es later e m n b)
          ∙ ap parse_entries (
              splitlines-strip-ended (printed es ++ ls) are
              ∙ lines_of-append (printed es) ls
              ∙ sym (append_assoc (lines_of (printed es)) (la ∷ []) (n ∷ lines_of (printed later))))
          ∙ parse_entries-broken (lines_of (printed es) ++ la ∷ []) n (lines_of (printed later))
              (fields-absent n plain)))
