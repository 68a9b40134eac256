-- ===== src/Store/Authors.antt =====
-- Which commits `commits_by_author` of git_store.py finds.
use context_os.Base.{
  ℕ, true, false, Option, none, some, List, [], ◌∷◌, ◌++◌, ◌==◌, ◌≡◌, ◌≢◌, refl, ap, ◌∙◌, nat_eq,
  list_eq, if◌then◌else◌, arith, Bool-cases, inl, inr,
}
use context_os.Base.Lists.{filter, any, contains, All}
use context_os.Base.Lines.{
  newline, is_space, lstrip_space, strip, splitlines, IsLine, ended, lines_of, AreLines,
  splitlines-strip-ended,
}
use context_os.Base.Text.{Str}
use context_os.Store.Commands.{
  Reply, done, failed, Command, Git, Session, Action, after, ◌>>=◌, give, run_git,
}
use context_os.Store.Operations.{require_initialized}
use context_os.Store.Logs.{
  bar, Logs, Commit, fields, up_to_space, word_or_none, first_word, known, parent_of, is_filled,
  unpacked, with_paths, commit_of, commits_in, commits_from, commits_by_author,
}
use context_os.Store.Parsed.{barred, fields-barred, newline-IsEnd}

-- A commit in the output of `log_reverse`.
pub record Listed : Type 0 where
  pub rev : Str
  pub parents : List Str
  pub author : Str
  pub timestamp : Str

abbrev pub space : ℕ
space = 32

-- `%P`
abbrev pub spaced : List Str → Str
spaced [] = []
spaced (w ∷ []) = w
spaced (w ∷ v ∷ ws) = w ++ space ∷ spaced (v ∷ ws)

abbrev pub listed_line : Listed → Str
listed_line l = barred l.rev (spaced l.parents) l.author l.timestamp

pub record IsWord (w : Str) : Type 0 where
  pub filled : w ≢ []
  pub solid : any is_space w ≡ false

pub record IsListed (l : Listed) : Type 0 where
  pub rev : contains l.rev bar ≡ false
  pub parents : contains (spaced l.parents) bar ≡ false
  pub words : All IsWord l.parents
  pub author : contains l.author bar ≡ false
  pub line : IsLine (listed_line l)

abbrev pub listing : List Listed → List (Str × ℕ)
listing [] = []
listing (l ∷ ls) = (listed_line l, newline) ∷ listing ls

listing-AreLines : (ls : List Listed) → All IsListed ls → AreLines (listing ls)
listing-AreLines [] h = tt
listing-AreLines (l ∷ ls) h = (h.0.line, newline-IsEnd, listing-AreLines ls h.1)

abbrev pub first_of_parents : List Str → Option Str
first_of_parents [] = none
first_of_parents (w ∷ ws) = some w

up_to_space-word : (w s : Str) → any is_space w ≡ false → up_to_space (w ++ space ∷ s) ≡ w
unfolding up_to_space any is_space
up_to_space-word [] s h = refl
up_to_space-word (c ∷ w) s h = ground (arith, up_to_space-word w s)

up_to_space-end : (w : Str) → any is_space w ≡ false → up_to_space w ≡ w
unfolding up_to_space any is_space
up_to_space-end [] h = refl
up_to_space-end (c ∷ w) h = ground (arith, up_to_space-end w)

lstrip-word : (c : ℕ) (s : Str) → is_space c ≡ false → lstrip_space (c ∷ s) ≡ c ∷ s
unfolding lstrip_space
lstrip-word c s h = rw h refl

head-solid : (c : ℕ) (w : Str) → any is_space (c ∷ w) ≡ false → is_space c ≡ false
unfolding any
head-solid c w h = ground arith

parent_of-word :
    (c : ℕ) (s w : Str)
    → is_space c ≡ false
    → up_to_space (c ∷ s) ≡ w
    → w ≢ []
    → parent_of (c ∷ s) ≡ some (some w)
unfolding parent_of first_word
parent_of-word c s [] h e n = absurd (n refl)
parent_of-word c s (d ∷ w) h e n =
    ap (λ t. known (word_or_none (up_to_space t))) (lstrip-word c s h)
    ∙ ap (λ t. known (word_or_none t)) e
    ∙ unfold known word_or_none in refl

parent_of-spaced :
    (ws : List Str) → All IsWord ws → parent_of (spaced ws) ≡ some (first_of_parents ws)
parent_of-spaced [] h = unfold parent_of in refl
parent_of-spaced ([] ∷ ws) h = absurd (h.0.filled refl)
parent_of-spaced ((c ∷ w) ∷ []) h =
    parent_of-word c w (c ∷ w) (head-solid c w h.0.solid) (up_to_space-end (c ∷ w) h.0.solid)
      h.0.filled
parent_of-spaced ((c ∷ w) ∷ v ∷ ws) h =
    parent_of-word c (w ++ space ∷ spaced (v ∷ ws)) (c ∷ w) (head-solid c w h.0.solid)
      (up_to_space-word (c ∷ w) (spaced (v ∷ ws)) h.0.solid) h.0.filled

barred-filled : (a b c d : Str) → (x : ℕ) × (t : Str) × (barred a b c d ≡ x ∷ t)
barred-filled [] b c d = (bar, b ++ bar ∷ (c ++ bar ∷ d), refl)
barred-filled (x ∷ a) b c d = (x, a ++ bar ∷ (b ++ bar ∷ (c ++ bar ∷ d)), refl)

module _ (G : Git) (L : Logs G) (names : Str → Str) where
  -- What is told of a commit: its first parent, and the paths that git names.
  abbrev pub told : Listed → Commit
  told l = record {
    rev = l.rev;
    parent = first_of_parents l.parents;
    timestamp = l.timestamp;
    paths = filter is_filled (splitlines (strip (names l.rev)));
  }

  abbrev pub told_of : Str → List Listed → List Commit
  told_of name [] = []
  told_of name (l ∷ ls) = if l.author == name then told l ∷ told_of name ls else told_of name ls

  -- What git names of a commit is always the same.
  abbrev pub IsNaming : Type 0
  IsNaming = (rev : Str) (r : G.State) → (L.show_names rev r).0 ≡ done (names rev)

  commits_in-line :
      (name line : Str) (x : ℕ) (t : Str) (lines : List Str) (s : Session G)
      → line ≡ x ∷ t
      → commits_in G L name (line ∷ lines) s
        ≡ unpacked (fields line) (λ parts. commit_of G L name parts (commits_in G L name lines)) s
  unfolding commits_in
  commits_in-line name line x t lines s e = rw e refl

  -- A call that returns `a`, from whatever state.
  abbrev pub Gives : {A : Type 0} → Action G A → A → Type 0
  Gives m a = (s : Session G) → (m s).0 ≡ done a

  given-after :
      {A B : Type 0} (r : Reply A × Session G) (f : A → Action G B) (a : A) (b : B)
      → r.0 ≡ done a
      → Gives (f a) b
      → (after r f).0 ≡ done b
  unfolding after
  given-after (done a', t) f a b e h = let e' : a' ≡ a = cc in ap (λ x. (f x t).0) e' ∙ h t
  given-after (failed x, t) f a b e h = cc

  Gives->>= :
      {A B : Type 0} (m : Action G A) (f : A → Action G B) (a : A) (b : B)
      → Gives m a
      → Gives (f a) b
      → Gives (m >>= f) b
  Gives->>= m f a b p q s = given-after (m s) f a b (p s) q

  Gives-parent :
      (ws : List Str)
      → All IsWord ws
      → Gives (unpacked {G = G} (parent_of (spaced ws)) give) (first_of_parents ws)
  unfolding unpacked
  Gives-parent ws h s = rw (unpacked, parent_of-spaced ws h) refl

  Gives-run_git :
      {A : Type 0} (command : Command G.State A) (a : A)
      → ((r : G.State) → (command r).0 ≡ done a)
      → Gives (run_git command) a
  unfolding run_git
  Gives-run_git command a h s = h s.repo

  Gives-with_paths :
      (l : Listed)
      → IsNaming
      → Gives (with_paths G L l.rev l.timestamp (first_of_parents l.parents)) (told l)
  unfolding with_paths
  Gives-with_paths l h =
      Gives->>= (run_git (L.show_names l.rev)) _ (names l.rev) (told l)
        (Gives-run_git (L.show_names l.rev) (names l.rev) (h l.rev)) (λ s. refl)

  commit_of-told :
      (name : Str) (l : Listed) (later : Action G (List Commit)) (cs : List Commit)
      → IsNaming
      → All IsWord l.parents
      → Gives later cs
      → Gives
          (commit_of G L name (l.rev, spaced l.parents, l.author, l.timestamp) later)
          (if l.author == name then told l ∷ cs else cs)
  unfolding commit_of
  commit_of-told name l later cs naming words h s = elim (Bool-cases (l.author == name)) [
    | inl e ↦ rw e (
        Gives->>= (unpacked (parent_of (spaced l.parents)) give) _ (first_of_parents l.parents)
          (told l ∷ cs) (Gives-parent l.parents words)
          (Gives->>= (with_paths G L l.rev l.timestamp (first_of_parents l.parents)) _ (told l)
            (told l ∷ cs) (Gives-with_paths l naming)
            (Gives->>= later _ cs (told l ∷ cs) h (λ t. refl)))
          s)
    | inr e ↦ rw e (h s)
  ]

  unpacked-some :
      {A B : Type 0} (a : A) (f : A → Action G B) (s : Session G)
      → (unpacked (some a) f s).0 ≡ (f a s).0
  unfolding unpacked
  unpacked-some a f s = refl

  commits_in-told :
      (name : Str) (ls : List Listed)
      → IsNaming
      → All IsListed ls
      → Gives (commits_in G L name (lines_of (listing ls))) (told_of name ls)
  commits_in-told name [] naming h s = unfold commits_in in refl
  commits_in-told name (l ∷ ls) naming h s =
      let (x, t, e) = barred-filled l.rev (spaced l.parents) l.author l.timestamp in
      let later = commits_in G L name (lines_of (listing ls)) in
      ap (λ r. r.0) (commits_in-line name (listed_line l) x t (lines_of (listing ls)) s e)
      ∙ ap (λ f. (unpacked f (λ parts. commit_of G L name parts later) s).0)
          (fields-barred l.rev (spaced l.parents) l.author l.timestamp h.0.rev h.0.parents
            h.0.author)
      ∙ unpacked-some (l.rev, spaced l.parents, l.author, l.timestamp)
          (λ parts. commit_of G L name parts later) s
      ∙ commit_of-told name l later (told_of name ls) naming h.0.words
          (commits_in-told name ls naming h.1) s

  commits_from-told :
      (name : Str) (ls : List Listed)
      → IsNaming
      → All IsListed ls
      → Gives (commits_from G L name (some (ended (listing ls)))) (told_of name ls)
  unfolding commits_from
  commits_from-told name ls naming h s =
      ap (λ lines. (commits_in G L name lines s).0)
        (splitlines-strip-ended (listing ls) (listing-AreLines ls h))
      ∙ commits_in-told name ls naming h s

  -- Of an initialised repository whose log prints the commits `ls`, where no revision, list of
  -- parents or author holds a bar, the parents are words, each printed line is non-empty, without
  -- a break and without blanks at its ends, and git names the paths of a commit whenever it is asked, always the
  -- same: `commits_by_author` returns those whose author has exactly the name, oldest first, each
  -- with its first parent and the paths that git names of it.
  pub commits_by_author_lem :
      (name : Str) (ls : List Listed) (s : Session G)
      → IsNaming
      → All IsListed ls
      → G.is_initialized s.repo ≡ true
      → (L.log_reverse s.repo).0 ≡ done (some (ended (listing ls)))
      → (commits_by_author G L name s).0 ≡ done (told_of name ls)
  unfolding commits_by_author require_initialized after run_git
  commits_by_author_lem name ls s naming h ready out =
      rw (ready, out) (commits_from-told name ls naming h _)
