-- ===== src/Store/Logs.antt =====
-- The readers of git_store.py, which parse what git prints, and `init_repo`.
use context_os.Base.{
  ℕ, Bool, true, false, Option, none, some, List, [], ◌∷◌, ◌==◌, nat_eq, list_eq, if◌then◌else◌,
}
use context_os.Base.Lists.{filter}
use context_os.Base.Lines.{is_space, lstrip_space, strip, splitlines, cut, split_max}
use context_os.Base.Text.{Str, str}
use context_os.Store.Commands.{
  Error, Reply, failed, Git, Session, Command, Action, ◌>>=◌, give, fail, run_git,
}
use context_os.Store.Operations.{require_initialized, head_rev}

abbrev pub bar : ℕ
bar = b'|'

-- The commands that print a log or a text, and those of `init_repo`. With `check=False` a log
-- is none for an exit code that is not 0.
pub record Logs (G : Git) : Type 0 where
  -- `log -1 --format="%an <%ae>|%aI"`, for a path.
  pub log_author : Str → Command G.State Str
  -- `log --follow --format="%H|%an <%ae>|%aI|%s"`, for a path.
  pub log_follow : Str → Command G.State (Option Str)
  -- `log --reverse --format="%H|%P|%an|%aI"`
  pub log_reverse : Command G.State (Option Str)
  -- `show --format= --name-only`, for a revision.
  pub show_names : Str → Command G.State Str
  pub diff : Str → Str → Str → Command G.State Str
  pub init_bare : Command G.State Unit
  pub config : Str → Str → Command G.State Unit

pub record CommitInfo : Type 0 where
  pub rev : Str
  pub author : Str
  pub timestamp : Str

-- A dict of `log_history`.
pub record Entry : Type 0 where
  pub rev : Str
  pub author : Str
  pub timestamp : Str
  pub message : Str

-- A dict of `commits_by_author`.
pub record Commit : Type 0 where
  pub rev : Str
  pub parent : Option Str
  pub timestamp : Str
  pub paths : List Str

-- Four names unpacked from `line.split("|", 3)`.
unfoldable pub four : List Str → Option (Str × Str × Str × Str)
four (a ∷ b ∷ c ∷ d ∷ []) = some (a, b, c, d)
four _ = none

unfoldable pub fields : Str → Option (Str × Str × Str × Str)
unfolding four split_max
fields line = four (split_max bar 3 line)

-- The dict of one line before those of the later lines; none where an unpacking raises.
unfoldable pub add_entry :
    Option (Str × Str × Str × Str) → Option (List Entry) → Option (List Entry)
add_entry none later = none
add_entry (some parts) none = none
add_entry (some (rev, author, timestamp, message)) (some es) =
    some (record { rev = rev; author = author; timestamp = timestamp; message = message } ∷ es)

unfoldable pub parse_entries : List Str → Option (List Entry)
unfolding fields add_entry
parse_entries [] = some []
parse_entries (line ∷ lines) = add_entry (fields line) (parse_entries lines)

-- `s.split()[0]`, none where there is no word.
unfoldable pub up_to_space : Str → Str
up_to_space [] = []
up_to_space (c ∷ s) = let rest = up_to_space s in if is_space c then [] else c ∷ rest

unfoldable pub word_or_none : Str → Option Str
word_or_none [] = none
word_or_none (c ∷ w) = some (c ∷ w)

unfoldable pub first_word : Str → Option Str
unfolding up_to_space lstrip_space word_or_none
first_word s = word_or_none (up_to_space (lstrip_space s))

-- `parents.split()[0] if parents else None`; the outer none is an IndexError.
unfoldable pub known : Option Str → Option (Option Str)
known none = none
known (some w) = some (some w)

unfoldable pub parent_of : Str → Option (Option Str)
unfolding first_word known
parent_of [] = some none
parent_of (c ∷ s) = known (first_word (c ∷ s))

unfoldable pub is_filled : Str → Bool
is_filled [] = false
is_filled (c ∷ s) = true

-- The rest of a call, where a value could be unpacked.
unfoldable pub unpacked : {G : Git} {A B : Type 0} → Option A → (A → Action G B) → Action G B
unpacked none f = fail Error.malformed_output
unpacked (some a) f = f a

module _ (G : Git) (L : Logs G) where
  -- A `FileNotFoundError` of `git init` is a `GitNotAvailableError`.
  unfoldable pub available : Reply Unit × Session G → Reply Unit × Session G
  available (failed Error.file_not_found, s) = (failed Error.git_not_available, s)
  available r = r

  unfoldable pub init_bare : Action G Unit
  unfolding run_git available
  init_bare s = if G.is_initialized s.repo then give tt s else available (run_git L.init_bare s)

  unfoldable pub init_repo : Action G Unit
  unfolding init_bare run_git
  init_repo = do
    made ← init_bare
    email ← run_git (L.config (str "user.email") (str "vcs@chrono-ctx.local"))
    run_git (L.config (str "user.name") (str "chrono-ctx"))

  unfoldable pub info_of : Str → Str → Action G (Option CommitInfo)
  unfolding strip cut unpacked
  info_of rev out =
      unpacked (cut bar (strip out))
        (λ parts. give (some (record { rev = rev; author = parts.0; timestamp = parts.1 })))

  unfoldable pub info_at : Str → Option Str → Action G (Option CommitInfo)
  unfolding info_of run_git
  info_at relpath none = give none
  info_at relpath (some rev) = do out ← run_git (L.log_author relpath); info_of rev out

  unfoldable pub commit_info : Str → Action G (Option CommitInfo)
  unfolding require_initialized head_rev info_at
  commit_info relpath = do
    ready ← require_initialized G
    rev ← head_rev G relpath
    info_at relpath rev

  unfoldable pub history_of : Option Str → Action G (List Entry)
  unfolding parse_entries strip splitlines unpacked
  history_of none = give []
  history_of (some out) = unpacked (parse_entries (splitlines (strip out))) give

  unfoldable pub log_history : Str → Action G (List Entry)
  unfolding require_initialized history_of run_git
  log_history relpath = do
    ready ← require_initialized G
    out ← run_git (L.log_follow relpath)
    history_of out

  unfoldable pub diff : Str → Str → Str → Action G Str
  unfolding require_initialized run_git
  diff relpath rev1 rev2 = do ready ← require_initialized G; run_git (L.diff rev1 rev2 relpath)

  -- The paths of a commit of the author, asked of git.
  unfoldable pub with_paths : Str → Str → Option Str → Action G Commit
  unfolding run_git strip splitlines is_filled
  with_paths rev timestamp parent = do
    out ← run_git (L.show_names rev)
    give (record {
      rev = rev;
      parent = parent;
      timestamp = timestamp;
      paths = filter is_filled (splitlines (strip out));
    })

  -- A line that could be unpacked, before the commits of the later lines.
  unfoldable pub commit_of :
      Str → Str × Str × Str × Str → Action G (List Commit) → Action G (List Commit)
  unfolding parent_of with_paths unpacked
  commit_of author_name (rev, parents, author, timestamp) later =
      if author == author_name
      then (do
        parent ← unpacked (parent_of parents) give
        c ← with_paths rev timestamp parent
        cs ← later
        give (c ∷ cs))
      else later

  unfoldable pub commits_in : Str → List Str → Action G (List Commit)
  unfolding fields commit_of unpacked
  commits_in author_name [] = give []
  commits_in author_name ([] ∷ lines) = commits_in author_name lines
  commits_in author_name ((c ∷ line) ∷ lines) =
      let later = commits_in author_name lines in
      unpacked (fields (c ∷ line)) (λ parts. commit_of author_name parts later)

  unfoldable pub commits_from : Str → Option Str → Action G (List Commit)
  unfolding commits_in strip splitlines
  commits_from author_name none = give []
  commits_from author_name (some out) = commits_in author_name (splitlines (strip out))

  unfoldable pub commits_by_author : Str → Action G (List Commit)
  unfolding require_initialized run_git commits_from
  commits_by_author author_name = do
    ready ← require_initialized G
    out ← run_git L.log_reverse
    commits_from author_name out
