-- ===== src/Tests/Histories.antt =====
-- The theorems on the readers of git's logs at concrete logs.
use context_os.Base.{◌++◌, false, some, List, [], ◌∷◌, ◌≡◌, refl, nat_eq, list_eq, list_beq}
use context_os.Base.Lists.{any, contains, filter}
use context_os.Base.Lines.{
  is_break, is_space, rstrip_space, lstrip_space, strip, splitlines, starts_blank, IsLine, IsEnd,
  ended,
}
use context_os.Base.Text.{Str, str}
use context_os.Store.Commands.{Error, done, failed}
use context_os.Store.Logs.{bar, Logs, Entry, Commit, log_history, commits_by_author, is_filled}
use context_os.Store.Parsed.{IsEntry, printed, log_history_lem, log_history-breaks}
use context_os.Store.Authors.{Listed, IsListed, listing, told_of, commits_by_author_lem}
use context_os.Tests.Mirrors.{toy, started}

abbrev first_entry : Entry
first_entry = record {
  rev = str "c2";
  author = str "agent:7 <agent@x>";
  timestamp = str "2026-01-02";
  message = str "modified a|b.md";
}

abbrev second_entry : Entry
second_entry = record {
  rev = str "c1";
  author = str "unknown:filesystem <u@x>";
  timestamp = str "2026-01-01";
  message = str "created a|b.md";
}

first-IsEntry : IsEntry first_entry
unfolding contains any is_break is_space rstrip_space starts_blank
first-IsEntry = record {
  rev = refl;
  author = refl;
  timestamp = refl;
  line = record { filled = λ h. cc; unbroken = refl; head = refl; last = refl };
}

second-IsEntry : IsEntry second_entry
unfolding contains any is_break is_space rstrip_space starts_blank
second-IsEntry = record {
  rev = refl;
  author = refl;
  timestamp = refl;
  line = record { filled = λ h. cc; unbroken = refl; head = refl; last = refl };
}

abbrev root : Listed
root = record {
  rev = str "c1";
  parents = [];
  author = str "unknown:filesystem";
  timestamp = str "2026-01-01";
}

abbrev merge : Listed
merge = record {
  rev = str "c2";
  parents = str "c1" ∷ str "c0" ∷ [];
  author = str "agent:7";
  timestamp = str "2026-01-02";
}

abbrev one_name : Str → Str
one_name rev = str "a.md"

-- The log of a path that prints `es`, and of the repository that prints `ls`.
abbrev pub printing : List Entry → List Listed → Logs toy
printing es ls = record {
  log_author = λ path r. (done (str "agent:7 <agent@x>|2026-01-02"), r);
  log_follow = λ path r. (done (some (ended (printed es))), r);
  log_reverse = λ r. (done (some (ended (listing ls))), r);
  show_names = λ rev r. (done (one_name rev), r);
  diff = λ a b path r. (done [], r);
  init_bare = λ r. (done tt, r);
  config = λ key value r. (done tt, r);
}

log_history_lem_example :
    (log_history toy (printing (first_entry ∷ second_entry ∷ []) []) (str "a|b.md") started).0
    ≡ done (first_entry ∷ second_entry ∷ [])
log_history_lem_example =
    log_history_lem toy (printing (first_entry ∷ second_entry ∷ []) []) (str "a|b.md")
      (first_entry ∷ second_entry ∷ []) started (first-IsEntry, (second-IsEntry, tt)) refl refl

-- A file whose name holds a line separator, U+2028.
abbrev torn : Entry
torn = record first_entry { message = str "modified a" ++ 8232 ∷ str "b.md" }

torn-IsEntry : IsEntry (record torn { message = str "modified a" })
unfolding contains any is_break is_space rstrip_space starts_blank
torn-IsEntry = record {
  rev = refl;
  author = refl;
  timestamp = refl;
  line = record { filled = λ h. cc; unbroken = refl; head = refl; last = refl };
}

rest-IsLine : IsLine (str "b.md")
unfolding contains any is_break is_space rstrip_space starts_blank
rest-IsLine = record { filled = λ h. cc; unbroken = refl; head = refl; last = refl }

separator-IsEnd : IsEnd 8232
unfolding is_break
separator-IsEnd = record { breaks = refl; other = refl }

no_bar : contains (str "b.md") bar ≡ false
unfolding contains
no_bar = refl

log_history-breaks_example :
    (log_history toy (printing (torn ∷ second_entry ∷ []) []) (str "a") started).0
    ≡ failed Error.malformed_output
log_history-breaks_example =
    log_history-breaks toy (printing (torn ∷ second_entry ∷ []) []) (str "a") [] (second_entry ∷ [])
      torn (str "modified a") (str "b.md") 8232 started tt (second-IsEntry, tt) torn-IsEntry
      rest-IsLine no_bar separator-IsEnd refl refl

root-IsListed : IsListed root
unfolding contains any is_break is_space rstrip_space starts_blank
root-IsListed = record {
  rev = refl;
  parents = refl;
  words = tt;
  author = refl;
  line = record { filled = λ h. cc; unbroken = refl; head = refl; last = refl };
}

merge-IsListed : IsListed merge
unfolding contains any is_break is_space rstrip_space starts_blank
merge-IsListed = record {
  rev = refl;
  parents = refl;
  words =
      (record { filled = λ h. cc; solid = refl }, (record { filled = λ h. cc; solid = refl }, tt));
  author = refl;
  line = record { filled = λ h. cc; unbroken = refl; head = refl; last = refl };
}

abbrev two_listed : Logs toy
two_listed = printing [] (root ∷ merge ∷ [])

abbrev by_agent : Commit
by_agent = record {
  rev = str "c2";
  parent = some (str "c1");
  timestamp = str "2026-01-02";
  paths = str "a.md" ∷ [];
}

told_agent : told_of toy two_listed one_name (str "agent:7") (root ∷ merge ∷ []) ≡ by_agent ∷ []
unfolding list_beq filter splitlines strip lstrip_space rstrip_space is_filled is_space
told_agent = refl

commits_by_author_lem_example :
    (commits_by_author toy two_listed (str "agent:7") started).0
    ≡ done (told_of toy two_listed one_name (str "agent:7") (root ∷ merge ∷ []))
commits_by_author_lem_example =
    commits_by_author_lem toy two_listed one_name (str "agent:7") (root ∷ merge ∷ []) started
      (λ rev r. refl) (root-IsListed, (merge-IsListed, tt)) refl refl
