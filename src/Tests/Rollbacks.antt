-- ===== src/Tests/Rollbacks.antt =====
-- The theorems on the rollback of a session at concrete commits.
use context_os.Base.{
  true, Option, none, some, List, [], ◌∷◌, ◌≡◌, refl, nat_eq, list_eq, list_beq, ap, if◌then◌else◌,
}
use context_os.Base.Lists.{count, any}
use context_os.Base.Text.{Str, str}
use context_os.Configure.Sources.{is_path_in_scope, Config}
use context_os.Store.Commands.{Bytes}
use context_os.Store.Logs.{Logs, Commit}
use context_os.Audit.{Failure, ok, err, Disk, World, check_scope, then_on}
use context_os.Audit.Rollback.{
  lookup, index_commits, index_paths, setdefault, assign, is_caught, Report, rollback_path,
  rollback_paths, note,
}
use context_os.Audit.Dicts.{first_with, last_with, ones, keys, index_commits_lem}
use context_os.Audit.Reports.{reported, rollback_paths-accounts}
use context_os.Audit.Untouched.{rollback_path-untouched}
use context_os.Tests.Worlds.{plain_host}
use context_os.Tests.Mirrors.{toy, started}
use context_os.Tests.Histories.{printing}
use context_os.Tests.Versions.{mirrors}

-- Files at their paths.
abbrev pub flat : Disk
flat = record {
  State = Str → Option Bytes;
  write_bytes = λ path content d. (true, λ q. if list_beq path q then some content else d q);
  unlink = λ path d. (true, λ q. if list_beq path q then none else d q);
  remove = λ path d. (true, λ q. if list_beq path q then none else d q);
  make_parent = λ path d. (true, d);
  move = λ src dst d. (true, d);
  read_bytes = λ path d. d path;
}

abbrev first_commit : Commit
first_commit = record {
  rev = str "c1";
  parent = none;
  timestamp = str "2026-01-01";
  paths = str "a.md" ∷ str "b.md" ∷ [];
}

abbrev last_commit : Commit
last_commit = record {
  rev = str "c2";
  parent = some (str "c1");
  timestamp = str "2026-01-02";
  paths = str "a.md" ∷ [];
}

abbrev commits : List Commit
commits = first_commit ∷ last_commit ∷ []

index_commits_lem_example :
    (lookup (str "a.md") (index_commits commits ([], [])).0 ≡ first_with (str "a.md") commits)
    × (lookup (str "a.md") (index_commits commits ([], [])).1 ≡ last_with (str "a.md") commits)
    × (count (str "a.md") (keys (index_commits commits ([], [])).0)
        ≡ ones (first_with (str "a.md") commits))
index_commits_lem_example = index_commits_lem (str "a.md") commits

-- Nothing is in scope.
abbrev no_config : Config
no_config = record { sources = [] }

abbrev pub no_logs : Logs toy
no_logs = printing [] []

abbrev pub world : World toy flat
world = record { repos = λ p. started; disk = λ q. none }

out_of_scope :
    rollback_path plain_host mirrors toy no_logs flat no_config
      (str "agent:7")
      (str "/docs")
      []
      (str "a.md")
      first_commit
      world
    ≡ (err Failure.out_of_scope, world)
unfolding rollback_path check_scope is_path_in_scope any then_on
out_of_scope = refl

is_reported : is_caught Failure.out_of_scope ≡ true
unfolding is_caught
is_reported = refl

refused :
    (rollback_path plain_host mirrors toy no_logs flat no_config
      (str "agent:7")
      (str "/docs")
      []
      (str "a.md")
      first_commit
      world).0
    ≡ err Failure.out_of_scope
refused = ap (λ t. t.0) out_of_scope

rollback_path-untouched_example :
    (rollback_path plain_host mirrors toy no_logs flat no_config
      (str "agent:7")
      (str "/docs")
      []
      (str "a.md")
      first_commit
      world).1.disk
    ≡ world.disk
rollback_path-untouched_example =
    rollback_path-untouched plain_host mirrors toy no_logs flat no_config (str "agent:7")
      (str "/docs") (str "a.md") [] first_commit world Failure.out_of_scope refused is_reported

abbrev both_failed : Report
both_failed = record {
  rolled_back = [];
  failed = (str "a.md", Failure.out_of_scope) ∷ (str "b.md", Failure.out_of_scope) ∷ [];
}

all_refused :
    (rollback_paths plain_host mirrors toy no_logs flat no_config
      (str "agent:7")
      (str "/docs")
      (index_commits commits ([], [])).1
      (index_commits commits ([], [])).0
      (record { rolled_back = []; failed = [] })
      world).0
    ≡ ok both_failed
unfolding rollback_paths note is_caught rollback_path check_scope is_path_in_scope any then_on
    index_commits index_paths setdefault assign list_beq
all_refused = refl

rollback_paths-accounts_example :
    reported (str "a.md") both_failed ≡ ones (first_with (str "a.md") commits)
rollback_paths-accounts_example =
    rollback_paths-accounts plain_host mirrors toy no_logs flat no_config (str "agent:7")
      (str "/docs") (str "a.md") commits both_failed world all_refused
