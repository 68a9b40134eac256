-- ===== src/Tests/Mirrors.antt =====
-- The theorems on the mirror store at a concrete git.
use context_os.Base.{◌+◌, ◌*◌, ◌≤◌, ◌<◌, true, Option, none, some, [], ◌∷◌, ◌≡◌, refl}
use context_os.Base.Text.{Str, str}
use context_os.Store.Commands.{Error, done, failed, Git, Session, after, run_git}
use context_os.Store.Operations.{
  require_initialized, commit, write, path_exists_at_rev, is_tracked, commit_removed, remove,
  commit_moved, move,
}
use context_os.Store.Calls.{git_timeout, lock_timeout, calls_bounded, move_calls}
use context_os.Store.Head.{IsGit, head_of, head_after, write-head, remove-move-head}

-- A repository that is its HEAD, in which every path is tracked.
abbrev pub toy : Git
toy = record {
  State = Option Str;
  is_initialized = λ r. true;
  hash_object = λ content r. (done (str "blob"), r);
  update_index = λ mode sha path r. (done tt, r);
  rm_cached = λ path r. (done tt, r);
  write_tree = λ r. (done (str "tree"), r);
  rev_parse_head = λ r. (done r, r);
  tree_of = λ rev r. (failed Error.git_failed, r);
  commit_tree = λ tree parent message author r. (done (str "next"), r);
  update_ref_head = λ rev r. (done tt, some rev);
  log_rev = λ path r. (done r, r);
  cat_file_exists = λ rev path r. (done true, r);
  ls_tree = λ rev path r. (done (str "100644", str "blob"), r);
  read_tree = λ rev r. (done tt, r);
  read_tree_empty = λ r. (done tt, r);
  show = λ rev path r. (done [], r);
}

toy-IsGit : IsGit toy
toy-IsGit = record {
  head = λ r. r;
  hash_object-head = λ content r. refl;
  update_index-head = λ mode sha path r. refl;
  rm_cached-head = λ path r. refl;
  write_tree-head = λ r. refl;
  rev_parse-head = λ r. refl;
  rev_parse-reads = λ r found e. cc;
  tree_of-head = λ rev r. refl;
  commit_tree-head = λ tree parent message author r. refl;
  cat_file-head = λ rev path r. refl;
  ls_tree-head = λ rev path r. refl;
  update_ref-sets = λ rev r e. refl;
  update_ref-leaves = λ rev r x e. cc;
}

abbrev pub fresh : Session toy
fresh = record { repo = none; calls = 0 }

abbrev pub started : Session toy
started = record { repo = some (str "first"); calls = 0 }

write-head_example :
    head_of toy toy-IsGit (write toy (str "a.md") (1 ∷ []) (str "m") (str "a") fresh).1
    ≡ head_after toy toy-IsGit some
        (head_of toy toy-IsGit fresh)
        (write toy (str "a.md") (1 ∷ []) (str "m") (str "a") fresh).0
write-head_example = write-head toy toy-IsGit (str "a.md") (1 ∷ []) (str "m") (str "a") fresh

remove-move-head_example :
    (head_of toy toy-IsGit (remove toy (str "a.md") (str "m") (str "a") started).1
      ≡ head_after toy toy-IsGit
          (λ o. o)
          (head_of toy toy-IsGit started)
          (remove toy (str "a.md") (str "m") (str "a") started).0)
    × (head_of toy toy-IsGit (move toy (str "a.md") (str "b.md") (str "m") (str "a") started).1
        ≡ head_after toy toy-IsGit
            (λ o. o)
            (head_of toy toy-IsGit started)
            (move toy (str "a.md") (str "b.md") (str "m") (str "a") started).0)
remove-move-head_example =
    remove-move-head toy toy-IsGit (str "a.md") (str "b.md") (str "m") (str "a") started

calls_bounded_example :
    ((write toy (str "a.md") [] (str "m") (str "a") fresh).1.calls ≤ 0 + 7)
    × ((remove toy (str "a.md") (str "m") (str "a") fresh).1.calls ≤ 0 + 6)
    × ((move toy (str "a.md") (str "b.md") (str "m") (str "a") fresh).1.calls ≤ 0 + 8)
    × (git_timeout * 7 < lock_timeout)
calls_bounded_example = calls_bounded toy (str "a.md") (str "b.md") [] (str "m") (str "a") fresh

abbrev moved : Session toy
moved = record { repo = some (str "next"); calls = 8 }

started-moved :
    move toy (str "a.md") (str "b.md") (str "m") (str "a") started
    ≡ (done (some (str "next")), moved)
unfolding move require_initialized is_tracked path_exists_at_rev commit_moved commit_removed commit
    run_git after
started-moved = refl

move_calls_example : (moved.calls ≡ 0 + 8) × (lock_timeout < git_timeout * 8)
move_calls_example =
    move_calls toy (str "a.md") (str "b.md") (str "m") (str "a") (str "next") started moved
      started-moved
