-- ===== src/Tests/Versions.antt =====
-- The theorems on the versioning service at concrete inputs.
use context_os.Base.{
  true, false, not, ◌&&◌, Option, none, some, List, [], ◌∷◌, map, ◌≡◌, refl, nat_eq, list_eq,
  list_beq, if◌then◌else◌, ◌==◌,
}
use context_os.Base.Lists.{filter}
use context_os.Base.Text.{Str, str}
use context_os.Paths.Pure.{
  PurePath, is_slash, join, names, names_by, split_on, is_name, names_by-names, to_path,
  is_relative_to,
}
use context_os.Versioning.{Outcome, GitStore}
use context_os.Versioning.Tables.{Key, Row, Db, same_key, is_key, update}
use context_os.Versioning.Handlers.{Files, World, deleted_handle}
use context_os.Versioning.Sync.{
  sync_file, sync_files, source_files, deactivate_all, sync_source_status, statuses, keys,
  is_key_of_file, sync_source_status_lem,
}
use context_os.Versioning.Trees.{world_of, IsNormalPath, identity, deleted_handle_lem}
use context_os.Tests.Worlds.{plain_host, docs, home, notes, plan, docs_source}

-- A store that keeps the messages of its commits.
abbrev pub log : GitStore
log = record {
  State = List Str;
  init_repo = λ repo g. Outcome.returned g;
  write = λ repo rel content message author g. Outcome.returned (message ∷ g);
  remove = λ repo rel message author g. Outcome.returned (message ∷ g);
  move = λ repo src dst message author g. Outcome.returned (message ∷ g);
  head_rev = λ repo rel g. none;
  path_exists_at_head = λ repo rel g. false;
  show_head = λ repo rel g. [];
}

abbrev plan_key : Key
plan_key = (str "7", str "1")

abbrev notes_key : Key
notes_key = (str "8", str "1")

-- The one file that there is.
abbrev pub stats : Str → Option Key
stats path = if path == plan then some plan_key else none

abbrev plan_row : Row
plan_row = record {
  key = plan_key;
  context_id = str "01A";
  location = plan;
  provider = str "local";
  active = false;
}

abbrev notes_row : Row
notes_row = record {
  key = notes_key;
  context_id = str "01B";
  location = notes;
  provider = str "local";
  active = true;
}

abbrev pub two_rows : Db
two_rows = record { contexts = str "01A" ∷ str "01B" ∷ []; locations = plan_row ∷ notes_row ∷ [] }

abbrev synced : Db
synced = record two_rows {
  locations = record plan_row { active = true } ∷ record notes_row { active = false } ∷ [];
}

abbrev one_file : Str → List Str
one_file path = plan ∷ []

rows_agree :
    sync_source_status plain_host stats one_file (docs_source ∷ []) two_rows
    ≡ Outcome.returned synced
unfolding sync_source_status sync_files sync_file source_files deactivate_all update is_key same_key
    list_beq
rows_agree = refl

sync_source_status_lem_example :
    (statuses plain_host stats one_file synced.locations
      ≡ map
          (λ row.
            is_key_of_file plain_host stats one_file
              (source_files plain_host stats one_file (docs_source ∷ []))
              row.key)
          two_rows.locations)
    × (keys plain_host stats one_file synced.locations
        ≡ keys plain_host stats one_file two_rows.locations)
    × (synced.contexts ≡ two_rows.contexts)
sync_source_status_lem_example =
    sync_source_status_lem plain_host stats one_file (docs_source ∷ []) two_rows synced rows_agree

abbrev pub mirrors : PurePath
mirrors = record { rooted = true; parts = str "mirrors" ∷ [] }

abbrev pub some_files : Files
some_files = record { get_path_stats = stats; read_bytes = λ path. none; differs = λ a b. true }

abbrev pub start : World log
start = record { db = two_rows; git = [] }

docs-IsNormalPath : IsNormalPath docs
unfolding names names_by split_on filter is_name list_beq join
docs-IsNormalPath = (names docs, names_by-names is_slash docs, refl)

plan-IsNormalPath : IsNormalPath plan
unfolding names names_by split_on filter is_name list_beq join
plan-IsNormalPath = (names plan, names_by-names is_slash plan, refl)

notes-IsNormalPath : IsNormalPath notes
unfolding names names_by split_on filter is_name list_beq join
notes-IsNormalPath = (names notes, names_by-names is_slash notes, refl)

deleted_handle_lem_example :
    let db =
      (world_of
        (deleted_handle plain_host mirrors log some_files (home ∷ []) docs none start)).db in
    (map (λ row. row.active) db.locations
      ≡ map
          (λ row. row.active && not (is_relative_to (to_path row.location) (to_path docs)))
          two_rows.locations)
    × (map identity db.locations ≡ map identity two_rows.locations)
    × (db.contexts ≡ two_rows.contexts)
deleted_handle_lem_example =
    deleted_handle_lem plain_host mirrors log some_files (home ∷ []) docs none start
      docs-IsNormalPath (plan-IsNormalPath, (notes-IsNormalPath, tt))
