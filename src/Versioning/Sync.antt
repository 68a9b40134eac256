-- ===== src/Versioning/Sync.antt =====
-- `sync_source_status` of versioning.py, and which rows it leaves active.
use context_os.Base.{
  Bool, true, false, ◌||◌, Option, none, some, List, [], ◌∷◌, ◌++◌, map, nat_eq, list_eq,
  if◌then◌else◌, ◌≡◌, refl, sym, ◌∙◌, ap, arith, Option-cases, inl, inr,
}
use context_os.Base.Lists.{any}
use context_os.Base.Text.{Str}
use context_os.Paths.Normalize.{Host, path_normalize}
use context_os.Configure.Sources.{Source}
use context_os.Versioning.{Outcome}
use context_os.Versioning.Tables.{Key, Row, Db, same_key, is_key, update, map_again}

some_eq : {A : Type 0} {a b : A} → some a ≡ some b → a ≡ b
some_eq h = cc

none-ne_some : {A : Type 0} {a : A} → ¬ (none ≡ some a)
none-ne_some h = cc

returned_eq : {W : Type 0} {a b : W} → Outcome.returned a ≡ Outcome.returned b → a ≡ b
returned_eq h = cc

raised-ne_returned : {W : Type 0} {a b : W} → ¬ (Outcome.raised a ≡ Outcome.returned b)
raised-ne_returned h = cc

or_false : (b : Bool) → (b || false) ≡ b
or_false true = refl
or_false false = refl

if_key :
    (b : Bool) (row : Row) (path : Str)
    → (if b then record row { location = path; active = true } else row).key ≡ row.key
if_key true row path = refl
if_key false row path = refl

if_test :
    (b t : Bool) (row : Row) (path : Str) (later : Key → Bool)
    → later row.key ≡ t
    → (let row' = if b then record row { location = path; active = true } else row in
        row'.active || later row'.key)
      ≡ (row.active || (b || t))
if_test true t row path later e = ground arith
if_test false t row path later e = ap (λ x. row.active || x) e

-- `get_path_stats` and `collect_files`.
module _ (host : Host) (get_path_stats : Str → Option Key) (collect_files : Str → List Str) where
  unfoldable pub sync_file : Option Key → Str → List Row → Option (List Row)
  unfolding update is_key
  sync_file none path rows = none
  sync_file (some k) path rows =
      some (update (is_key k) (λ row. record row { location = path; active = true }) rows)

  unfoldable pub sync_files : List Str → List Row → Option (List Row)
  unfolding sync_file
  sync_files [] rows = some rows
  sync_files (path ∷ paths) rows = elim (sync_file (get_path_stats path) path rows) [
    | none ↦ none
    | some rows' ↦ sync_files paths rows'
  ]

  unfoldable pub source_files : List Source → List Str
  source_files [] = []
  source_files (s ∷ sources) = collect_files (path_normalize host s.path) ++ source_files sources

  unfoldable pub deactivate_all : List Row → List Row
  deactivate_all rows = map {A = Row} (λ row. record row { active = false }) rows

  -- An exception rolls the transaction back.
  unfoldable pub sync_source_status : List Source → Db → Outcome Db
  unfolding sync_files source_files deactivate_all
  sync_source_status sources db =
      elim (sync_files (source_files sources) (deactivate_all db.locations)) [
        | none ↦ Outcome.raised db
        | some rows ↦ Outcome.returned (record db { locations = rows })
      ]

  unfoldable pub has_key : Option Key → Key → Bool
  unfolding same_key
  has_key none key = false
  has_key (some k) key = same_key k key

  -- One of the files has the key.
  abbrev pub is_key_of_file : List Str → Key → Bool
  is_key_of_file paths key = any (λ path. has_key (get_path_stats path) key) paths

  abbrev pub statuses : List Row → List Bool
  statuses rows = map (λ row. row.active) rows

  abbrev pub keys : List Row → List Key
  keys rows = map (λ row. row.key) rows

  after : List Str → Option (List Row) → Option (List Row)
  after paths found = elim found [ none ↦ none | some rows' ↦ sync_files paths rows' ]

  sync_file-keys :
      (found : Option Key) (path : Str) (rows rows' : List Row)
      → sync_file found path rows ≡ some rows'
      → keys rows' ≡ keys rows
  unfolding sync_file update
  sync_file-keys none path rows rows' h = cc
  sync_file-keys (some k) path rows rows' h =
      ap keys (sym (some_eq h))
      ∙ map_again (λ row. row.key) (λ row. row.key)
          (λ row. if is_key k row then record row { location = path; active = true } else row) rows
          (λ row. if_key (is_key k row) row path)

  -- What a later test of the rows sees of the statement.
  sync_file-test :
      (found : Option Key) (path : Str) (rows rows' : List Row) (later : Key → Bool)
      → sync_file found path rows ≡ some rows'
      → map (λ row. row.active || later row.key) rows'
        ≡ map (λ row. row.active || (has_key found row.key || later row.key)) rows
  unfolding sync_file update has_key is_key
  sync_file-test none path rows rows' later h = cc
  sync_file-test (some k) path rows rows' later h =
      ap (map (λ row. row.active || later row.key)) (sym (some_eq h))
      ∙ map_again (λ row. row.active || later row.key)
          (λ row. row.active || (same_key k row.key || later row.key))
          (λ row. if is_key k row then record row { location = path; active = true } else row) rows
          (λ row. if_test (same_key k row.key) (later row.key) row path later refl)

  sync_files-statuses :
      (paths : List Str) (rows rows' : List Row)
      → sync_files paths rows ≡ some rows'
      → (map (λ row. row.active || false) rows'
          ≡ map (λ row. row.active || is_key_of_file paths row.key) rows)
        × (keys rows' ≡ keys rows)
  unfolding sync_files any after
  sync_files-statuses [] rows rows' h =
      (ap (map (λ row. row.active || false)) (sym (some_eq h)), ap keys (sym (some_eq h)))
  sync_files-statuses (path ∷ paths) rows rows' h =
      elim (Option-cases (sync_file (get_path_stats path) path rows)) [
        | inl e ↦ absurd (none-ne_some (ap (after paths) (sym e) ∙ h))
        | inr (rows1, e) ↦
            let ih = sync_files-statuses paths rows1 rows' (ap (after paths) (sym e) ∙ h) in
            (
              ih.0 ∙ sync_file-test (get_path_stats path) path rows rows1 (is_key_of_file paths) e,
              ih.1 ∙ sync_file-keys (get_path_stats path) path rows rows1 e,
            )
      ]

  statuses-deactivate_all :
      (later : Key → Bool) (rows : List Row)
      → map (λ row. row.active || later row.key) (deactivate_all rows)
        ≡ map (λ row. later row.key) rows
  unfolding deactivate_all
  statuses-deactivate_all later rows =
      map_again (λ row. row.active || later row.key) (λ row. later row.key)
        (λ row. record row { active = false }) rows (λ row. refl)

  keys-deactivate_all : (rows : List Row) → keys (deactivate_all rows) ≡ keys rows
  unfolding deactivate_all
  keys-deactivate_all rows =
      map_again (λ row. row.key) (λ row. row.key) (λ row. record row { active = false }) rows
        (λ row. refl)

  abbrev ending : Db → Option (List Row) → Outcome Db
  ending db found = elim found [
    | none ↦ Outcome.raised db
    | some rows ↦ Outcome.returned (record db { locations = rows })
  ]

  statuses_or_false : (rows : List Row) → map (λ row. row.active || false) rows ≡ statuses rows
  statuses_or_false [] = refl
  statuses_or_false (row ∷ rows) =
      ap (λ b. b ∷ map (λ r. r.active || false) rows) (or_false row.active)
      ∙ ap (λ bs. row.active ∷ bs) (statuses_or_false rows)

  -- Where `sync_source_status` returns, the rows are those that there were, by their keys, and
  -- exactly those are active whose key is that of a file that was collected from some source:
  -- what was active before plays no part.
  pub sync_source_status_lem :
      (sources : List Source) (db db' : Db)
      → sync_source_status sources db ≡ Outcome.returned db'
      → (statuses db'.locations
          ≡ map (λ row. is_key_of_file (source_files sources) row.key) db.locations)
        × (keys db'.locations ≡ keys db.locations)
        × (db'.contexts ≡ db.contexts)
  unfolding sync_source_status
  sync_source_status_lem sources db db' h =
      elim (Option-cases (sync_files (source_files sources) (deactivate_all db.locations))) [
        | inl e ↦ absurd (raised-ne_returned (ap (ending db) (sym e) ∙ h))
        | inr (rows, e) ↦
            let same = returned_eq (ap (ending db) (sym e) ∙ h) in
            let (st, ks) =
              sync_files-statuses (source_files sources) (deactivate_all db.locations) rows e in
            (
              ap (λ d. statuses d.locations) (sym same)
                  ∙ sym (statuses_or_false rows)
                  ∙ st
                  ∙ statuses-deactivate_all (is_key_of_file (source_files sources)) db.locations,
              ap (λ d. keys d.locations) (sym same) ∙ ks ∙ keys-deactivate_all db.locations,
              ap (λ d. d.contexts) (sym same),
            )
      ]
