-- ===== src/Versioning/Registered.antt =====
-- What the statements of `_append_context` do to the active rows.
use context_os.Base.{
  Bool, true, false, ◌&&◌, ◌||◌, Option, none, some, List, [], ◌∷◌, ◌++◌, ◌==◌, nat_eq, list_eq,
  if◌then◌else◌, ◌≡◌, refl, sym, ◌∙◌, ap, arith, Bool-cases, Option-cases, inl, inr, beq_refl,
}
use context_os.Base.Lists.{any, any-append, contains}
use context_os.Base.Text.{Str}
use context_os.Versioning.Tables.{
  Key, Row, Db, same_key, is_key, find_context, update, sync_location, active_location_by_id,
  insert_context, insert_location,
}
use context_os.Paths.Pure.{PurePath}
use context_os.Paths.Normalize.{Host}
use context_os.Versioning.{GitStore}
use context_os.Versioning.Handlers.{Files, append_rows}

-- A row of the key is active.
unfoldable pub is_active : Key → List Row → Bool
unfolding any is_key
is_active k rows = any (λ row. is_key k row && row.active) rows

-- A row of the key has the context.
abbrev has_context : Key → Str → List Row → Bool
has_context k c rows = any (λ row. is_key k row && row.context_id == c) rows

some_eq : {A : Type 0} {a b : A} → some a ≡ some b → a ≡ b
some_eq h = cc

none-ne_some : {A : Type 0} {a : A} → ¬ (none ≡ some a)
none-ne_some h = cc

-- A statement that changes no key and deactivates no row.
pub update-is_active :
    (k : Key) (test : Row → Bool) (change : Row → Row) (rows : List Row)
    → ((row : Row)
        → is_key k row && row.active ≡ true
        → is_key k (change row) && (change row).active ≡ true)
    → is_active k rows ≡ true
    → is_active k (update test change rows) ≡ true
unfolding is_active any update
update-is_active k test change [] mono h = h
update-is_active k test change (row ∷ rows) mono h = elim (Bool-cases (test row)) [
  | inl e ↦ rw e (ground (arith, mono row, update-is_active k test change rows mono))
  | inr e ↦ rw e (ground (arith, update-is_active k test change rows mono))
]

find_context-has_context :
    (k : Key) (c : Str) (rows : List Row)
    → find_context k rows ≡ some c
    → has_context k c rows ≡ true
unfolding find_context any
find_context-has_context k c [] h = cc
find_context-has_context k c (row ∷ rows) h = elim (Bool-cases (is_key k row)) [
  | inl e ↦ rw (e, some_eq (rw e at h), beq_refl c)
  | inr e ↦ rw e (find_context-has_context k c rows (rw e at h))
]

located :
    (k : Key) (c location : Str) (b : Bool) (row : Row)
    → (let row' = if b then record row { location = location } else row in
        is_key k row' && row'.context_id == c)
      ≡ (is_key k row && row.context_id == c)
unfolding is_key
located k c location true row = refl
located k c location false row = refl

sync_location-has_context :
    (k : Key) (c location : Str) (rows : List Row)
    → has_context k c (sync_location k location rows) ≡ has_context k c rows
unfolding sync_location update any
sync_location-has_context k c location [] = refl
sync_location-has_context k c location (row ∷ rows) =
    ap (λ b. b || has_context k c (sync_location k location rows))
      (located k c location (is_key k row) row)
    ∙ ap (λ b. is_key k row && row.context_id == c || b)
        (sync_location-has_context k c location rows)

active-has_context :
    (k : Key) (c : Str) (rows : List Row)
    → has_context k c rows ≡ true
    → is_active k (active_location_by_id c rows) ≡ true
unfolding active_location_by_id update any is_active
active-has_context k c [] h = h
active-has_context k c (row ∷ rows) h = elim (Bool-cases (row.context_id == c)) [
  | inl e ↦ rw e (ground (arith, active-has_context k c rows, rw e at h))
  | inr e ↦ rw e (ground (arith, active-has_context k c rows, rw e at h))
]

sync_location-is_active :
    (k k' : Key) (location : Str) (rows : List Row)
    → is_active k rows ≡ true
    → is_active k (sync_location k' location rows) ≡ true
unfolding sync_location is_key
sync_location-is_active k k' location rows h =
    update-is_active k (is_key k') (λ row. record row { location = location }) rows (λ row e. e) h

active-is_active :
    (k : Key) (c : Str) (rows : List Row)
    → is_active k rows ≡ true
    → is_active k (active_location_by_id c rows) ≡ true
unfolding active_location_by_id is_key
active-is_active k c rows h =
    update-is_active k (λ row. row.context_id == c) (λ row. record row { active = true }) rows
      (λ row e. ground arith) h

is_key_refl : (row : Row) → is_key row.key row ≡ true
unfolding is_key same_key
is_key_refl row = rw (beq_refl row.key.0, beq_refl row.key.1)

-- What a transaction does to the active rows: none is lost, and `k` is one of them.
abbrev pub Activates : Key → List Row → List Row → Type 0
Activates k rows rows' =
    (is_active k rows' ≡ true) × ((k' : Key) → is_active k' rows ≡ true → is_active k' rows' ≡ true)

is_active-append :
    (k : Key) (rows : List Row) (row : Row)
    → is_active k (rows ++ row ∷ []) ≡ (is_active k rows || (is_key k row && row.active))
unfolding is_active any
is_active-append k rows row =
    any-append (λ r. is_key k r && r.active) rows (row ∷ [])
    ∙ ap (λ b. is_active k rows || b) (ground arith)

insert_location-Activates :
    (row : Row) (db db' : Db)
    → row.active ≡ true
    → insert_location row db ≡ some db'
    → Activates row.key db.locations db'.locations
unfolding insert_location
insert_location-Activates row db db' on h = elim (Bool-cases (any (is_key row.key) db.locations)) [
  | inl e ↦ absurd (none-ne_some (rw e at h))
  | inr e ↦
      let rows = ap (λ d. d.locations) (some_eq (rw e at h)) in
      (
        ap (is_active row.key) (sym rows)
            ∙ is_active-append row.key db.locations row
            ∙ ground (arith, is_key_refl row, on),
        λ k' h'.
            ap (is_active k') (sym rows)
            ∙ is_active-append k' db.locations row
            ∙ ground (arith, h'),
      )
]

insert_context-locations :
    (c : Str) (db db' : Db) → insert_context c db ≡ some db' → db.locations ≡ db'.locations
unfolding insert_context
insert_context-locations c db db' h = elim (Bool-cases (contains db.contexts c)) [
  | inl e ↦ absurd (none-ne_some (rw e at h))
  | inr e ↦ ap (λ d. d.locations) (some_eq (rw e at h))
]

module _ (host : Host) (dir : PurePath) (G : GitStore) (files : Files) (targets : List Str) where
  pub append_rows-Activates :
      (k : Key) (found : Option Str) (ulid location provider : Str) (db db' : Db)
      → find_context k db.locations ≡ found
      → append_rows host dir G files targets k found ulid location provider db ≡ some db'
      → Activates k db.locations db'.locations
  unfolding append_rows
  append_rows-Activates k (some c) ulid location provider db db' e h =
      let synced = sync_location k location db.locations in
      let rows = ap (λ d. d.locations) (some_eq h) in
      (
        ap (is_active k) (sym rows)
            ∙ active-has_context k c synced (
                sync_location-has_context k c location db.locations
                ∙ find_context-has_context k c db.locations e),
        λ k' h'.
            ap (is_active k') (sym rows)
            ∙ active-is_active k' c synced (sync_location-is_active k' k location db.locations h'),
      )
  append_rows-Activates k none ulid location provider db db' e h =
      elim (Option-cases (insert_context ulid db)) [
        | inl e' ↦ absurd (none-ne_some (rw (e', append_rows) at h))
        | inr (db1, e') ↦
            let row : Row = record {
              key = k;
              context_id = ulid;
              location = location;
              provider = provider;
              active = true;
            } in
            rw (insert_context-locations ulid db db1 e')
              (insert_location-Activates row db1 db' refl (rw (e', append_rows) at h))
      ]
