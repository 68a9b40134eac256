-- ===== src/Versioning/Tables.antt =====
-- The tables `contexts` and `locations`, and the statements that versioning.py executes on them.
use context_os.Base.{
  Bool, true, false, ◌&&◌, ◌||◌, Option, none, some, List, [], ◌∷◌, ◌++◌, map, ◌==◌, nat_eq,
  list_eq, if◌then◌else◌, ltb, ◌≡◌, refl, ap, ◌∙◌,
}
use context_os.Base.Lists.{contains, any, length, drop, filter}
use context_os.Base.Text.{Str, starts_with, rstrip}
use context_os.Paths.Pure.{slash}

-- `st_ino` and `st_dev`, which are the primary key of `locations`.
abbrev pub Key : Type 0
Key = Str × Str

-- A row of `locations`; `active` is its `status`.
pub record Row : Type 0 where
  pub key : Key
  pub context_id : Str
  pub location : Str
  pub provider : Str
  pub active : Bool

pub record Db : Type 0 where
  pub contexts : List Str
  pub locations : List Row

unfoldable pub same_key : Key → Key → Bool
same_key k key = key.0 == k.0 && key.1 == k.1

unfoldable pub is_key : Key → Row → Bool
unfolding same_key
is_key k row = same_key k row.key

-- `SELECT context_id FROM locations WHERE st_ino = ? AND st_dev = ?`, its first row.
unfoldable pub find_context : Key → List Row → Option Str
unfolding is_key
find_context k [] = none
find_context k (row ∷ rows) =
    let rest = find_context k rows in if is_key k row then some row.context_id else rest

-- `UPDATE locations SET ... WHERE ...`
unfoldable pub update : (Row → Bool) → (Row → Row) → List Row → List Row
update test change rows = map (λ row. if test row then change row else row) rows

-- `_sync_location`
unfoldable pub sync_location : Key → Str → List Row → List Row
unfolding update is_key
sync_location k location rows = update (is_key k) (λ row. record row { location = location }) rows

-- `_active_location_by_id`
unfoldable pub active_location_by_id : Str → List Row → List Row
unfolding update
active_location_by_id c rows =
    update (λ row. row.context_id == c) (λ row. record row { active = true }) rows

-- The two `INSERT`s; `none` where a primary key is taken.
unfoldable pub insert_context : Str → Db → Option Db
insert_context c db =
    if contains db.contexts c then none else some (record db { contexts = db.contexts ++ c ∷ [] })

unfoldable pub insert_location : Row → Db → Option Db
unfolding is_key
insert_location row db =
    if any (is_key row.key) db.locations
    then none
    else some (record db { locations = db.locations ++ row ∷ [] })

-- `path.rstrip("/") + "/"`
unfoldable pub prefix_of : Str → Str
unfolding rstrip
prefix_of path = rstrip slash path ++ slash ∷ []

-- `WHERE location = ? OR substr(location, 1, ?) = ?`
unfoldable pub is_at_or_below : Str → Row → Bool
unfolding prefix_of starts_with
is_at_or_below path row = row.location == path || starts_with row.location (prefix_of path)

-- The statement of `deleted_handle`.
unfoldable pub deactivate_tree : Str → List Row → List Row
unfolding update is_at_or_below
deactivate_tree path rows = update (is_at_or_below path) (λ row. record row { active = false }) rows

-- The first statement of `moved_handle`.
unfoldable pub move_tree : Str → Str → Bool → List Row → List Row
unfolding update prefix_of starts_with
move_tree src dst active rows =
    update (λ row. starts_with row.location (prefix_of src))
      (λ row. record row {
        location = prefix_of dst ++ drop (length (prefix_of src)) row.location;
        active = active;
      })
      rows

-- The second statement of `moved_handle`: `none` where two rows would get the same key. A
-- comparison with NULL holds of no row.
unfoldable pub move_node : Option Str → Str → Key → Bool → List Row → Option (List Row)
unfolding update
move_node none dst k active rows = some rows
move_node (some c) dst k active rows =
    if ltb 1 (length (filter (λ row. row.context_id == c) rows))
    then none
    else some (
        update (λ row. row.context_id == c)
          (λ row. record row { location = dst; key = k; active = active }) rows)

-- `active_locations`
unfoldable pub active_locations : List Row → List Str
active_locations rows = map (λ row. row.location) (filter (λ row. row.active) rows)

pub map_again :
    {A : Type 0} (f h : Row → A) (g : Row → Row) (rows : List Row)
    → ((row : Row) → f (g row) ≡ h row)
    → map f (map g rows) ≡ map h rows
map_again f h g [] e = refl
map_again f h g (row ∷ rows) e =
    ap (λ x. x ∷ map f (map g rows)) (e row) ∙ ap (λ xs. h row ∷ xs) (map_again f h g rows e)
