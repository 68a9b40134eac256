-- ===== src/Versioning/Trees.antt =====
-- Which rows a deletion deactivates, and that the calls of the mirror leave the tables alone.
use context_os.Base.{
  Bool, true, false, not, ◌&&◌, Option, none, some, List, [], ◌∷◌, ◌++◌, map, nat_eq, list_eq,
  if◌then◌else◌, ◌≡◌, refl, sym, ◌∙◌, ap, arith,
}
use context_os.Base.Lists.{All}
use context_os.Base.Text.{Str, str}
use context_os.Paths.Pure.{PurePath, slash, is_slash, join, IsName, to_path, is_relative_to}
use context_os.Paths.Normalize.{Host}
use context_os.Paths.Under.{covers-names, to_path-join}
use context_os.Paths.Mirror.{resolve_mirror_location}
use context_os.Versioning.{Outcome, ◌>>=◌, GitStore, resolve_actor}
use context_os.Versioning.Tables.{
  Key, Row, update, prefix_of, is_at_or_below, deactivate_tree, map_again,
}
use context_os.Versioning.Handlers.{
  Files, World, at_location, with_git, init_repo, remove, deleted_handle,
}

abbrev pub world_of : {W : Type 0} → Outcome W → W
world_of (Outcome.returned w) = w
world_of (Outcome.raised w) = w

-- A function that ends with the tables that it was given.
abbrev pub KeepsDb : {G : GitStore} → (World G → Outcome (World G)) → Type 0
KeepsDb {G} f = (w : World G) → (world_of (f w)).db ≡ w.db

pub with_git-db :
    {G : GitStore} (w : World G) (o : Outcome G.State) → (world_of (with_git w o)).db ≡ w.db
unfolding with_git
with_git-db w (Outcome.returned g) = refl
with_git-db w (Outcome.raised g) = refl

pub bind-db :
    {G : GitStore} (o : Outcome (World G)) (f : World G → Outcome (World G))
    → KeepsDb f
    → (world_of (o >>= f)).db ≡ (world_of o).db
bind-db (Outcome.returned w) f h = h w
bind-db (Outcome.raised w) f h = refl

pub at_location-db :
    {G : GitStore} (found : Option (PurePath × Str))
    (f : PurePath → Str → World G → Outcome (World G))
    → ((repo : PurePath) (rel : Str) → KeepsDb (f repo rel))
    → KeepsDb (at_location found f)
unfolding at_location
at_location-db none f h w = refl
at_location-db (some (repo, rel)) f h w = h repo rel w

-- An absolute path in normal form.
abbrev pub IsNormalPath : Str → Type 0
IsNormalPath s = (ns : List Str) × All (IsName is_slash) ns × (s ≡ slash ∷ join ns)

-- The two tests of the statement are pathlib's order.
at_or_below :
    (src : Str) (row : Row)
    → IsNormalPath src
    → IsNormalPath row.location
    → is_at_or_below src row ≡ is_relative_to (to_path row.location) (to_path src)
unfolding is_at_or_below prefix_of
at_or_below src row (ts, kt, et) (ns, kn, en) =
    rw (en, et)
      (covers-names ts ns kt kn
        ∙ sym (rw (to_path-join ns kn, to_path-join ts kt) (unfold is_relative_to in refl)))

-- What a deletion leaves of the statuses.
abbrev left_active : Str → List Row → List Bool
left_active src rows =
    map (λ row. row.active && not (is_relative_to (to_path row.location) (to_path src))) rows

active_if :
    (b : Bool) (row : Row)
    → (if b then record row { active = false } else row).active ≡ (row.active && not b)
active_if true row = ground arith
active_if false row = ground arith

statuses-deactivate_tree :
    (src : Str) (rows : List Row)
    → IsNormalPath src
    → All (λ row. IsNormalPath row.location) rows
    → map (λ row. row.active) (deactivate_tree src rows) ≡ left_active src rows
unfolding deactivate_tree update
statuses-deactivate_tree src [] h k = refl
statuses-deactivate_tree src (row ∷ rows) h k =
    ap (λ b. b ∷ map (λ r. r.active) (deactivate_tree src rows))
      (active_if (is_at_or_below src row) row
        ∙ ap (λ b. row.active && not b) (at_or_below src row h k.0))
    ∙ ap (λ bs. (row.active && not (is_relative_to (to_path row.location) (to_path src))) ∷ bs)
        (statuses-deactivate_tree src rows h k.1)

-- What a deletion leaves of a row.
abbrev pub identity : Row → Key × Str × Str × Str
identity row = (row.key, row.context_id, row.location, row.provider)

identity_if :
    (b : Bool) (row : Row)
    → identity (if b then record row { active = false } else row) ≡ identity row
identity_if true row = refl
identity_if false row = refl

identities :
    (src : Str) (rows : List Row) → map identity (deactivate_tree src rows) ≡ map identity rows
unfolding deactivate_tree update
identities src rows =
    map_again identity identity
      (λ row. if is_at_or_below src row then record row { active = false } else row) rows
      (λ row. identity_if (is_at_or_below src row) row)

module _ (host : Host) (dir : PurePath) (G : GitStore) (files : Files) (targets : List Str) where
  deleted_handle-db :
      (src : Str) (actor : Option Str) (w : World G)
      → (world_of (deleted_handle host dir G files targets src actor w)).db
        ≡ record w.db { locations = deactivate_tree src w.db.locations }
  unfolding deleted_handle init_repo remove
  deleted_handle-db src actor w =
      at_location-db (resolve_mirror_location host dir src targets)
        (λ repo rel w1. do
          w2 ← init_repo host dir G files targets repo w1
          remove host dir G files targets repo rel
              (str "deleted " ++ rel ++ str " via " ++ (resolve_actor actor).0)
              (resolve_actor actor).1 w2)
        (λ repo rel w1.
          bind-db (init_repo host dir G files targets repo w1)
            (λ w2.
              remove host dir G files targets repo rel
                (str "deleted " ++ rel ++ str " via " ++ (resolve_actor actor).0)
                (resolve_actor actor).1 w2)
            (λ w2. with_git-db w2 (
              G.remove repo rel (str "deleted " ++ rel ++ str " via " ++ (resolve_actor actor).0)
                (resolve_actor actor).1 w2.git))
          ∙ with_git-db w1 (G.init_repo repo w1.git))
        (record w { db = record w.db { locations = deactivate_tree src w.db.locations } })

  -- Let the path of the event and the locations of the rows be absolute paths in normal form.
  -- After `deleted_handle`, whether it returns or raises, a row is active exactly if it was and
  -- its location is neither the path nor below it, by the names of the paths; the keys, contexts,
  -- locations and providers of the rows, and the table of contexts, are what they were.
  pub deleted_handle_lem :
      (src : Str) (actor : Option Str) (w : World G)
      → IsNormalPath src
      → All (λ row. IsNormalPath row.location) w.db.locations
      → let db = (world_of (deleted_handle host dir G files targets src actor w)).db in
        (map (λ row. row.active) db.locations
          ≡ map
              (λ row. row.active && not (is_relative_to (to_path row.location) (to_path src)))
              w.db.locations)
        × (map identity db.locations ≡ map identity w.db.locations)
        × (db.contexts ≡ w.db.contexts)
  deleted_handle_lem src actor w h k =
      rw (deleted_handle-db src actor w)
        (statuses-deactivate_tree src w.db.locations h k, identities src w.db.locations, refl)
