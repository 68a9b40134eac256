-- ===== src/Versioning/Appended.antt =====
-- A file that `_append_context` returns for has an active row, and no row becomes inactive.
use context_os.Base.{
  Option, none, some, List, ◌++◌, nat_eq, list_eq, option_eq, ◌≡◌, refl, sym, ◌∙◌, ap, Option-cases,
  inl, inr,
}
use context_os.Base.Text.{Str, str}
use context_os.Paths.Pure.{PurePath}
use context_os.Paths.Normalize.{Host}
use context_os.Paths.Mirror.{resolve_mirror_location}
use context_os.Versioning.{Outcome, ◌>>=◌, Bytes, GitStore}
use context_os.Versioning.Tables.{Key, find_context}
use context_os.Versioning.Handlers.{
  Files, World, at_location, with_content, with_stats, commit_rows, append_rows, init_repo, write,
  append_context,
}
use context_os.Versioning.Trees.{world_of, KeepsDb, with_git-db, bind-db, at_location-db}
use context_os.Versioning.Registered.{Activates, append_rows-Activates}

abbrev pub returned : {W : Type 0} → W → Outcome W
returned w = Outcome.returned w

pub returned_eq : {W : Type 0} {a b : W} → returned a ≡ returned b → a ≡ b
returned_eq h = cc

pub raised-ne_returned : {W : Type 0} {a b : W} → ¬ (Outcome.raised a ≡ returned b)
raised-ne_returned h = cc

pub bind-returned :
    {W : Type 0} (o : Outcome W) (f : W → Outcome W) (w' : W)
    → o >>= f ≡ returned w'
    → (w : W) × (o ≡ returned w) × (f w ≡ returned w')
bind-returned (Outcome.returned w) f w' h = (w, refl, h)
bind-returned (Outcome.raised w) f w' h = absurd (raised-ne_returned h)

commit_rows-returned :
    {G : GitStore} (host : Host) (dir : PurePath) (files : Files) (targets : List Str)
    (found : Option _) (w w' : World G)
    → commit_rows host dir G files targets found w ≡ returned w'
    → found ≡ some w'.db
unfolding commit_rows
commit_rows-returned host dir files targets none w w' h = absurd (raised-ne_returned h)
commit_rows-returned host dir files targets (some db) w w' h = ap (λ v. some v.db) (returned_eq h)

module _ (host : Host) (dir : PurePath) (G : GitStore) (files : Files) (targets : List Str) where
  with_content-db :
      (found : Option Bytes) (f : Bytes → World G → Outcome (World G))
      → ((content : Bytes) → KeepsDb (f content))
      → KeepsDb (with_content found f)
  unfolding with_content
  with_content-db none f h w = refl
  with_content-db (some content) f h w = h content w

  -- The commit of the file in the mirror.
  abbrev mirrored : Str → Str → Str → World G → Outcome (World G)
  mirrored location label author =
      at_location (resolve_mirror_location host dir location targets) (λ repo rel w2. do
        w3 ← init_repo host dir G files targets repo w2
        with_content (files.read_bytes location)
            (λ content w4.
              write host dir G files targets repo rel content
                (str "created " ++ rel ++ str " via " ++ label) author w4)
            w3)

  mirrored-db : (location label author : Str) → KeepsDb (mirrored location label author)
  unfolding init_repo write
  mirrored-db location label author =
      at_location-db (resolve_mirror_location host dir location targets) _ (λ repo rel w2.
        bind-db (init_repo host dir G files targets repo w2) _
          (with_content-db (files.read_bytes location) _ (λ content w4. with_git-db w4 _))
        ∙ with_git-db w2 _)

  stated-Activates :
      (k : Key) (ulid location provider label author : Str) (w w' : World G)
      → (commit_rows host dir G files targets
            (append_rows host dir G files targets k
              (find_context k w.db.locations)
              ulid
              location
              provider
              w.db)
            w
          >>= mirrored location label author)
        ≡ returned w'
      → Activates k w.db.locations w'.db.locations
  stated-Activates k ulid location provider label author w w' h =
      let (w1, a, b) = bind-returned _ (mirrored location label author) w' h in
      rw
        (ap (λ (o : Outcome (World G)). (world_of o).db) (sym b)
          ∙ mirrored-db location label author w1)
        (append_rows-Activates host dir G files targets k (find_context k w.db.locations) ulid
          location provider w.db w1.db refl (commit_rows-returned host dir files targets _ w w1 a))

  pub append_context-Activates :
      (ulid location provider label author : Str) (w w' : World G)
      → append_context host dir G files targets ulid location provider label author w ≡ returned w'
      → (k : Key) × (files.get_path_stats location ≡ some k)
        × Activates k w.db.locations w'.db.locations
  unfolding append_context with_stats
  append_context-Activates ulid location provider label author w w' h =
      elim (Option-cases (files.get_path_stats location)) [
        | inl e ↦ absurd (raised-ne_returned (rw (e, append_context, with_stats) at h))
        | inr (k, e) ↦ (
          k,
          e,
          stated-Activates k ulid location provider label author w w'
              (rw (e, append_context, with_stats) at h),
        )
      ]
