-- ===== src/Versioning/Hints.antt =====
-- vcs/services/actor_hints.py: the table `pending_actor_hints`, with times in whole ticks.
use mathlib.Core.Path.{subst}
use context_os.Base.{
  ℕ, ◌+◌, false, Option, none, some, List, [], ◌∷◌, ◌==◌, ◌≡◌, refl, nat_eq, list_eq, if◌then◌else◌,
  arith, ltb, list_beq_iff, beq_refl, ap, ◌∙◌, sym,
}
use context_os.Base.Text.{Str}
use context_os.Paths.Normalize.{Host, path_normalize}

-- A row; `location` is the primary key.
pub record Hint : Type 0 where
  pub location : Str
  pub actor : Str
  pub expires_at : ℕ

-- `SELECT ... WHERE location = ?`, its first row, and `DELETE ... WHERE location = ?`
unfoldable pub select : Str → List Hint → Option Hint
select location [] = none
select location (h ∷ hints) =
    let rest = select location hints in if h.location == location then some h else rest

unfoldable pub delete_at : Str → List Hint → List Hint
delete_at location [] = []
delete_at location (h ∷ hints) =
    let rest = delete_at location hints in if h.location == location then rest else h ∷ rest

unfoldable pub actor_at : ℕ → Option Hint → Option Str
actor_at now none = none
actor_at now (some h) = if ltb h.expires_at now then none else some h.actor

module _ (host : Host) where
  -- `INSERT OR REPLACE`; `now` is `time.time()`.
  unfoldable pub set_hint : Str → Str → ℕ → ℕ → List Hint → List Hint
  unfolding delete_at
  set_hint location actor ttl_seconds now hints =
      let normalized = path_normalize host location in
      record { location = normalized; actor = actor; expires_at = now + ttl_seconds }
      ∷ delete_at normalized hints

  unfoldable pub consume_hint : Str → ℕ → List Hint → Option Str × List Hint
  unfolding select delete_at actor_at
  consume_hint location now hints =
      let normalized = path_normalize host location in
      (actor_at now (select normalized hints), delete_at normalized hints)

  select-delete_at :
      (p q : Str) (hints : List Hint)
      → select q (delete_at p hints) ≡ (if p == q then none else select q hints)
  unfolding select delete_at
  select-delete_at p q [] = ground arith
  select-delete_at p q (h ∷ hints) = ground (
    arith,
    select-delete_at p q hints,
    list_beq_iff h.location p,
    list_beq_iff h.location q,
    list_beq_iff p q,
  )

  select-same : (p : Str) (hints : List Hint) → select p (delete_at p hints) ≡ none
  select-same p hints = ground (arith, select-delete_at p p hints, beq_refl p)

  select-apart :
      (p q : Str) (hints : List Hint)
      → (p == q) ≡ false
      → select q (delete_at p hints) ≡ select q hints
  select-apart p q hints h = ground (arith, select-delete_at p q hints)

  select-head : (h : Hint) (hints : List Hint) → select h.location (h ∷ hints) ≡ some h
  unfolding select
  select-head h hints = rw (beq_refl h.location) refl

  delete_at-head :
      (h : Hint) (hints : List Hint) → delete_at h.location (h ∷ hints) ≡ delete_at h.location hints
  unfolding delete_at
  delete_at-head h hints = rw (beq_refl h.location) refl

  -- A hint is handed out once, by whatever spelling of its path, if it has not expired, and is
  -- gone then; and what is set or consumed for one path leaves the hints of others.
  pub set_hint-consume_hint :
      (location again other actor : Str) (ttl_seconds now later last : ℕ) (hints : List Hint)
      → path_normalize host again ≡ path_normalize host location
      → (path_normalize host location == path_normalize host other) ≡ false
      → let set = set_hint location actor ttl_seconds now hints in
        let used = (consume_hint again later set).1 in
        ((consume_hint again later set).0
          ≡ (if ltb (now + ttl_seconds) later then none else some actor))
        × ((consume_hint again last used).0 ≡ none)
        × ((consume_hint other last used).0 ≡ (consume_hint other last hints).0)
  unfolding set_hint consume_hint
  set_hint-consume_hint location again other actor ttl_seconds now later last hints same apart =
      let n = path_normalize host location in
      let o = path_normalize host other in
      let h : Hint = record { location = n; actor = actor; expires_at = now + ttl_seconds } in
      subst
        (λ m.
          (actor_at later (select m (h ∷ delete_at n hints))
            ≡ (if ltb (now + ttl_seconds) later then none else some actor))
          × (actor_at last (select m (delete_at m (h ∷ delete_at n hints))) ≡ none)
          × (actor_at last (select o (delete_at m (h ∷ delete_at n hints)))
              ≡ actor_at last (select o hints)))
        (sym same)
        (
          ap (actor_at later) (select-head h (delete_at n hints)) ∙ unfold actor_at in refl,
          ap (actor_at last) (select-same n (h ∷ delete_at n hints)),
          ap (actor_at last) (
              ap (select o) (delete_at-head h (delete_at n hints))
              ∙ select-apart n o (delete_at n hints) apart
              ∙ select-apart n o hints apart),
        )
