-- ===== src/Repository/Clients/Changes.antt =====
-- The bytes of a reseller's services when a row that a query found is deleted or changed.
use resellerbot.Prelude.{
  ℕ, ◌≡◌, ==_refl, inl, inr, Bool, false, some, List, [], ◌∷◌, arith, ◌==◌, Bool-cases, All,
  All-find, find, update, remove,
}
use resellerbot.Prelude.Int.{pos, ◌+ℤ◌, ◌≤ℤ◌, int_laws}
use mathlib.Core.Path.{subst}
use resellerbot.Models.{ClientRecord}
use resellerbot.Repository.Clients.{has_id}
use resellerbot.Repository.Clients.Active.{UniqueIds, active, share, remove-Fresh, update-Fresh}

active-remove_head :
    (t : ℕ) (c : ClientRecord) (cs : List ClientRecord)
    → All (λ (d : ClientRecord). (d.id == c.id) ≡ false) cs
    → active t (remove (has_id c.id) (c ∷ cs)) +ℤ share t c ≡ active t (c ∷ cs)
active-remove_head t c cs u = rw (==_refl c.id) (rw (remove-Fresh c.id cs u) (grind int_laws))

active-update_head :
    (t : ℕ) (c new : ClientRecord) (cs : List ClientRecord)
    → All (λ (d : ClientRecord). (d.id == c.id) ≡ false) cs
    → active t (update (has_id c.id) (λ _. new) (c ∷ cs)) +ℤ share t c
      ≡ active t (c ∷ cs) +ℤ share t new
active-update_head t c new cs u =
    rw (==_refl c.id) (rw (update-Fresh c.id (λ _. new) cs u) (grind int_laws))

module _ (q : ClientRecord → Bool) where
  -- The row that a query finds below `c` has another id than `c`.
  other_id :
      (c row : ClientRecord) (cs : List ClientRecord)
      → All (λ (d : ClientRecord). (d.id == c.id) ≡ false) cs
      → find q cs ≡ some row
      → (c.id == row.id) ≡ false
  other_id c row cs h e =
      ground (arith, All-find (λ (d : ClientRecord). (d.id == c.id) ≡ false) q cs row h e)

  pub active-remove :
      (t : ℕ) (cs : List ClientRecord) (row : ClientRecord)
      → UniqueIds cs
      → find q cs ≡ some row
      → active t (remove (has_id row.id) cs) +ℤ share t row ≡ active t cs
  active-remove t [] row u e = cc
  active-remove t (c ∷ cs) row u e = elim (Bool-cases (q c)) [
    | inl here ↦
        subst
          (λ (r : ClientRecord).
            active t (remove (has_id r.id) (c ∷ cs)) +ℤ share t r ≡ active t (c ∷ cs))
          {x = c} {y = row} (ground arith) (active-remove_head t c cs u.0)
    | inr below ↦
        let found : find q cs ≡ some row = ground arith in
        rw (other_id c row cs u.0 found) (grind (int_laws, active-remove t cs row u.1 found))
  ]

  pub active-update :
      (t : ℕ) (cs : List ClientRecord) (row new : ClientRecord)
      → UniqueIds cs
      → find q cs ≡ some row
      → active t (update (has_id row.id) (λ _. new) cs) +ℤ share t row ≡ active t cs +ℤ share t new
  active-update t [] row new u e = cc
  active-update t (c ∷ cs) row new u e = elim (Bool-cases (q c)) [
    | inl here ↦
        subst
          (λ (r : ClientRecord).
            active t (update (has_id r.id) (λ _. new) (c ∷ cs)) +ℤ share t r
            ≡ active t (c ∷ cs) +ℤ share t new)
          {x = c} {y = row} (ground arith) (active-update_head t c new cs u.0)
    | inr below ↦
        let found : find q cs ≡ some row = ground arith in
        rw (other_id c row cs u.0 found) (grind (int_laws, active-update t cs row new u.1 found))
  ]

-- A row is replaced by one with its id.
Fresh-update :
    (k : ℕ) (new : ClientRecord) (cs : List ClientRecord)
    → All (λ (d : ClientRecord). (d.id == k) ≡ false) cs
    → All (λ (d : ClientRecord). (d.id == k) ≡ false) (update (has_id new.id) (λ _. new) cs)
Fresh-update k new [] h = tt
Fresh-update k new (c ∷ cs) h = elim (Bool-cases (c.id == new.id)) [
  | inl e ↦ rw e (ground (arith, h.0), Fresh-update k new cs h.1)
  | inr e ↦ rw e (h.0, Fresh-update k new cs h.1)
]

pub UniqueIds-update :
    (new : ClientRecord) (cs : List ClientRecord)
    → UniqueIds cs
    → UniqueIds (update (has_id new.id) (λ _. new) cs)
UniqueIds-update new [] u = tt
UniqueIds-update new (c ∷ cs) u = elim (Bool-cases (c.id == new.id)) [
  | inl e ↦
      let same : c.id ≡ new.id = ground arith in
      rw e (Fresh-update new.id new cs (rw same at u.0), UniqueIds-update new cs u.1)
  | inr e ↦ rw e (Fresh-update c.id new cs u.0, UniqueIds-update new cs u.1)
]

-- No service has a negative size.
abbrev pub Sizes : List ClientRecord → Type 0
Sizes = All (λ (c : ClientRecord). pos 0 ≤ℤ c.allocated_bytes)

pub Sizes-remove : (k : ℕ) (cs : List ClientRecord) → Sizes cs → Sizes (remove (has_id k) cs)
Sizes-remove k [] h = tt
Sizes-remove k (c ∷ cs) h = elim (Bool-cases (c.id == k)) [
  | inl e ↦ rw e (Sizes-remove k cs h.1)
  | inr e ↦ rw e (h.0, Sizes-remove k cs h.1)
]

pub Sizes-update :
    (k : ℕ) (new : ClientRecord) (cs : List ClientRecord)
    → pos 0 ≤ℤ new.allocated_bytes
    → Sizes cs
    → Sizes (update (has_id k) (λ _. new) cs)
Sizes-update k new [] p h = tt
Sizes-update k new (c ∷ cs) p h = elim (Bool-cases (c.id == k)) [
  | inl e ↦ rw e (p, Sizes-update k new cs p h.1)
  | inr e ↦ rw e (h.0, Sizes-update k new cs p h.1)
]

pub active_nonneg : (t : ℕ) (cs : List ClientRecord) → Sizes cs → pos 0 ≤ℤ active t cs
active_nonneg t [] h = omega arith
active_nonneg t (c ∷ cs) h = grind (int_laws, active_nonneg t cs h.1, h.0)
