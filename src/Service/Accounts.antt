-- ===== src/Service/Accounts.antt =====
-- The accounts of the resellers: what their services hold, what they were charged over time, and
-- what they may be charged. Each change of a service moves them together.
use resellerbot.Prelude.{
  ℕ, ◌≡◌, inl, inr, ◌≢◌, Bool, some, List, [], ◌∷◌, ◌++◌, arith, ◌==◌, Bool-cases, ==_iff,
  All-append, All-find, find, update, remove, fresh_key,
}
use resellerbot.Prelude.Int.{
  ℤ, pos, ◌+ℤ◌, ◌-ℤ◌, ◌≤ℤ◌, max_ℤ, max_ℤ_above, max_ℤ_le, max_ℤ_nonneg, max_ℤ_exact, int_laws,
}
use mathlib.Core.Path.{subst}
use resellerbot.Models.{Reseller, ClientRecord}
use resellerbot.Repository.Clients.{has_id}
use resellerbot.Repository.Clients.Active.{
  UniqueIds, active, key, active-append, fresh_key-Fresh, UniqueIds-append, UniqueIds-remove,
}
use resellerbot.Repository.Clients.Changes.{
  Sizes, Sizes-remove, Sizes-update, UniqueIds-update, active-remove, active-update, active_nonneg,
}
use resellerbot.Repository.Resellers.{is_reseller}
use resellerbot.Repository.Resellers.Rows.{find-update_ne, find-update_self}

-- Every row has its own id and no negative size, and each reseller's services hold at most what
-- the reseller was charged, which is at most the quota.
pub record IsAccounted (cs : List ClientRecord) (rs : List Reseller) : Type 0 where
  pub unique : UniqueIds cs
  pub sizes : Sizes cs
  pub held :
      (t : ℕ) (r : Reseller)
      → find (is_reseller t) rs ≡ some r
      → active t cs ≤ℤ r.lifetime_allocated_bytes
  pub charged :
      (t : ℕ) (r : Reseller)
      → find (is_reseller t) rs ≡ some r
      → r.lifetime_allocated_bytes ≤ℤ r.quota_bytes

-- A predicate of each reseller's row, when one row was replaced.
replaced :
    (P : ℕ → Reseller → Type 0) (row old : Reseller) (rs : List Reseller)
    → find (is_reseller row.telegram_id) rs ≡ some old
    → P row.telegram_id row
    → ((t : ℕ) (r : Reseller) → t ≢ row.telegram_id → find (is_reseller t) rs ≡ some r → P t r)
    → (t : ℕ) (r : Reseller)
    → find (is_reseller t) (update (is_reseller row.telegram_id) (λ _. row) rs) ≡ some r
    → P t r
replaced P row old rs e at_row others t r h = elim (Bool-cases (row.telegram_id == t)) [
  | inl here ↦
      let same : row.telegram_id ≡ t = (==_iff row.telegram_id t).0 here in
      subst (λ (k : ℕ). P k r) same
        (subst (λ (x : Reseller). P row.telegram_id x) {x = row} {y = r}
          (ground (arith, find-update_self row rs old e)) at_row)
  | inr other ↦ others t r (ground arith) (rw (find-update_ne t row rs other) at h)
]

-- The services of one reseller changed, and its row with them.
pub IsAccounted-move :
    (cs cs' : List ClientRecord) (rs : List Reseller) (old row : Reseller)
    → IsAccounted cs rs
    → find (is_reseller row.telegram_id) rs ≡ some old
    → UniqueIds cs'
    → Sizes cs'
    → ((t : ℕ) → t ≢ row.telegram_id → active t cs' ≡ active t cs)
    → active row.telegram_id cs' ≤ℤ row.lifetime_allocated_bytes
    → row.lifetime_allocated_bytes ≤ℤ row.quota_bytes
    → IsAccounted cs' (update (is_reseller row.telegram_id) (λ _. row) rs)
IsAccounted-move cs cs' rs old row a e u s others holds within = record {
  unique = u;
  sizes = s;
  held =
      replaced (λ t r. active t cs' ≤ℤ r.lifetime_allocated_bytes) row old rs e holds
        (λ t r ne h. rw (others t ne) (a.held t r h));
  charged =
      replaced (λ t r. r.lifetime_allocated_bytes ≤ℤ r.quota_bytes) row old rs e within
        (λ t r ne h. a.charged t r h);
}

module _ (cs : List ClientRecord) (rs : List Reseller) (a : IsAccounted cs rs) (r : Reseller)
    (current : find (is_reseller r.telegram_id) rs ≡ some r) where
  -- A new service, and the charge for it.
  pub IsAccounted-create :
      (c : ClientRecord)
      → c.id ≡ fresh_key key cs
      → c.reseller_tg_id ≡ r.telegram_id
      → pos 0 ≤ℤ c.allocated_bytes
      → r.lifetime_allocated_bytes +ℤ c.allocated_bytes ≤ℤ r.quota_bytes
      → IsAccounted (cs ++ c ∷ []) (
          update
            (is_reseller r.telegram_id)
            (λ _. record r {
              lifetime_allocated_bytes = r.lifetime_allocated_bytes +ℤ c.allocated_bytes;
            })
            rs)
  IsAccounted-create c id owner size room =
      IsAccounted-move cs (cs ++ c ∷ []) rs r
        (record r { lifetime_allocated_bytes = r.lifetime_allocated_bytes +ℤ c.allocated_bytes }) a
        current (UniqueIds-append cs c a.unique (rw id (fresh_key-Fresh cs)))
        (All-append (λ (d : ClientRecord). pos 0 ≤ℤ d.allocated_bytes) cs (c ∷ []) a.sizes
          (size, tt))
        (λ t ne. grind (int_laws, active-append t cs c))
        (grind (int_laws, active-append r.telegram_id cs c, a.held r.telegram_id r current)) room

  module _ (q : ClientRecord → Bool) (c : ClientRecord) (found : find q cs ≡ some c)
      (owner : c.reseller_tg_id ≡ r.telegram_id) where
    size : pos 0 ≤ℤ c.allocated_bytes
    size = All-find (λ (d : ClientRecord). pos 0 ≤ℤ d.allocated_bytes) q cs c a.sizes found

    -- A deleted service whose bytes stay charged.
    pub IsAccounted-delete : IsAccounted (remove (has_id c.id) cs) rs
    IsAccounted-delete = record {
      unique = UniqueIds-remove c.id cs a.unique;
      sizes = Sizes-remove c.id cs a.sizes;
      held = λ t s h. grind (int_laws, active-remove q t cs c a.unique found, a.held t s h, size);
      charged = a.charged;
    }

    -- A deleted service whose bytes are given back.
    pub IsAccounted-refund : IsAccounted (remove (has_id c.id) cs) (
        update
          (is_reseller r.telegram_id)
          (λ _. record r {
            lifetime_allocated_bytes =
                max_ℤ (pos 0) (r.lifetime_allocated_bytes -ℤ c.allocated_bytes);
          })
          rs)
    IsAccounted-refund =
        IsAccounted-move cs (remove (has_id c.id) cs) rs r
          (record r {
            lifetime_allocated_bytes =
                max_ℤ (pos 0) (r.lifetime_allocated_bytes -ℤ c.allocated_bytes);
          })
          a current (UniqueIds-remove c.id cs a.unique) (Sizes-remove c.id cs a.sizes)
          (λ t ne. grind (int_laws, active-remove q t cs c a.unique found))
          (max_ℤ_above (r.lifetime_allocated_bytes -ℤ c.allocated_bytes) _ left)
          (max_ℤ_le (r.lifetime_allocated_bytes -ℤ c.allocated_bytes) r.quota_bytes solvent
            (grind (int_laws, size, a.charged r.telegram_id r current)))
      where
        left :
            active r.telegram_id (remove (has_id c.id) cs)
            ≤ℤ r.lifetime_allocated_bytes -ℤ c.allocated_bytes
        left = grind (
          int_laws,
          active-remove q r.telegram_id cs c a.unique found,
          a.held r.telegram_id r current,
        )

        solvent : pos 0 ≤ℤ r.quota_bytes
        solvent = omega (
          arith,
          a.charged r.telegram_id r current,
          a.held r.telegram_id r current,
          active_nonneg r.telegram_id cs a.sizes,
        )

    -- A service that grows, and the charge for it.
    pub IsAccounted-grow :
        (delta : ℤ)
        → pos 0 ≤ℤ delta
        → r.lifetime_allocated_bytes +ℤ delta ≤ℤ r.quota_bytes
        → IsAccounted
            (update
              (has_id c.id)
              (λ _. record c { allocated_bytes = c.allocated_bytes +ℤ delta })
              cs)
            (update
              (is_reseller r.telegram_id)
              (λ _. record r { lifetime_allocated_bytes = r.lifetime_allocated_bytes +ℤ delta })
              rs)
    IsAccounted-grow delta p room =
        IsAccounted-move cs _ rs r
          (record r { lifetime_allocated_bytes = r.lifetime_allocated_bytes +ℤ delta }) a current
          (UniqueIds-update new cs a.unique)
          (Sizes-update c.id new cs (grind (int_laws, size)) a.sizes)
          (λ t ne. grind (int_laws, active-update q t cs c new a.unique found))
          (grind (
            int_laws,
            active-update q r.telegram_id cs c new a.unique found,
            a.held r.telegram_id r current,
          ))
          room
      where
        new : ClientRecord
        new = record c { allocated_bytes = c.allocated_bytes +ℤ delta }

    -- A service that shrinks, and the charge with it.
    pub IsAccounted-shrink :
        (delta : ℤ)
        → pos 0 ≤ℤ delta
        → delta ≤ℤ c.allocated_bytes
        → IsAccounted
            (update
              (has_id c.id)
              (λ _. record c { allocated_bytes = max_ℤ (pos 0) (c.allocated_bytes -ℤ delta) })
              cs)
            (update
              (is_reseller r.telegram_id)
              (λ _. record r {
                lifetime_allocated_bytes = max_ℤ (pos 0) (r.lifetime_allocated_bytes -ℤ delta);
              })
              rs)
    IsAccounted-shrink delta p fits =
        IsAccounted-move cs _ rs r
          (record r {
            lifetime_allocated_bytes = max_ℤ (pos 0) (r.lifetime_allocated_bytes -ℤ delta);
          })
          a current (UniqueIds-update new cs a.unique)
          (Sizes-update c.id new cs (max_ℤ_nonneg (c.allocated_bytes -ℤ delta)) a.sizes)
          (λ t ne. grind (int_laws, active-update q t cs c new a.unique found))
          (max_ℤ_above (r.lifetime_allocated_bytes -ℤ delta) _ left)
          (max_ℤ_le (r.lifetime_allocated_bytes -ℤ delta) r.quota_bytes solvent
            (grind (int_laws, a.charged r.telegram_id r current)))
      where
        new : ClientRecord
        new = record c { allocated_bytes = max_ℤ (pos 0) (c.allocated_bytes -ℤ delta) }

        exact : max_ℤ (pos 0) (c.allocated_bytes -ℤ delta) ≡ c.allocated_bytes -ℤ delta
        exact = max_ℤ_exact _ (grind int_laws)

        left :
            active r.telegram_id (update (has_id c.id) (λ _. new) cs)
            ≤ℤ r.lifetime_allocated_bytes -ℤ delta
        left = grind (
          int_laws,
          exact,
          active-update q r.telegram_id cs c new a.unique found,
          a.held r.telegram_id r current,
        )

        solvent : pos 0 ≤ℤ r.quota_bytes
        solvent = omega (
          arith,
          a.charged r.telegram_id r current,
          a.held r.telegram_id r current,
          active_nonneg r.telegram_id cs a.sizes,
        )

-- A service with another expiry.
pub IsAccounted-redate :
    (cs : List ClientRecord) (rs : List Reseller)
    → IsAccounted cs rs
    → (q : ClientRecord → Bool) (c : ClientRecord) → find q cs ≡ some c
    → (ms : ℤ) → IsAccounted (update (has_id c.id) (λ _. record c { expiry_time = ms }) cs) rs
IsAccounted-redate cs rs a q c found ms =
    let new : ClientRecord = record c { expiry_time = ms } in
    record {
      unique = UniqueIds-update new cs a.unique;
      sizes =
          Sizes-update c.id new cs
            (All-find (λ (d : ClientRecord). pos 0 ≤ℤ d.allocated_bytes) q cs c a.sizes found)
            a.sizes;
      held = λ t s h. grind (int_laws, active-update q t cs c new a.unique found, a.held t s h);
      charged = a.charged;
    }
