-- ===== src/Repository/Resellers/Rows.antt =====
-- Looking up a reseller after a row was written, and what the synchronisation of the assignment
-- leaves alone.
use resellerbot.Prelude.{
  ℕ, ◌≡◌, refl, true, false, none, some, List, [], ◌∷◌, arith, ◌==◌, find, update,
}
use resellerbot.Prelude.Int.{ℤ, pos, ◌+ℤ◌, ◌-ℤ◌, max_ℤ}
use resellerbot.Errors.{or_raise}
use resellerbot.Models.{Db, Reseller}
use resellerbot.Repository.Usage.{active_bytes}
use resellerbot.Repository.Assignments
use resellerbot.Repository.Resellers.{
  is_reseller, get, sync_primary_panel_assignment, add_lifetime_allocated,
  subtract_lifetime_allocated, add_quota_bytes, subtract_quota_bytes, reset_lifetime_to_active,
  save, upsert,
}

pub find-update_ne :
    (t : ℕ) (row : Reseller) (rs : List Reseller)
    → (row.telegram_id == t) ≡ false
    → find (is_reseller t) (update (is_reseller row.telegram_id) (λ _. row) rs)
      ≡ find (is_reseller t) rs
find-update_ne t row [] ne = refl
find-update_ne t row (r ∷ rs) ne = ground (arith, find-update_ne t row rs)

pub find-update_self :
    (row : Reseller) (rs : List Reseller) (old : Reseller)
    → find (is_reseller row.telegram_id) rs ≡ some old
    → find (is_reseller row.telegram_id) (update (is_reseller row.telegram_id) (λ _. row) rs)
      ≡ some row
find-update_self row [] old e = cc
find-update_self row (r ∷ rs) old e = ground (arith, find-update_self row rs old)

pub resellers-sync :
    (row : Reseller) (db : Db) → (sync_primary_panel_assignment row db).1.resellers ≡ db.resellers
unfolding sync_primary_panel_assignment Assignments.add
resellers-sync row db = ground arith

pub clients-sync :
    (row : Reseller) (db : Db) → (sync_primary_panel_assignment row db).1.clients ≡ db.clients
unfolding sync_primary_panel_assignment Assignments.add
clients-sync row db = ground arith

-- What an operation on the charged bytes writes to the table of resellers.
module _ (r : Reseller) (db : Db) (current : get r.telegram_id db ≡ some r) where
  pub resellers-add_lifetime :
      (delta : ℤ)
      → (add_lifetime_allocated r.telegram_id delta db).1.resellers
        ≡ update
            (is_reseller r.telegram_id)
            (λ _. record r { lifetime_allocated_bytes = r.lifetime_allocated_bytes +ℤ delta })
            db.resellers
  unfolding add_lifetime_allocated
  resellers-add_lifetime delta = rw (current, or_raise) (resellers-sync _ _)

  pub clients-add_lifetime :
      (delta : ℤ) → (add_lifetime_allocated r.telegram_id delta db).1.clients ≡ db.clients
  unfolding add_lifetime_allocated
  clients-add_lifetime delta = rw (current, or_raise) (clients-sync _ _)

  pub resellers-subtract_lifetime :
      (delta : ℤ)
      → (subtract_lifetime_allocated r.telegram_id delta db).1.resellers
        ≡ update
            (is_reseller r.telegram_id)
            (λ _. record r {
              lifetime_allocated_bytes = max_ℤ (pos 0) (r.lifetime_allocated_bytes -ℤ delta);
            })
            db.resellers
  unfolding subtract_lifetime_allocated
  resellers-subtract_lifetime delta = rw (current, or_raise) (resellers-sync _ _)

  pub clients-subtract_lifetime :
      (delta : ℤ) → (subtract_lifetime_allocated r.telegram_id delta db).1.clients ≡ db.clients
  unfolding subtract_lifetime_allocated
  clients-subtract_lifetime delta = rw (current, or_raise) (clients-sync _ _)

-- What an operation on the quota, or on the charged bytes as a whole, writes.
module _ (r : Reseller) (db : Db) (current : get r.telegram_id db ≡ some r) where
  pub resellers-add_quota :
      (delta : ℤ)
      → (add_quota_bytes r.telegram_id delta db).1.resellers
        ≡ update
            (is_reseller r.telegram_id)
            (λ _. record r { quota_bytes = r.quota_bytes +ℤ delta })
            db.resellers
  unfolding add_quota_bytes
  resellers-add_quota delta = ground (
    arith,
    resellers-sync (record r { quota_bytes = r.quota_bytes +ℤ delta })
        (save (record r { quota_bytes = r.quota_bytes +ℤ delta }) db).1,
  )

  pub clients-add_quota :
      (delta : ℤ) → (add_quota_bytes r.telegram_id delta db).1.clients ≡ db.clients
  unfolding add_quota_bytes
  clients-add_quota delta = ground (
    arith,
    clients-sync (record r { quota_bytes = r.quota_bytes +ℤ delta })
        (save (record r { quota_bytes = r.quota_bytes +ℤ delta }) db).1,
  )

  pub resellers-subtract_quota :
      (delta : ℤ)
      → (subtract_quota_bytes r.telegram_id delta db).1.resellers
        ≡ update
            (is_reseller r.telegram_id)
            (λ _. record r {
              quota_bytes = max_ℤ r.lifetime_allocated_bytes (r.quota_bytes -ℤ delta);
            })
            db.resellers
  unfolding subtract_quota_bytes
  resellers-subtract_quota delta =
      let row = record r {
        quota_bytes = max_ℤ r.lifetime_allocated_bytes (r.quota_bytes -ℤ delta);
      } in
      ground (arith, resellers-sync row (save row db).1)

  pub clients-subtract_quota :
      (delta : ℤ) → (subtract_quota_bytes r.telegram_id delta db).1.clients ≡ db.clients
  unfolding subtract_quota_bytes
  clients-subtract_quota delta =
      let row = record r {
        quota_bytes = max_ℤ r.lifetime_allocated_bytes (r.quota_bytes -ℤ delta);
      } in
      ground (arith, clients-sync row (save row db).1)

  pub resellers-reset_lifetime :
      (reset_lifetime_to_active r.telegram_id db).1.resellers
      ≡ update
          (is_reseller r.telegram_id)
          (λ _. record r { lifetime_allocated_bytes = active_bytes r.telegram_id db })
          db.resellers
  unfolding reset_lifetime_to_active
  resellers-reset_lifetime =
      let row = record r { lifetime_allocated_bytes = active_bytes r.telegram_id db } in
      ground (arith, resellers-sync row (save row db).1)

  pub clients-reset_lifetime : (reset_lifetime_to_active r.telegram_id db).1.clients ≡ db.clients
  unfolding reset_lifetime_to_active
  clients-reset_lifetime =
      let row = record r { lifetime_allocated_bytes = active_bytes r.telegram_id db } in
      ground (arith, clients-sync row (save row db).1)

  -- `upsert` of an existing row with a new quota and no other argument.
  pub resellers-upsert_quota :
      (quota : ℤ)
      → (upsert r.telegram_id quota none none 1 none true none db).1.resellers
        ≡ update
            (is_reseller r.telegram_id)
            (λ _. record r { quota_bytes = quota; is_active = true })
            db.resellers
  unfolding upsert
  resellers-upsert_quota quota =
      let row = record r { quota_bytes = quota; is_active = true } in
      ground (arith, resellers-sync row (save row db).1)

  pub clients-upsert_quota :
      (quota : ℤ)
      → (upsert r.telegram_id quota none none 1 none true none db).1.clients ≡ db.clients
  unfolding upsert
  clients-upsert_quota quota =
      let row = record r { quota_bytes = quota; is_active = true } in
      ground (arith, clients-sync row (save row db).1)
