-- ===== src/ResellerEdit/Accounts.antt =====
-- The quota operations of an admin keep the accounts of the resellers.
use resellerbot.Prelude.{
  ℕ, ◌≡◌, refl, sym, inl, inr, true, false, none, some, arith, ==_iff, Bool-cases, Option-cases,
  find_sound, update,
}
use mathlib.Core.Path.{subst}
use resellerbot.Prelude.Int.{pos, ◌+ℤ◌, ◌-ℤ◌, ◌≤ℤ◌, ltb_ℤ, max_ℤ, max_ℤ_left, ltb_ℤ→ge, int_laws}
use resellerbot.Errors.{or_raise}
use resellerbot.Models.{Db, Reseller, Float}
use resellerbot.Volume.{gb_to_bytes, is_non_positive}
use resellerbot.Repository.Resellers
use resellerbot.Repository.Usage.{active_bytes}
use resellerbot.Repository.Resellers.Rows.{
  resellers-add_quota, clients-add_quota, resellers-subtract_quota, clients-subtract_quota,
  resellers-reset_lifetime, clients-reset_lifetime, resellers-upsert_quota, clients-upsert_quota,
}
use resellerbot.Service.Accounts.{IsAccounted, IsAccounted-move}
use resellerbot.ResellerEdit.{
  apply_quota, apply_add_quota, apply_subtract_quota, apply_reset_quota_usage,
}

abbrev pub Keeps : Db → Db → Type 0
Keeps db db' = IsAccounted db'.clients db'.resellers

-- A positive volume has no negative number of bytes.
gb_to_bytes_nonneg : (v : Float) → is_non_positive v ≡ false → pos 0 ≤ℤ gb_to_bytes v
unfolding gb_to_bytes is_non_positive
gb_to_bytes_nonneg v h = ground arith

module _ (db : Db) (a : IsAccounted db.clients db.resellers) where
  module _ (r : Reseller) (current : Resellers.get r.telegram_id db ≡ some r) where
    unchanged : (db' : Db) → db'.clients ≡ db.clients → db'.resellers ≡ db.resellers → Keeps db db'
    unchanged db' cs rs = rw (cs, rs) a

    changed :
        (db' : Db) (row : Reseller)
        → row.telegram_id ≡ r.telegram_id
        → db'.clients ≡ db.clients
        → db'.resellers ≡ update (Resellers.is_reseller row.telegram_id) (λ _. row) db.resellers
        → active_bytes row.telegram_id db ≤ℤ row.lifetime_allocated_bytes
        → row.lifetime_allocated_bytes ≤ℤ row.quota_bytes
        → Keeps db db'
    unfolding active_bytes
    changed db' row same cs rs holds within =
        rw (cs, rs)
          (IsAccounted-move db.clients db.clients db.resellers r row a (rw same current) a.unique
            a.sizes (λ t ne. refl) holds within)

    held : active_bytes r.telegram_id db ≤ℤ r.lifetime_allocated_bytes
    unfolding active_bytes
    held = a.held r.telegram_id r current

    quota-add : (v : Float) → Keeps db (apply_add_quota r.telegram_id v db).1
    unfolding apply_add_quota
    quota-add v = elim (Bool-cases (is_non_positive v)) [
      | inl e ↦ unchanged (apply_add_quota r.telegram_id v db).1 (ground arith) (ground arith)
      | inr e ↦
          let delta = gb_to_bytes v in
          changed (apply_add_quota r.telegram_id v db).1
            (record r { quota_bytes = r.quota_bytes +ℤ delta }) refl
            (ground (arith, clients-add_quota r db current delta))
            (ground (arith, resellers-add_quota r db current delta)) held
            (grind (int_laws, a.charged r.telegram_id r current, gb_to_bytes_nonneg v e))
    ]

    quota-subtract : (v : Float) → Keeps db (apply_subtract_quota r.telegram_id v db).1
    unfolding apply_subtract_quota
    quota-subtract v =
        let delta = gb_to_bytes v in
        elim (Bool-cases (is_non_positive v)) [
          | inl e ↦
              unchanged (apply_subtract_quota r.telegram_id v db).1 (ground arith) (ground arith)
          | inr e ↦ elim (Bool-cases (ltb_ℤ (r.quota_bytes -ℤ delta) r.lifetime_allocated_bytes)) [
            | inl low ↦
                unchanged (apply_subtract_quota r.telegram_id v db).1 (ground arith) (ground arith)
            | inr fits ↦
                changed (apply_subtract_quota r.telegram_id v db).1
                  (record r {
                    quota_bytes = max_ℤ r.lifetime_allocated_bytes (r.quota_bytes -ℤ delta);
                  })
                  refl (ground (arith, clients-subtract_quota r db current delta))
                  (ground (arith, resellers-subtract_quota r db current delta)) held
                  (max_ℤ_left r.lifetime_allocated_bytes (r.quota_bytes -ℤ delta))
          ]
        ]

    quota-set : (v : Float) → Keeps db (apply_quota r.telegram_id v db).1
    unfolding apply_quota
    quota-set v =
        let quota = gb_to_bytes v in
        elim (Bool-cases (ltb_ℤ quota r.lifetime_allocated_bytes)) [
          | inl low ↦ unchanged (apply_quota r.telegram_id v db).1 (ground arith) (ground arith)
          | inr fits ↦
              changed (apply_quota r.telegram_id v db).1
                (record r { quota_bytes = quota; is_active = true }) refl
                (ground (arith, clients-upsert_quota r db current quota))
                (ground (arith, resellers-upsert_quota r db current quota)) held
                (ltb_ℤ→ge quota r.lifetime_allocated_bytes fits)
        ]

    usage-reset : Keeps db (apply_reset_quota_usage r.telegram_id db).1
    unfolding apply_reset_quota_usage
    usage-reset =
        changed (apply_reset_quota_usage r.telegram_id db).1
          (record r { lifetime_allocated_bytes = active_bytes r.telegram_id db }) refl
          (ground (arith, clients-reset_lifetime r db current))
          (ground (arith, resellers-reset_lifetime r db current)) (omega arith)
          (omega (arith, held, a.charged r.telegram_id r current))

  module _ (op : ℕ → Db → Db) (tg : ℕ) (absent : Resellers.get tg db ≡ none → Keeps db (op tg db))
      (present : (r : Reseller)
        → Resellers.get r.telegram_id db ≡ some r
        → Keeps db (op r.telegram_id db)) where
    -- An operation on a telegram id, from what it does to a row that is there.
    at_any : Keeps db (op tg db)
    at_any = elim (Option-cases (Resellers.get tg db)) [
      | inl e ↦ absent e
      | inr (r, e) ↦
          let same : r.telegram_id ≡ tg =
            (==_iff r.telegram_id tg).0 (find_sound (Resellers.is_reseller tg) db.resellers r e) in
          subst (λ (t : ℕ). Keeps db (op t db)) same
            (present r (subst (λ (t : ℕ). Resellers.get t db ≡ some r) (sym same) e))
    ]

-- Setting a reseller's quota keeps the accounts of all resellers.
pub apply_quota-IsAccounted :
    (tg : ℕ) (v : Float) (db : Db)
    → IsAccounted db.clients db.resellers
    → Keeps db (apply_quota tg v db).1
apply_quota-IsAccounted tg v db a =
    at_any db a (λ t d. (apply_quota t v d).1) tg (λ e. unfold apply_quota in rw (e, or_raise) a)
      (λ r e. quota-set db a r e v)

pub apply_add_quota-IsAccounted :
    (tg : ℕ) (v : Float) (db : Db)
    → IsAccounted db.clients db.resellers
    → Keeps db (apply_add_quota tg v db).1
apply_add_quota-IsAccounted tg v db a =
    at_any db a (λ t d. (apply_add_quota t v d).1) tg
      (λ e. unfold apply_add_quota in rw (e, or_raise) a) (λ r e. quota-add db a r e v)

pub apply_subtract_quota-IsAccounted :
    (tg : ℕ) (v : Float) (db : Db)
    → IsAccounted db.clients db.resellers
    → Keeps db (apply_subtract_quota tg v db).1
apply_subtract_quota-IsAccounted tg v db a =
    at_any db a (λ t d. (apply_subtract_quota t v d).1) tg
      (λ e. unfold apply_subtract_quota in rw (e, or_raise) a) (λ r e. quota-subtract db a r e v)

pub apply_reset_quota_usage-IsAccounted :
    (tg : ℕ) (db : Db)
    → IsAccounted db.clients db.resellers
    → Keeps db (apply_reset_quota_usage tg db).1
apply_reset_quota_usage-IsAccounted tg db a =
    at_any db a (λ t d. (apply_reset_quota_usage t d).1) tg
      (λ e. unfold apply_reset_quota_usage in rw (e, or_raise) a) (λ r e. usage-reset db a r e)
