-- ===== src/ResellerEdit/Quotas.antt =====
-- What setting a quota does to the row.
use resellerbot.Prelude.{
  ℕ, ◌≡◌, ◌⊎◌, inl, inr, true, none, some, arith, sym, subst, Bool-cases, Option-cases, ==_iff,
  find_sound,
}
use resellerbot.Prelude.Int.{◌≤ℤ◌, ◌<ℤ◌, ltb_ℤ, ge→ltb_ℤ, ltb_ℤ→ge}
use resellerbot.Errors.{Result, err, value_error, below_lifetime, reseller_not_found}
use resellerbot.Models.{Db, Reseller, Float}
use resellerbot.Volume.{gb_to_bytes}
use resellerbot.Repository.Resellers
use resellerbot.Repository.Resellers.Rows.{find-update_self, resellers-upsert_quota}
use resellerbot.ResellerEdit.{apply_quota}

pub apply_quota_reactivates :
    (r : Reseller) (v : Float) (db : Db)
    → Resellers.get r.telegram_id db ≡ some r
    → r.lifetime_allocated_bytes ≤ℤ gb_to_bytes v
    → Resellers.get r.telegram_id (apply_quota r.telegram_id v db).1
      ≡ some (record r { quota_bytes = gb_to_bytes v; is_active = true })
unfolding apply_quota
apply_quota_reactivates r v db current fits =
    let row = record r { quota_bytes = gb_to_bytes v; is_active = true } in
    ground (
      arith,
      resellers-upsert_quota r db current (gb_to_bytes v),
      find-update_self row db.resellers r current,
      ge→ltb_ℤ (gb_to_bytes v) r.lifetime_allocated_bytes fits,
    )

-- What comes of setting a quota: an unknown reseller and a quota below the charge are refused, with
-- nothing written, and any other quota is written.
abbrev pub IsQuotaSet : ℕ → Float → Db → Result Reseller × Db → Type 0
IsQuotaSet tg v db (result, db') =
    ((Resellers.get tg db ≡ none) × (result ≡ err reseller_not_found) × (db' ≡ db))
    ⊎ ((r : Reseller) × (Resellers.get tg db ≡ some r)
        × (((gb_to_bytes v <ℤ r.lifetime_allocated_bytes)
              × (result ≡ err (value_error below_lifetime))
              × (db' ≡ db))
            ⊎ ((r.lifetime_allocated_bytes ≤ℤ gb_to_bytes v)
                × (Resellers.get tg db'
                    ≡ some (record r { quota_bytes = gb_to_bytes v; is_active = true })))))

quota-known :
    (r : Reseller) (v : Float) (db : Db)
    → Resellers.get r.telegram_id db ≡ some r
    → IsQuotaSet r.telegram_id v db (apply_quota r.telegram_id v db)
unfolding apply_quota Resellers.upsert
quota-known r v db current = elim (Bool-cases (ltb_ℤ (gb_to_bytes v) r.lifetime_allocated_bytes)) [
  | inl low ↦ inr (r, current, inl (ground arith, ground arith, ground arith))
  | inr fits ↦
      let enough = ltb_ℤ→ge (gb_to_bytes v) r.lifetime_allocated_bytes fits in
      inr (r, current, inr (enough, apply_quota_reactivates r v db current enough))
]

-- Setting a quota has one of three outcomes: for an unknown reseller, and for a quota below the
-- charge, the error of that case with the database unchanged; and for any other quota, the row with
-- this quota, active, that is found afterwards.
pub apply_quota-IsQuotaSet :
    (tg : ℕ) (v : Float) (db : Db) → IsQuotaSet tg v db (apply_quota tg v db)
unfolding apply_quota
apply_quota-IsQuotaSet tg v db = elim (Option-cases (Resellers.get tg db)) [
  | inl e ↦ inl (e, ground arith, ground arith)
  | inr (r, e) ↦
      let same : r.telegram_id ≡ tg =
        (==_iff r.telegram_id tg).0 (find_sound (Resellers.is_reseller tg) db.resellers r e) in
      subst (λ (t : ℕ). IsQuotaSet t v db (apply_quota t v db)) same
        (quota-known r v db (subst (λ (t : ℕ). Resellers.get t db ≡ some r) (sym same) e))
]
