-- ===== src/GuestSales/Moving.antt =====
-- What becomes of the guest sales when their panel is changed.
use resellerbot.Prelude.{
  ℕ, ◌≡◌, refl, inl, inr, true, false, false≢true, none, some, List, [], ◌∷◌, arith, ◌==◌, ==_iff,
  find, update, Option-cases, find_sound, find-append_none,
}
use resellerbot.Prelude.Int.{ℤ, ◌+ℤ◌}
use resellerbot.Errors.{Error, panel_unavailable, not_assigned, Result-cases, err}
use resellerbot.Models.{Db, Reseller, ResellerPanel, GuestOrder, Plan, GuestSalesConfig}
use resellerbot.Inbounds.{inbound_ids_from_json}
use resellerbot.Volume.{gb_to_bytes}
use resellerbot.Registry.{Site, Network, xui_for_reseller_panel}
use resellerbot.Repository.Assignments
use resellerbot.Repository.Resellers
use resellerbot.Repository.Resellers.Rows.{find-update_self, resellers-sync}
use resellerbot.GuestSales.{
  ensure_system_reseller, deliver_guest_order, system_reseller_display_name,
}

-- Writing a row leaves a missing one missing.
find-update-none :
    (tg j : ℕ) (row : ResellerPanel) (xs : List ResellerPanel)
    → find (Assignments.is_assignment tg j) xs ≡ none
    → (row.panel_id == j) ≡ false
    → find
        (Assignments.is_assignment tg j)
        (update (Assignments.is_assignment row.reseller_tg_id row.panel_id) (λ _. row) xs)
      ≡ none
find-update-none tg j row [] h e = refl
find-update-none tg j row (x ∷ xs) h e = ground (arith, find-update-none tg j row xs)

-- Copying the settings of a reseller to the default panel assigns no other panel.
sync-other :
    (row : Reseller) (tg j : ℕ) (db : Db)
    → Assignments.get tg j db ≡ none
    → (row.panel_id == j) ≡ false
    → Assignments.get tg j (Resellers.sync_primary_panel_assignment row db).1 ≡ none
unfolding Resellers.sync_primary_panel_assignment Assignments.add
sync-other row tg j db h e = elim (Option-cases (Assignments.get row.telegram_id row.panel_id db)) [
  | inl n ↦ grind (arith, find-append_none)
  | inr (a, n) ↦
      let key =
        find_sound (Assignments.is_assignment row.telegram_id row.panel_id) db.assignments a n in
      let panel : (a.panel_id == j) ≡ false = ground (arith, key) in
      let a' : ResellerPanel = record a {
        allowed_inbound_ids = row.allowed_inbound_ids;
        attach_inbound_ids = row.attach_inbound_ids;
        max_clients = row.max_clients;
      } in
      ground (arith, n, find-update-none tg j a' db.assignments h panel)
]

-- The guest seller is on another panel than `j`, and is not assigned to `j`.
abbrev pub IsElsewhere : ℕ → Db → Type 0
IsElsewhere j db =
    (r : Reseller) × (Resellers.get 0 db ≡ some r)
    × ((r.panel_id == j) ≡ false)
    × (Assignments.get 0 j db ≡ none)

module _ (j : ℕ) where
  save-IsElsewhere :
      (row : Reseller) (db : Db)
      → row.telegram_id ≡ 0
      → (row.panel_id == j) ≡ false
      → IsElsewhere j db
      → IsElsewhere j (Resellers.save row db).1
  save-IsElsewhere row db k e (r, current, f, n) =
      (row, ground (arith, find-update_self row db.resellers r (rw k current)), e, n)

  sync-IsElsewhere :
      (row : Reseller) (db : Db)
      → (row.panel_id == j) ≡ false
      → IsElsewhere j db
      → IsElsewhere j (Resellers.sync_primary_panel_assignment row db).1
  sync-IsElsewhere row db e (r, current, f, n) =
      (r, rw (resellers-sync row db) current, f, sync-other row 0 j db n e)

  key : (db : Db) (r : Reseller) → Resellers.get 0 db ≡ some r → r.telegram_id ≡ 0
  key db r h = (==_iff r.telegram_id 0).0 (find_sound (Resellers.is_reseller 0) db.resellers r h)

  quota-IsElsewhere :
      (b : ℤ) (db : Db) → IsElsewhere j db → IsElsewhere j (Resellers.add_quota_bytes 0 b db).1
  unfolding Resellers.add_quota_bytes
  quota-IsElsewhere b db (r, current, f, n) =
      let row : Reseller = record r { quota_bytes = r.quota_bytes +ℤ b } in
      let after =
        sync-IsElsewhere row (Resellers.save row db).1 f
          (save-IsElsewhere row db (key db r current) f (r, current, f, n)) in
      (after.0, ground (arith, current, after.1), after.2, ground (arith, current, after.3))

  ensure-IsElsewhere :
      (panel_id : ℕ) (ids : List ℕ) (db : Db)
      → IsElsewhere j db
      → IsElsewhere j (ensure_system_reseller panel_id ids db).1
  unfolding ensure_system_reseller Resellers.upsert
  ensure-IsElsewhere panel_id ids db (r, current, f, n) =
      let row : Reseller = record r {
        is_active = true;
        allowed_inbound_ids = ids;
        attach_inbound_ids = some ids;
        display_name = some system_reseller_display_name;
      } in
      let saved = save-IsElsewhere row db (key db r current) f (r, current, f, n) in
      let synced = sync-IsElsewhere row (Resellers.save row db).1 f saved in
      let flagged =
        save-IsElsewhere (record row { is_system = true })
          (Resellers.sync_primary_panel_assignment row (Resellers.save row db).1).1
          (key db r current) f synced in
      elim (Option-cases (Assignments.get 0 j (ensure_system_reseller panel_id ids db).1)) [
        | inl none_there ↦
            elim (Option-cases (Resellers.get 0 (ensure_system_reseller panel_id ids db).1)) [
              | inl e ↦ absurd (false≢true (ground (arith, current, synced.1, flagged.1, e)))
              | inr (x, e) ↦ (x, e, ground (arith, current, f, synced.1, flagged.1, e), none_there)
            ]
        | inr (x, e) ↦ absurd (false≢true (ground (arith, current, n, synced.3, flagged.3, e)))
      ]

xui-refused :
    (r : Reseller) (panel_id : ℕ) (s : Site)
    → Assignments.get r.telegram_id panel_id s.db ≡ none
    → (xui_for_reseller_panel r panel_id s).0 ≡ err (panel_unavailable panel_id not_assigned)
unfolding xui_for_reseller_panel
xui-refused r panel_id s h = ground (arith, h)

-- Once the hidden guest seller exists, a change of the guest panel to one that is not assigned to
-- the seller ends all guest sales: `upsert` does not move the seller to the panel, and every
-- delivery raises.
pub deliver_guest_order_refused :
    (net : Network) (order : GuestOrder) (plan : Plan) (c : GuestSalesConfig) (panel_id : ℕ)
    (s : Site)
    → c.panel_id ≡ some panel_id
    → IsElsewhere panel_id s.db
    → (e : Error) × ((deliver_guest_order net order plan c s).0 ≡ err e)
unfolding deliver_guest_order
deliver_guest_order_refused net order plan c panel_id s h a =
    let ids = inbound_ids_from_json c.inbound_ids in
    let db1 = (ensure_system_reseller panel_id ids s.db).1 in
    let b = gb_to_bytes plan.volume_gb in
    let db2 = (Resellers.add_quota_bytes 0 b db1).1 in
    let there =
      quota-IsElsewhere panel_id b db1 (ensure-IsElsewhere panel_id panel_id ids s.db a) in
    let refused =
      xui-refused there.0 panel_id (record s { db = db2 })
        (rw (key panel_id db2 there.0 there.1) there.3) in
    elim (Result-cases (ensure_system_reseller panel_id ids s.db).0) [
      | inr (e, f) ↦ (e, ground (arith, h, f))
      | inl (r, f) ↦ elim (Result-cases (Resellers.add_quota_bytes 0 b db1).0) [
        | inr (e, g) ↦ (e, ground (arith, h, f, g))
        | inl (q, g) ↦
            (panel_unavailable panel_id not_assigned, ground (arith, h, f, g, there.1, refused))
      ]
    ]
