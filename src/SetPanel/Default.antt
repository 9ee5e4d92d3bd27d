-- ===== src/SetPanel/Default.antt =====
-- What a change of the default panel leaves.
use resellerbot.Prelude.{
  ℕ, ◌≡◌, false, some, arith, ◌==◌, Option-cases, Bool-cases, inl, inr, false≢true,
}
use resellerbot.Errors.{ok}
use resellerbot.Models.{Db, Reseller, ResellerPanel}
use resellerbot.Repository.Assignments
use resellerbot.Repository.Resellers
use resellerbot.Repository.Panels
use resellerbot.Repository.Resellers.Rows.{find-update_self}
use resellerbot.PanelEdit.{apply_set_default_panel}
use resellerbot.SetPanel.{SetPanelResult, apply_reseller_panel}

-- The row after the default panel became that of `a`.
abbrev pub moved : Reseller → ℕ → ResellerPanel → Reseller
moved r panel_id a = record r {
  panel_id = panel_id;
  allowed_inbound_ids = a.allowed_inbound_ids;
  attach_inbound_ids = a.attach_inbound_ids;
  max_clients = a.max_clients;
}

-- When the change of a reseller's default panel reports a change, the panel is assigned, and the
-- row in the database is the old one with that panel and the inbounds and limit of the assignment.
pub apply_reseller_panel-IsAssigned :
    (r : Reseller) (panel_id : ℕ) (db : Db) (result : SetPanelResult)
    → Resellers.get r.telegram_id db ≡ some r
    → (apply_reseller_panel r.telegram_id panel_id db).0 ≡ ok result
    → result.unchanged ≡ false
    → (a : ResellerPanel) × (Assignments.get r.telegram_id panel_id db ≡ some a)
      × (Resellers.get r.telegram_id (apply_reseller_panel r.telegram_id panel_id db).1
          ≡ some (moved r panel_id a))
unfolding apply_reseller_panel apply_set_default_panel
apply_reseller_panel-IsAssigned r panel_id db result current h u =
    elim (Bool-cases (r.panel_id == panel_id)) [
      | inl e ↦ absurd (false≢true (ground (arith, current)))
      | inr e ↦ elim (Option-cases (Assignments.get r.telegram_id panel_id db)) [
        | inl f ↦ absurd (false≢true (ground (arith, current)))
        | inr (a, f) ↦ elim (Option-cases (Panels.get panel_id db)) [
          | inl g ↦ absurd (false≢true (ground (arith, current)))
          | inr (p, g) ↦ (
            a,
            f,
            ground (arith, current, find-update_self (moved r panel_id a) db.resellers r current),
          )
        ]
      ]
    ]
