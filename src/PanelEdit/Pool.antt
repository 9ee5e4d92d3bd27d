-- ===== src/PanelEdit/Pool.antt =====
-- What setting the quota of a default panel does to the reseller's pool.
use resellerbot.Prelude.{◌≡◌, some, arith, ==_refl}
use resellerbot.Models.{Db, Reseller, ResellerPanel, Panel, Float}
use resellerbot.Volume.{gb_to_bytes}
use resellerbot.Repository.Assignments
use resellerbot.Repository.Resellers
use resellerbot.Repository.Resellers.Rows.{find-update_self}
use resellerbot.Repository.Panels
use resellerbot.PanelEdit.{apply_panel_quota}

-- Setting the quota of an assignment on a reseller's default panel sets the pool of the reseller to
-- it, whatever was charged: there is no condition on the charge.
pub apply_panel_quota_unchecked :
    (r : Reseller) (a : ResellerPanel) (p : Panel) (v : Float) (db : Db)
    → Resellers.get r.telegram_id db ≡ some r
    → Assignments.get r.telegram_id r.panel_id db ≡ some a
    → Panels.get r.panel_id db ≡ some p
    → Resellers.get r.telegram_id (apply_panel_quota r.telegram_id r.panel_id v db).1
      ≡ some (record r { quota_bytes = gb_to_bytes v })
unfolding apply_panel_quota Assignments.set_quota_bytes
apply_panel_quota_unchecked r a p v db current assigned present = ground (
  arith,
  current,
  assigned,
  present,
  ==_refl r.panel_id,
  find-update_self (record r { quota_bytes = gb_to_bytes v }) db.resellers r current,
)
