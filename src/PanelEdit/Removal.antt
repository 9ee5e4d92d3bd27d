-- ===== src/PanelEdit/Removal.antt =====
-- Removing the assignment of a reseller's default panel.
use resellerbot.Prelude.{
  ◌≡◌, ◌<◌, refl, Bool, false, none, some, List, [], ◌∷◌, arith, find, remove, length,
}
use resellerbot.Errors.{ok, err, panel_unavailable, not_assigned}
use resellerbot.Models.{Reseller, ResellerPanel, Panel}
use resellerbot.Repository.Usage.{client_count_on_panel}
use resellerbot.Repository.Assignments
use resellerbot.Repository.Resellers
use resellerbot.Repository.Panels
use resellerbot.Registry.{Site, xui_for_reseller, xui_for_reseller_panel}
use resellerbot.PanelEdit.{apply_remove_panel_assignment, edited}

find-remove {ℓ} : {A : Type ℓ} (p : A → Bool) (xs : List A) → find p (remove p xs) ≡ none
find-remove p [] = refl
find-remove p (x ∷ xs) = ground (arith, find-remove p xs)

module _ (r : Reseller) (a : ResellerPanel) (p : Panel) (s : Site)
    (current : Resellers.get r.telegram_id s.db ≡ some r)
    (assigned : Assignments.get r.telegram_id r.panel_id s.db ≡ some a)
    (present : Panels.get r.panel_id s.db ≡ some p)
    (unused : client_count_on_panel r.telegram_id r.panel_id s.db ≡ 0)
    (several : 1 < length (Assignments.list_for_reseller r.telegram_id false s.db)) where
  remove-ok : apply_remove_panel_assignment r.telegram_id r.panel_id s.db ≡ (
    ok (edited a p),
    record s.db {
      assignments = remove (Assignments.is_assignment r.telegram_id r.panel_id) s.db.assignments;
    },
  )
  unfolding apply_remove_panel_assignment Assignments.delete
  remove-ok = ground (arith, current, assigned, present, unused, several)

  -- The admin may remove the assignment of a reseller's default panel, when the reseller has no
  -- service there and has another panel: the removal succeeds, the reseller still points to that
  -- panel, and every attempt to reach the panel for the reseller is refused as not assigned.
  pub remove_default_locks_out :
      ((apply_remove_panel_assignment r.telegram_id r.panel_id s.db).0 ≡ ok (edited a p))
      × (Resellers.get r.telegram_id (apply_remove_panel_assignment r.telegram_id r.panel_id s.db).1
          ≡ some r)
      × ((xui_for_reseller r
            (record s { db = (apply_remove_panel_assignment r.telegram_id r.panel_id s.db).1 })).0
          ≡ err (panel_unavailable r.panel_id not_assigned))
  unfolding xui_for_reseller xui_for_reseller_panel
  remove_default_locks_out = (
    rw remove-ok refl,
    rw remove-ok current,
    rw remove-ok (
        ground (
          arith,
          find-remove (Assignments.is_assignment r.telegram_id r.panel_id) s.db.assignments,
        )),
  )
