-- ===== src/SetPanel.antt =====
-- services/set_panel.py: the default panel of a reseller.
pub mod Default
use resellerbot.Prelude.{ℕ, Bool, true, false, Option, none, some, ◌==◌}
use resellerbot.Errors.{
  Exec, pure, raise, gets, ◌>>=◌, or_raise, except_any, Error, assignment_not_found,
  reseller_not_found, panel_not_found, assertion_error, set_panel_blocked,
}
use resellerbot.Models.{Db, Reseller, Panel}
use resellerbot.Repository.Resellers
use resellerbot.Repository.Panels
use resellerbot.PanelEdit.{apply_set_default_panel}

pub record SetPanelResult : Type 0 where
  pub reseller : Reseller
  pub panel : Panel
  pub unchanged : Bool

-- The `except` clauses: a panel that is not assigned blocks the change.
abbrev as_blocked : ℕ → Error → Error
as_blocked panel_id assignment_not_found = set_panel_blocked panel_id
as_blocked panel_id e = e

unfoldable pub apply_reseller_panel : ℕ → ℕ → Exec Db SetPanelResult
apply_reseller_panel telegram_id panel_id = do
  found ← gets (Resellers.get telegram_id)
  reseller ← or_raise found reseller_not_found
  elim (reseller.panel_id == panel_id) [
    | true ↦ do
      row ← gets (Panels.get panel_id)
      panel ← or_raise row panel_not_found
      pure (record { reseller = reseller; panel = panel; unchanged = true })
    | false ↦ do
      result ←
          except_any (apply_set_default_panel telegram_id panel_id)
            (λ e. raise (as_blocked panel_id e))
      current ← gets (Resellers.get telegram_id)
      updated ← or_raise current assertion_error
      pure (record { reseller = updated; panel = result.panel; unchanged = false })
  ]
