-- ===== src/PanelEdit.antt =====
-- services/reseller_panel_edit.py and services/set_panel.py: what an admin changes of the
-- assignment of a reseller to a panel. The rendered message of a result is left out; the flag is
-- whether it carries its warning.
pub mod Removal
pub mod Pool
use resellerbot.Prelude.{
  ℕ, Bool, true, false, not, Option, none, some, List, [], ◌∷◌, ◌==◌, if◌then◌else◌,
}
use resellerbot.Prelude.Int.{ℤ, pos, ltb_ℤ}
use resellerbot.Errors.{
  Exec, ⊤, pure, raise, gets, ◌>>=◌, ◌>>◌, raise_if, or_raise, Error, value_error,
  non_positive_amount, reseller_not_found, assignment_not_found, panel_not_found, assertion_error,
  set_panel_blocked,
}
use resellerbot.Models.{Db, Reseller, ResellerPanel, Panel, Float}
use resellerbot.Volume.{gb_to_bytes, is_non_positive}
use resellerbot.Quota.{status}
use resellerbot.Repository.Usage.{active_bytes_on_panel}
use resellerbot.Repository.Assignments
use resellerbot.Repository.Resellers
use resellerbot.Repository.Panels

pub record PanelEditResult : Type 0 where
  pub assignment : ResellerPanel
  pub panel : Panel
  pub warning : Bool

abbrev pub edited : ResellerPanel → Panel → PanelEditResult
edited a p = record { assignment = a; panel = p; warning = false }

-- `reseller and reseller.panel_id == panel_id`
abbrev is_default_panel : Option Reseller → ℕ → Bool
is_default_panel none panel_id = false
is_default_panel (some r) panel_id = r.panel_id == panel_id

-- `if b: await m`, whose result is not used.
abbrev also : {A : Type 0} → Bool → Exec Db A → Exec Db ⊤
also false m = pure tt
also true m = do m; pure tt

module _ (telegram_id panel_id : ℕ) where
  -- `_get_assignment`
  unfoldable pub get_assignment : Exec Db (ResellerPanel × Panel)
  get_assignment = do
    reseller ← gets (Resellers.get telegram_id)
    or_raise reseller reseller_not_found
    row ← gets (Assignments.get telegram_id panel_id)
    assignment ← or_raise row assignment_not_found
    found ← gets (Panels.get panel_id)
    panel ← or_raise found panel_not_found
    pure (assignment, panel)

  set_pool : Option Reseller → ℤ → Exec Db ⊤
  set_pool none quota_bytes = pure tt
  set_pool (some r) quota_bytes = elim (r.panel_id == panel_id) [
    | false ↦ pure tt
    | true ↦ Resellers.save (record r { quota_bytes = quota_bytes })
  ]

  unfoldable pub apply_panel_quota : Float → Exec Db PanelEditResult
  unfolding get_assignment set_pool
  apply_panel_quota quota_gb = do
    (_, panel) ← get_assignment
    written ← Assignments.set_quota_bytes telegram_id panel_id (gb_to_bytes quota_gb)
    row ← or_raise written assertion_error
    reseller ← gets (Resellers.get telegram_id)
    set_pool reseller row.quota_bytes
    pure (edited row panel)

  unfoldable pub apply_panel_add_quota : Float → Exec Db PanelEditResult
  unfolding get_assignment
  apply_panel_add_quota add_gb = do
    raise_if (is_non_positive add_gb) (value_error non_positive_amount)
    (_, panel) ← get_assignment
    written ← Assignments.add_quota_bytes telegram_id panel_id (gb_to_bytes add_gb)
    row ← or_raise written assertion_error
    reseller ← gets (Resellers.get telegram_id)
    also (is_default_panel reseller panel_id)
        (Resellers.add_quota_bytes telegram_id (gb_to_bytes add_gb))
    pure (edited row panel)

  unfoldable pub apply_panel_reset_quota_usage : Exec Db PanelEditResult
  unfolding get_assignment
  apply_panel_reset_quota_usage = do
    (_, panel) ← get_assignment
    active ← gets (active_bytes_on_panel telegram_id panel_id)
    written ← Assignments.reset_lifetime_to_active telegram_id panel_id active
    row ← or_raise written assertion_error
    reseller ← gets (Resellers.get telegram_id)
    also (is_default_panel reseller panel_id) (Resellers.reset_lifetime_to_active telegram_id)
    current ← gets (Resellers.get telegram_id)
    r ← or_raise current assertion_error
    status r (some panel_id)
    pure (edited row panel)

  unfoldable pub apply_panel_allowed_inbounds : List ℕ → Exec Db PanelEditResult
  unfolding get_assignment
  apply_panel_allowed_inbounds inbound_ids = do
    written ← Assignments.set_allowed_inbound_ids telegram_id panel_id inbound_ids
    (row, trimmed) ← or_raise written assignment_not_found
    (_, panel) ← get_assignment
    reseller ← gets (Resellers.get telegram_id)
    also (is_default_panel reseller panel_id)
        (Resellers.set_allowed_inbound_ids telegram_id inbound_ids)
    pure (record { assignment = row; panel = panel; warning = trimmed })

  unfoldable pub apply_panel_attach_inbounds : List ℕ → Exec Db PanelEditResult
  unfolding get_assignment
  apply_panel_attach_inbounds inbound_ids = do
    written ← Assignments.set_attach_inbound_ids telegram_id panel_id inbound_ids
    row ← or_raise written assignment_not_found
    (_, panel) ← get_assignment
    reseller ← gets (Resellers.get telegram_id)
    also (is_default_panel reseller panel_id)
        (Resellers.set_attach_inbound_ids telegram_id inbound_ids)
    pure (edited row panel)

  unfoldable pub apply_panel_max_clients : ℤ → Exec Db PanelEditResult
  unfolding get_assignment
  apply_panel_max_clients max_clients = do
    found ← gets (Resellers.get telegram_id)
    reseller ← or_raise found reseller_not_found
    st ← status reseller (some panel_id)
    written ← Assignments.set_max_clients telegram_id panel_id (some max_clients)
    row ← or_raise written assertion_error
    (_, panel) ← get_assignment
    also (reseller.panel_id == panel_id) (Resellers.set_max_clients telegram_id (some max_clients))
    let many = ltb_ℤ max_clients (pos st.client_count)
    pure (record { assignment = row; panel = panel; warning = many })

  unfoldable pub apply_add_panel_assignment :
      List ℕ → Option (List ℕ) → Option ℤ → Exec Db PanelEditResult
  apply_add_panel_assignment allowed_inbound_ids attach_inbound_ids max_clients = do
    found ← gets (Resellers.get telegram_id)
    or_raise found reseller_not_found
    found_panel ← gets (Panels.get panel_id)
    panel ← or_raise found_panel panel_not_found
    row ←
        Assignments.add telegram_id panel_id (pos 0) allowed_inbound_ids attach_inbound_ids
          max_clients true
    pure (edited row panel)

  unfoldable pub apply_remove_panel_assignment : Exec Db PanelEditResult
  unfolding get_assignment
  apply_remove_panel_assignment = do
    (assignment, panel) ← get_assignment
    Assignments.delete telegram_id panel_id
    pure (edited assignment panel)

  unfoldable pub apply_panel_toggle_create_allowed : Exec Db PanelEditResult
  unfolding get_assignment
  apply_panel_toggle_create_allowed = do
    (assignment, panel) ← get_assignment
    written ← Assignments.set_active telegram_id panel_id (not assignment.is_active)
    row ← or_raise written assertion_error
    pure (edited row panel)

  unfoldable pub apply_set_default_panel : Exec Db PanelEditResult
  apply_set_default_panel = do
    found ← gets (Resellers.get telegram_id)
    reseller ← or_raise found reseller_not_found
    row ← gets (Assignments.get telegram_id panel_id)
    assignment ← or_raise row assignment_not_found
    found_panel ← gets (Panels.get panel_id)
    panel ← or_raise found_panel panel_not_found
    Resellers.save (record reseller {
      panel_id = panel_id;
      allowed_inbound_ids = assignment.allowed_inbound_ids;
      attach_inbound_ids = assignment.attach_inbound_ids;
      max_clients = assignment.max_clients;
    })
    pure (edited assignment panel)
