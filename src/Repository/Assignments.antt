-- ===== src/Repository/Assignments.antt =====
-- `ResellerPanelRepository` of db/repository.py.
use resellerbot.Prelude.{
  ℕ, Bool, true, false, ◌&&◌, Option, none, some, List, [], ◌∷◌, ◌++◌, map, ◌==◌, leb, ltb,
  if◌then◌else◌, find, select, update, remove, length, is_some, count_where, order_by,
}
use resellerbot.Prelude.Int.{ℤ, pos, ◌+ℤ◌, ◌-ℤ◌, max_ℤ}
use resellerbot.Errors.{
  Exec, ⊤, pure, gets, checks, modify, ◌>>=◌, ◌>>◌, raise_if, or_raise, when_found, value_error,
  empty_allowed, already_assigned, missing_assignment, has_clients, last_panel,
}
use resellerbot.Models.{Db, ResellerPanel}
use resellerbot.Inbounds.{
  is_empty, differs, inbound_ids_from_json, resolve, resolve_attach_inbound_ids_for_assignment,
  validate_inbound_subset,
}
use resellerbot.Repository.Usage.{client_count_on_panel}

abbrev pub is_assignment : ℕ → ℕ → ResellerPanel → Bool
is_assignment reseller_tg_id panel_id a =
    a.reseller_tg_id == reseller_tg_id && a.panel_id == panel_id

abbrev pub get : ℕ → ℕ → Db → Option ResellerPanel
get reseller_tg_id panel_id db = find (is_assignment reseller_tg_id panel_id) db.assignments

-- The commit of a changed row.
abbrev pub save : ResellerPanel → Exec Db ⊤
save row = modify λ db. record db {
  assignments = update (is_assignment row.reseller_tg_id row.panel_id) (λ _. row) db.assignments;
}

abbrev by_panel_id : ResellerPanel → ResellerPanel → Bool
by_panel_id a b = leb a.panel_id b.panel_id

unfoldable pub list_for_reseller : ℕ → Bool → Db → List ResellerPanel
list_for_reseller reseller_tg_id active_only db =
    let rows = select (λ a. a.reseller_tg_id == reseller_tg_id) db.assignments in
    order_by by_panel_id (if active_only then select (λ a. a.is_active) rows else rows)

unfoldable pub list_active_panel_ids : ℕ → Db → List ℕ
list_active_panel_ids reseller_tg_id db =
    map (λ r. r.panel_id) (list_for_reseller reseller_tg_id true db)

unfoldable pub add : ℕ → ℕ → ℤ → List ℕ → Option (List ℕ) → Option ℤ → Bool → Exec Db ResellerPanel
add reseller_tg_id panel_id quota_bytes allowed_inbound_ids attach_inbound_ids max_clients
      is_active =
    do
      existing ← gets (get reseller_tg_id panel_id)
      raise_if (is_some existing) (value_error already_assigned)
      raise_if (is_empty allowed_inbound_ids) (value_error empty_allowed)
      let attach = resolve (inbound_ids_from_json attach_inbound_ids) allowed_inbound_ids
      checks (λ _. validate_inbound_subset allowed_inbound_ids attach)
      let row : ResellerPanel = record {
        reseller_tg_id = reseller_tg_id;
        panel_id = panel_id;
        quota_bytes = quota_bytes;
        lifetime_allocated_bytes = pos 0;
        allowed_inbound_ids = allowed_inbound_ids;
        attach_inbound_ids = some attach;
        max_clients = max_clients;
        is_active = is_active;
      }
      modify (λ db. record db { assignments = db.assignments ++ row ∷ [] })
      pure row

module _ (reseller_tg_id panel_id : ℕ) where
  unfoldable pub set_quota_bytes : ℤ → Exec Db (Option ResellerPanel)
  set_quota_bytes quota_bytes = do
    row ← gets (get reseller_tg_id panel_id)
    when_found row λ a. do let a' = record a { quota_bytes = quota_bytes }; save a'; pure (some a')

  unfoldable pub add_quota_bytes : ℤ → Exec Db (Option ResellerPanel)
  add_quota_bytes delta = do
    row ← gets (get reseller_tg_id panel_id)
    when_found row
        λ a. do let a' = record a { quota_bytes = a.quota_bytes +ℤ delta }; save a'; pure (some a')

  unfoldable pub add_lifetime_allocated : ℤ → Exec Db ⊤
  add_lifetime_allocated delta = do
    row ← gets (get reseller_tg_id panel_id)
    a ← or_raise row (value_error missing_assignment)
    save (record a { lifetime_allocated_bytes = a.lifetime_allocated_bytes +ℤ delta })

  unfoldable pub subtract_lifetime_allocated : ℤ → Exec Db ⊤
  subtract_lifetime_allocated delta = do
    row ← gets (get reseller_tg_id panel_id)
    a ← or_raise row (value_error missing_assignment)
    save (record a {
      lifetime_allocated_bytes = max_ℤ (pos 0) (a.lifetime_allocated_bytes -ℤ delta);
    })

  unfoldable pub reset_lifetime_to_active : ℤ → Exec Db (Option ResellerPanel)
  reset_lifetime_to_active active_bytes = do
    row ← gets (get reseller_tg_id panel_id)
    when_found row λ a. do
      let a' = record a { lifetime_allocated_bytes = active_bytes }
      save a'
      pure (some a')

  -- The flag tells whether the attached ids changed.
  unfoldable pub set_allowed_inbound_ids : List ℕ → Exec Db (Option (ResellerPanel × Bool))
  set_allowed_inbound_ids allowed = do
    row ← gets (get reseller_tg_id panel_id)
    when_found row λ a. do
      raise_if (is_empty allowed) (value_error empty_allowed)
      let old_attach = resolve_attach_inbound_ids_for_assignment a
      let a' = record a { allowed_inbound_ids = allowed; attach_inbound_ids = some allowed }
      save a'
      pure (some (a', differs old_attach allowed))

  unfoldable pub set_attach_inbound_ids : List ℕ → Exec Db (Option ResellerPanel)
  set_attach_inbound_ids attach = do
    row ← gets (get reseller_tg_id panel_id)
    when_found row λ a. do
      checks (λ _. validate_inbound_subset a.allowed_inbound_ids attach)
      let a' = record a { attach_inbound_ids = some attach }
      save a'
      pure (some a')

  unfoldable pub set_max_clients : Option ℤ → Exec Db (Option ResellerPanel)
  set_max_clients max_clients = do
    row ← gets (get reseller_tg_id panel_id)
    when_found row λ a. do let a' = record a { max_clients = max_clients }; save a'; pure (some a')

  unfoldable pub set_active : Bool → Exec Db (Option ResellerPanel)
  set_active active = do
    row ← gets (get reseller_tg_id panel_id)
    when_found row λ a. do let a' = record a { is_active = active }; save a'; pure (some a')

  -- `false` if there was no such row.
  unfoldable pub delete : Exec Db Bool
  delete = do
    row ← gets (get reseller_tg_id panel_id)
    elim row [
      | none ↦ pure false
      | some _ ↦ do
        count ← gets (client_count_on_panel reseller_tg_id panel_id)
        raise_if (ltb 0 count) (value_error has_clients)
        assignments ← gets (list_for_reseller reseller_tg_id false)
        raise_if (leb (length assignments) 1) (value_error last_panel)
        modify λ db. record db {
          assignments = remove (is_assignment reseller_tg_id panel_id) db.assignments;
        }
        pure true
    ]

unfoldable pub assignment_count_on_panel : ℕ → Db → ℕ
assignment_count_on_panel panel_id db = count_where (λ a. a.panel_id == panel_id) db.assignments
