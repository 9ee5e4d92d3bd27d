-- ===== src/Repository/Resellers.antt =====
-- `ResellerRepository` of db/repository.py.
--
-- `UNSET` arguments are `none`. The deletion of a row that other tables refer to is SQLAlchemy's
-- (`session.delete`): it is an argument of `delete`.
pub mod Rows
use resellerbot.Prelude.{
  ℕ, Bool, true, false, not, ◌&&◌, Option, none, some, List, [], ◌∷◌, ◌++◌, ◌==◌, leb, ltb,
  if◌then◌else◌, find, select, update, remove, is_some, order_by,
}
use resellerbot.Prelude.Int.{ℤ, pos, ◌+ℤ◌, ◌-ℤ◌, max_ℤ}
use resellerbot.Prelude.Text.{Text}
use resellerbot.Errors.{
  Exec, ⊤, pure, raise, gets, checks, modify, ◌>>=◌, ◌>>◌, raise_if, or_raise, when_found,
  value_error, empty_allowed, allowed_required, missing_reseller, has_clients, Result, ok, err,
}
use resellerbot.Models.{Db, Reseller}
use resellerbot.Inbounds.{
  is_empty, differs, inbound_ids_from_json, resolve_attach_inbound_ids, validate_inbound_subset,
}
use resellerbot.Repository.Usage.{active_bytes, client_count}
use resellerbot.Repository.Assignments

abbrev pub is_reseller : ℕ → Reseller → Bool
is_reseller telegram_id r = r.telegram_id == telegram_id

abbrev pub get : ℕ → Db → Option Reseller
get telegram_id db = find (is_reseller telegram_id) db.resellers

-- The commit of a changed row.
abbrev pub save : Reseller → Exec Db ⊤
save row =
    modify
      λ db. record db { resellers = update (is_reseller row.telegram_id) (λ _. row) db.resellers }

abbrev by_created_at : Reseller → Reseller → Bool
by_created_at a b = leb a.created_at b.created_at

unfoldable pub list_all : Db → List Reseller
list_all db = order_by by_created_at (select (λ r. not r.is_system) db.resellers)

unfoldable pub list_active : Db → List Reseller
list_active db = order_by by_created_at (select (λ r. r.is_active && not r.is_system) db.resellers)

-- `_sync_primary_panel_assignment`
unfoldable pub sync_primary_panel_assignment : Reseller → Exec Db ⊤
sync_primary_panel_assignment row = do
  assignment ← gets (Assignments.get row.telegram_id row.panel_id)
  elim assignment [
    | none ↦ do
      Assignments.add row.telegram_id row.panel_id row.quota_bytes row.allowed_inbound_ids
          row.attach_inbound_ids row.max_clients true
      pure tt
    | some a ↦ Assignments.save (record a {
      allowed_inbound_ids = row.allowed_inbound_ids;
      attach_inbound_ids = row.attach_inbound_ids;
      max_clients = row.max_clients;
    })
  ]

-- The checks of `upsert`, which write nothing. A new row without an allowed list is refused first.
validate_upsert : Option Reseller → Option (List ℕ) → Option (List ℕ) → Result ⊤
validate_upsert none none attach = err (value_error allowed_required)
validate_upsert row (some allowed) none =
    if is_empty allowed then err (value_error empty_allowed) else ok tt
validate_upsert row (some allowed) (some attach) =
    if is_empty allowed
    then err (value_error empty_allowed)
    else validate_inbound_subset allowed attach
validate_upsert (some r) none none = ok tt
validate_upsert (some r) none (some attach) = validate_inbound_subset r.allowed_inbound_ids attach

abbrev or_else {ℓ} : {A : Type ℓ} → Option A → A → A
or_else none a = a
or_else (some b) a = b

-- `x if x is not None else old`, on a nullable column
abbrev or_old {ℓ} : {A : Type ℓ} → Option A → Option A → Option A
or_old none old = old
or_old (some b) old = some b

module _ (telegram_id : ℕ) (quota_bytes : ℤ) (allowed attach : Option (List ℕ)) (panel_id : ℕ)
    (display_name : Option Text) (is_active : Bool) (max_clients : Option (Option ℤ)) where
  -- The row that `upsert` writes.
  upserted : ℕ → Option Reseller → Reseller
  upserted now (some r) = record r {
    quota_bytes = quota_bytes;
    is_active = is_active;
    allowed_inbound_ids = or_else allowed r.allowed_inbound_ids;
    attach_inbound_ids = or_old attach r.attach_inbound_ids;
    max_clients = or_else max_clients r.max_clients;
    display_name = or_old display_name r.display_name;
  }
  upserted now none = record {
    telegram_id = telegram_id;
    panel_id = panel_id;
    display_name = display_name;
    quota_bytes = quota_bytes;
    lifetime_allocated_bytes = pos 0;
    allowed_inbound_ids = or_else allowed [];
    attach_inbound_ids = some (or_else attach (or_else allowed []));
    is_active = is_active;
    max_clients = or_else max_clients none;
    is_system = false;
    created_at = now;
  }

  store : Option Reseller → Reseller → Exec Db ⊤
  store (some _) row = save row
  store none row = modify (λ db. record db { resellers = db.resellers ++ row ∷ [] })

  unfoldable pub upsert : Exec Db Reseller
  unfolding validate_upsert upserted store
  upsert = do
    existing ← gets (get telegram_id)
    checks (λ _. validate_upsert existing allowed attach)
    now ← gets (λ db. db.clock)
    let row = upserted now existing
    store existing row
    sync_primary_panel_assignment row
    pure row

module _ (telegram_id : ℕ) where
  unfoldable pub set_allowed_inbound_ids : List ℕ → Exec Db (Option (Reseller × Bool))
  set_allowed_inbound_ids allowed = do
    row ← gets (get telegram_id)
    when_found row λ r. do
      raise_if (is_empty allowed) (value_error empty_allowed)
      let old_attach = resolve_attach_inbound_ids r
      let r' = record r { allowed_inbound_ids = allowed; attach_inbound_ids = some allowed }
      save r'
      sync_primary_panel_assignment r'
      pure (some (r', differs old_attach allowed))

  unfoldable pub set_attach_inbound_ids : List ℕ → Exec Db (Option Reseller)
  set_attach_inbound_ids attach = do
    row ← gets (get telegram_id)
    when_found row λ r. do
      checks (λ _. validate_inbound_subset r.allowed_inbound_ids attach)
      let r' = record r { attach_inbound_ids = some attach }
      save r'
      sync_primary_panel_assignment r'
      pure (some r')

  unfoldable pub set_display_name : Text → Exec Db (Option Reseller)
  set_display_name display_name = do
    row ← gets (get telegram_id)
    when_found row
        λ r. do let r' = record r { display_name = some display_name }; save r'; pure (some r')

  unfoldable pub set_active : Bool → Exec Db (Option Reseller)
  set_active active = do
    row ← gets (get telegram_id)
    when_found row λ r. do let r' = record r { is_active = active }; save r'; pure (some r')

  unfoldable pub set_panel_id : ℕ → Exec Db (Option Reseller)
  set_panel_id panel_id = do
    row ← gets (get telegram_id)
    when_found row λ r. do
      count ← gets (client_count telegram_id)
      raise_if (ltb 0 count) (value_error has_clients)
      let r' = record r { panel_id = panel_id }
      save r'
      pure (some r')

  unfoldable pub set_max_clients : Option ℤ → Exec Db (Option Reseller)
  set_max_clients max_clients = do
    row ← gets (get telegram_id)
    when_found row λ r. do
      let r' = record r { max_clients = max_clients }
      save r'
      sync_primary_panel_assignment r'
      pure (some r')

  unfoldable pub add_lifetime_allocated : ℤ → Exec Db ⊤
  add_lifetime_allocated delta = do
    row ← gets (get telegram_id)
    r ← or_raise row (value_error missing_reseller)
    let r' = record r { lifetime_allocated_bytes = r.lifetime_allocated_bytes +ℤ delta }
    save r'
    sync_primary_panel_assignment r'

  unfoldable pub subtract_lifetime_allocated : ℤ → Exec Db ⊤
  subtract_lifetime_allocated delta = do
    row ← gets (get telegram_id)
    r ← or_raise row (value_error missing_reseller)
    let r' = record r {
      lifetime_allocated_bytes = max_ℤ (pos 0) (r.lifetime_allocated_bytes -ℤ delta);
    }
    save r'
    sync_primary_panel_assignment r'

  unfoldable pub reset_lifetime_to_active : Exec Db (Option Reseller)
  reset_lifetime_to_active = do
    row ← gets (get telegram_id)
    when_found row λ r. do
      active ← gets (active_bytes telegram_id)
      let r' = record r { lifetime_allocated_bytes = active }
      save r'
      sync_primary_panel_assignment r'
      pure (some r')

  unfoldable pub add_quota_bytes : ℤ → Exec Db (Option Reseller)
  add_quota_bytes delta = do
    row ← gets (get telegram_id)
    when_found row λ r. do
      let r' = record r { quota_bytes = r.quota_bytes +ℤ delta }
      save r'
      sync_primary_panel_assignment r'
      pure (some r')

  unfoldable pub subtract_quota_bytes : ℤ → Exec Db (Option Reseller)
  subtract_quota_bytes delta = do
    row ← gets (get telegram_id)
    when_found row λ r. do
      let r' = record r { quota_bytes = max_ℤ r.lifetime_allocated_bytes (r.quota_bytes -ℤ delta) }
      save r'
      sync_primary_panel_assignment r'
      pure (some r')

  unfoldable pub delete : (Reseller → Exec Db ⊤) → Exec Db Bool
  delete session_delete = do
    row ← gets (get telegram_id)
    elim row [
      | none ↦ pure false
      | some r ↦ do
        count ← gets (client_count telegram_id)
        raise_if (ltb 0 count) (value_error has_clients)
        modify
            (λ db. record db { alerts = remove (λ a. a.reseller_tg_id == telegram_id) db.alerts })
        session_delete r
        pure true
    ]

  unfoldable pub sync_legacy_from_primary_panel : Exec Db ⊤
  sync_legacy_from_primary_panel = do
    row ← gets (get telegram_id)
    elim row [
      | none ↦ pure tt
      | some r ↦ do
        primary ← gets (Assignments.get telegram_id r.panel_id)
        elim primary [
          | none ↦ pure tt
          | some a ↦ save (record r {
            allowed_inbound_ids = a.allowed_inbound_ids;
            attach_inbound_ids = a.attach_inbound_ids;
            max_clients = a.max_clients;
          })
        ]
    ]
