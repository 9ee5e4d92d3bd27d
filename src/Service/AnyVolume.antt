-- ===== src/Service/AnyVolume.antt =====
-- The methods of ResellerService that take a volume (services/reseller_service.py), on any float that
-- a user can type. `int` of nan or of an infinity raises in `gb_to_bytes`, after the same checks as
-- for a finite volume and before anything is written.
use resellerbot.Prelude.{ℕ, ◌≡◌, not, Option, List, arith}
use resellerbot.Prelude.Int.{ℤ}
use resellerbot.Prelude.Text.{Text}
use resellerbot.Errors.{
  Exec, raise, gets, checks, ◌>>=◌, ◌>>◌, raise_if, or_raise, reraise_quota, quota_exceeded,
  xui_error, no_assignment, reseller_inactive, create_forbidden, volume_too_low, no_integer,
}
use resellerbot.Models.{Db, Reseller, ClientRecord, AnyFloat, finite}
use resellerbot.Volume.{is_any_too_low}
use resellerbot.Inbounds.{inbound_ids_from_json, resolve, resolve_attach_inbound_ids_for_assignment}
use resellerbot.Quota.{get_assignment, check_inbounds}
use resellerbot.Panel.{XuiClient, World, on_db, on_panel, ClientDelivery}
use resellerbot.Repository.Assignments
use resellerbot.Service.{
  AddTrafficResult, RemoveTrafficResult, get_owned_record, create_service, add_service_traffic,
  remove_service_traffic,
}

-- `validate_create` of a volume that is nan or infinite.
unfoldable pub refuse_create : Reseller → ℕ → AnyFloat → List ℕ → Exec Db ℤ
unfolding get_assignment
refuse_create reseller panel_id volume_gb inbound_ids = do
  raise_if (not reseller.is_active) (quota_exceeded reseller_inactive)
  assignment ← get_assignment reseller panel_id
  raise_if (not assignment.is_active) (quota_exceeded create_forbidden)
  checks (λ _. check_inbounds assignment.allowed_inbound_ids inbound_ids)
  raise_if (is_any_too_low volume_gb) (quota_exceeded volume_too_low)
  raise no_integer

-- `validate_add_traffic` of a volume that is nan or infinite.
unfoldable pub refuse_add_traffic : Reseller → ℕ → Exec Db ℤ
unfolding get_assignment
refuse_add_traffic reseller panel_id = do
  raise_if (not reseller.is_active) (quota_exceeded reseller_inactive)
  get_assignment reseller panel_id
  raise no_integer

module _ (xui : XuiClient) where
  open xui use {State, get_traffic}

  -- `create_service` up to `validate_create`, which raises.
  unfoldable pub create_refused :
      {A : Type 0} → Reseller → AnyFloat → Option (List ℕ) → ℕ → Exec (World State) A
  unfolding refuse_create
  create_refused reseller volume_gb inbound_ids panel_id = do
    row ← gets (λ w. Assignments.get reseller.telegram_id panel_id w.db)
    assignment ← or_raise row (xui_error no_assignment)
    let ids =
        resolve (inbound_ids_from_json inbound_ids)
          (resolve_attach_inbound_ids_for_assignment assignment)
    on_db (refuse_create reseller panel_id volume_gb ids)
    raise no_integer

  -- `create_service`
  unfoldable pub create_service_of :
      Reseller
      → AnyFloat
      → ℤ
      → Option (List ℕ)
      → Text
      → ℕ
      → Exec (World State) (ClientRecord × ClientDelivery)
  create_service_of reseller (finite v) days inbound_ids suffix panel_id =
      create_service xui reseller v days inbound_ids suffix panel_id
  create_service_of reseller v days inbound_ids suffix panel_id =
      create_refused reseller v inbound_ids panel_id

  -- `add_service_traffic` up to `validate_add_traffic`, which raises.
  unfoldable pub add_refused : {A : Type 0} → Reseller → Text → Exec (World State) A
  unfolding refuse_add_traffic get_owned_record
  add_refused reseller email = do
    row ← get_owned_record xui reseller email
    reraise_quota (on_db (refuse_add_traffic reseller row.panel_id))
    raise no_integer

  -- `add_service_traffic`
  unfoldable pub add_service_traffic_of :
      Reseller → Text → AnyFloat → Exec (World State) AddTrafficResult
  add_service_traffic_of reseller email (finite v) = add_service_traffic xui reseller email v
  add_service_traffic_of reseller email v = add_refused reseller email

  -- `remove_service_traffic` up to `gb_to_bytes`, which raises.
  unfoldable pub remove_refused : {A : Type 0} → Reseller → Text → Exec (World State) A
  unfolding get_owned_record
  remove_refused reseller email = do
    get_owned_record xui reseller email
    on_panel (get_traffic email)
    reraise_quota (raise_if (not reseller.is_active) (quota_exceeded reseller_inactive))
    raise no_integer

  -- `remove_service_traffic`
  unfoldable pub remove_service_traffic_of :
      Reseller → Text → AnyFloat → Exec (World State) RemoveTrafficResult
  remove_service_traffic_of reseller email (finite v) = remove_service_traffic xui reseller email v
  remove_service_traffic_of reseller email v = remove_refused reseller email

  module _ (A : Type 0) (r : Reseller) (w : World State) where
    pub db-create_refused :
        (v : AnyFloat) (ids : Option (List ℕ)) (p : ℕ)
        → (create_refused {A = A} r v ids p w).1.db ≡ w.db
    unfolding create_refused refuse_create get_assignment
    db-create_refused v ids p = ground arith

    pub db-add_refused : (email : Text) → (add_refused {A = A} r email w).1.db ≡ w.db
    unfolding add_refused refuse_add_traffic get_owned_record get_assignment
    db-add_refused email = ground arith

    pub db-remove_refused : (email : Text) → (remove_refused {A = A} r email w).1.db ≡ w.db
    unfolding remove_refused get_owned_record
    db-remove_refused email = ground arith
