-- ===== src/Service.antt =====
-- `ResellerService` of services/reseller_service.py: the services of a reseller, in the database and
-- on the panel.
--
-- The reseller that a method is given is the session's row object: after a commit it shows what was
-- written (`tracked`).
pub mod Accounts
pub mod Creation
pub mod Deletion
pub mod Resizing
pub mod Addressing
pub mod Extending
pub mod AnyVolume
use resellerbot.Prelude.{
  ℕ, suc, ◌*◌, Bool, true, false, not, ◌&&◌, Option, none, some, List, [], ◌∷◌, ◌++◌, ◌==◌, leb,
  ltb, if◌then◌else◌, is_some, length,
}
use resellerbot.Prelude.Int.{ℤ, pos, negsuc, ◌+ℤ◌, ◌-ℤ◌, ltb_ℤ, leb_ℤ, max_ℤ}
use resellerbot.Prelude.Text.{Text, codes, strip, take_text}
use resellerbot.Errors.{
  Exec, ⊤, pure, raise, gets, checks, modify, ◌>>=◌, ◌>>◌, raise_if, or_raise, when, except_xui,
  except_any, reraise_quota, xui_error, no_assignment, email_taken, email_on_panel, not_owned,
  no_days, no_expiry, client_missing, create_failed, negative_limit_ip,
}
use resellerbot.Models.{Db, Reseller, ClientRecord, Float}
use resellerbot.Inbounds.{inbound_ids_from_json, resolve, resolve_attach_inbound_ids_for_assignment}
use resellerbot.Volume.{gb_to_bytes}
use resellerbot.Labels.{build_client_email, panel_group_name}
use resellerbot.Quota.{
  validate_create, validate_add_traffic, validate_remove_traffic, global_status,
}
use resellerbot.Panel.{XuiClient, World, on_db, on_panel, Traffic, PanelClient, ClientDelivery}
use resellerbot.Repository.Assignments
use resellerbot.Repository.Resellers
use resellerbot.Repository.Clients
use resellerbot.Repository.Alerts

abbrev pub client_traffic : Text
client_traffic = codes "client_traffic"

-- `client_traffic_used_bytes`
abbrev pub used_bytes : Traffic → ℤ
used_bytes t = t.up +ℤ t.down

-- `is_quota_refund_eligible`, with the setting `quota_refund_max_traffic_gb`.
unfoldable pub is_quota_refund_eligible : Float → ℤ → Bool
is_quota_refund_eligible max_traffic_gb used = ltb_ℤ used (gb_to_bytes max_traffic_gb)

-- `days * 86400 * 1000`
unfoldable pub days_ms : ℤ → ℤ
days_ms (pos d) = pos (d * 86400000)
days_ms (negsuc d) = pos 0 -ℤ pos ((suc d) * 86400000)

-- `resolve_expiry_after_add_days` of xui/client.py, at the time `now_ms`.
unfoldable pub resolve_expiry_after_add_days : ℤ → ℤ → ℤ → ℤ
resolve_expiry_after_add_days now_ms current_ms days =
    (if ltb_ℤ (pos 0) current_ms then max_ℤ now_ms current_ms else now_ms) +ℤ days_ms days

pub record AddTrafficResult : Type 0 where
  pub added_bytes : ℤ
  pub new_total_bytes : ℤ
  pub remaining_bytes : ℤ

-- What the checks of `create_service` have found.
pub record NewService : Type 0 where
  pub ids : List ℕ
  pub allocated : ℤ
  pub email : Text
  pub expiry_ms : ℤ

pub record RemoveTrafficResult : Type 0 where
  pub removed_bytes : ℤ
  pub new_total_bytes : ℤ
  pub remaining_bytes : ℤ

-- The row object of a reseller, as the session shows it now.
unfoldable pub tracked : Reseller → Db → Reseller
tracked reseller db = elim (Resellers.get reseller.telegram_id db) [ none ↦ reseller | some r ↦ r ]

abbrev pub max_comment_len : ℕ
max_comment_len = 200

-- `validate_comment` of bot/utils/edit_service.py; its length test never fails on what
-- `normalize_comment` has cut.
unfoldable pub validate_comment : Text → Text
validate_comment raw = take_text max_comment_len (strip raw)

module _ (xui : XuiClient) where
  open xui use {
    State, auto_reseller_group, get_client, create_client, get_client_delivery, get_traffic,
    delete_client, set_client_enabled, add_client_expiry_days, set_client_expiry_ms,
    add_client_traffic_bytes, subtract_client_traffic_bytes, update_limit_ip, update_comment,
  }

  -- `_get_owned_record`
  unfoldable pub get_owned_record : Reseller → Text → Exec (World State) ClientRecord
  get_owned_record reseller email = do
    row ← gets (λ w. Clients.get_for_reseller_email reseller.telegram_id email w.db)
    or_raise row (xui_error not_owned)

  -- The `try` block of `create_service`: the panel's client, its subscription id and its links.
  create_on_panel :
      ClientRecord → Float → List ℕ → ℤ → Text → Exec (World State) (ClientRecord × ClientDelivery)
  create_on_panel row volume_gb ids expiry_days group = do
    sub_id ← on_panel (create_client row.email volume_gb ids expiry_days group)
    row' ← on_db (Clients.set_sub_id row sub_id)
    delivery ← on_panel (get_client_delivery row.email (some sub_id) row.allocated_bytes)
    pure (row', delivery)

  -- `create_service` up to the first write: the checks, and the row that is to be written.
  unfoldable pub check_create :
      Reseller → Float → ℤ → Option (List ℕ) → Text → ℕ → Exec (World State) NewService
  check_create reseller volume_gb expiry_days inbound_ids client_suffix panel_id = do
    row ← gets (λ w. Assignments.get reseller.telegram_id panel_id w.db)
    assignment ← or_raise row (xui_error no_assignment)
    let ids =
        resolve (inbound_ids_from_json inbound_ids)
          (resolve_attach_inbound_ids_for_assignment assignment)
    allocated ← on_db (validate_create reseller panel_id volume_gb ids)
    email ← checks (λ _. build_client_email reseller client_suffix)
    taken ← gets (λ w. Clients.email_exists email panel_id w.db)
    raise_if taken (xui_error email_taken)
    existing ← on_panel (get_client email)
    raise_if (is_some existing) (xui_error email_on_panel)
    now_ms ← gets (λ w. w.now_ms)
    let expiry_ms = if ltb_ℤ (pos 0) expiry_days then now_ms +ℤ days_ms expiry_days else pos 0
    pure (record { ids = ids; allocated = allocated; email = email; expiry_ms = expiry_ms })

  -- The rest of `create_service`: the row, the panel's client, and the charge.
  unfoldable pub store_service :
      Reseller → Float → ℤ → ℕ → NewService → Exec (World State) (ClientRecord × ClientDelivery)
  unfolding create_on_panel Clients.set_sub_id
  store_service reseller volume_gb expiry_days panel_id new = do
    created ← on_db (
        Clients.add reseller.telegram_id panel_id new.email new.ids new.allocated new.expiry_ms
          none)
    let group = if auto_reseller_group then panel_group_name reseller else []
    result ←
        except_any (create_on_panel created volume_gb new.ids expiry_days group)
          (λ _. do on_db (Clients.delete created); raise (xui_error create_failed))
    on_db (Resellers.add_lifetime_allocated reseller.telegram_id new.allocated)
    pure result

  unfoldable pub create_service :
      Reseller
      → Float
      → ℤ
      → Option (List ℕ)
      → Text
      → ℕ
      → Exec (World State) (ClientRecord × ClientDelivery)
  create_service reseller volume_gb expiry_days inbound_ids client_suffix panel_id = do
    new ← check_create reseller volume_gb expiry_days inbound_ids client_suffix panel_id
    store_service reseller volume_gb expiry_days panel_id new

  -- The first `try` of `delete_service`: what is given back; nothing, if the panel does not answer.
  unfoldable pub read_refund : Float → ClientRecord → Text → Exec (World State) ℤ
  read_refund max_traffic_gb row email =
      except_xui
        (do
          traffic ← on_panel (get_traffic email)
          pure (
              if is_quota_refund_eligible max_traffic_gb (used_bytes traffic)
              then row.allocated_bytes
              else pos 0))
        (pos 0)

  -- The second `try`.
  unfoldable pub drop_client : Text → Exec (World State) ⊤
  drop_client email = except_xui (on_panel (delete_client email)) tt

  -- The refund is what `delete_service` returns; `max_traffic_gb` is a setting.
  unfoldable pub delete_service : Float → Reseller → Text → Exec (World State) ℤ
  unfolding get_owned_record
  delete_service max_traffic_gb reseller email = do
    row ← get_owned_record reseller email
    refund ← read_refund max_traffic_gb row email
    drop_client email
    on_db (Alerts.clear reseller.telegram_id client_traffic (some email))
    on_db (Clients.delete row)
    when (ltb_ℤ (pos 0) refund)
        (on_db (Resellers.subtract_lifetime_allocated reseller.telegram_id refund))
    pure refund

  unfoldable pub service_traffic : Reseller → Text → Exec (World State) Traffic
  unfolding get_owned_record
  service_traffic reseller email = do get_owned_record reseller email; on_panel (get_traffic email)

  unfoldable pub set_service_enabled : Reseller → Text → Bool → Exec (World State) ⊤
  unfolding get_owned_record
  set_service_enabled reseller email enabled = do
    get_owned_record reseller email
    on_panel (set_client_enabled email enabled)

  -- `_current_expiry_ms`
  current_expiry_ms : Text → ClientRecord → Exec (World State) ℤ
  current_expiry_ms email row = do
    client ← on_panel (get_client email)
    pure (elim client [
      | none ↦ row.expiry_time
      | some c ↦
          (if c.is_empty
            then row.expiry_time
            else elim c.expiry_time [ none ↦ row.expiry_time | some ms ↦ ms ])
    ])

  -- `add_days`, then `expiry_ms`: the first that is given counts.
  unfoldable pub update_service_expiry :
      Reseller → Text → Option ℤ → Option ℤ → Exec (World State) ℤ
  unfolding get_owned_record current_expiry_ms
  update_service_expiry reseller email (some add_days) expiry_ms = do
    row ← get_owned_record reseller email
    raise_if (ltb_ℤ add_days (pos 1)) (xui_error no_days)
    current ← current_expiry_ms email row
    now_ms ← gets (λ w. w.now_ms)
    let new_ms = resolve_expiry_after_add_days now_ms current add_days
    on_panel (add_client_expiry_days email add_days)
    on_db (Clients.set_expiry_time row new_ms)
    pure new_ms
  update_service_expiry reseller email none (some expiry_ms) = do
    row ← get_owned_record reseller email
    on_panel (set_client_expiry_ms email expiry_ms)
    on_db (Clients.set_expiry_time row expiry_ms)
    pure expiry_ms
  update_service_expiry reseller email none none = do
    get_owned_record reseller email
    raise (xui_error no_expiry)

  unfoldable pub get_client_panel_fields : Reseller → Text → Exec (World State) (ℤ × Text)
  unfolding get_owned_record
  get_client_panel_fields reseller email = do
    get_owned_record reseller email
    found ← on_panel (get_client email)
    client ← or_raise found (xui_error client_missing)
    raise_if client.is_empty (xui_error client_missing)
    pure (client.limit_ip, client.comment)

  unfoldable pub add_service_traffic : Reseller → Text → Float → Exec (World State) AddTrafficResult
  unfolding get_owned_record
  add_service_traffic reseller email volume_gb = do
    row ← get_owned_record reseller email
    allocated ← reraise_quota (on_db (validate_add_traffic reseller row.panel_id volume_gb))
    on_panel (add_client_traffic_bytes email allocated)
    row' ← on_db (Clients.add_allocated_bytes row allocated)
    on_db (Resellers.add_lifetime_allocated reseller.telegram_id allocated)
    st ← gets (λ w. global_status (tracked reseller w.db) w.db)
    pure (record {
      added_bytes = allocated;
      new_total_bytes = row'.allocated_bytes;
      remaining_bytes = st.remaining_bytes;
    })

  unfoldable pub remove_service_traffic :
      Reseller → Text → Float → Exec (World State) RemoveTrafficResult
  unfolding get_owned_record
  remove_service_traffic reseller email volume_gb = do
    row ← get_owned_record reseller email
    traffic ← on_panel (get_traffic email)
    removed ← reraise_quota (
        checks (λ _.
          validate_remove_traffic reseller volume_gb row.allocated_bytes (used_bytes traffic)))
    on_panel (subtract_client_traffic_bytes email removed)
    row' ← on_db (Clients.subtract_allocated_bytes row removed)
    on_db (Resellers.subtract_lifetime_allocated reseller.telegram_id removed)
    st ← gets (λ w. global_status (tracked reseller w.db) w.db)
    pure (record {
      removed_bytes = removed;
      new_total_bytes = row'.allocated_bytes;
      remaining_bytes = st.remaining_bytes;
    })

  unfoldable pub update_service_limit_ip : Reseller → Text → ℤ → Exec (World State) ℤ
  unfolding get_owned_record
  update_service_limit_ip reseller email limit_ip = do
    get_owned_record reseller email
    raise_if (ltb_ℤ limit_ip (pos 0)) (xui_error negative_limit_ip)
    on_panel (update_limit_ip email limit_ip)
    pure limit_ip

  unfoldable pub update_service_comment : Reseller → Text → Text → Exec (World State) Text
  unfolding get_owned_record
  update_service_comment reseller email comment = do
    get_owned_record reseller email
    let validated = validate_comment comment
    on_panel (update_comment email validated)
    pure validated

  unfoldable pub get_delivery : Reseller → Text → Exec (World State) ClientDelivery
  unfolding get_owned_record
  get_delivery reseller email = do
    row ← get_owned_record reseller email
    on_panel (get_client_delivery email row.sub_id row.allocated_bytes)

  unfoldable pub get_links : Reseller → Text → Exec (World State) (List Text)
  unfolding get_delivery
  get_links reseller email = do
    delivery ← get_delivery reseller email
    pure (delivery.vless_links ++ delivery.subscription_links)
