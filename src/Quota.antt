-- ===== src/Quota.antt =====
-- services/quota.py: the quota pool of a reseller and the checks before traffic is allocated.
use resellerbot.Prelude.{ℕ, Bool, false, not, Option, none, some, List, [], ◌∷◌, if◌then◌else◌}
use resellerbot.Prelude.Int.{ℤ, pos, ◌-ℤ◌, ltb_ℤ, leb_ℤ, max_ℤ}
use resellerbot.Errors.{
  Exec, ⊤, pure, gets, checks, ◌>>=◌, ◌>>◌, raise_if, or_raise, Result, ok, err, quota_exceeded,
  reseller_inactive, panel_not_assigned, create_forbidden, volume_too_low, non_positive_bytes,
  client_limit, above_remaining, above_allocated, below_used, inbound_not_allowed,
}
use resellerbot.Models.{Db, Reseller, ResellerPanel, Float}
use resellerbot.Inbounds.{contains}
use resellerbot.Volume.{gb_to_bytes, is_volume_too_low}
use resellerbot.Repository.Usage.{
  active_bytes, client_count, active_bytes_on_panel, client_count_on_panel,
}
use resellerbot.Repository.Assignments

pub record QuotaStatus : Type 0 where
  pub quota_bytes : ℤ
  pub active_bytes : ℤ
  pub lifetime_bytes : ℤ
  pub remaining_bytes : ℤ
  pub client_count : ℕ
  pub max_clients : Option ℤ
  pub panel_id : Option ℕ

-- `_get_assignment`
unfoldable pub get_assignment : Reseller → ℕ → Exec Db ResellerPanel
get_assignment reseller panel_id = do
  row ← gets (Assignments.get reseller.telegram_id panel_id)
  or_raise row (quota_exceeded panel_not_assigned)

unfoldable pub global_status : Reseller → Db → QuotaStatus
global_status reseller db = record {
  quota_bytes = reseller.quota_bytes;
  active_bytes = active_bytes reseller.telegram_id db;
  lifetime_bytes = reseller.lifetime_allocated_bytes;
  remaining_bytes = max_ℤ (pos 0) (reseller.quota_bytes -ℤ reseller.lifetime_allocated_bytes);
  client_count = client_count reseller.telegram_id db;
  max_clients = reseller.max_clients;
  panel_id = none;
}

unfoldable pub status : Reseller → Option ℕ → Exec Db QuotaStatus
unfolding global_status get_assignment
status reseller none = gets (global_status reseller)
status reseller (some panel_id) = do
  global_st ← gets (global_status reseller)
  assignment ← get_assignment reseller panel_id
  active ← gets (active_bytes_on_panel reseller.telegram_id panel_id)
  count ← gets (client_count_on_panel reseller.telegram_id panel_id)
  pure (record global_st {
    active_bytes = active;
    client_count = count;
    max_clients = assignment.max_clients;
    panel_id = some panel_id;
  })

-- The loop over the requested inbounds: the first that is not allowed is reported.
unfoldable pub check_inbounds : List ℕ → List ℕ → Result ⊤
check_inbounds allowed [] = ok tt
check_inbounds allowed (ib ∷ inbound_ids) =
    if contains allowed ib
    then check_inbounds allowed inbound_ids
    else err (quota_exceeded (inbound_not_allowed ib))

-- `max_clients is not None and count >= max_clients`
unfoldable pub is_full : Option ℤ → ℕ → Bool
is_full none count = false
is_full (some max_clients) count = leb_ℤ max_clients (pos count)

unfoldable pub validate_create : Reseller → ℕ → Float → List ℕ → Exec Db ℤ
unfolding get_assignment status
validate_create reseller panel_id volume_gb inbound_ids = do
  raise_if (not reseller.is_active) (quota_exceeded reseller_inactive)
  assignment ← get_assignment reseller panel_id
  raise_if (not assignment.is_active) (quota_exceeded create_forbidden)
  checks (λ _. check_inbounds assignment.allowed_inbound_ids inbound_ids)
  raise_if (is_volume_too_low volume_gb) (quota_exceeded volume_too_low)
  let allocated = gb_to_bytes volume_gb
  raise_if (leb_ℤ allocated (pos 0)) (quota_exceeded non_positive_bytes)
  st ← status reseller (some panel_id)
  raise_if (is_full st.max_clients st.client_count) (quota_exceeded client_limit)
  raise_if (ltb_ℤ st.remaining_bytes allocated) (quota_exceeded above_remaining)
  pure allocated

unfoldable pub validate_add_traffic : Reseller → ℕ → Float → Exec Db ℤ
unfolding get_assignment global_status
validate_add_traffic reseller panel_id volume_gb = do
  raise_if (not reseller.is_active) (quota_exceeded reseller_inactive)
  get_assignment reseller panel_id
  let allocated = gb_to_bytes volume_gb
  raise_if (leb_ℤ allocated (pos 0)) (quota_exceeded non_positive_bytes)
  st ← gets (global_status reseller)
  raise_if (ltb_ℤ st.remaining_bytes allocated) (quota_exceeded above_remaining)
  pure allocated

-- `current_allocated_bytes`, then `used_bytes`
unfoldable pub validate_remove_traffic : Reseller → Float → ℤ → ℤ → Result ℤ
validate_remove_traffic reseller volume_gb current_allocated_bytes used_bytes =
    let removed = gb_to_bytes volume_gb in
    if not reseller.is_active
    then err (quota_exceeded reseller_inactive)
    else if leb_ℤ removed (pos 0)
    then err (quota_exceeded non_positive_bytes)
    else if ltb_ℤ current_allocated_bytes removed
    then err (quota_exceeded above_allocated)
    else if ltb_ℤ (current_allocated_bytes -ℤ removed) used_bytes
    then err (quota_exceeded below_used)
    else ok removed
