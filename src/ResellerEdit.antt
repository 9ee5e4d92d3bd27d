-- ===== src/ResellerEdit.antt =====
-- services/reseller_edit.py: what an admin changes of a reseller. The rendered message of a result
-- is left out; the flag of `WithWarning` is whether it carries its warning.
pub mod Quotas
pub mod Accounts
use resellerbot.Prelude.{
  ℕ, Bool, true, false, not, Option, none, some, List, [], ◌∷◌, ◌==◌, leb, ltb, if◌then◌else◌,
  is_some,
}
use resellerbot.Prelude.Int.{ℤ, pos, ◌+ℤ◌, ◌-ℤ◌, ltb_ℤ, leb_ℤ, max_ℤ}
use resellerbot.Prelude.Text.{Text}
use resellerbot.Errors.{
  Exec, ⊤, pure, raise, gets, checks, modify, ◌>>=◌, ◌>>◌, raise_if, or_raise, value_error,
  below_lifetime, non_positive_amount, reseller_not_found, assertion_error,
}
use resellerbot.Models.{Db, Reseller, Float}
use resellerbot.Volume.{gb_to_bytes, is_non_positive}
use resellerbot.Quota.{global_status}
use resellerbot.Repository.Resellers

pub record WithWarning : Type 0 where
  pub reseller : Reseller
  pub warning : Bool

module _ (telegram_id : ℕ) where
  unfoldable pub apply_quota : Float → Exec Db Reseller
  apply_quota quota_gb = do
    row ← gets (Resellers.get telegram_id)
    r ← or_raise row reseller_not_found
    let new_quota = gb_to_bytes quota_gb
    raise_if (ltb_ℤ new_quota r.lifetime_allocated_bytes) (value_error below_lifetime)
    Resellers.upsert telegram_id new_quota none none 1 none true none

  unfoldable pub apply_add_quota : Float → Exec Db Reseller
  apply_add_quota add_gb = do
    row ← gets (Resellers.get telegram_id)
    or_raise row reseller_not_found
    raise_if (is_non_positive add_gb) (value_error non_positive_amount)
    row' ← Resellers.add_quota_bytes telegram_id (gb_to_bytes add_gb)
    or_raise row' assertion_error

  unfoldable pub apply_subtract_quota : Float → Exec Db Reseller
  apply_subtract_quota subtract_gb = do
    row ← gets (Resellers.get telegram_id)
    r ← or_raise row reseller_not_found
    raise_if (is_non_positive subtract_gb) (value_error non_positive_amount)
    let subtract_bytes = gb_to_bytes subtract_gb
    let new_quota = r.quota_bytes -ℤ subtract_bytes
    raise_if (ltb_ℤ new_quota r.lifetime_allocated_bytes) (value_error below_lifetime)
    row' ← Resellers.subtract_quota_bytes telegram_id subtract_bytes
    or_raise row' assertion_error

  unfoldable pub apply_reset_quota_usage : Exec Db Reseller
  apply_reset_quota_usage = do
    row ← gets (Resellers.get telegram_id)
    or_raise row reseller_not_found
    row' ← Resellers.reset_lifetime_to_active telegram_id
    or_raise row' assertion_error

  unfoldable pub apply_display_name : Text → Exec Db Reseller
  apply_display_name display_name = do
    row ← Resellers.set_display_name telegram_id display_name
    or_raise row reseller_not_found

  unfoldable pub apply_max_clients : ℤ → Exec Db WithWarning
  apply_max_clients max_clients = do
    row ← gets (Resellers.get telegram_id)
    r ← or_raise row reseller_not_found
    st ← gets (global_status r)
    row' ← Resellers.set_max_clients telegram_id (some max_clients)
    r' ← or_raise row' assertion_error
    pure (record { reseller = r'; warning = ltb_ℤ max_clients (pos st.client_count) })

  unfoldable pub clear_max_clients_limit : Exec Db Reseller
  clear_max_clients_limit = do
    row ← Resellers.set_max_clients telegram_id none
    or_raise row reseller_not_found

  unfoldable pub apply_allowed_inbounds : List ℕ → Exec Db WithWarning
  apply_allowed_inbounds inbound_ids = do
    found ← Resellers.set_allowed_inbound_ids telegram_id inbound_ids
    result ← or_raise found reseller_not_found
    pure (record { reseller = result.0; warning = result.1 })

  unfoldable pub apply_attach_inbounds : List ℕ → Exec Db Reseller
  apply_attach_inbounds inbound_ids = do
    row ← Resellers.set_attach_inbound_ids telegram_id inbound_ids
    or_raise row reseller_not_found
