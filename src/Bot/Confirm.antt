-- ===== src/Bot/Confirm.antt =====
-- The name of a new service and its confirmation (bot/handlers/reseller.py).
use resellerbot.Prelude.{ℕ, Bool, true, false, not, Option, none, some, List}
use resellerbot.Prelude.Int.{ℤ, pos}
use resellerbot.Prelude.Text.{Text}
use resellerbot.Errors.{
  Result, ok, err, Error, ⊤, quota_exceeded, xui_error, panel_unavailable, key_error,
}
use resellerbot.Models.{Reseller, Panel, AnyFloat, ClientRecord}
use resellerbot.Inbounds.{resolve_attach_inbound_ids_for_assignment}
use resellerbot.Labels.{build_client_email, normalize_name, Normalized, accepted, refused}
use resellerbot.RateLimit.{check}
use resellerbot.Panel.{ClientDelivery}
use resellerbot.Registry.{xui_for_reseller_panel, on_service}
use resellerbot.Service.AnyVolume.{create_service_of}
use resellerbot.Repository.Assignments
use resellerbot.Repository.Clients
use resellerbot.Bot.Chat.{
  if_none, if_true, non_empty, create_client_name, create_confirm, Update, Host, Handler, ◌>>=◌,
  ◌>>◌, pure, raise, gets, say, finish, stop_if, user_of, on_message, when, set_state, update_data,
  clear, run, reads, catching, Flow,
}
use resellerbot.Bot.Said.{
  Reply, answered, edited, alerted, acknowledged, markup_removed, not_reseller, no_panel_access,
  invalid_input, bad_suffix, error_text, panel_error_text, email_taken_text, confirm_prompt,
  rate_limited, being_created, create_incomplete, stale_button, panel_unavailable_text, delivered,
}
use resellerbot.Bot.Create.{get_active_reseller}

-- The days to show: `data.get("expiry_days", 0)`.
abbrev pub days_of : Option ℤ → ℤ
days_of none = pos 0
days_of (some d) = d

unfoldable pub or_raise : {A : Type 0} → Option A → Error → Handler A
or_raise none e = raise e
or_raise (some a) e = pure a

-- `except InvalidClientSuffixError as e: m`
unfoldable pub if_error :
    {A B : Type 0} → Result A → (Error → Handler B) → (A → Handler B) → Handler B
if_error (ok a) m k = k a
if_error (err e) m k = m e

-- `message.answer(…); return False`
abbrev pub answer_false : Reply → Handler Bool
answer_false r = say (answered r) >> pure false

-- `except InvalidClientSuffixError as e: await message.answer(str(e)); return`
unfoldable pub suffix_of : Normalized → Handler Text
suffix_of (accepted suffix) = pure suffix
suffix_of (refused e) = finish (answered (bad_suffix e))

abbrev pub set_locked : Bool → Handler ⊤
set_locked b = update_data λ d. record d { create_locked = b }

-- `except QuotaExceeded` and `except XuiError`.
unfoldable pub creation_refused : Update → Error → Handler (ClientRecord × ClientDelivery)
creation_refused u (quota_exceeded q) = do
  set_locked false
  on_message u (edited (error_text (quota_exceeded q)))
  finish acknowledged
creation_refused u (xui_error x) = do
  set_locked false
  on_message u (edited (panel_error_text (xui_error x)))
  finish acknowledged
creation_refused u e = raise e

-- `except ResellerPanelUnavailableError`
unfoldable pub panel_refused : Error → Handler Panel
panel_refused (panel_unavailable panel_id reason) = do
  set_locked false
  finish (alerted (panel_unavailable_text panel_id reason))
panel_refused e = raise e

module _ (host : Host) where
  open host use {net, token_hex, window, create_rate_limit, injected}

  -- The end of `_show_create_confirm`, for an email that is not in the table.
  unfoldable pub confirm_shown : Reseller → ℕ → AnyFloat → Text → List ℕ → Handler Bool
  confirm_shown reseller panel_id volume_gb email inbounds = do
    template_name ← gets (λ c. c.form.template_name)
    days ← gets (λ c. days_of c.form.expiry_days)
    update_data (λ d. record d { email_preview = some email })
    set_state (some create_confirm)
    say (answered (confirm_prompt email template_name volume_gb days inbounds))
    pure true

  -- `_show_create_confirm`
  unfoldable pub show_create_confirm : Reseller → Handler Bool
  unfolding confirm_shown
  show_create_confirm reseller = do
    volume ← gets (λ c. c.form.volume_gb)
    volume_gb ← or_raise volume key_error
    suffix ← gets (λ c. non_empty c.form.client_suffix)
    data_panel ← gets (λ c. c.form.panel_id)
    if_none suffix (answer_false invalid_input) λ name. do
      built ← reads (λ _. build_client_email reseller name)
      if_error built (λ e. answer_false (error_text e))
          λ email. if_none data_panel (answer_false invalid_input) λ panel_id. do
            row ← reads (λ s. Assignments.get reseller.telegram_id panel_id s.db)
            taken ← reads (λ s. Clients.email_exists email panel_id s.db)
            if_none row (answer_false no_panel_access) λ assignment.
                if_true taken
                  (do
                    say (answered email_taken_text)
                    set_state (some create_client_name)
                    pure false)
                  (confirm_shown reseller panel_id volume_gb email
                    (resolve_attach_inbound_ids_for_assignment assignment))

  unfoldable pub process_client_name : Update → Handler ⊤
  unfolding get_active_reseller show_create_confirm suffix_of
  process_client_name u = do
    user ← user_of u
    found ← reads (get_active_reseller user)
    if_none found (clear >> finish (answered not_reseller)) λ reseller. do
      suffix ← suffix_of (normalize_name u.payload)
      update_data (λ d. record d { client_suffix = some suffix })
      show_create_confirm reseller
      pure tt

  unfoldable pub create_auto_name : Update → Handler ⊤
  unfolding get_active_reseller show_create_confirm
  create_auto_name u = do
    user ← user_of u
    found ← reads (get_active_reseller user)
    if_none found (clear >> finish (alerted not_reseller)) λ reseller. do
      update_data (λ d. record d { client_suffix = some token_hex })
      when u.has_message (do shown ← show_create_confirm reseller; when shown (say markup_removed))
      say acknowledged

  -- `xui or await xui_for_reseller_panel(…)`
  unfoldable pub client_for : Reseller → ℕ → Handler Panel
  unfolding panel_refused
  client_for reseller panel_id =
      catching (if_none injected (run (xui_for_reseller_panel reseller panel_id)) pure)
        panel_refused

  -- The session of `confirm_create`.
  unfoldable pub create_confirmed : Update → ℕ → AnyFloat → ℤ → Text → ℕ → Handler ⊤
  unfolding creation_refused client_for
  create_confirmed u user volume_gb expiry_days client_suffix panel_id = do
    set_locked true
    found ← reads (get_active_reseller user)
    if_none found (do clear; on_message u (edited not_reseller); finish acknowledged)
        λ reseller. do
          client ← client_for reseller panel_id
          created ←
              catching
                (run (
                  on_service net client (
                    create_service_of (net.connect client) reseller volume_gb expiry_days none
                      client_suffix panel_id)))
                (creation_refused u)
          clear
          on_message u (edited (delivered created.0.email created.1 true))
          say acknowledged

  -- `rate_limit_check(user_id, create_rate_limit)`
  unfoldable pub rate_limit_check : ℕ → Handler Bool
  rate_limit_check user c =
      let (b, hits') = check create_rate_limit window user c.time c.hits in
      (Flow.next b, record c { hits = hits' })

  unfoldable pub confirm_create : Update → Handler ⊤
  unfolding create_confirmed rate_limit_check
  confirm_create u = do
    user ← user_of u
    allowed ← λ c.
        (let (b, hits') = check create_rate_limit window user c.time c.hits in
          (Flow.next b, record c { hits = hits' }))
    stop_if (not allowed) (alerted rate_limited)
    locked ← gets (λ c. c.form.create_locked)
    stop_if locked (alerted being_created)
    d ← gets (λ c. c.form)
    let incomplete : Handler ⊤ = clear >> finish (alerted create_incomplete)
    if_none d.volume_gb incomplete λ volume_gb.
        if_none (non_empty d.client_suffix) incomplete λ suffix.
          if_none d.panel_id incomplete
            λ panel_id. create_confirmed u user volume_gb (days_of d.expiry_days) suffix panel_id

  unfoldable pub confirm_create_stale : Handler ⊤
  confirm_create_stale = say (alerted stale_button)
