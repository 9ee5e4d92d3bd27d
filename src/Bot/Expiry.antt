-- ===== src/Bot/Expiry.antt =====
-- The expiry of a service (bot/handlers/reseller.py): days to add, a date, or none; and
-- `parse_expiry_date` of bot/utils/expiry.py, over `strptime` and the local time zone.
use resellerbot.Prelude.{Option, none, some, if◌then◌else◌}
use resellerbot.Prelude.Int.{ℤ, pos, ltb_ℤ}
use resellerbot.Prelude.Text.{Text, codes, strip, text_eq}
use resellerbot.Errors.{⊤}
use resellerbot.Json.{int_of_text}
use resellerbot.Service.{update_service_expiry}
use resellerbot.Bot.Chat.{
  if_none, State, non_empty, extend_add_days, extend_set_date, Update, Host, Handler, ◌>>=◌, ◌>>◌,
  pure, gets, say, finish, stop_if, or_stop, user_of, need_both, set_state, update_data, clear, run,
  catching, answer_resolve, on_message,
}
use resellerbot.Bot.Said.{
  Said, answered, edited, alerted, noticed, acknowledged, invalid_input, expiry_mode,
  add_days_prompt, set_date_prompt, bad_date, expiry_updated,
}
use resellerbot.Bot.Browse.{load_service_detail, show_service_detail, detail_or_alert}
use resellerbot.Bot.Services.{email_in, in_service}

unfoldable pub parse_expiry_date : (Text → Option ℤ) → Text → Option ℤ
parse_expiry_date end_of_day_ms text =
    let raw = strip text in if text_eq raw (codes "0") then some (pos 0) else end_of_day_ms raw

-- `email = data.get("email"); if not email: clear, answer and return`
unfoldable pub stored_email : Handler Text
stored_email = do
  email ← gets (λ c. non_empty c.form.email)
  if_none email (clear >> finish (answered invalid_input)) pure

-- The button that asks for a value of the service in its data: the email is stored, and the next
-- message is the value.
unfoldable pub ask_value : State → Said → Update → Handler ⊤
ask_value next_state prompt u = do
  update_data (λ d. record d { email = some (email_in u) })
  set_state (some next_state)
  on_message u prompt
  say acknowledged

unfoldable pub expiry_start_add_days : Update → Handler ⊤
unfolding ask_value
expiry_start_add_days = ask_value extend_add_days (edited add_days_prompt)

unfoldable pub expiry_start_set_date : Update → Handler ⊤
unfolding ask_value
expiry_start_set_date = ask_value extend_set_date (edited set_date_prompt)

module _ (host : Host) where
  open host use {end_of_day_ms}

  unfoldable pub expiry_menu : Update → Handler ⊤
  unfolding load_service_detail
  expiry_menu u = do
    let email = email_in u
    user ← need_both u
    detail ← catching (run (load_service_detail host user email)) (answer_resolve alerted)
    say (edited (expiry_mode email detail.1))
    say acknowledged

  unfoldable pub expiry_set_unlimited : Update → Handler ⊤
  unfolding in_service show_service_detail
  expiry_set_unlimited u = do
    let email = email_in u
    user ← need_both u
    clear
    in_service host alerted user email
        (λ xui ctx. update_service_expiry xui ctx.reseller email none (some (pos 0)))
    say (noticed (expiry_updated (pos 0)))
    catching (show_service_detail host user email) (answer_resolve alerted)

  -- `exp_cancel:`, `traf_cancel:` and `trafd_cancel:` end the dialog and show the service again.
  unfoldable pub cancel_to_detail : Update → Handler ⊤
  unfolding detail_or_alert
  cancel_to_detail u = do clear; user ← need_both u; detail_or_alert host user (email_in u)

  unfoldable pub expiry_process_add_days : Update → Handler ⊤
  unfolding in_service
  expiry_process_add_days u = do
    user ← user_of u
    email ← stored_email
    days ← or_stop (int_of_text u.payload) (answered invalid_input)
    stop_if (ltb_ℤ days (pos 1)) (answered invalid_input)
    clear
    new_ms ←
        in_service host answered user email
          (λ xui ctx. update_service_expiry xui ctx.reseller email (some days) none)
    say (answered (expiry_updated new_ms))

  unfoldable pub expiry_process_set_date : Update → Handler ⊤
  unfolding in_service parse_expiry_date
  expiry_process_set_date u = do
    user ← user_of u
    email ← stored_email
    expiry_ms ← or_stop (parse_expiry_date end_of_day_ms u.payload) (answered bad_date)
    clear
    new_ms ←
        in_service host answered user email
          (λ xui ctx. update_service_expiry xui ctx.reseller email none (some expiry_ms))
    say (answered (expiry_updated new_ms))

  abbrev pub expiry_cancel : Update → Handler ⊤
  expiry_cancel = cancel_to_detail

  abbrev pub add_traffic_cancel : Update → Handler ⊤
  add_traffic_cancel = cancel_to_detail

  abbrev pub reduce_traffic_cancel : Update → Handler ⊤
  reduce_traffic_cancel = cancel_to_detail
