-- ===== src/Bot/Traffic.antt =====
-- More or less traffic for a service (bot/handlers/reseller.py): the volume, the confirmation and
-- the change. The two dialogs share the email and the volume that the FSM context stores.
use resellerbot.Prelude.{ℕ, Bool, true, false, not, Option, none, some, if◌then◌else◌}
use resellerbot.Prelude.Int.{ℤ}
use resellerbot.Prelude.Text.{Text}
use resellerbot.Errors
use resellerbot.Errors.{Exec, ⊤, Error}
use resellerbot.Models.{Float, AnyFloat, finite, infinite, nan}
use resellerbot.Volume.{is_any_non_positive, is_below, is_above}
use resellerbot.Quota.{status}
use resellerbot.Panel.{XuiClient, World}
use resellerbot.Registry.{on_client, on_site_db}
use resellerbot.Service.{used_bytes}
use resellerbot.Service.AnyVolume.{add_service_traffic_of, remove_service_traffic_of}
use resellerbot.ServiceResolve.{ServiceContext, resolve_service}
use resellerbot.Bot.Chat.{
  if_none, non_empty, State, add_traffic_volume, add_traffic_confirm, reduce_traffic_volume,
  reduce_traffic_confirm, Update, Host, Handler, ◌>>=◌, ◌>>◌, pure, gets, say, finish, or_stop,
  user_of, need_both, on_message, set_state, update_data, clear, run, catching, answer_resolve,
  xui_error_as,
}
use resellerbot.Bot.Said.{
  Reply, Said, answered, edited, alerted, acknowledged, invalid_input, above_remaining_text,
  above_current_text, below_used_text, add_traffic_prompt, reduce_traffic_prompt, add_traffic_menu,
  reduce_traffic_menu, add_confirm_prompt, reduce_confirm_prompt, traffic_changed,
}
use resellerbot.Bot.Create.{after_colon, with_point}
use resellerbot.Bot.Services.{email_in, in_service}
use resellerbot.Bot.Expiry.{stored_email}

-- What the two dialogs have apart: the states, the texts, the check of a volume, and the change.
pub data Direction : Type 0 where
  add reduce : Direction

abbrev volume_state : Direction → State
volume_state add = add_traffic_volume
volume_state reduce = reduce_traffic_volume

abbrev pub confirm_state : Direction → State
confirm_state add = add_traffic_confirm
confirm_state reduce = reduce_traffic_confirm

-- `float(text)`, refused unless it is positive.
abbrev positive : Option AnyFloat → Option AnyFloat
positive none = none
positive (some v) = if is_any_non_positive v then none else some v

-- `if not email`, without an end of the dialog.
unfoldable pub known_email : Handler Text
known_email = do email ← gets (λ c. non_empty c.form.email); or_stop email (alerted invalid_input)

-- Nothing, or why the volume is refused.
abbrev refused : Bool → Reply → Option Reply
refused true r = some r
refused false r = none

-- The change: the new size and what remains of the quota.
unfoldable pub change :
    Direction
    → AnyFloat
    → Text
    → (xui : XuiClient) → ServiceContext
    → Exec (World xui.State) (ℤ × ℤ)
change add volume_gb email xui ctx =
    Errors.◌>>=◌ (add_service_traffic_of xui ctx.reseller email volume_gb)
      λ result. Errors.pure (result.new_total_bytes, result.remaining_bytes)
change reduce volume_gb email xui ctx =
    Errors.◌>>=◌ (remove_service_traffic_of xui ctx.reseller email volume_gb)
      λ result. Errors.pure (result.new_total_bytes, result.remaining_bytes)

module _ (host : Host) where
  open host use {net, to_float, minus, bytes_to_gb}

  -- What is left of the reseller's quota, in GB.
  unfoldable pub remaining_gb : ServiceContext → Handler Float
  remaining_gb ctx = do
    st ← run (on_site_db (status ctx.reseller (some ctx.client.panel_id)))
    pure (bytes_to_gb st.remaining_bytes)

  -- What the service has used, in GB.
  unfoldable pub used_gb : ServiceContext → Text → Handler Float
  used_gb ctx email = do
    traffic ← run (on_client net ctx.xui ((net.connect ctx.xui).get_traffic email))
    pure (bytes_to_gb (used_bytes traffic))

  -- `current_gb - volume_gb`
  abbrev left_gb : Float → AnyFloat → AnyFloat
  left_gb current (finite v) = finite (minus current v)
  left_gb current (infinite negative) = infinite (not negative)
  left_gb current nan = nan

  -- The checks of `_show_add_traffic_confirm` and `_show_reduce_traffic_confirm`.
  unfoldable pub check_volume :
      Direction → ServiceContext → Text → AnyFloat → Handler (Option Reply)
  unfolding remaining_gb used_gb
  check_volume add ctx email volume_gb = do
    remaining ← remaining_gb ctx
    pure (refused (is_below remaining volume_gb) (above_remaining_text volume_gb remaining))
  check_volume reduce ctx email volume_gb = do
    remaining_gb ctx
    used ← used_gb ctx email
    let current = bytes_to_gb ctx.client.allocated_bytes
    let new_gb = left_gb current volume_gb
    pure (
        if is_below current volume_gb
        then some (above_current_text volume_gb current)
        else refused (is_above used new_gb) (below_used_text new_gb used))

  -- The `except XuiError` is there where the panel is asked.
  abbrev except_panel : {A : Type 0} → Direction → (Reply → Said) → Handler A → Handler A
  except_panel add how m = m
  except_panel reduce how m = catching m (xui_error_as how)

  abbrev prompt_of : Direction → Text → AnyFloat → Reply
  prompt_of add = add_confirm_prompt
  prompt_of reduce = reduce_confirm_prompt

  -- `_show_add_traffic_confirm` and `_show_reduce_traffic_confirm`, up to the value they return.
  unfoldable pub show_traffic_confirm : Direction → (Reply → Said) → ℕ → Text → AnyFloat → Handler ⊤
  unfolding check_volume
  show_traffic_confirm dir how user email volume_gb = do
    refusal ← except_panel dir answered (
        catching (do ctx ← run (resolve_service user email); check_volume dir ctx email volume_gb)
          (answer_resolve answered))
    if_none refusal
        (do
          update_data (λ d. record d { email = some email; volume_gb = some volume_gb })
          set_state (some (confirm_state dir))
          say (how (prompt_of dir email volume_gb)))
        (λ r. finish (answered r))

  abbrev menu_of : Direction → Text → Reply
  menu_of add = add_traffic_menu
  menu_of reduce = reduce_traffic_menu

  -- What the menu asks before it shows: the quota, and for a reduction the panel.
  unfoldable pub menu_values : Direction → ServiceContext → Text → Handler ⊤
  unfolding remaining_gb used_gb
  menu_values add ctx email = remaining_gb ctx >> pure tt
  menu_values reduce ctx email = remaining_gb ctx >> (used_gb ctx email >> pure tt)

  -- `add_traffic_menu` and `reduce_traffic_menu`
  unfoldable pub traffic_menu : Direction → Update → Handler ⊤
  unfolding menu_values
  traffic_menu dir u = do
    let email = email_in u
    user ← need_both u
    clear
    update_data (λ d. record d { email = some email })
    except_panel dir alerted (
        catching (do ctx ← run (resolve_service user email); menu_values dir ctx email)
          (answer_resolve alerted))
    say (edited (menu_of dir email))
    say acknowledged

  -- `add_traffic_quick_volume` and `reduce_traffic_quick_volume`
  unfoldable pub quick_volume : Direction → Update → Handler ⊤
  unfolding known_email show_traffic_confirm
  quick_volume dir u = do
    user ← need_both u
    volume_gb ←
        or_stop (elim (after_colon u.payload) [ none ↦ none | some s ↦ positive (to_float s) ])
          (alerted invalid_input)
    email ← known_email
    show_traffic_confirm dir edited user email volume_gb
    say acknowledged

  abbrev ask_of : Direction → Reply
  ask_of add = add_traffic_prompt
  ask_of reduce = reduce_traffic_prompt

  -- `add_traffic_custom_start` and `reduce_traffic_custom_start`
  unfoldable pub custom_start : Direction → Update → Handler ⊤
  unfolding known_email
  custom_start dir u = do
    known_email
    set_state (some (volume_state dir))
    on_message u (edited (ask_of dir))
    say acknowledged

  -- `add_traffic_custom_volume` and `reduce_traffic_custom_volume`
  unfoldable pub custom_volume : Direction → Update → Handler ⊤
  unfolding show_traffic_confirm
  custom_volume dir u = do
    user ← user_of u
    email ← stored_email
    volume_gb ← or_stop (positive (to_float (with_point u.payload))) (answered invalid_input)
    show_traffic_confirm dir answered user email volume_gb

  -- `add_traffic_confirm` and `reduce_traffic_confirm`, whatever the state is.
  unfoldable pub traffic_confirm : Direction → Update → Handler ⊤
  unfolding in_service change
  traffic_confirm dir u = do
    user ← need_both u
    d ← gets (λ c. c.form)
    let incomplete : Handler ⊤ = clear >> finish (alerted invalid_input)
    if_none (non_empty d.email) incomplete λ email. if_none d.volume_gb incomplete λ volume_gb. do
      clear
      sizes ← in_service host alerted user email (change dir volume_gb email)
      say (edited (traffic_changed sizes.0 sizes.1))
      say acknowledged

  -- The handlers, by their names.
  abbrev pub add_traffic_opened : Update → Handler ⊤
  add_traffic_opened = traffic_menu add

  abbrev pub add_traffic_quick_volume : Update → Handler ⊤
  add_traffic_quick_volume = quick_volume add

  abbrev pub add_traffic_custom_start : Update → Handler ⊤
  add_traffic_custom_start = custom_start add

  abbrev pub add_traffic_custom_volume : Update → Handler ⊤
  add_traffic_custom_volume = custom_volume add

  abbrev pub add_traffic_confirmed : Update → Handler ⊤
  add_traffic_confirmed = traffic_confirm add

  abbrev pub reduce_traffic_opened : Update → Handler ⊤
  reduce_traffic_opened = traffic_menu reduce

  abbrev pub reduce_traffic_quick_volume : Update → Handler ⊤
  reduce_traffic_quick_volume = quick_volume reduce

  abbrev pub reduce_traffic_custom_start : Update → Handler ⊤
  reduce_traffic_custom_start = custom_start reduce

  abbrev pub reduce_traffic_custom_volume : Update → Handler ⊤
  reduce_traffic_custom_volume = custom_volume reduce

  abbrev pub reduce_traffic_confirmed : Update → Handler ⊤
  reduce_traffic_confirmed = traffic_confirm reduce
