-- ===== src/Bot/Edit.antt =====
-- The edits of a service on its panel (bot/handlers/reseller.py): the limit of devices and the
-- comment. `validate_limit_ip` is of bot/utils/edit_service.py.
use resellerbot.Prelude.{ℕ, [], ◌∷◌, ◌++◌, if◌then◌else◌, length, leb}
use resellerbot.Prelude.Int.{pos, ltb_ℤ}
use resellerbot.Prelude.Text.{Text, codes, take_text}
use resellerbot.Errors.{⊤}
use resellerbot.Json.{int_of_text}
use resellerbot.Service.{
  validate_comment, get_client_panel_fields, update_service_limit_ip, update_service_comment,
}
use resellerbot.Bot.Chat.{
  edit_limit_ip, edit_comment, Update, Host, Handler, ◌>>=◌, ◌>>◌, say, stop_if, or_stop, user_of,
  need_both, clear, Flow,
}
use resellerbot.Bot.Said.{
  answered, edited, acknowledged, invalid_input, edit_menu, limit_ip_prompt, comment_prompt,
  negative_limit_text, limit_ip_updated, comment_updated,
}
use resellerbot.Bot.Services.{email_in, in_service}
use resellerbot.Bot.Expiry.{stored_email, ask_value}

-- `_comment_display`
unfoldable pub comment_display : Text → Text
comment_display [] = codes "—"
comment_display (c ∷ s) =
    if leb (length (c ∷ s)) 80 then c ∷ s else take_text 77 (c ∷ s) ++ codes "..."

unfoldable pub service_edit_limit_start : Update → Handler ⊤
unfolding ask_value
service_edit_limit_start = ask_value edit_limit_ip (edited limit_ip_prompt)

unfoldable pub service_edit_comment_start : Update → Handler ⊤
unfolding ask_value
service_edit_comment_start = ask_value edit_comment (edited comment_prompt)

-- A helper that returned early goes on in its caller.
unfoldable pub ignoring_return : Handler ⊤ → Handler ⊤
ignoring_return m c =
    let (f, c') = m c in
    elim f [
      | Flow.next _ ↦ (Flow.next tt, c')
      | Flow.returned ↦ (Flow.next tt, c')
      | Flow.raised e ↦ (Flow.raised e, c')
    ]

module _ (host : Host) where
  -- `_show_service_edit_menu`
  unfoldable pub show_service_edit_menu : ℕ → Text → Handler ⊤
  unfolding in_service comment_display
  show_service_edit_menu user email = do
    fields ←
        in_service host edited user email
          (λ xui ctx. get_client_panel_fields xui ctx.reseller email)
    say (edited (edit_menu email fields.0 (comment_display fields.1)))

  unfoldable pub service_edit_menu : Update → Handler ⊤
  unfolding show_service_edit_menu ignoring_return
  service_edit_menu u = do
    user ← need_both u
    ignoring_return (show_service_edit_menu user (email_in u))
    say acknowledged

  unfoldable pub service_edit_limit_input : Update → Handler ⊤
  unfolding in_service
  service_edit_limit_input u = do
    user ← user_of u
    email ← stored_email
    limit_ip ← or_stop (int_of_text u.payload) (answered invalid_input)
    stop_if (ltb_ℤ limit_ip (pos 0)) (answered negative_limit_text)
    clear
    in_service host answered user email
        (λ xui ctx. update_service_limit_ip xui ctx.reseller email limit_ip)
    say (answered (limit_ip_updated limit_ip))

  unfoldable pub service_edit_comment_input : Update → Handler ⊤
  unfolding in_service
  service_edit_comment_input u = do
    user ← user_of u
    email ← stored_email
    let comment = validate_comment u.payload
    clear
    in_service host answered user email
        (λ xui ctx. update_service_comment xui ctx.reseller email comment)
    say (answered comment_updated)
