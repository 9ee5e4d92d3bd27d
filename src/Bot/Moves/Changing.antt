-- ===== src/Bot/Moves/Changing.antt =====
-- The handlers that act on a service act on the user's own.
use resellerbot.Prelude.{ℕ, ◌≡◌, inl, inr, Bool, none, some}
use resellerbot.Prelude.Text.{Text}
use resellerbot.Errors.{Error, service_not_found, service_panel_unavailable}
use resellerbot.Bot.Chat.{State, Data, Update, Host, Handler}
use resellerbot.Bot.Said.{Said}
use resellerbot.Bot.Services.{
  service_set_enabled, service_link, show_vless_qr_menu, send_vless_qr, show_traffic,
  refund_unknown, refund_hint, service_delete_prompt, service_delete_confirm, back_to_detail,
}
use resellerbot.Bot.Expiry.{
  stored_email, ask_value, expiry_start_add_days, expiry_start_set_date, expiry_menu,
  expiry_set_unlimited, cancel_to_detail, expiry_process_add_days, expiry_process_set_date,
}
use resellerbot.Bot.Edit.{
  service_edit_limit_start, service_edit_comment_start, ignoring_return, show_service_edit_menu,
  service_edit_menu, service_edit_limit_input, service_edit_comment_input,
}
use resellerbot.Bot.Moves.{IsReady}
use resellerbot.Bot.Moves.Rules.{Keeps, keeps, Flow-cases, pure-Keeps}
use resellerbot.Bot.Moves.Senders.{user_of-after, need_both-after}
use resellerbot.Bot.Moves.Calls.{
  in_service-Keeps, own, service_traffic-Keeps, resolve_service-Keeps,
}
use resellerbot.Bot.Moves.Browsing.{
  load_detail-Keeps, detail_or_alert-Keeps, show_service_detail-Keeps,
}

module _ {user : ℕ} where
  refund_unknown-Keeps : (e : Error) → Keeps user (refund_unknown e)
  unfolding refund_unknown
  refund_unknown-Keeps service_not_found = pure-Keeps none
  refund_unknown-Keeps (service_panel_unavailable p) = pure-Keeps none
  refund_unknown-Keeps e = search keeps

  refund_hint-Keeps : (host : Host) (n : ℕ) (email : Text) → Keeps user (refund_hint host n email)
  unfolding refund_hint
  refund_hint-Keeps host n email =
      search (resolve_service-Keeps, service_traffic-Keeps, refund_unknown-Keeps, keeps) depth 12

  pub stored_email-Keeps : Keeps user stored_email
  unfolding stored_email
  stored_email-Keeps = search keeps depth 12

  -- A state that needs no data.
  ask_value-Keeps :
      (st : State) (x : Said) (u : Update)
      → ((d : Data) → IsReady (some st) d)
      → Keeps user (ask_value st x u)
  unfolding ask_value
  ask_value-Keeps st x u free = search (free, keeps) depth 12

  ignoring_return-Keeps : (m : Handler Unit) → Keeps user m → Keeps user (ignoring_return m)
  unfolding ignoring_return
  ignoring_return-Keeps m h = record {
    moves = λ c. elim (Flow-cases (m c).0) [
      | inl (a, e) ↦ rw (ignoring_return, e) (h.moves c)
      | inr (inl e) ↦ rw (ignoring_return, e) (h.moves c)
      | inr (inr (x, e)) ↦ rw (ignoring_return, e) (h.moves c)
    ];
  }

  module _ (host : Host) (u : Update) where
    pub service_delete_prompt-Keeps : Keeps user (service_delete_prompt host u)
    unfolding service_delete_prompt
    service_delete_prompt-Keeps = search (refund_hint-Keeps, keeps) depth 12

    pub back_to_detail-Keeps : Keeps user (back_to_detail host u)
    unfolding back_to_detail
    back_to_detail-Keeps = search (detail_or_alert-Keeps, keeps) depth 12

    pub expiry_menu-Keeps : Keeps user (expiry_menu host u)
    unfolding expiry_menu
    expiry_menu-Keeps = search (load_detail-Keeps, keeps) depth 12

    pub cancel_to_detail-Keeps : Keeps user (cancel_to_detail host u)
    unfolding cancel_to_detail
    cancel_to_detail-Keeps = search (detail_or_alert-Keeps, keeps) depth 12

  module _ (u : Update) where
    pub expiry_start_add_days-Keeps : Keeps user (expiry_start_add_days u)
    unfolding expiry_start_add_days
    expiry_start_add_days-Keeps = ask_value-Keeps _ _ u (λ d. tt)

    pub expiry_start_set_date-Keeps : Keeps user (expiry_start_set_date u)
    unfolding expiry_start_set_date
    expiry_start_set_date-Keeps = ask_value-Keeps _ _ u (λ d. tt)

    pub service_edit_limit_start-Keeps : Keeps user (service_edit_limit_start u)
    unfolding service_edit_limit_start
    service_edit_limit_start-Keeps = ask_value-Keeps _ _ u (λ d. tt)

    pub service_edit_comment_start-Keeps : Keeps user (service_edit_comment_start u)
    unfolding service_edit_comment_start
    service_edit_comment_start-Keeps = ask_value-Keeps _ _ u (λ d. tt)

module _ {user : ℕ} (host : Host) (u : Update) (from : u.from_user ≡ some user) where
  pub service_set_enabled-Keeps : (b : Bool) → Keeps user (service_set_enabled host b u)
  unfolding service_set_enabled
  service_set_enabled-Keeps b =
      search (from, user_of-after, in_service-Keeps, own, load_detail-Keeps, keeps) depth 14

  pub service_link-Keeps : Keeps user (service_link host u)
  unfolding service_link
  service_link-Keeps = search (from, user_of-after, in_service-Keeps, own, keeps) depth 14

  pub show_vless_qr_menu-Keeps : Keeps user (show_vless_qr_menu host u)
  unfolding show_vless_qr_menu
  show_vless_qr_menu-Keeps = search (from, need_both-after, in_service-Keeps, own, keeps) depth 14

  pub send_vless_qr-Keeps : Keeps user (send_vless_qr host u)
  unfolding send_vless_qr
  send_vless_qr-Keeps = search (from, need_both-after, in_service-Keeps, own, keeps) depth 14

  pub show_traffic-Keeps : Keeps user (show_traffic host u)
  unfolding show_traffic
  show_traffic-Keeps = search (from, user_of-after, in_service-Keeps, own, keeps) depth 14

  pub service_delete_confirm-Keeps : Keeps user (service_delete_confirm host u)
  unfolding service_delete_confirm
  service_delete_confirm-Keeps = search (from, user_of-after, in_service-Keeps, own, keeps) depth 14

  pub expiry_set_unlimited-Keeps : Keeps user (expiry_set_unlimited host u)
  unfolding expiry_set_unlimited
  expiry_set_unlimited-Keeps =
      search (from, need_both-after, in_service-Keeps, own, show_service_detail-Keeps, keeps) depth
        14

  pub expiry_process_add_days-Keeps : Keeps user (expiry_process_add_days host u)
  unfolding expiry_process_add_days
  expiry_process_add_days-Keeps =
      search (from, user_of-after, in_service-Keeps, own, stored_email-Keeps, keeps) depth 14

  pub expiry_process_set_date-Keeps : Keeps user (expiry_process_set_date host u)
  unfolding expiry_process_set_date
  expiry_process_set_date-Keeps =
      search (from, user_of-after, in_service-Keeps, own, stored_email-Keeps, keeps) depth 14

  show_service_edit_menu-Keeps :
      (email : Text) → Keeps user (show_service_edit_menu host user email)
  unfolding show_service_edit_menu
  show_service_edit_menu-Keeps email = search (in_service-Keeps, own, keeps) depth 14

  pub service_edit_menu-Keeps : Keeps user (service_edit_menu host u)
  unfolding service_edit_menu
  service_edit_menu-Keeps =
      search (from, need_both-after, ignoring_return-Keeps, show_service_edit_menu-Keeps, keeps)
        depth 14

  pub service_edit_limit_input-Keeps : Keeps user (service_edit_limit_input host u)
  unfolding service_edit_limit_input
  service_edit_limit_input-Keeps =
      search (from, user_of-after, in_service-Keeps, own, stored_email-Keeps, keeps) depth 14

  pub service_edit_comment_input-Keeps : Keeps user (service_edit_comment_input host u)
  unfolding service_edit_comment_input
  service_edit_comment_input-Keeps =
      search (from, user_of-after, in_service-Keeps, own, stored_email-Keeps, keeps) depth 14
