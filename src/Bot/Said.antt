-- ===== src/Bot/Said.antt =====
-- What the bot says in bot/handlers/reseller.py: its messages by what they are about, without their
-- wording (bot/texts/fa.py) and their keyboards.
use resellerbot.Prelude.{ℕ, Bool, Option, List}
use resellerbot.Prelude.Int.{ℤ}
use resellerbot.Prelude.Text.{Text}
use resellerbot.Errors.{Error, PanelReason}
use resellerbot.Models.{Float, AnyFloat, ServiceTemplate}
use resellerbot.Panel.{ClientDelivery, Traffic}
use resellerbot.Labels.{NameError}

-- What the bot says, with what it fills in.
pub data Reply : Type 0 where
  not_reseller welcome no_panel_access invalid_input : Reply
  pick_panel_prompt : List (ℕ × Text × Float) → Reply
  pick_template_prompt : List ServiceTemplate → Reply
  volume_prompt expiry_prompt : Reply
  client_name_prompt : Text → Reply
  template_not_found volume_too_low_text : Reply
  bad_suffix : NameError → Reply
  error_text panel_error_text : Error → Reply
  email_taken_text : Reply
  confirm_prompt : Text → Option Text → AnyFloat → ℤ → List ℕ → Reply
  create_cancelled rate_limited being_created create_incomplete stale_button : Reply
  panel_unavailable_text : ℕ → PanelReason → Reply
  delivered : Text → ClientDelivery → Bool → Reply
  no_accessible_services search_prompt : Reply
  no_results : Text → Reply
  service_list : List Text → ℤ → Option Text → Reply
  service_detail : Text → Bool → ℤ → Reply
  service_not_found_text : Reply
  service_panel_unavailable_text : ℕ → Reply
  expiry_mode : Text → ℤ → Reply
  add_days_prompt set_date_prompt bad_date : Reply
  expiry_updated : ℤ → Reply
  above_remaining_text above_current_text : AnyFloat → Float → Reply
  below_used_text : AnyFloat → Float → Reply
  add_traffic_prompt reduce_traffic_prompt : Reply
  add_traffic_menu reduce_traffic_menu : Text → Reply
  add_confirm_prompt reduce_confirm_prompt : Text → AnyFloat → Reply
  traffic_changed : ℤ → ℤ → Reply
  service_enabled service_disabled : Reply
  traffic_text : Text → Traffic → Reply
  delete_prompt : Text → Option Bool → Reply
  service_deleted : ℤ → Reply
  edit_menu : Text → ℤ → Text → Reply
  limit_ip_prompt comment_prompt negative_limit_text : Reply
  limit_ip_updated : ℤ → Reply
  comment_updated : Reply
  qr_not_available qr_choose qr_sent bad_qr : Reply
  qr_image : Text → Text → Reply

-- A message, a message that replaces its text, an alert, a notice, or an empty answer to a button.
pub data Said : Type 0 where
  answered edited alerted noticed : Reply → Said
  acknowledged markup_removed : Said
