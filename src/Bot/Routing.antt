-- ===== src/Bot/Routing.antt =====
-- The router of bot/handlers/reseller.py: which handler an update reaches. aiogram tries the handlers
-- in the order of their registration and runs the first whose filters pass.
--
-- `\d` is an ASCII digit here, and `$` the end of the text: the data of a button is the bot's own.
pub mod Steps
pub mod Runs
pub mod Confirmed
use resellerbot.Prelude.{
  ℕ, Bool, true, false, not, ◌&&◌, ◌||◌, Option, none, some, List, [], ◌∷◌, ◌++◌, ◌==◌, leb,
  if◌then◌else◌,
}
use resellerbot.Prelude.Text.{Text, codes, text_eq, starts_with}
use resellerbot.Bot.Chat.{
  State, create_pick_panel, create_volume, create_expiry, create_client_name, create_confirm,
  extend_add_days, extend_set_date, add_traffic_volume, reduce_traffic_volume, edit_limit_ip,
  edit_comment, search_query, Chat, Update, Host, Handler, pure,
}
use resellerbot.Bot.Create.{
  account_status, start_create, create_manual, pick_panel, create_from_template, process_volume,
  process_expiry, cancel_create,
}
use resellerbot.Bot.Confirm.{
  process_client_name, create_auto_name, confirm_create, confirm_create_stale,
}
use resellerbot.Bot.Browse.{
  my_services, services_back, services_page, service_search_start, service_search_input,
  service_search_clear, service_search_cancel, service_detail_page,
}
use resellerbot.Bot.Services.{
  service_enable, service_disable, service_link, show_vless_qr_menu, send_vless_qr, show_traffic,
  service_delete_prompt, service_delete_confirm, service_delete_cancel, service_edit_back,
}
use resellerbot.Bot.Expiry.{
  expiry_start_add_days, expiry_start_set_date, expiry_menu, expiry_set_unlimited, expiry_cancel,
  add_traffic_cancel, reduce_traffic_cancel, expiry_process_add_days, expiry_process_set_date,
}
use resellerbot.Bot.Traffic.{
  add_traffic_opened, add_traffic_quick_volume, add_traffic_custom_start, add_traffic_custom_volume,
  add_traffic_confirmed, reduce_traffic_opened, reduce_traffic_quick_volume,
  reduce_traffic_custom_start, reduce_traffic_custom_volume, reduce_traffic_confirmed,
}
use resellerbot.Bot.Edit.{
  service_edit_menu, service_edit_limit_start, service_edit_comment_start, service_edit_limit_input,
  service_edit_comment_input,
}

abbrev no_colon : Text → Bool
no_colon [] = true
no_colon (c ∷ s) = not (c == b':') && no_colon s

abbrev all_digits : Text → Bool
all_digits [] = true
all_digits (c ∷ s) = leb b'0' c && leb c b'9' && all_digits s

abbrev is_empty_text : Text → Bool
is_empty_text [] = true
is_empty_text (_ ∷ _) = false

-- The text behind a prefix.
abbrev behind : Text → Text → Option Text
behind s [] = some s
behind [] (b ∷ t) = none
behind (a ∷ s) (b ∷ t) = if a == b then behind s t else none

-- `^prefix[^:]+$`
abbrev one_part : Text → Text → Bool
one_part prefix s = elim (behind s prefix) [
  | none ↦ false
  | some rest ↦ not (is_empty_text rest) && no_colon rest
]

-- `^svc:pg:\d+$`
abbrev numbered : Text → Text → Bool
numbered prefix s = elim (behind s prefix) [
  | none ↦ false
  | some rest ↦ not (is_empty_text rest) && all_digits rest
]

abbrev digits_behind_colon : Bool → Text → Bool
digits_behind_colon seen [] = false
digits_behind_colon seen (c ∷ s) =
    let rest = digits_behind_colon true s in
    if c == b':' then seen && (not (is_empty_text s) && all_digits s) else rest

-- `^qr:[^:]+:\d+$`
abbrev part_and_number : Text → Text → Bool
part_and_number prefix s = elim (behind s prefix) [
  | none ↦ false
  | some rest ↦ digits_behind_colon false rest
]

abbrev is_data : Text → Text → Bool
is_data s t = text_eq t s

-- The filters of a handler: a state that it needs, and a test of the text or of the data.
pub record Route : Type 0 where
  pub state : Option State
  pub applies : Text → Bool
  pub handler : Update → Handler Unit

-- The states by number, to compare them.
abbrev number : State → ℕ
number create_pick_panel = 0
number create_volume = 1
number create_expiry = 2
number create_client_name = 3
number create_confirm = 4
number extend_add_days = 5
number extend_set_date = 6
number add_traffic_volume = 7
number State.add_traffic_confirm = 8
number reduce_traffic_volume = 9
number State.reduce_traffic_confirm = 10
number edit_limit_ip = 11
number edit_comment = 12
number search_query = 13

unfoldable pub in_state : Option State → Option State → Bool
in_state none current = true
in_state (some st) none = false
in_state (some st) (some current) = number st == number current

abbrev pub anywhere : (Text → Bool) → (Update → Handler Unit) → Route
anywhere p h = record { state = none; applies = p; handler = h }

abbrev pub within : State → (Text → Bool) → (Update → Handler Unit) → Route
within st p h = record { state = some st; applies = p; handler = h }

abbrev any_text : Text → Bool
any_text s = true

-- The labels of the menu's buttons.
pub record Labels : Type 0 where
  pub account_status : Text
  pub create_service : Text
  pub my_services : Text

module _ (host : Host) (labels : Labels) where
  unfoldable pub message_routes : List Route
  message_routes =
      anywhere (is_data labels.account_status) (account_status host)
      ∷ anywhere (is_data labels.create_service) (start_create host)
      ∷ within create_volume any_text (process_volume host)
      ∷ within create_expiry any_text (process_expiry host)
      ∷ within create_client_name any_text (process_client_name host)
      ∷ anywhere (is_data labels.my_services) my_services
      ∷ within search_query any_text service_search_input
      ∷ within add_traffic_volume any_text (add_traffic_custom_volume host)
      ∷ within reduce_traffic_volume any_text (reduce_traffic_custom_volume host)
      ∷ within extend_add_days any_text (expiry_process_add_days host)
      ∷ within extend_set_date any_text (expiry_process_set_date host)
      ∷ within edit_limit_ip any_text (service_edit_limit_input host)
      ∷ within edit_comment any_text (service_edit_comment_input host)
      ∷ []

  unfoldable pub create_routes : List Route
  create_routes =
      anywhere (is_data (codes "create:manual")) (create_manual host)
      ∷ within create_pick_panel (λ s. starts_with s (codes "create:panel:")) (pick_panel host)
      ∷ anywhere (λ s. starts_with s (codes "tpl:")) (create_from_template host)
      ∷ within create_client_name (is_data (codes "create:auto_name")) (create_auto_name host)
      ∷ anywhere (is_data (codes "create:cancel")) (cancel_create host)
      ∷ within create_confirm (is_data (codes "create:confirm")) (confirm_create host)
      ∷ anywhere (is_data (codes "create:confirm")) (λ u. confirm_create_stale host)
      ∷ []

  unfoldable pub browse_routes : List Route
  browse_routes =
      anywhere (is_data (codes "svc:back")) services_back
      ∷ anywhere (numbered (codes "svc:pg:")) services_page
      ∷ anywhere (is_data (codes "svc:search")) service_search_start
      ∷ anywhere (is_data (codes "svc:search:clear")) service_search_clear
      ∷ anywhere (is_data (codes "svc:search:cancel")) service_search_cancel
      ∷ anywhere (λ s. starts_with s (codes "svc:")) (service_detail_page host)
      ∷ []

  unfoldable pub change_routes : List Route
  change_routes =
      anywhere (one_part (codes "exp:")) (expiry_menu host)
      ∷ anywhere (λ s. starts_with s (codes "exp_add:")) expiry_start_add_days
      ∷ anywhere (λ s. starts_with s (codes "exp_date:")) expiry_start_set_date
      ∷ anywhere (λ s. starts_with s (codes "exp_unlim:")) (expiry_set_unlimited host)
      ∷ anywhere (λ s. starts_with s (codes "exp_cancel:")) (expiry_cancel host)
      ∷ anywhere (one_part (codes "traf:")) (add_traffic_opened host)
      ∷ anywhere (λ s. starts_with s (codes "traf_vol:")) (add_traffic_quick_volume host)
      ∷ anywhere (is_data (codes "traf_custom")) (add_traffic_custom_start host)
      ∷ anywhere (is_data (codes "traf_confirm")) (add_traffic_confirmed host)
      ∷ anywhere (λ s. starts_with s (codes "traf_cancel:")) (add_traffic_cancel host)
      ∷ anywhere (one_part (codes "trafd:")) (reduce_traffic_opened host)
      ∷ anywhere (λ s. starts_with s (codes "trafd_vol:")) (reduce_traffic_quick_volume host)
      ∷ anywhere (is_data (codes "trafd_custom")) (reduce_traffic_custom_start host)
      ∷ anywhere (is_data (codes "trafd_confirm")) (reduce_traffic_confirmed host)
      ∷ anywhere (λ s. starts_with s (codes "trafd_cancel:")) (reduce_traffic_cancel host)
      ∷ []

  unfoldable pub service_routes : List Route
  service_routes =
      anywhere (λ s. starts_with s (codes "enable:")) (service_enable host)
      ∷ anywhere (λ s. starts_with s (codes "disable:")) (service_disable host)
      ∷ anywhere (λ s. starts_with s (codes "link:")) (service_link host)
      ∷ anywhere (λ s. starts_with s (codes "qr_menu:")) (show_vless_qr_menu host)
      ∷ anywhere (part_and_number (codes "qr:")) (send_vless_qr host)
      ∷ anywhere (λ s. starts_with s (codes "traffic:")) (show_traffic host)
      ∷ anywhere (one_part (codes "del:")) (service_delete_prompt host)
      ∷ anywhere (λ s. starts_with s (codes "del_confirm:")) (service_delete_confirm host)
      ∷ anywhere (λ s. starts_with s (codes "del_cancel:")) (service_delete_cancel host)
      ∷ anywhere (one_part (codes "edit:")) (service_edit_menu host)
      ∷ anywhere (λ s. starts_with s (codes "edit_back:")) (service_edit_back host)
      ∷ anywhere (λ s. starts_with s (codes "edit_limit:")) service_edit_limit_start
      ∷ anywhere (λ s. starts_with s (codes "edit_comment:")) service_edit_comment_start
      ∷ []

-- The first route whose filters pass; an update that none takes is left alone.
unfoldable pub first_route : List Route → Update → Handler Unit
first_route [] u c = pure tt c
first_route (r ∷ rs) u c =
    let rest = first_route rs u c in
    if in_state r.state c.state && r.applies u.payload then r.handler u c else rest

-- A text, or the press of a button.
pub data Event : Type 0 where
  message callback : Update → Event

abbrev pub update_of : Event → Update
update_of (message u) = u
update_of (callback u) = u

unfoldable pub routes : Host → Labels → Event → List Route
routes host labels (message u) = message_routes host labels
routes host labels (callback u) =
    create_routes host labels
    ++ (browse_routes host labels ++ (change_routes host labels ++ service_routes host labels))

-- What an event does to the chat.
unfoldable pub dispatch : Host → Labels → Event → Chat → Chat
unfolding first_route routes
dispatch host labels e c = (first_route (routes host labels e) (update_of e) c).1
