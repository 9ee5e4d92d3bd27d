-- ===== src/Bot/Browse.antt =====
-- The list of a reseller's services, its search, and the page of one service
-- (bot/handlers/reseller.py).
pub mod Pages
use resellerbot.Prelude.{
  ℕ, ◌+◌, ◌*◌, ◌-◌, ◌/◌, Bool, true, false, not, ◌||◌, Option, none, some, List, [], ◌∷◌, ◌++◌,
  if◌then◌else◌, map, select, length, leb, ltb,
}
use resellerbot.Prelude.Int.{ℤ, pos, negsuc, ltb_ℤ, max_ℤ}
use resellerbot.Prelude.Text.{Text, codes, strip, take_text, contains_text, text_eq, starts_with}
use resellerbot.Errors
use resellerbot.Errors.{Exec, ⊤, Error, except_xui}
use resellerbot.Models.{ClientRecord}
use resellerbot.Labels.{lower}
use resellerbot.Json.{int_of_text}
use resellerbot.Registry.{Site, on_service}
use resellerbot.Service.{service_traffic}
use resellerbot.ServiceResolve.{ServiceContext, resolve_service, list_accessible_clients}
use resellerbot.Bot.Chat.{
  if_empty, State, search_query, Chat, Update, Host, Handler, ◌>>=◌, ◌>>◌, pure, gets, when, say,
  finish, stop_if, or_stop, user_of, need_message, need_both, set_state, update_data, run, reads,
  catching, answer_resolve, on_message,
}
use resellerbot.Bot.Said.{
  Reply, Said, answered, edited, alerted, acknowledged, not_reseller, invalid_input,
  no_accessible_services, search_prompt, no_results, service_list, service_detail,
}
use resellerbot.Bot.Create.{get_active_reseller, after_colon}

abbrev pub max_search_query_len : ℕ
max_search_query_len = 40

-- `_accessible_service_emails`
unfoldable pub accessible_service_emails : ℕ → Site → List Text
accessible_service_emails reseller_tg_id s =
    map (λ (d : ClientRecord). d.email) (list_accessible_clients reseller_tg_id s)

-- `_normalize_search_query`
unfoldable pub normalize_search_query : Text → Text
normalize_search_query raw = take_text max_search_query_len (strip raw)

abbrev pub text_or_empty : Option Text → Text
text_or_empty none = []
text_or_empty (some s) = s

abbrev lowered : Text → Text
lowered = map lower

abbrev filtered : List Text → Text → List Text
filtered emails [] = emails
filtered emails (c ∷ q) = select (λ e. contains_text (lowered e) (c ∷ q)) emails

-- `_filter_emails`
unfoldable pub filter_emails : List Text → Option Text → List Text
filter_emails emails query = filtered emails (lowered (strip (text_or_empty query)))

-- `_show_service_list`; `how` is `edit_text` or `answer`.
unfoldable pub show_service_list : (Reply → Said) → List Text → ℤ → Option Text → Handler ⊤
show_service_list how [] page (some (c ∷ q)) = say (how (no_results (c ∷ q)))
show_service_list how [] page query = say (how (service_list [] page query))
show_service_list how (e ∷ emails) page query = say (how (service_list (e ∷ emails) page query))

abbrev query_of : Chat → Option Text
query_of c = c.form.service_search_query

unfoldable pub my_services : Update → Handler ⊤
unfolding get_active_reseller accessible_service_emails show_service_list
my_services u = do
  user ← user_of u
  found ← reads (get_active_reseller user)
  or_stop found (answered not_reseller)
  emails ← reads (accessible_service_emails user)
  if_empty emails (finish (answered no_accessible_services)) λ e es. do
    query ← gets query_of
    show_service_list answered (filter_emails (e ∷ es) query) (pos 0) query

-- What `services_back`, `services_page` and `service_search_cancel` show.
unfoldable pub show_page : ℕ → ℤ → Handler ⊤
unfolding accessible_service_emails show_service_list
show_page user page = do
  emails ← reads (accessible_service_emails user)
  query ← gets query_of
  if_empty emails (say (edited no_accessible_services))
      λ e es. show_service_list edited (filter_emails (e ∷ es) query) page query

unfoldable pub services_back : Update → Handler ⊤
unfolding show_page
services_back u = do user ← need_both u; show_page user (pos 0); say acknowledged

-- The data is `svc:pg:` and a number.
unfoldable pub services_page : Update → Handler ⊤
unfolding show_page
services_page u = do
  user ← need_both u
  page ←
      or_stop
        (elim (after_colon u.payload) [
          | none ↦ none
          | some rest ↦ elim (after_colon rest) [ none ↦ none | some n ↦ int_of_text n ]
        ])
        (alerted invalid_input)
  show_page user page
  say acknowledged

unfoldable pub service_search_start : Update → Handler ⊤
service_search_start u = do
  need_message u
  set_state (some search_query)
  say (edited search_prompt)
  say acknowledged

unfoldable pub service_search_input : Update → Handler ⊤
unfolding accessible_service_emails show_service_list
service_search_input u = do
  user ← user_of u
  if_empty (normalize_search_query u.payload) (finish (answered invalid_input)) λ c q. do
    update_data (λ d. record d { service_search_query = some (c ∷ q) })
    set_state none
    emails ← reads (accessible_service_emails user)
    show_service_list answered (filter_emails emails (some (c ∷ q))) (pos 0) (some (c ∷ q))

unfoldable pub service_search_clear : Update → Handler ⊤
unfolding show_page
service_search_clear u = do
  user ← need_both u
  update_data (λ d. record d { service_search_query = none })
  show_page user (pos 0)
  say acknowledged

unfoldable pub service_search_cancel : Update → Handler ⊤
unfolding show_page
service_search_cancel u = do
  user ← need_both u
  set_state none
  show_page user (pos 0)
  say acknowledged

-- The expiry to show: the panel's, where that is positive.
abbrev shown_expiry : ℤ → Option ℤ → ℤ
shown_expiry stored none = stored
shown_expiry stored (some ms) = if ltb_ℤ (pos 0) ms then ms else stored

module _ (host : Host) where
  open host use {net}

  -- `_load_service_detail`; a panel that does not answer leaves the service enabled.
  unfoldable pub load_service_detail : ℕ → Text → Exec Site (Bool × ℤ)
  load_service_detail user email = Errors.◌>>=◌ (resolve_service user email) λ ctx.
      except_xui
        (Errors.◌>>=◌
          (on_service net ctx.xui (service_traffic (net.connect ctx.xui) ctx.reseller email))
          λ traffic.
            Errors.pure (traffic.enable, shown_expiry ctx.client.expiry_time traffic.expiry_time))
        (true, ctx.client.expiry_time)

  -- `_show_service_detail`
  unfoldable pub show_service_detail : ℕ → Text → Handler ⊤
  unfolding load_service_detail
  show_service_detail user email = do
    detail ← run (load_service_detail user email)
    say (edited (service_detail email detail.0 detail.1))

  -- The page of a service, or why there is none; then an empty answer.
  unfoldable pub detail_or_alert : ℕ → Text → Handler ⊤
  unfolding show_service_detail
  detail_or_alert user email = do
    catching (show_service_detail user email) (answer_resolve alerted)
    say acknowledged

  -- The data is `svc:` and an email.
  unfoldable pub service_detail_page : Update → Handler ⊤
  unfolding detail_or_alert
  service_detail_page u =
      let email = text_or_empty (after_colon u.payload) in
      when (not (text_eq email (codes "back") || starts_with email (codes "pg:")))
        (need_both u >>= λ user. detail_or_alert user email)
