-- ===== src/Bot/Services.antt =====
-- The buttons of a service that act on it at once (bot/handlers/reseller.py): enable, disable, link,
-- QR, traffic and delete. `is_vless_config_url` is of bot/utils/qr_vless.py; the drawing of a QR
-- image is left out.
use resellerbot.Prelude.{
  ℕ, Bool, true, false, not, ◌||◌, Option, none, some, List, [], ◌∷◌, if◌then◌else◌, ◌==◌,
}
use resellerbot.Prelude.Int.{ℤ, pos, negsuc}
use resellerbot.Prelude.Text.{Text, codes, strip, starts_with}
use resellerbot.Errors.{Exec, ⊤, Error, is_xui_error, service_not_found, service_panel_unavailable}
use resellerbot.Json.{int_of_text}
use resellerbot.Panel.{XuiClient, World}
use resellerbot.Registry.{on_service}
use resellerbot.Service.{
  used_bytes, is_quota_refund_eligible, service_traffic, set_service_enabled, get_delivery,
  delete_service,
}
use resellerbot.ServiceResolve.{ServiceContext, resolve_service}
use resellerbot.Repository.Resellers
use resellerbot.Repository.Clients
use resellerbot.Bot.Chat.{
  if_true, Update, Host, Handler, ◌>>=◌, ◌>>◌, pure, raise, say, stop_if, or_stop, user_of,
  need_both, run, reads, catching, answer_resolve, xui_error_as, on_message,
}
use resellerbot.Bot.Said.{
  Reply, Said, answered, edited, alerted, noticed, acknowledged, not_reseller, invalid_input,
  service_not_found_text, service_detail, service_enabled, service_disabled, delivered,
  qr_not_available, qr_choose, qr_sent, bad_qr, qr_image, traffic_text, delete_prompt,
  service_deleted,
}
use resellerbot.Bot.Create.{after_colon}
use resellerbot.Bot.Browse.{text_or_empty, load_service_detail, detail_or_alert}

-- The email behind the first colon of a button's data.
abbrev pub email_in : Update → Text
email_in u = text_or_empty (after_colon u.payload)

abbrev is_no_text : List Text → Bool
is_no_text [] = true
is_no_text (_ ∷ _) = false

-- `xs[i]`, where the index is inside.
abbrev get_elem? : List Text → ℤ → Option Text
get_elem? [] i = none
get_elem? (x ∷ xs) (negsuc _) = none
get_elem? (x ∷ xs) (pos ℕ.zero) = some x
get_elem? (x ∷ xs) (pos (ℕ.suc n)) = get_elem? xs (pos n)

unfoldable pub is_vless_config_url : Text → Bool
is_vless_config_url link =
    let text = strip link in
    starts_with text (codes "vless://")
    || (starts_with text (codes "vmess://")
        || (starts_with text (codes "trojan://") || starts_with text (codes "ss://")))

-- The text before the first colon.
abbrev before_colon : Text → Text
before_colon [] = []
before_colon (c ∷ s) = let rest = before_colon s in if c == b':' then [] else c ∷ rest

-- `except (ServiceNotFoundError, ServicePanelUnavailableError, XuiError): pass`
unfoldable pub refund_unknown : Error → Handler (Option Bool)
refund_unknown service_not_found = pure none
refund_unknown (service_panel_unavailable _) = pure none
refund_unknown e = if_true (is_xui_error e) (pure none) (raise e)

module _ (host : Host) where
  open host use {net, quota_refund_max_traffic_gb}

  -- A method of ResellerService on the user's service `email`: the session that
  -- `open_service_context` opens, and the two `except` around it.
  unfoldable pub in_service :
      {A : Type 0}
      → (Reply → Said)
      → ℕ
      → Text
      → ((xui : XuiClient) → ServiceContext → Exec (World xui.State) A)
      → Handler A
  in_service how user email method =
      catching
        (do
          ctx ← run (resolve_service user email)
          catching (run (on_service net ctx.xui (method (net.connect ctx.xui) ctx)))
              (xui_error_as how))
        (answer_resolve how)

  -- `_service_set_enabled`; the notice goes by what the panel says afterwards.
  unfoldable pub service_set_enabled : Bool → Update → Handler ⊤
  unfolding in_service load_service_detail
  service_set_enabled enabled u = do
    let email = email_in u
    user ← user_of u
    in_service alerted user email (λ xui ctx. set_service_enabled xui ctx.reseller email enabled)
    detail ← catching (run (load_service_detail host user email)) (answer_resolve alerted)
    on_message u (edited (service_detail email detail.0 detail.1))
    say (noticed (if detail.0 then service_enabled else service_disabled))

  unfoldable pub service_link : Update → Handler ⊤
  unfolding in_service
  service_link u = do
    let email = email_in u
    user ← user_of u
    delivery ← in_service alerted user email (λ xui ctx. get_delivery xui ctx.reseller email)
    on_message u (answered (delivered email delivery false))
    say acknowledged

  unfoldable pub show_vless_qr_menu : Update → Handler ⊤
  unfolding in_service
  show_vless_qr_menu u = do
    let email = email_in u
    user ← need_both u
    delivery ← in_service alerted user email (λ xui ctx. get_delivery xui ctx.reseller email)
    stop_if (is_no_text delivery.vless_links) (alerted qr_not_available)
    say (answered qr_choose)
    say acknowledged

  -- The data is `qr:`, an email, a colon and an index.
  unfoldable pub send_vless_qr : Update → Handler ⊤
  unfolding in_service is_vless_config_url
  send_vless_qr u = do
    let email = before_colon (email_in u)
    index ←
        or_stop (elim (after_colon (email_in u)) [ none ↦ none | some n ↦ int_of_text n ])
          (alerted invalid_input)
    user ← need_both u
    delivery ← in_service alerted user email (λ xui ctx. get_delivery xui ctx.reseller email)
    link ← or_stop (get_elem? delivery.vless_links index) (alerted invalid_input)
    stop_if (not (is_vless_config_url link)) (alerted bad_qr)
    say (answered (qr_image email (strip link)))
    say (noticed qr_sent)

  -- The handler `service_traffic`.
  unfoldable pub show_traffic : Update → Handler ⊤
  unfolding in_service
  show_traffic u = do
    let email = email_in u
    user ← user_of u
    traffic ← in_service alerted user email (λ xui ctx. service_traffic xui ctx.reseller email)
    on_message u (answered (traffic_text email traffic))
    say acknowledged

  -- Whether the deletion would give the quota back, if the panel says.
  unfoldable pub refund_hint : ℕ → Text → Handler (Option Bool)
  refund_hint user email =
      catching
        (do
          ctx ← run (resolve_service user email)
          traffic ←
              run
                (on_service net ctx.xui (service_traffic (net.connect ctx.xui) ctx.reseller email))
          pure (some (is_quota_refund_eligible quota_refund_max_traffic_gb (used_bytes traffic))))
        refund_unknown

  unfoldable pub service_delete_prompt : Update → Handler ⊤
  unfolding refund_hint
  service_delete_prompt u = do
    let email = email_in u
    user ← need_both u
    found ← reads (λ s. Resellers.get user s.db)
    reseller ← or_stop found (alerted not_reseller)
    row ← reads (λ s. Clients.get_for_reseller_email reseller.telegram_id email s.db)
    or_stop row (alerted service_not_found_text)
    hint ← refund_hint user email
    say (edited (delete_prompt email hint))
    say acknowledged

  unfoldable pub service_delete_confirm : Update → Handler ⊤
  unfolding in_service
  service_delete_confirm u = do
    let email = email_in u
    user ← user_of u
    refunded ←
        in_service alerted user email
          (λ xui ctx. delete_service xui quota_refund_max_traffic_gb ctx.reseller email)
    on_message u (edited (service_deleted refunded))
    say acknowledged

  -- `del_cancel:` and `edit_back:` show the page of the service again.
  unfoldable pub back_to_detail : Update → Handler ⊤
  unfolding detail_or_alert
  back_to_detail u = do user ← need_both u; detail_or_alert host user (email_in u)

  abbrev pub service_delete_cancel : Update → Handler ⊤
  service_delete_cancel = back_to_detail

  abbrev pub service_edit_back : Update → Handler ⊤
  service_edit_back = back_to_detail

  abbrev pub service_enable : Update → Handler ⊤
  service_enable = service_set_enabled true

  abbrev pub service_disable : Update → Handler ⊤
  service_disable = service_set_enabled false
