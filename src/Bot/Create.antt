-- ===== src/Bot/Create.antt =====
-- The creation of a service, up to its name (bot/handlers/reseller.py): panel, and template or volume
-- and days. `accessible_panel_ids` is of bot/utils/reseller_welcome.py.
use resellerbot.Prelude.{
  ℕ, Bool, true, false, not, Option, none, some, List, [], ◌∷◌, ◌==◌, if◌then◌else◌, map,
}
use resellerbot.Prelude.Int.{pos, negsuc, ltb_ℤ}
use resellerbot.Prelude.Text.{Text}
use resellerbot.Errors.{Exec, ok, err, ⊤, panel_unavailable}
use resellerbot.Models.{Reseller, Float, finite}
use resellerbot.Inbounds.{contains}
use resellerbot.Volume.{is_volume_too_low, is_any_non_positive, is_any_too_low}
use resellerbot.Labels.{decimal, email_prefix}
use resellerbot.Json.{int_of_text}
use resellerbot.Quota.{global_status}
use resellerbot.Registry.{Site, xui_for_reseller_panel, list_reseller_panel_ids}
use resellerbot.Repository.Resellers
use resellerbot.Repository.Panels
use resellerbot.Repository.Templates
use resellerbot.Bot.Chat.{
  if_none, if_empty, if_true, create_pick_panel, create_volume, create_expiry, create_client_name,
  Update, Host, Handler, ◌>>=◌, ◌>>◌, gets, say, finish, stop_if, or_stop, user_of, need_message,
  need_both, when, set_state, update_data, clear, run, reads,
}
use resellerbot.Bot.Said.{
  welcome, answered, edited, alerted, acknowledged, markup_removed, not_reseller, no_panel_access,
  invalid_input, pick_panel_prompt, pick_template_prompt, volume_prompt, expiry_prompt,
  client_name_prompt, template_not_found, volume_too_low_text, create_cancelled,
}

-- The loop over the reseller's panels: those without a client are passed over.
unfoldable pub accessible : Reseller → List ℕ → Exec Site (List ℕ)
accessible reseller [] s = (ok [], s)
accessible reseller (p ∷ ps) s =
    let (r, s1) = xui_for_reseller_panel reseller p s in
    let (rest, s2) = accessible reseller ps s1 in
    elim r [
      | ok client ↦ (elim rest [ ok ids ↦ ok (p ∷ ids) | err e ↦ err e ], s2)
      | err (panel_unavailable _ _) ↦ (rest, s2)
      | err e ↦ (err e, s1)
    ]

unfoldable pub accessible_panel_ids : Reseller → Exec Site (List ℕ)
accessible_panel_ids reseller s = accessible reseller (list_reseller_panel_ids reseller true s) s

-- `if not reseller or not reseller.is_active: return None, None`
unfoldable pub get_active_reseller : ℕ → Site → Option Reseller
get_active_reseller user s = elim (Resellers.get user s.db) [
  | none ↦ none
  | some r ↦ (if r.is_active then some r else none)
]

abbrev is_no_list : {A : Type 0} → List A → Bool
is_no_list [] = true
is_no_list (_ ∷ _) = false

-- The text behind the first colon, as `split(":", 1)[1]` is.
abbrev pub after_colon : Text → Option Text
after_colon [] = none
after_colon (c ∷ s) = let rest = after_colon s in if c == b':' then some s else rest

-- `int(…)` of it, of a row's id.
abbrev pub id_of : Option Text → Option ℕ
id_of none = none
id_of (some s) = elim (int_of_text s) [
  | none ↦ none
  | some (pos n) ↦ some n
  | some (negsuc _) ↦ none
]

-- `text.replace(",", ".")`
abbrev pub with_point : Text → Text
with_point = map λ c. if c == b',' then b'.' else c

module _ (host : Host) where
  open host use {to_float, bytes_to_gb}

  abbrev panel_option : Reseller → Site → ℕ → ℕ × Text × Float
  panel_option reseller s panel_id = (
    panel_id,
    elim (Panels.get panel_id s.db) [ none ↦ b'#' ∷ decimal panel_id | some p ↦ p.name ],
    bytes_to_gb ((global_status reseller s.db).remaining_bytes),
  )

  -- It shows the welcome text.
  unfoldable pub account_status : Update → Handler ⊤
  unfolding get_active_reseller
  account_status u = do
    user ← user_of u
    found ← reads (get_active_reseller user)
    or_stop found (answered not_reseller)
    say (answered welcome)

  -- `_create_panel_options`
  unfoldable pub create_panel_options : Reseller → Handler (List (ℕ × Text × Float))
  create_panel_options reseller = do
    ids ← run (accessible_panel_ids reseller)
    reads (λ s. map (panel_option reseller s) ids)

  -- `_continue_create_flow`
  unfoldable pub continue_create_flow : ℕ → Bool → Handler ⊤
  continue_create_flow panel_id has_templates = do
    update_data (λ d. record d { panel_id = some panel_id })
    if_true has_templates
        (do
          templates ← reads (λ s. Templates.list_active s.db)
          say (answered (pick_template_prompt templates)))
        (do set_state (some create_volume); say (answered volume_prompt))

  -- `_prompt_pick_panel_or_continue`
  unfoldable pub prompt_pick_panel_or_continue : Reseller → Handler ⊤
  unfolding create_panel_options continue_create_flow
  prompt_pick_panel_or_continue reseller = do
    options ← create_panel_options reseller
    templates ← reads (λ s. Templates.list_active s.db)
    if_empty options (say (answered no_panel_access)) λ option more.
        if_empty more (continue_create_flow option.0 (not (is_no_list templates)))
          λ _ _. do set_state (some create_pick_panel); say (answered (pick_panel_prompt options))

  -- `_prompt_client_name`
  unfoldable pub prompt_client_name : Reseller → Handler ⊤
  prompt_client_name reseller = do
    set_state (some create_client_name)
    say (answered (client_name_prompt (email_prefix reseller)))

  unfoldable pub start_create : Update → Handler ⊤
  unfolding get_active_reseller prompt_pick_panel_or_continue
  start_create u = do
    user ← user_of u
    found ← reads (get_active_reseller user)
    reseller ← or_stop found (answered not_reseller)
    clear
    prompt_pick_panel_or_continue reseller

  -- Start again, for a reseller whose panel is not known.
  unfoldable pub restart_create : Update → Reseller → Handler ⊤
  unfolding prompt_pick_panel_or_continue
  restart_create u reseller = do
    clear
    when u.has_message (prompt_pick_panel_or_continue reseller)
    finish acknowledged

  unfoldable pub create_manual : Update → Handler ⊤
  unfolding get_active_reseller restart_create
  create_manual u = do
    user ← user_of u
    found ← reads (get_active_reseller user)
    reseller ← or_stop found (alerted not_reseller)
    data_panel ← gets (λ c. c.form.panel_id)
    if_none data_panel (restart_create u reseller) λ panel_id. do
      set_state (some create_volume)
      update_data (λ d. record d { panel_id = some panel_id; template_name = none })
      when u.has_message (say (edited volume_prompt))
      say acknowledged

  -- The data is `create:panel:` and an id.
  unfoldable pub pick_panel : Update → Handler ⊤
  unfolding get_active_reseller continue_create_flow
  pick_panel u = do
    user ← need_both u
    panel_id ←
        or_stop
          (id_of (elim (after_colon u.payload) [ none ↦ none | some rest ↦ after_colon rest ]))
          (alerted invalid_input)
    found ← reads (get_active_reseller user)
    reseller ← or_stop found (alerted not_reseller)
    ids ← run (accessible_panel_ids reseller)
    stop_if (not (contains ids panel_id)) (alerted no_panel_access)
    templates ← reads (λ s. Templates.list_active s.db)
    continue_create_flow panel_id (not (is_no_list templates))
    say markup_removed
    say acknowledged

  -- The data is `tpl:` and an id.
  unfoldable pub create_from_template : Update → Handler ⊤
  unfolding get_active_reseller restart_create prompt_client_name
  create_from_template u = do
    user ← user_of u
    found ← reads (get_active_reseller user)
    reseller ← or_stop found (alerted not_reseller)
    data_panel ← gets (λ c. c.form.panel_id)
    template_id ← or_stop (id_of (after_colon u.payload)) (alerted invalid_input)
    row ← reads (λ s. Templates.get_active template_id s.db)
    tpl ← or_stop row (alerted template_not_found)
    stop_if (is_volume_too_low tpl.volume_gb) (alerted volume_too_low_text)
    if_none data_panel (restart_create u reseller) λ panel_id. do
      update_data (λ d. record d {
        panel_id = some panel_id;
        volume_gb = some (finite tpl.volume_gb);
        expiry_days = some tpl.expiry_days;
        template_name = some tpl.name;
      })
      when u.has_message (prompt_client_name reseller >> say markup_removed)
      say acknowledged

  unfoldable pub process_volume : Update → Handler ⊤
  process_volume u = do
    volume ← or_stop (to_float (with_point u.payload)) (answered invalid_input)
    stop_if (is_any_non_positive volume) (answered invalid_input)
    stop_if (is_any_too_low volume) (answered volume_too_low_text)
    update_data (λ d. record d { volume_gb = some volume })
    set_state (some create_expiry)
    say (answered expiry_prompt)

  unfoldable pub process_expiry : Update → Handler ⊤
  unfolding get_active_reseller prompt_client_name
  process_expiry u = do
    days ← or_stop (int_of_text u.payload) (answered invalid_input)
    stop_if (ltb_ℤ days (pos 0)) (answered invalid_input)
    user ← user_of u
    found ← reads (get_active_reseller user)
    if_none found (clear >> finish (answered not_reseller)) λ reseller. do
      update_data (λ d. record d { expiry_days = some days })
      prompt_client_name reseller

  unfoldable pub cancel_create : Update → Handler ⊤
  cancel_create u = do need_message u; clear; say (edited create_cancelled); say acknowledged
