-- ===== src/Xui/Delivery.antt =====
-- What a client of a panel is given (xui/client.py): its links and its subscriptions.
pub mod Subscriptions
use resellerbot.Prelude.{
  ℕ, suc, Bool, true, false, not, ◌||◌, Option, none, some, List, [], ◌∷◌, ◌++◌, if◌then◌else◌, map,
}
use resellerbot.Prelude.Int.{ℤ, pos, ◌+ℤ◌, ◌-ℤ◌, ltb_ℤ}
use resellerbot.Prelude.Text.{Text, codes, strip}
use resellerbot.Errors.{
  Exec, ⊤, pure, raise, gets, checks, modify, ◌>>=◌, ◌>>◌, raise_if, or_raise, except_xui,
  except_any, Result, ok, xui_error, attribute_error, client_missing, no_days, too_few_bytes,
  no_fields, panel_skipped,
}
use resellerbot.Models.{Float}
use resellerbot.Inbounds.{is_empty}
use resellerbot.Volume.{gb_to_bytes}
use resellerbot.Service.{days_ms}
use resellerbot.Json.{Value, null, bool, int, text, arr, obj, nil, cons, Fields, end, field}
use resellerbot.Url.Quote.{quote}
use resellerbot.Xui.Flow.{resolve_flow_for_inbound_ids}
use resellerbot.Xui.Links.{VlessConfig, normalize_vless_configs, normalize_links}
use resellerbot.Xui.Payload.{build_client_update_payload, build_subscription_url, extract_sub_id}
use resellerbot.Xui.Client.{
  is_client_not_found, is_already_there, unwrapped, client_in, inbound_rows, skips, skipped_items,
  bulk, ints, enrich_vless_remarks_from_inbounds, patch_config, all_ok, add_new,
}
use resellerbot.Xui.Session.{Connection, Config, Link, get_method, post_method, request}
use resellerbot.Xui.Calls.{path_of, list_inbounds, get_client}

pub record ClientDelivery : Type 0 where
  pub vless_configs : List VlessConfig
  pub subscription_links : List Text

module _ (connection : Connection) (config : Config) (loads : Text → Option Value)
    (ids : ℕ → Text) where
  open connection use {Server}
  open config use {sub_public_url}

  unfoldable pub get_links : Text → Exec (Link Server) (List VlessConfig)
  get_links email = do
    answer ←
        request connection config get_method (path_of (codes "/panel/api/clients/links/") email)
          null
    pure (normalize_vless_configs (unwrapped answer))

  unfoldable pub get_sub_links : Text → Exec (Link Server) (List Text)
  get_sub_links sub_id = elim (is_empty (strip sub_id)) [
    | true ↦ pure []
    | false ↦ do
      answer ←
          request connection config get_method
            (path_of (codes "/panel/api/clients/subLinks/") sub_id) null
      pure (normalize_links (unwrapped answer))
  ]

  -- The links with the panel's remark, if the size is known.
  abbrev pub patched : Text → ℤ → List VlessConfig → Result (List VlessConfig)
  patched email total_bytes configs =
      if ltb_ℤ (pos 0) total_bytes
      then all_ok (map (patch_config email total_bytes) configs)
      else ok configs

  -- The remarks from the inbounds; without them, if the panel does not list them.
  abbrev pub enriched : List VlessConfig → Exec (Link Server) (List VlessConfig)
  enriched configs =
      except_xui
        (do
          answer ← list_inbounds connection config loads ids
          inbounds ← or_raise (inbound_rows answer) attribute_error
          checks (λ _. enrich_vless_remarks_from_inbounds configs inbounds))
        configs

  abbrev pub known_sub_id : Option Text → Option Text
  known_sub_id none = none
  known_sub_id (some s) = elim (strip s) [ [] ↦ none | c ∷ t ↦ some (c ∷ t) ]

  -- The subscription id that is given, or else that of the panel's client.
  abbrev pub resolved_sub_id : Text → Option Text → Exec (Link Server) (Option Text)
  resolved_sub_id email (some s) = pure (some s)
  resolved_sub_id email none = do
    client ← get_client connection config loads ids email
    pure (elim client [ none ↦ none | some c ↦ extract_sub_id c ])

  abbrev pub public_links : Text → List Text
  public_links sub_id = elim (known_sub_id sub_public_url) [
    | none ↦ []
    | some base ↦ build_subscription_url base sub_id ∷ []
  ]

  abbrev pub subscription_links_of : Option Text → Exec (Link Server) (List Text)
  subscription_links_of none = pure []
  subscription_links_of (some sub_id) =
      except_xui
        (do api_links ← get_sub_links sub_id; pure (add_new (public_links sub_id) api_links))
        (public_links sub_id)

  unfoldable pub get_client_delivery : Text → Option Text → ℤ → Exec (Link Server) ClientDelivery
  unfolding get_links list_inbounds get_client get_sub_links
  get_client_delivery email sub_id total_bytes = do
    found ← get_links email
    configs ← checks (λ _. patched email total_bytes found)
    vless_configs ← enriched configs
    resolved ← resolved_sub_id email (known_sub_id sub_id)
    links ← subscription_links_of resolved
    pure (record { vless_configs = vless_configs; subscription_links = links })
