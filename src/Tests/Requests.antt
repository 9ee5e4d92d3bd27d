-- ===== src/Tests/Requests.antt =====
-- Runs of the client of a 3x-ui panel, of the links and of the panels' settings.
use resellerbot.Prelude.{
  ℕ, suc, ◌+◌, ◌≡◌, refl, ◌≤◌, inl, inr, true, false, Option, none, some, [], ◌∷◌, ltb,
  if◌then◌else◌, arith,
}
use resellerbot.Prelude.Int.{pos}
use resellerbot.Prelude.Text.{Text, codes, text_eq, strip}
use resellerbot.Errors.{ok, err, http_error}
use resellerbot.Json.{
  Value, null, bool, int, text, arr, obj, nil, cons, Fields, end, field, find_field, int_of,
  text_of,
}
use resellerbot.Labels.{lower}
use resellerbot.PanelUrl.{normalize_http_url}
use resellerbot.PanelSettings.{Network, apply_panel_api_token}
use resellerbot.PanelSettings.Edits.{apply_panel_api_token_untested}
use resellerbot.Url.Split.{Parts, urlsplit, urlunsplit}
use resellerbot.Url.Split.Fragments.{HasNoHash, HasNoHash-any}
use resellerbot.Xui.Fragment.{with_fragment, decode_link_fragment}
use resellerbot.Xui.Fragment.RoundTrip.{decode-with_fragment}
use resellerbot.Xui.Flow.{inbound_id, resolve_flow_for_inbound_ids, inbound_supports_vision_flow}
use resellerbot.Xui.Flow.Support.{resolve_flow-supported}
use resellerbot.Xui.Links.{normalize_vless_configs, normalize_links}
use resellerbot.Xui.Links.Once.{occurrences, links_of, normalize_vless_configs-once}
use resellerbot.Xui.Calls.{list_inbounds}
use resellerbot.Xui.Client.{enrich_vless_remarks_from_inbounds}
use resellerbot.Xui.Links.{vless_config_from_dict, dedupe_vless, dedupe}
use resellerbot.Xui.Session.{ensure_authenticated, attempts, attempt, call}
use resellerbot.Xui.Delivery.{ClientDelivery, get_links, get_sub_links, get_client_delivery}
use resellerbot.Xui.Delivery.Subscriptions.{get_client_delivery-once}
use resellerbot.Xui.Payload.{build_client_update_payload}
use resellerbot.Xui.Payload.Overrides.{last_value, total_gb, build_client_update_payload-keeps}
use resellerbot.Xui.Session.{Connection, Config, Link, Response, get_method, request}
use resellerbot.Xui.Session.Budget.{budget, request_bounded}
use resellerbot.Xui.Session.Retries.{over, down, IsAnswer, request_recovers, request_gives_up}
use resellerbot.Repository.Panels
use resellerbot.Tests.Sample.{db, panel}

-- The answer `{"success": true, "obj": 7}`.
abbrev answer : Value
answer = obj (field (codes "success") (bool true) (field (codes "obj") (int (pos 7)) end))

abbrev good : Response
good = record {
  status_code = 200;
  is_empty = false;
  is_json = true;
  content = some answer;
  raw = [];
}

-- A panel that counts its requests, and that cannot be reached by the first ones.
abbrev flaky : ℕ → Connection
flaky fails = record {
  Server = ℕ;
  send = λ r n. ((if ltb n fails then none else some good), suc n);
}

abbrev with_token : Config
with_token = record {
  api_token = some (codes "secret");
  username = none;
  password = none;
  max_retries = 3;
  sub_public_url = none;
  auto_vision_flow = true;
  auto_reseller_group = true;
}

abbrev start : Link ℕ
start = record { csrf_token = none; server = 0; now_ms = pos 0; drawn = 0 }

abbrev path : Text
path = codes "/panel/api/inbounds/list"

request_bounded_example :
    (request (flaky 9) with_token get_method path null start).1.server ≤ budget with_token + 0
request_bounded_example =
    request_bounded (flaky 9) with_token (λ n. n) (λ r n. omega arith) get_method path null start

good-IsAnswer : IsAnswer (flaky 2) with_token good answer
unfolding text_eq
good-IsAnswer = record {
  authorized = refl;
  allowed = refl;
  non_empty = refl;
  decoded = refl;
  accepted = refl;
}

request_recovers_example :
    request (flaky 2) with_token get_method path null start
    ≡ (ok answer, record start { server = 3 })
request_recovers_example =
    request_recovers (flaky 2) with_token get_method path null refl 2 start 2 3 good answer
      (down refl (down refl over)) (omega arith) refl good-IsAnswer

request_gives_up_example :
    request (flaky 3) with_token get_method path null start
    ≡ (err http_error, record start { server = 3 })
request_gives_up_example =
    request_gives_up (flaky 3) with_token get_method path null refl 2 start 2 3
      (down refl (down refl over)) refl refl

-- A space, a percent sign, a letter of the Persian alphabet and an emoji.
abbrev odd : Text
odd = b' ' ∷ b'%' ∷ 0x67e ∷ 0x1f600 ∷ []

-- The parts of `vless://a@b:1?x=y`.
abbrev parts : Parts
parts = record {
  scheme = codes "vless";
  netloc = codes "a@b:1";
  path = [];
  query = codes "x=y";
  fragment = [];
}

abbrev plain : Text
plain = codes "vless://a@b:1?x=y"

plain-HasNoHash : HasNoHash plain
plain-HasNoHash = HasNoHash-any plain refl

decode-with_fragment_example : decode_link_fragment (with_fragment odd parts) ≡ ok odd
unfolding urlunsplit urlsplit lower
decode-with_fragment_example =
    decode-with_fragment parts parts odd
      (
        inl (omega arith),
        (inl (omega arith), (inl (omega arith), (inr (omega arith, omega arith), tt))),
      )
      refl plain-HasNoHash refl

abbrev link : Text
link = codes "vless://a@b:1"

-- A list that holds the same link twice.
abbrev twice : Value
twice = arr (cons (text link) (cons (text link) nil))

normalize_vless_configs-once_example :
    occurrences link (links_of (normalize_vless_configs twice)) ≤ 1
normalize_vless_configs-once_example = normalize_vless_configs-once twice link

abbrev sub_twice : Value
sub_twice = arr (cons (text (codes "https://x/s")) (cons (text (codes "https://x/s")) nil))

abbrev client : Fields
client = field (codes "email") (text (codes "a@b")) (field (codes "enable") (bool true) end)

abbrev disabled : Fields
disabled = field (codes "enable") (bool false) end

-- The client is disabled, and keeps its size.
abbrev sized : Fields
sized = field (codes "totalGB") (int (pos 26843545600)) client

build_client_update_payload-keeps_example :
    find_field (codes "totalGB") (build_client_update_payload sized disabled)
    ≡ last_value (codes "totalGB") disabled (some (int (pos 26843545600)))
unfolding text_eq
build_client_update_payload-keeps_example =
    build_client_update_payload-keeps total_gb sized disabled (int (pos 26843545600)) refl

-- An inbound with vless over tcp and tls, whose settings are a text.
abbrev inbound : Fields
inbound = field (codes "id") (int (pos 4)) (
    field (codes "protocol") (text (codes "VLESS"))
      (field (codes "streamSettings") (text (codes "{}")) end))

abbrev loads : Text → Option Value
loads s = some (
    obj (
      field (codes "network") (text (codes "tcp"))
        (field (codes "security") (text (codes "tls")) end)))

resolve_flow-supported_example : inbound_supports_vision_flow loads inbound ≡ true
unfolding text_eq inbound_id resolve_flow_for_inbound_ids int_of inbound_supports_vision_flow
    text_of lower
resolve_flow-supported_example = resolve_flow-supported loads [] [] inbound (4 ∷ []) refl refl

-- What an admin types, and what is made of it.
abbrev typed : Text
typed = codes " panel.example:2053/base/ "

abbrev address : Text
address = codes "https://panel.example:2053/base"

accepted : normalize_http_url typed ≡ ok address
unfolding normalize_http_url text_eq strip urlsplit lower
accepted = refl

-- No host.
no_host : normalize_http_url (codes ":2053") ≡ ok (codes "https://:2053")
unfolding normalize_http_url text_eq strip urlsplit lower
no_host = refl

-- A second slash, after a space: what is made of it is made into something else again.
unstable : normalize_http_url (codes "http://a/ /") ≡ ok (codes "http://a/ ")
unfolding normalize_http_url text_eq strip urlsplit lower
unstable = refl

unstable_again : normalize_http_url (codes "http://a/ ") ≡ ok (codes "http://a")
unfolding normalize_http_url text_eq strip urlsplit lower
unstable_again = refl

-- A network on which nothing answers.
abbrev dead : Network
dead = record { connection = λ _ _. flaky 1000; server = λ _ _. 0 }

apply_panel_api_token_untested_example :
    ((apply_panel_api_token dead 1 (codes "wrong") db).0
      ≡ ok (record panel { api_token = some (codes "wrong") }))
    × (Panels.get 1 (apply_panel_api_token dead 1 (codes "wrong") db).1
        ≡ some (record panel { api_token = some (codes "wrong") }))
unfolding strip
apply_panel_api_token_untested_example =
    apply_panel_api_token_untested dead 1 (codes "wrong") db panel refl refl refl

-- A panel whose every answer is the same list of subscription links, twice the same.
abbrev subscriptions : Response
subscriptions = record {
  status_code = 200;
  is_empty = false;
  is_json = true;
  content = some (obj (field (codes "obj") (obj (field (codes "links") sub_twice end)) end));
  raw = [];
}

abbrev steady : Connection
steady = record { Server = ℕ; send = λ r n. (some subscriptions, suc n) }

abbrev delivered : ClientDelivery
delivered = record { vless_configs = []; subscription_links = codes "https://x/s" ∷ [] }

get_client_delivery-once_example : occurrences (codes "https://x/s") (codes "https://x/s" ∷ []) ≤ 1
unfolding get_client_delivery request ensure_authenticated attempts attempt call text_eq get_links
    list_inbounds get_sub_links strip enrich_vless_remarks_from_inbounds normalize_vless_configs
    vless_config_from_dict dedupe_vless normalize_links dedupe
get_client_delivery-once_example =
    get_client_delivery-once steady with_token (λ _. none) (λ _. []) (codes "https://x/s")
      (codes "a@b") (some (codes "id")) (pos 0) start delivered refl
