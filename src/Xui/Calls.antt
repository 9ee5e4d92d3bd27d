-- ===== src/Xui/Calls.antt =====
-- The operations of `XuiClient` (xui/client.py): the calls of the panel's API.
--
-- `ids` are the random ids of `uuid4().hex[:16]`, in the order in which they are drawn.
use resellerbot.Prelude.{
  ℕ, suc, Bool, true, false, not, ◌||◌, Option, none, some, List, [], ◌++◌, if◌then◌else◌,
}
use resellerbot.Prelude.Int.{ℤ, pos, ◌+ℤ◌, ◌-ℤ◌, ltb_ℤ}
use resellerbot.Prelude.Text.{Text, codes, strip}
use resellerbot.Errors.{
  Exec, ⊤, pure, raise, gets, modify, ◌>>=◌, ◌>>◌, raise_if, or_raise, except_xui, except_any,
  xui_error, attribute_error, client_missing, no_days, too_few_bytes, no_fields, panel_skipped,
}
use resellerbot.Models.{Float}
use resellerbot.Inbounds.{is_empty}
use resellerbot.Volume.{gb_to_bytes}
use resellerbot.Service.{days_ms}
use resellerbot.Json.{Value, null, bool, int, text, arr, obj, nil, cons, Fields, end, field}
use resellerbot.Url.Quote.{quote}
use resellerbot.Xui.Flow.{resolve_flow_for_inbound_ids}
use resellerbot.Xui.Payload.{build_client_update_payload}
use resellerbot.Xui.Client.{
  is_client_not_found, is_already_there, unwrapped, client_in, inbound_rows, skips, skipped_items,
  bulk, ints,
}
use resellerbot.Xui.Session.{Connection, Config, Link, get_method, post_method, request}

-- `f"{path}{quote(email, safe='')}"`
abbrev pub path_of : Text → Text → Text
path_of path email = path ++ quote email

module _ (connection : Connection) (config : Config) (loads : Text → Option Value)
    (ids : ℕ → Text) where
  open connection use {Server}
  open config use {auto_vision_flow}

  unfoldable pub list_inbounds : Exec (Link Server) Value
  list_inbounds = do
    answer ← request connection config get_method (codes "/panel/api/inbounds/list") null
    pure (unwrapped answer)

  unfoldable pub resolve_client_flow : List ℕ → Exec (Link Server) Text
  unfolding list_inbounds
  resolve_client_flow inbound_ids = elim (not auto_vision_flow || is_empty inbound_ids) [
    | true ↦ pure []
    | false ↦ do
      answer ← list_inbounds
      inbounds ← or_raise (inbound_rows answer) attribute_error
      pure (resolve_flow_for_inbound_ids loads inbounds inbound_ids)
  ]

  unfoldable pub ensure_client_group : Text → Exec (Link Server) ⊤
  ensure_client_group name = elim (is_empty (strip name)) [
    | true ↦ pure tt
    | false ↦
        except_any
          (do
            request connection config post_method (codes "/panel/api/clients/groups/create")
                (obj (field (codes "name") (text (strip name)) end))
            pure tt)
          (λ e. if is_already_there e then pure tt else raise e)
  ]

  unfoldable pub assign_client_to_group : Text → Text → Exec (Link Server) ⊤
  unfolding ensure_client_group
  assign_client_to_group email group = elim (is_empty (strip group)) [
    | true ↦ pure tt
    | false ↦ do
      ensure_client_group (strip group)
      request connection config post_method (codes "/panel/api/clients/groups/bulkAdd") (
          obj (
            field (codes "emails") (arr (cons (text email) nil))
              (field (codes "group") (text (strip group)) end)))
      pure tt
  ]

  -- `ClientCreateRequest(…).model_dump()`
  abbrev new_client : Text → ℤ → ℤ → Text → Text → Text → List ℕ → Value
  new_client email total expiry sub_id flow group inbound_ids = obj (
      field (codes "client")
        (obj (
          field (codes "email") (text email) (
            field (codes "totalGB") (int total) (
              field (codes "expiryTime") (int expiry) (
                field (codes "enable") (bool true) (
                  field (codes "limitIp") (int (pos 0)) (
                    field (codes "subId") (text sub_id) (
                      field (codes "flow") (text flow) (
                        field (codes "group") (text group)
                          (field (codes "id") (text []) end))))))))))
        (field (codes "inboundIds") (arr (ints inbound_ids)) end))

  -- `create_client` without a limit of addresses and with no flow given, as it is called.
  unfoldable pub create_client : Text → Float → List ℕ → ℤ → Text → Exec (Link Server) Text
  unfolding resolve_client_flow ensure_client_group assign_client_to_group
  create_client email volume_gb inbound_ids expiry_days group = do
    flow ← resolve_client_flow inbound_ids
    now_ms ← gets (λ s. s.now_ms)
    let expiry_ms = if ltb_ℤ (pos 0) expiry_days then now_ms +ℤ days_ms expiry_days else pos 0
    drawn ← gets (λ s. s.drawn)
    modify (λ s. record s { drawn = suc s.drawn })
    let sub_id = ids drawn
    ensure_client_group group
    request connection config post_method (codes "/panel/api/clients/add")
        (new_client email (gb_to_bytes volume_gb) expiry_ms sub_id flow (strip group) inbound_ids)
    except_xui (assign_client_to_group email group) tt
    pure sub_id

  unfoldable pub delete_client : Text → Exec (Link Server) Value
  delete_client email =
      request connection config post_method (path_of (codes "/panel/api/clients/del/") email) null

  unfoldable pub get_traffic : Text → Exec (Link Server) Value
  get_traffic email = do
    answer ←
        request connection config get_method (path_of (codes "/panel/api/clients/traffic/") email)
          null
    pure (unwrapped answer)

  abbrev fetch_client : Text → Exec (Link Server) (Option Fields)
  fetch_client email = do
    answer ←
        request connection config get_method (path_of (codes "/panel/api/clients/get/") email) null
    pure (client_in (unwrapped answer))

  unfoldable pub get_client : Text → Exec (Link Server) (Option Fields)
  get_client email =
      except_any (fetch_client email) (λ e. if is_client_not_found e then pure none else raise e)

  -- `if not client`
  abbrev non_empty : Option Fields → Option Fields
  non_empty none = none
  non_empty (some end) = none
  non_empty (some (field k v fs)) = some (field k v fs)

  -- `_get_client_dict_for_update`
  unfoldable pub get_client_dict_for_update : Text → Exec (Link Server) Fields
  unfolding get_client
  get_client_dict_for_update email = do
    client ← get_client email
    or_raise (non_empty client) (xui_error client_missing)

  -- The update of a client, as its dictionary with some fields overridden.
  abbrev send_update : Text → Fields → Fields → Exec (Link Server) Value
  send_update email client overrides =
      request connection config post_method (path_of (codes "/panel/api/clients/update/") email)
        (obj (build_client_update_payload client overrides))

  unfoldable pub set_client_enabled : Text → Bool → Exec (Link Server) Value
  unfolding get_client_dict_for_update
  set_client_enabled email enabled = do
    client ← get_client_dict_for_update email
    send_update email client (field (codes "enable") (bool enabled) end)

  unfoldable pub reset_client_traffic : Text → Exec (Link Server) Value
  reset_client_traffic email =
      request connection config post_method
        (path_of (codes "/panel/api/clients/resetTraffic/") email) null

  abbrev optional_int : Text → Option ℤ → Fields → Fields
  optional_int key none fs = fs
  optional_int key (some n) fs = field key (int n) fs

  abbrev optional_text : Text → Option Text → Fields → Fields
  optional_text key none fs = fs
  optional_text key (some s) fs = field key (text s) fs

  unfoldable pub update_client_fields : Text → Option ℤ → Option Text → Exec (Link Server) Value
  unfolding get_client_dict_for_update
  update_client_fields email none none = raise (xui_error no_fields)
  update_client_fields email (some limit_ip) comment = do
    client ← get_client_dict_for_update email
    send_update email client
        (field (codes "limitIp") (int limit_ip) (optional_text (codes "comment") comment end))
  update_client_fields email none (some comment) = do
    client ← get_client_dict_for_update email
    send_update email client (field (codes "comment") (text comment) end)

  unfoldable pub add_client_expiry_days : Text → ℤ → Exec (Link Server) Value
  add_client_expiry_days email days = do
    raise_if (ltb_ℤ days (pos 1)) (xui_error no_days)
    request connection config post_method (codes "/panel/api/clients/bulkAdjust")
        (bulk email days (pos 0))

  unfoldable pub add_client_traffic_bytes : Text → ℤ → Exec (Link Server) Value
  add_client_traffic_bytes email add_bytes = do
    raise_if (ltb_ℤ add_bytes (pos 1)) (xui_error too_few_bytes)
    request connection config post_method (codes "/panel/api/clients/bulkAdjust")
        (bulk email (pos 0) add_bytes)

  unfoldable pub subtract_client_traffic_bytes : Text → ℤ → Exec (Link Server) Value
  subtract_client_traffic_bytes email subtract_bytes = do
    raise_if (ltb_ℤ subtract_bytes (pos 1)) (xui_error too_few_bytes)
    answer ←
        request connection config post_method (codes "/panel/api/clients/bulkAdjust")
          (bulk email (pos 0) (pos 0 -ℤ subtract_bytes))
    raise_if (skips email (skipped_items (unwrapped answer))) (xui_error panel_skipped)
    pure answer

  unfoldable pub set_client_expiry_ms : Text → ℤ → Exec (Link Server) Value
  set_client_expiry_ms email expiry_ms = do
    found ← fetch_client email
    client ← or_raise found (xui_error client_missing)
    send_update email client (field (codes "expiryTime") (int expiry_ms) end)
