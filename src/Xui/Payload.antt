-- ===== src/Xui/Payload.antt =====
-- The fields of a panel's client: those that xui/client.py reads, and the body that it sends back.
pub mod Overrides
use resellerbot.Prelude.{
  ℕ, Bool, true, false, not, ◌&&◌, ◌||◌, Option, none, some, List, [], ◌∷◌, ◌++◌, if◌then◌else◌,
}
use resellerbot.Prelude.Int.{ℤ, pos, ◌+ℤ◌}
use resellerbot.Prelude.Text.{Text, codes, strip, contains_text, is_blank, rstrip_char}
use resellerbot.Inbounds.{is_empty}
use resellerbot.Json.{
  Value, null, bool, int, text, Fields, end, field, get, get_or, truthy, or_else, int_of, text_of,
  update, find_field, or_value,
}

-- `int(raw or 0)`; `none` is an exception that the source catches.
abbrev pub int_or_zero : Value → Option ℤ
int_or_zero raw = if truthy raw then int_of raw else some (pos 0)

abbrev pub or_zero : Option ℤ → ℤ
or_zero none = pos 0
or_zero (some n) = n

-- `record.get(key, record.get(key2, default))`
abbrev pub get_either : Text → Text → Value → Fields → Value
get_either key key2 default fs = get_or key (get_or key2 default fs) fs

unfoldable pub read_limit_ip : Fields → ℤ
unfolding int_of
read_limit_ip client =
    or_zero (int_or_zero (get_either (codes "limitIp") (codes "limit_ip") (int (pos 0)) client))

unfoldable pub read_expiry : Fields → Option ℤ
unfolding int_of
read_expiry client =
    int_or_zero (get_either (codes "expiryTime") (codes "expiry_time") (int (pos 0)) client)

abbrev or_empty : Value → Text
or_empty null = []
or_empty v = strip (text_of v)

unfoldable pub read_comment : Fields → Text
unfolding text_of
read_comment client = or_empty (get (codes "comment") client)

abbrev non_empty : Text → Option Text
non_empty [] = none
non_empty (c ∷ s) = some (c ∷ s)

unfoldable pub extract_sub_id : Fields → Option Text
unfolding text_of
extract_sub_id client =
    non_empty (or_empty (or_else (get (codes "subId") client) (get (codes "sub_id") client)))

-- `record.get(key) or ""`
abbrev or_blank : Value → Value
or_blank v = or_else v (text [])

-- The value of `uuid` or `id` that becomes the client's id.
abbrev text_id : Value → Bool → Option Text
text_id (text s) dashed =
    if is_blank s || (dashed && not (contains_text s (codes "-"))) then none else some (strip s)
text_id null dashed = none
text_id _ dashed = none

abbrev id_fields : Option Text → Fields
id_fields none = end
id_fields (some s) = field (codes "id") (text s) end

abbrev or_text : Option Text → Option Text → Option Text
or_text none b = b
or_text (some a) b = some a

-- The dictionary of a list of pairs.
abbrev pub dict : List (Text × Value) → Fields → Fields
dict [] fs = fs
dict ((k, v) ∷ kvs) fs = field k v (dict kvs fs)

-- The client's id, from `uuid` or else from an `id` with a dash.
abbrev client_id : Fields → Fields
client_id client =
    id_fields
      (or_text (text_id (get (codes "uuid") client) false) (text_id (get (codes "id") client) true))

-- The dictionary `body` before the overrides.
unfoldable pub payload_of : Fields → Fields
payload_of client =
    dict
      ((codes "email", get_or (codes "email") (text []) client)
        ∷ (codes "enable", get_or (codes "enable") (bool true) client)
        ∷ (codes "totalGB", get_either (codes "totalGB") (codes "total_gb") (int (pos 0)) client)
        ∷ (
          codes "expiryTime",
          get_either (codes "expiryTime") (codes "expiry_time") (int (pos 0)) client,
        )
        ∷ (codes "limitIp", get_either (codes "limitIp") (codes "limit_ip") (int (pos 0)) client)
        ∷ (
          codes "subId",
          or_blank (or_else (get (codes "subId") client) (get (codes "sub_id") client)),
        )
        ∷ (codes "flow", or_blank (get (codes "flow") client))
        ∷ (codes "reset", get_or (codes "reset") (int (pos 0)) client)
        ∷ (codes "tgId", get_either (codes "tgId") (codes "tg_id") (int (pos 0)) client)
        ∷ (codes "group", or_blank (get (codes "group") client))
        ∷ (codes "comment", or_blank (get (codes "comment") client))
        ∷ (codes "security", or_blank (get (codes "security") client))
        ∷ [])
      (client_id client)

-- `_build_client_update_payload`
unfoldable pub build_client_update_payload : Fields → Fields → Fields
unfolding payload_of
build_client_update_payload client overrides = update (payload_of client) overrides

unfoldable pub build_subscription_url : Text → Text → Text
build_subscription_url public_base sub_id = rstrip_char b'/' public_base ++ (b'/' ∷ strip sub_id)
