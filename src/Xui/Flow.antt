-- ===== src/Xui/Flow.antt =====
-- xui/inbound_flow.py: whether the clients of some inbounds use the vision flow. `loads` is the
-- decoder `json.loads`: what it makes of a text that is JSON.
pub mod Support
use resellerbot.Prelude.{
  ℕ, Bool, true, false, not, ◌&&◌, ◌||◌, Option, none, some, List, [], ◌∷◌, ◌++◌, ◌==◌,
  if◌then◌else◌, length, map,
}
use resellerbot.Prelude.Int.{ℤ, pos}
use resellerbot.Prelude.Text.{Text, codes, text_eq, is_blank}
use resellerbot.Inbounds.{contains, is_empty}
use resellerbot.Labels.{lower}
use resellerbot.Json.{
  Value, null, text, obj, Items, nil, cons, Fields, get, get_or, int_of, text_of,
}

abbrev pub vision_flow : Text
vision_flow = codes "xtls-rprx-vision"

-- `str(v).lower()`
abbrev lowered : Value → Text
lowered v = map lower (text_of v)

-- `str(data.get(key, "")).lower()`
abbrev word : Text → Fields → Text
word key d = lowered (get_or key (text []) d)

abbrev network_and_security : Option Value → Text × Text
network_and_security (some (obj d)) = (word (codes "network") d, word (codes "security") d)
network_and_security (some _) = ([], [])
network_and_security none = ([], [])

abbrev pub id_in : List ℕ → Option ℤ → Bool
id_in ids (some (pos n)) = contains ids n
id_in ids (some _) = false
id_in ids none = false

-- `set(ids)`, as a list without repetitions.
abbrev pub distinct : List ℕ → List ℕ
distinct [] = []
distinct (i ∷ ids) = let rest = distinct ids in if contains ids i then rest else i ∷ rest

-- `_inbound_id`
unfoldable pub inbound_id : Fields → Option ℤ
inbound_id inbound = int_of (get_or (codes "id") (get (codes "inboundId") inbound) inbound)

-- The rows with a wanted id.
abbrev pub selected : List ℕ → List Fields → List Fields
selected wanted [] = []
selected wanted (ib ∷ ibs) =
    let rest = selected wanted ibs in if id_in wanted (inbound_id ib) then ib ∷ rest else rest

module _ (loads : Text → Option Value) where
  -- `_parse_stream_settings`
  unfoldable pub parse_stream_settings : Value → Text × Text
  parse_stream_settings (text s) = if is_blank s then ([], []) else network_and_security (loads s)
  parse_stream_settings (obj d) = network_and_security (some (obj d))
  parse_stream_settings null = ([], [])
  parse_stream_settings _ = ([], [])

  unfoldable pub inbound_supports_vision_flow : Fields → Bool
  unfolding parse_stream_settings
  inbound_supports_vision_flow inbound =
      let (network, security) = parse_stream_settings (get (codes "streamSettings") inbound) in
      text_eq (word (codes "protocol") inbound) (codes "vless")
      && (text_eq network (codes "tcp")
          && (text_eq security (codes "tls") || text_eq security (codes "reality")))

  abbrev pub all_support : List Fields → Bool
  all_support [] = true
  all_support (ib ∷ ibs) = inbound_supports_vision_flow ib && all_support ibs

  unfoldable pub resolve_flow_for_inbound_ids : List Fields → List ℕ → Text
  unfolding inbound_id
  resolve_flow_for_inbound_ids inbounds inbound_ids =
      let chosen = selected inbound_ids inbounds in
      if is_empty inbound_ids
      then []
      else if not (length chosen == length (distinct inbound_ids))
      then []
      else if all_support chosen
      then vision_flow
      else []
