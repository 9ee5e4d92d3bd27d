-- ===== src/Xui/Client.antt =====
-- The operations of `XuiClient` (xui/client.py) on the clients of a panel.
use resellerbot.Prelude.{
  ℕ, Bool, true, false, not, ◌&&◌, ◌==◌, Option, none, some, List, [], ◌∷◌, ◌++◌, if◌then◌else◌,
  map,
}
use resellerbot.Prelude.Int.{ℤ, pos, negsuc}
use resellerbot.Prelude.Text.{Text, codes, text_eq, strip, contains_text, member}
use resellerbot.Errors.{Error, Result, ok, err, xui_error, panel_message}
use resellerbot.Inbounds.{is_empty}
use resellerbot.Labels.{lower, decimal}
use resellerbot.Json.{
  Value, null, bool, int, text, arr, obj, Items, nil, cons, Fields, end, field, get, get_or, int_of,
}
use resellerbot.Url.Quote.{unquote}
use resellerbot.Url.Split.{urlsplit, port}
use resellerbot.Xui.Fragment.{apply_panel_fragment_to_vless_link, decode_link_fragment}
use resellerbot.Xui.Links.{VlessConfig, first_text}

-- `_is_client_not_found`, of the error's text. The errors that the client itself makes say nothing
-- of the kind.
unfoldable pub is_client_not_found : Error → Bool
is_client_not_found (xui_error (panel_message msg)) =
    contains_text (map lower msg) (codes "not found")
is_client_not_found _ = false

-- "exist" in the error's text, which "already exists" has too.
unfoldable pub is_already_there : Error → Bool
is_already_there (xui_error (panel_message msg)) = contains_text (map lower msg) (codes "exist")
is_already_there _ = false

-- `data.get("obj", data) if isinstance(data, dict) else data`
abbrev pub unwrapped : Value → Value
unwrapped (obj fs) = get_or (codes "obj") (obj fs) fs
unwrapped null = null
unwrapped v = v

-- `obj.get("client")`, if both are dictionaries.
abbrev pub client_in : Value → Option Fields
client_in (obj fs) = elim (get (codes "client") fs) [
  | obj client ↦ some client
  | null ↦ none
  | bool _ ↦ none
  | int _ ↦ none
  | text _ ↦ none
  | arr _ ↦ none
]
client_in null = none
client_in _ = none

-- The rows of a list; one that is no dictionary has no `get`.
abbrev pub rows_of : Items → Option (List Fields)
rows_of nil = some []
rows_of (cons (obj fs) vs) = elim (rows_of vs) [ none ↦ none | some rest ↦ some (fs ∷ rest) ]
rows_of (cons null vs) = none
rows_of (cons _ vs) = none

abbrev pub inbound_rows : Value → Option (List Fields)
inbound_rows (arr vs) = rows_of vs
inbound_rows null = some []
inbound_rows _ = some []

-- The item of `skipped` that names the email.
abbrev pub skips : Text → Items → Bool
skips email nil = false
skips email (cons v vs) =
    let rest = skips email vs in
    elim v [
      | obj fs ↦ elim (get (codes "email") fs) [
        | text s ↦ (if text_eq s email then true else rest)
        | null ↦ rest
        | bool _ ↦ rest
        | int _ ↦ rest
        | arr _ ↦ rest
        | obj _ ↦ rest
      ]
      | null ↦ rest
      | bool _ ↦ rest
      | int _ ↦ rest
      | text _ ↦ rest
      | arr _ ↦ rest
    ]

abbrev pub skipped_items : Value → Items
skipped_items (obj fs) = elim (get (codes "skipped") fs) [
  | arr vs ↦ vs
  | null ↦ nil
  | bool _ ↦ nil
  | int _ ↦ nil
  | text _ ↦ nil
  | obj _ ↦ nil
]
skipped_items null = nil
skipped_items _ = nil

abbrev pub bulk : Text → ℤ → ℤ → Value
bulk email days bytes = obj (
    field (codes "emails") (arr (cons (text email) nil))
      (field (codes "addDays") (int days) (field (codes "addBytes") (int bytes) end)))

abbrev pub ints : List ℕ → Items
ints [] = nil
ints (i ∷ ids) = cons (int (pos i)) (ints ids)

-- `str(inbound.get("remark") or inbound.get("tag") or inbound.get("name") or "").strip()`
abbrev inbound_remark : Fields → Text
inbound_remark ib = first_text (codes "remark") (codes "tag") (codes "name") ib

-- The remark of an inbound, if it has that port and a remark.
abbrev remark_at : ℕ → Fields → Option ℤ → Option Text
remark_at p ib none = none
remark_at p ib (some (negsuc _)) = none
remark_at p ib (some (pos q)) =
    if q == p && not (is_empty (inbound_remark ib)) then some (inbound_remark ib) else none

abbrev or_first : Option Text → Option Text → Option Text
or_first none b = b
or_first (some a) b = some a

-- `by_port.get(port)`: the last inbound with the port and a remark counts.
unfoldable pub remark_of_port : ℕ → List Fields → Option Text
remark_of_port p [] = none
remark_of_port p (ib ∷ ibs) =
    or_first (remark_of_port p ibs) (remark_at p ib (int_of (get (codes "port") ib)))

-- The Persian word for port, and the number.
abbrev port_label : ℕ → Text
port_label p = 0x67e ∷ 0x648 ∷ 0x631 ∷ 0x62a ∷ b' ' ∷ decimal p

-- `_parse_vless_link_meta`, and the remark of a link of those parts.
abbrev remark_from : List Fields → Text → Option ℕ → Text → Text
remark_from inbounds (c ∷ remark) p fragment = c ∷ remark
remark_from inbounds [] p (c ∷ fragment) = c ∷ fragment
remark_from inbounds [] none [] = []
remark_from inbounds [] (some p) [] = elim (remark_of_port p inbounds) [
  | some r ↦ r
  | none ↦ port_label p
]

unfoldable pub enrich_config : List Fields → VlessConfig → Result VlessConfig
enrich_config inbounds c = elim (urlsplit c.link) [
  | err e ↦ err e
  | ok parts ↦ elim (port parts) [
    | err e ↦ err e
    | ok p ↦
        ok (record c { remark = remark_from inbounds c.remark p (strip (unquote parts.fragment)) })
  ]
]

-- A list of fallible results.
abbrev pub all_ok : List (Result VlessConfig) → Result (List VlessConfig)
all_ok [] = ok []
all_ok (err e ∷ rs) = err e
all_ok (ok a ∷ rs) = elim (all_ok rs) [ err e ↦ err e | ok l ↦ ok (a ∷ l) ]

unfoldable pub enrich_vless_remarks_from_inbounds :
    List VlessConfig → List Fields → Result (List VlessConfig)
enrich_vless_remarks_from_inbounds configs inbounds = all_ok (map (enrich_config inbounds) configs)

-- The config with the panel's remark in its link.
unfoldable pub patch_config : Text → ℤ → VlessConfig → Result VlessConfig
patch_config email total_bytes c =
    elim (apply_panel_fragment_to_vless_link c.link email total_bytes) [
      | err e ↦ err e
      | ok link ↦ elim (decode_link_fragment link) [
        | err e ↦ err e
        | ok remark ↦ ok (record { link = link; remark = remark })
      ]
    ]

-- The links of the API that are not there yet.
abbrev pub add_new : List Text → List Text → List Text
add_new links [] = links
add_new links (l ∷ ls) = add_new (if member l links then links else links ++ l ∷ []) ls
