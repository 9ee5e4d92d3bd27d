-- ===== src/Xui/Links.antt =====
-- The links in an answer of the panel: `_normalize_vless_configs`, `_normalize_links` and what they
-- call, of xui/client.py.
pub mod Once
use resellerbot.Prelude.{
  ℕ, Bool, true, false, not, ◌&&◌, ◌||◌, Option, none, some, List, [], ◌∷◌, ◌++◌, if◌then◌else◌,
  any,
}
use resellerbot.Prelude.Text.{
  Text, codes, text_eq, strip, is_blank, starts_with, contains_text, member,
}
use resellerbot.Inbounds.{is_empty}
use resellerbot.Json.{
  Value, null, bool, int, text, arr, obj, Items, nil, cons, Fields, end, field, get, or_else,
  text_of, find_field,
}

pub record VlessConfig : Type 0 where
  pub link : Text
  pub remark : Text

abbrev pub is_config_link : Text → Bool
is_config_link s =
    starts_with s (codes "vless://")
    || (starts_with s (codes "vmess://")
        || (starts_with s (codes "trojan://") || starts_with s (codes "ss://")))

-- `_dedupe_vless`, with the links that were seen.
abbrev pub dedupe_from : List Text → List VlessConfig → List VlessConfig
dedupe_from seen [] = []
dedupe_from seen (c ∷ cs) = elim (member c.link seen) [
  | true ↦ dedupe_from seen cs
  | false ↦ c ∷ dedupe_from (c.link ∷ seen) cs
]

unfoldable pub dedupe_vless : List VlessConfig → List VlessConfig
dedupe_vless cs = dedupe_from [] cs

-- `_dedupe`
abbrev pub dedupe_texts : List Text → List Text → List Text
dedupe_texts seen [] = []
dedupe_texts seen (s ∷ ss) = elim (member s seen) [
  | true ↦ dedupe_texts seen ss
  | false ↦ s ∷ dedupe_texts (s ∷ seen) ss
]

unfoldable pub dedupe : List Text → List Text
dedupe ss = dedupe_texts [] ss

-- The first of some fields that holds a link.
abbrev first_link : List Text → Fields → Option Text
first_link [] d = none
first_link (k ∷ ks) d = elim (get k d) [
  | text s ↦ (if is_config_link (strip s) then some (strip s) else first_link ks d)
  | null ↦ first_link ks d
  | bool _ ↦ first_link ks d
  | int _ ↦ first_link ks d
  | arr _ ↦ first_link ks d
  | obj _ ↦ first_link ks d
]

abbrev link_keys : List Text
link_keys = codes "link" ∷ codes "url" ∷ codes "vless" ∷ []

-- `str(d.get(…) or d.get(…) or d.get(…) or "").strip()`
abbrev pub first_text : Text → Text → Text → Fields → Text
first_text a b c d =
    strip (text_of (or_else (get a d) (or_else (get b d) (or_else (get c d) (text [])))))

-- `_vless_config_from_dict`
unfoldable pub vless_config_from_dict : Fields → Option VlessConfig
vless_config_from_dict d = elim (first_link link_keys d) [
  | none ↦ none
  | some link ↦
      some (record {
        link = link;
        remark = first_text (codes "remark") (codes "tag") (codes "name") d;
      })
]

-- The keys of the nested answers, in the order in which they are read.
abbrev nested_keys : List Text
nested_keys = codes "links" ∷ codes "obj" ∷ codes "data" ∷ []

abbrev or_nothing {ℓ} : {A : Type ℓ} → Option (List A) → List A
or_nothing none = []
or_nothing (some xs) = xs

abbrev pub or_configs : Option VlessConfig → List VlessConfig → List VlessConfig
or_configs (some c) cs = c ∷ []
or_configs none cs = dedupe_vless cs

unfoldable mutual
  -- `_normalize_vless_configs`
  pub normalize_vless_configs : Value → List VlessConfig
  normalize_vless_configs null = []
  normalize_vless_configs (bool _) = []
  normalize_vless_configs (int _) = []
  normalize_vless_configs (text s) =
      if is_config_link (strip s) then record { link = strip s; remark = [] } ∷ [] else []
  normalize_vless_configs (arr vs) = dedupe_vless (normalize_each vs)
  normalize_vless_configs (obj d) = or_configs (vless_config_from_dict d) (
      normalize_field (codes "links") d
      ++ (normalize_field (codes "obj") d ++ normalize_field (codes "data") d))

  normalize_each : Items → List VlessConfig
  normalize_each nil = []
  normalize_each (cons v vs) = normalize_vless_configs v ++ normalize_each vs

  -- The configs under a key of the dictionary, if it is there.
  normalize_field : Text → Fields → List VlessConfig
  normalize_field key end = []
  normalize_field key (field k v fs) =
      let rest = normalize_field key fs in if text_eq k key then normalize_vless_configs v else rest

abbrev pub is_subscription_link : Text → Bool
is_subscription_link s =
    starts_with s (codes "http://")
    || (starts_with s (codes "https://") || contains_text s (codes "/sub/"))

-- The texts under some keys, stripped, but for the blank ones.
abbrev pub texts_under : List Text → Fields → List Text
texts_under [] d = []
texts_under (k ∷ ks) d =
    let rest = texts_under ks d in
    elim (get k d) [
      | text s ↦ (if is_blank s then rest else strip s ∷ rest)
      | null ↦ rest
      | bool _ ↦ rest
      | int _ ↦ rest
      | arr _ ↦ rest
      | obj _ ↦ rest
    ]

abbrev pub sub_keys : List Text
sub_keys =
    codes "subUrl"
    ∷ codes "subJsonUrl"
    ∷ codes "subClashUrl"
    ∷ codes "subscription"
    ∷ codes "sub"
    ∷ []

unfoldable mutual
  -- `_normalize_links(obj, subscription_urls=True)`, the one call of it.
  pub normalize_links : Value → List Text
  normalize_links null = []
  normalize_links (bool _) = []
  normalize_links (int _) = []
  normalize_links (text s) = if is_blank s then [] else s ∷ []
  normalize_links (arr vs) = dedupe (links_of_items vs)
  normalize_links (obj d) = dedupe (
      texts_under sub_keys d
      ++ (links_of_field (codes "links") d
          ++ (links_of_field (codes "obj") d ++ links_of_field (codes "data") d)))

  links_of_items : Items → List Text
  links_of_items nil = []
  links_of_items (cons v vs) = links_of_item v ++ links_of_items vs

  links_of_item : Value → List Text
  links_of_item null = []
  links_of_item (bool _) = []
  links_of_item (int _) = []
  links_of_item (text s) = if not (is_blank s) && is_subscription_link s then s ∷ [] else []
  links_of_item (arr _) = []
  links_of_item (obj d) =
      texts_under sub_keys d
      ++ (links_of_field (codes "links") d
          ++ (links_of_field (codes "obj") d ++ links_of_field (codes "data") d))

  links_of_field : Text → Fields → List Text
  links_of_field key end = []
  links_of_field key (field k v fs) =
      let rest = links_of_field key fs in if text_eq k key then normalize_links v else rest
