-- ===== src/Xui/Links/Once.antt =====
-- The lists of links that `_normalize_vless_configs` and `_normalize_links` (xui/client.py) return.
use resellerbot.Prelude.{
  ℕ, suc, ◌≤◌, ◌≡◌, refl, ap, ◌∙◌, inl, inr, Bool, true, false, Option, none, some, List, [], ◌∷◌,
  Bool-cases, if◌then◌else◌, map, arith,
}
use resellerbot.Prelude.Text.{Text, text_eq, eq_of_text_eq, member}
use resellerbot.Json.{Value, null, bool, int, text, arr, obj}
use resellerbot.Xui.Links.{
  VlessConfig, dedupe_from, dedupe_vless, dedupe_texts, dedupe, or_configs, normalize_vless_configs,
  normalize_links,
}

-- How often a text stands in a list.
abbrev pub occurrences : Text → List Text → ℕ
occurrences l [] = 0
occurrences l (s ∷ ss) = let rest = occurrences l ss in if text_eq l s then suc rest else rest

abbrev pub links_of : List VlessConfig → List Text
links_of cs = map (λ c. c.link) cs

pub same_member :
    (l s : Text) (ss : List Text) (b : Bool)
    → text_eq l s ≡ true
    → member s ss ≡ b
    → member l ss ≡ b
same_member l s ss b e h = ap (λ t. member t ss) (eq_of_text_eq l s e) ∙ h

-- How often a text stands in what is left of a list, if those of another one were seen.
abbrev pub left_over : Bool → Bool → ℕ
left_over is_seen is_there = if is_seen then 0 else if is_there then 1 else 0

nothing_left : (b : Bool) → 0 ≡ left_over b false
nothing_left true = refl
nothing_left false = refl

now_seen :
    (l s : Text) (seen : List Text) (b : Bool)
    → text_eq l s ≡ true
    → left_over (member l (s ∷ seen)) b ≡ 0
now_seen l s seen b e = rw e refl

still_unseen :
    (l s : Text) (seen : List Text) (b : Bool)
    → text_eq l s ≡ false
    → left_over (member l (s ∷ seen)) b ≡ left_over (member l seen) b
still_unseen l s seen b e = rw e refl

occurrences-dedupe_texts :
    (l : Text) (seen ss : List Text)
    → occurrences l (dedupe_texts seen ss) ≡ left_over (member l seen) (member l ss)
occurrences-dedupe_texts l seen [] = nothing_left (member l seen)
occurrences-dedupe_texts l seen (s ∷ ss) = elim (Bool-cases (member s seen)) [
  | inl h ↦ elim (Bool-cases (text_eq l s)) [
    | inl e ↦
        rw (dedupe_texts, h)
          (occurrences-dedupe_texts l seen ss ∙ rw (e, same_member l s seen true e h) refl)
    | inr e ↦ rw (dedupe_texts, h) (occurrences-dedupe_texts l seen ss ∙ rw e refl)
  ]
  | inr h ↦ elim (Bool-cases (text_eq l s)) [
    | inl e ↦
        rw (dedupe_texts, h, e, same_member l s seen false e h)
          (ap suc (occurrences-dedupe_texts l (s ∷ seen) ss ∙ now_seen l s seen (member l ss) e))
    | inr e ↦
        rw (dedupe_texts, h, e)
          (occurrences-dedupe_texts l (s ∷ seen) ss ∙ still_unseen l s seen (member l ss) e)
  ]
]

links-dedupe_from :
    (seen : List Text) (cs : List VlessConfig)
    → links_of (dedupe_from seen cs) ≡ dedupe_texts seen (links_of cs)
links-dedupe_from seen [] = refl
links-dedupe_from seen (c ∷ cs) = elim (Bool-cases (member c.link seen)) [
  | inl h ↦ rw (dedupe_from, dedupe_texts, h) (links-dedupe_from seen cs)
  | inr h ↦
      rw (dedupe_from, dedupe_texts, h)
        (ap (λ l. c.link ∷ l) (links-dedupe_from (c.link ∷ seen) cs))
]

left_over_le : (b c : Bool) → left_over b c ≤ 1
left_over_le b c = ground arith

dedupe_vless-once :
    (l : Text) (cs : List VlessConfig) → occurrences l (links_of (dedupe_vless cs)) ≤ 1
unfolding dedupe_vless
dedupe_vless-once l cs =
    rw (links-dedupe_from [] cs, occurrences-dedupe_texts l [] (links_of cs))
      (left_over_le false (member l (links_of cs)))

dedupe-once : (l : Text) (ss : List Text) → occurrences l (dedupe ss) ≤ 1
unfolding dedupe
dedupe-once l ss = rw (occurrences-dedupe_texts l [] ss) (left_over_le false (member l ss))

pub one_text : (l s : Text) → occurrences l (s ∷ []) ≤ 1
one_text l s = ground arith

if_text : (l s : Text) (b : Bool) → occurrences l (if b then [] else s ∷ []) ≤ 1
if_text l s true = omega arith
if_text l s false = one_text l s

if_config :
    (l s : Text) (b : Bool)
    → occurrences l (links_of (if b then record { link = s; remark = [] } ∷ [] else [])) ≤ 1
if_config l s true = one_text l s
if_config l s false = omega arith

or_configs-once :
    (l : Text) (c : Option VlessConfig) (cs : List VlessConfig)
    → occurrences l (links_of (or_configs c cs)) ≤ 1
or_configs-once l (some c) cs = one_text l c.link
or_configs-once l none cs = dedupe_vless-once l cs

-- Whatever the panel answers, no link stands twice among the configurations that are read from it.
pub normalize_vless_configs-once :
    (v : Value) (l : Text) → occurrences l (links_of (normalize_vless_configs v)) ≤ 1
unfolding normalize_vless_configs
normalize_vless_configs-once null l = omega arith
normalize_vless_configs-once (bool b) l = omega arith
normalize_vless_configs-once (int n) l = omega arith
normalize_vless_configs-once (text s) l = if_config l _ _
normalize_vless_configs-once (arr vs) l = dedupe_vless-once l _
normalize_vless_configs-once (obj d) l = or_configs-once l _ _

-- Whatever the panel answers, no link stands twice among the subscription links that are read from
-- it.
pub normalize_links-once : (v : Value) (l : Text) → occurrences l (normalize_links v) ≤ 1
unfolding normalize_links
normalize_links-once null l = omega arith
normalize_links-once (bool b) l = omega arith
normalize_links-once (int n) l = omega arith
normalize_links-once (text s) l = if_text l s _
normalize_links-once (arr vs) l = dedupe-once l _
normalize_links-once (obj d) l = dedupe-once l _
