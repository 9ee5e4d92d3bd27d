-- ===== src/Xui/Payload/Overrides.antt =====
-- What the overrides of `_build_client_update_payload` (xui/client.py) change.
use resellerbot.Prelude.{
  ◌≡◌, refl, sym, false≢true, ap, ◌∙◌, inl, inr, true, false, Option, some, Bool-cases,
  if◌then◌else◌,
}
use resellerbot.Prelude.Text.{Text, codes, text_eq, eq_of_text_eq}
use resellerbot.Json.{Value, Fields, end, field, find_field, set_field, update}
use resellerbot.Xui.Payload.{payload_of, build_client_update_payload}

-- The last value of a key, or else another one.
abbrev pub last_value : Text → Fields → Option Value → Option Value
last_value key end old = old
last_value key (field k v fs) old = last_value key fs (if text_eq k key then some v else old)

same_key : (l k key : Text) → text_eq l k ≡ true → text_eq l key ≡ text_eq k key
same_key l k key h = ap (λ t. text_eq t key) (eq_of_text_eq l k h)

other_key : (l k key : Text) → text_eq l k ≡ false → text_eq l key ≡ true → text_eq k key ≡ false
other_key l k key h e = elim (Bool-cases (text_eq k key)) [
  | inl g ↦ absurd (false≢true (sym h ∙ (ap (text_eq l) (eq_of_text_eq k key g) ∙ e)))
  | inr g ↦ g
]

find-set_field :
    (key k : Text) (v : Value) (fs : Fields)
    → find_field key (set_field k v fs) ≡ (if text_eq k key then some v else find_field key fs)
find-set_field key k v end = refl
find-set_field key k v (field l w fs) = elim (Bool-cases (text_eq l k)) [
  | inl h ↦ elim (Bool-cases (text_eq k key)) [
    | inl e ↦ rw (find_field, set_field, h, e) (rw (same_key l k key h ∙ e) refl)
    | inr e ↦ rw (find_field, set_field, h, e) (rw (same_key l k key h ∙ e) refl)
  ]
  | inr h ↦ elim (Bool-cases (text_eq l key)) [
    | inl e ↦ rw (find_field, set_field, h, e) (rw (other_key l k key h e) refl)
    | inr e ↦ rw (find_field, set_field, h, e) (find-set_field key k v fs)
  ]
]

find-update :
    (key : Text) (fs gs : Fields)
    → find_field key (update fs gs) ≡ last_value key gs (find_field key fs)
find-update key fs end = refl
find-update key fs (field k v gs) =
    find-update key (set_field k v fs) gs ∙ ap (last_value key gs) (find-set_field key k v fs)

-- The keys that the body copies from the client's own dictionary as they are.
pub data CopiedKey : Type 0 where
  email enable total_gb expiry_time limit_ip reset tg_id : CopiedKey

abbrev pub name_of : CopiedKey → Text
name_of email = codes "email"
name_of enable = codes "enable"
name_of total_gb = codes "totalGB"
name_of expiry_time = codes "expiryTime"
name_of limit_ip = codes "limitIp"
name_of reset = codes "reset"
name_of tg_id = codes "tgId"

payload_of-copied :
    (k : CopiedKey) (client : Fields) (v : Value)
    → find_field (name_of k) client ≡ some v
    → find_field (name_of k) (payload_of client) ≡ some v
unfolding payload_of text_eq
payload_of-copied email client v h = rw h refl
payload_of-copied enable client v h = rw h refl
payload_of-copied total_gb client v h = rw h refl
payload_of-copied expiry_time client v h = rw h refl
payload_of-copied limit_ip client v h = rw h refl
payload_of-copied reset client v h = rw h refl
payload_of-copied tg_id client v h = rw h refl

-- The body that updates a panel's client has, under each of the keys `email`, `enable`, `totalGB`,
-- `expiryTime`, `limitIp`, `reset` and `tgId` that the client's own dictionary has, the last
-- override of the key, and the client's own value if the key is not overridden.
pub build_client_update_payload-keeps :
    (k : CopiedKey) (client overrides : Fields) (v : Value)
    → find_field (name_of k) client ≡ some v
    → find_field (name_of k) (build_client_update_payload client overrides)
      ≡ last_value (name_of k) overrides (some v)
unfolding build_client_update_payload
build_client_update_payload-keeps k client overrides v h =
    find-update (name_of k) (payload_of client) overrides
    ∙ ap (last_value (name_of k) overrides) (payload_of-copied k client v h)
