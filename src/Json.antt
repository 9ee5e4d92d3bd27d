-- ===== src/Json.antt =====
-- The values that `httpx.Response.json` gives, and what the source asks of them.
--
-- Numbers are integers, and so are those that the API of a panel sends; a dictionary's keys are
-- unique, and its fields stand in the order of the text.
use resellerbot.Prelude.{
  ℕ, zero, suc, ◌+◌, ◌*◌, ◌-◌, Bool, true, false, ◌&&◌, Option, none, some, List, [], ◌∷◌, ◌++◌,
  ◌==◌, leb, if◌then◌else◌,
}
use resellerbot.Prelude.Int.{ℤ, pos, negsuc, sub_ℕ}
use resellerbot.Prelude.Text.{Text, codes, text_eq, strip}
use resellerbot.Labels.{decimal}

mutual
  pub data Value : Type 0 where
    null : Value
    bool : Bool → Value
    int : ℤ → Value
    text : Text → Value
    arr : Items → Value
    obj : Fields → Value

  pub data Items : Type 0 where
    nil : Items
    cons : Value → Items → Items

  pub data Fields : Type 0 where
    end : Fields
    field : Text → Value → Fields → Fields

-- `d.get(key)`, and whether the key is there.
abbrev pub find_field : Text → Fields → Option Value
find_field key end = none
find_field key (field k v fs) = if text_eq k key then some v else find_field key fs

abbrev pub or_value : Option Value → Value → Value
or_value none d = d
or_value (some v) d = v

-- `d.get(key, default)`
abbrev pub get_or : Text → Value → Fields → Value
get_or key default fs = or_value (find_field key fs) default

-- `d.get(key)`
abbrev pub get : Text → Fields → Value
get key fs = get_or key null fs

-- `bool(v)`
abbrev pub truthy : Value → Bool
truthy null = false
truthy (bool b) = b
truthy (int (pos zero)) = false
truthy (int (pos (suc _))) = true
truthy (int (negsuc _)) = true
truthy (text []) = false
truthy (text (_ ∷ _)) = true
truthy (arr nil) = false
truthy (arr (cons _ _)) = true
truthy (obj end) = false
truthy (obj (field _ _ _)) = true

-- `a or b`
abbrev pub or_else : Value → Value → Value
or_else a b = if truthy a then a else b

abbrev is_digit : ℕ → Bool
is_digit c = leb b'0' c && leb c b'9'

-- The digits of `int(s)`, with single underscores between them.
digits : ℕ → Bool → Text → Option ℕ
digits n after_digit [] = if after_digit then some n else none
digits n after_digit (c ∷ s) = elim (is_digit c) [
  | true ↦ digits (n * 10 + (c - b'0')) true s
  | false ↦ elim (c == b'_' && after_digit) [ true ↦ digits n false s | false ↦ none ]
]

abbrev signed : Bool → Option ℕ → Option ℤ
signed negative none = none
signed negative (some n) = some (if negative then sub_ℕ 0 n else pos n)

-- `int(s)` of a text in ASCII digits; `none` is a `ValueError`.
unfoldable pub int_of_text : Text → Option ℤ
unfolding digits
int_of_text s = elim (strip s) [
  | [] ↦ none
  | c ∷ t ↦
      (if c == b'-'
        then signed true (digits 0 false t)
        else if c == b'+'
        then signed false (digits 0 false t)
        else signed false (digits 0 false (c ∷ t)))
]

-- `int(v)`; `none` is a `TypeError` or a `ValueError`.
unfoldable pub int_of : Value → Option ℤ
unfolding int_of_text
int_of (bool b) = some (if b then pos 1 else pos 0)
int_of (int n) = some n
int_of (text s) = int_of_text s
int_of null = none
int_of (arr _) = none
int_of (obj _) = none

abbrev text_of_int : ℤ → Text
text_of_int (pos n) = decimal n
text_of_int (negsuc n) = b'-' ∷ decimal (suc n)

-- What a list or a dictionary shows of a text, if it holds no quote, backslash or control.
abbrev quoted : Text → Text
quoted s = b'\'' ∷ s ++ b'\'' ∷ []

mutual
  -- `repr(v)`
  repr : Value → Text
  repr null = codes "None"
  repr (bool b) = if b then codes "True" else codes "False"
  repr (int n) = text_of_int n
  repr (text s) = quoted s
  repr (arr vs) = b'[' ∷ repr_items vs ++ codes "]"
  repr (obj fs) = b'{' ∷ repr_fields fs ++ codes "}"

  repr_items : Items → Text
  repr_items nil = []
  repr_items (cons v nil) = repr v
  repr_items (cons v (cons w vs)) = repr v ++ codes ", " ++ repr_items (cons w vs)

  repr_fields : Fields → Text
  repr_fields end = []
  repr_fields (field k v end) = quoted k ++ codes ": " ++ repr v
  repr_fields (field k v (field l w fs)) =
      quoted k ++ codes ": " ++ repr v ++ codes ", " ++ repr_fields (field l w fs)

-- `str(v)`
unfoldable pub text_of : Value → Text
unfolding repr
text_of (text s) = s
text_of null = repr null
text_of (bool b) = repr (bool b)
text_of (int n) = repr (int n)
text_of (arr vs) = repr (arr vs)
text_of (obj fs) = repr (obj fs)

abbrev pub append_fields : Fields → Fields → Fields
append_fields end gs = gs
append_fields (field k v fs) gs = field k v (append_fields fs gs)

-- `d[key] = v`
abbrev pub set_field : Text → Value → Fields → Fields
set_field key v end = field key v end
set_field key v (field k w fs) =
    let rest = set_field key v fs in if text_eq k key then field k v fs else field k w rest

-- `d.update(overrides)`
abbrev pub update : Fields → Fields → Fields
update fs end = fs
update fs (field k v gs) = update (set_field k v fs) gs

abbrev pub items : List Value → Items
items [] = nil
items (v ∷ vs) = cons v (items vs)
