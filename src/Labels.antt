-- ===== src/Labels.antt =====
-- services/reseller_labels.py: names that a reseller or an admin types, and the emails and group
-- names that are built from them.
use resellerbot.Prelude.{
  ℕ, zero, suc, ◌+◌, ◌/◌, ◌%◌, Bool, true, ◌&&◌, ◌||◌, none, some, [], ◌∷◌, ◌++◌, map, ◌==◌, leb,
  ltb, if◌then◌else◌, length,
}
use resellerbot.Prelude.Text.{Text, codes, strip}
use resellerbot.Errors.{Result, ok, err, suffix_too_long}
use resellerbot.Models.{Reseller}

-- The decimal digits of a number in front of `acc`; `suc n` steps are enough for `n`.
decimal_from : ℕ → ℕ → Text → Text
decimal_from zero n acc = acc
decimal_from (suc fuel) n acc =
    let digit = b'0' + n % 10 in
    let more = decimal_from fuel (n / 10) (digit ∷ acc) in if ltb n 10 then digit ∷ acc else more

-- `str(n)`
unfoldable pub decimal : ℕ → Text
unfolding decimal_from
decimal n = decimal_from (suc n) n []

-- `str.lower` on the characters that it takes to ASCII: A to Z and the Kelvin sign.
unfoldable pub lower : ℕ → ℕ
lower c = if leb b'A' c && leb c b'Z' then c + 32 else if c == 8490 then b'k' else c

-- `[a-zA-Z0-9_-]`
unfoldable pub is_name_char : ℕ → Bool
is_name_char c =
    (leb b'a' c && leb c b'z')
    || ((leb b'A' c && leb c b'Z') || ((leb b'0' c && leb c b'9') || (c == b'_' || c == b'-')))

abbrev pub all_name_chars : Text → Bool
all_name_chars [] = true
all_name_chars (c ∷ s) = is_name_char c && all_name_chars s

abbrev pub min_name_len : ℕ
min_name_len = 2

abbrev pub max_name_len : ℕ
max_name_len = 32

abbrev pub max_client_email_len : ℕ
max_client_email_len = 128

-- `InvalidDisplayNameError` and `InvalidClientSuffixError`, by their messages.
pub data NameError : Type 0 where
  bad_length bad_characters : NameError

pub data Normalized : Type 0 where
  accepted : Text → Normalized
  refused : NameError → Normalized

-- `normalize_display_name` and `normalize_client_suffix`, which are the same code.
unfoldable pub normalize_name : Text → Normalized
normalize_name raw =
    let name = map lower (strip raw) in
    if ltb (length name) min_name_len || ltb max_name_len (length name)
    then refused bad_length
    else if all_name_chars name
    then accepted name
    else refused bad_characters

unfoldable pub email_prefix : Reseller → Text
unfolding decimal
email_prefix r = elim r.display_name [
  | none ↦ b'r' ∷ decimal r.telegram_id
  | some name ↦ elim name [ [] ↦ b'r' ∷ decimal r.telegram_id | c ∷ s ↦ c ∷ s ]
]

unfoldable pub panel_group_name : Reseller → Text
unfolding decimal
panel_group_name r = elim r.display_name [
  | none ↦ decimal r.telegram_id
  | some name ↦ elim name [
    | [] ↦ decimal r.telegram_id
    | c ∷ s ↦ (c ∷ s) ++ (b'-' ∷ decimal r.telegram_id)
  ]
]

unfoldable pub client_email : Reseller → Text → Text
unfolding email_prefix
client_email r suffix = email_prefix r ++ (codes "-client-" ++ suffix)

-- `build_client_email` with a suffix.
unfoldable pub build_client_email : Reseller → Text → Result Text
unfolding client_email
build_client_email r suffix =
    let email = client_email r suffix in
    if ltb max_client_email_len (length email) then err suffix_too_long else ok email
