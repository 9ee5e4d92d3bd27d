-- ===== src/Url/Quote.antt =====
-- `quote(s, safe="")` and `unquote`.
pub mod RoundTrip
use resellerbot.Prelude.{
  ℕ, suc, ◌+◌, ◌*◌, ◌-◌, ◌/◌, ◌%◌, Bool, true, false, ◌&&◌, ◌||◌, Option, none, some, List, [], ◌∷◌,
  ◌++◌, ◌==◌, ltb, leb, if◌then◌else◌,
}
use resellerbot.Prelude.Text.{Text}
use resellerbot.Url.Utf8.{Decoder, encode_char, decode_byte, idle, flush}

-- `_ALWAYS_SAFE`
unfoldable pub is_safe : ℕ → Bool
is_safe c =
    (leb b'a' c && leb c b'z')
    || ((leb b'A' c && leb c b'Z')
        || ((leb b'0' c && leb c b'9') || ((c == b'_' || c == b'.') || (c == b'-' || c == b'~'))))

abbrev pub hex_digit : ℕ → ℕ
hex_digit d = if ltb d 10 then b'0' + d else b'A' + (d - 10)

unfoldable pub quote_byte : ℕ → Text
unfolding is_safe
quote_byte b = if is_safe b then b ∷ [] else b'%' ∷ hex_digit (b / 16) ∷ hex_digit (b % 16) ∷ []

abbrev pub quote_bytes : List ℕ → Text
quote_bytes [] = []
quote_bytes (b ∷ bs) = quote_byte b ++ quote_bytes bs

unfoldable pub quote : Text → Text
quote [] = []
quote (c ∷ s) = quote_bytes (encode_char c) ++ quote s

-- The value of a hexadecimal digit.
unfoldable pub hex_value : ℕ → Option ℕ
hex_value c =
    if leb b'0' c && leb c b'9'
    then some (c - b'0')
    else if leb b'A' c && leb c b'F'
    then some (c - b'A' + 10)
    else if leb b'a' c && leb c b'f'
    then some (c - b'a' + 10)
    else none

-- The byte that `%` and two digits stand for.
abbrev pub percent : ℕ → ℕ → Option ℕ
percent a b = elim (hex_value a) [
  | none ↦ none
  | some m ↦ elim (hex_value b) [ none ↦ none | some n ↦ some (m * 16 + n) ]
]

-- The byte that three characters stand for.
abbrev pub byte_of : ℕ → ℕ → ℕ → Option ℕ
byte_of c a b = if c == b'%' then percent a b else none

abbrev pub emit : Text × Decoder → (Decoder → Text) → Text
emit (out, d) k = out ++ k d

-- A run of ASCII characters is read as bytes, with each `%` and two digits as one, and decoded; a
-- `%` without digits is itself.
unfoldable pub unquote_from : Decoder → Text → Text
unfolding hex_value
unquote_from d [] = flush d
unquote_from d (c ∷ []) = if ltb c 0x80 then emit (decode_byte d c) flush else flush d ++ c ∷ []
unquote_from d (c ∷ a ∷ []) =
    if ltb c 0x80
    then emit (decode_byte d c) (λ e. unquote_from e (a ∷ []))
    else flush d ++ (c ∷ unquote_from idle (a ∷ []))
unquote_from d (c ∷ a ∷ b ∷ s) = elim (byte_of c a b) [
  | some byte ↦ emit (decode_byte d byte) (λ e. unquote_from e s)
  | none ↦
      (if ltb c 0x80
        then emit (decode_byte d c) (λ e. unquote_from e (a ∷ b ∷ s))
        else flush d ++ (c ∷ unquote_from idle (a ∷ b ∷ s)))
]

unfoldable pub unquote : Text → Text
unfolding unquote_from
unquote s = unquote_from idle s
