-- ===== src/Url/Utf8.antt =====
-- UTF-8: `str.encode`, and `bytes.decode("utf-8", "replace")`.
pub mod RoundTrip
use resellerbot.Prelude.{
  ℕ, zero, suc, ◌+◌, ◌*◌, ◌-◌, ◌/◌, ◌%◌, ◌<◌, ◌≤◌, ◌⊎◌, Bool, true, false, ◌&&◌, List, [], ◌∷◌,
  ◌++◌, ◌==◌, ltb, leb, if◌then◌else◌,
}
use resellerbot.Prelude.Text.{Text}

-- The characters that can be encoded: no surrogates.
abbrev pub IsScalar : ℕ → Type 0
IsScalar c = (c < 0xd800) ⊎ ((0xe000 ≤ c) × (c < 0x110000))

unfoldable pub encode_char : ℕ → List ℕ
encode_char c =
    if ltb c 0x80
    then c ∷ []
    else if ltb c 0x800
    then (0xc0 + c / 64) ∷ (0x80 + c % 64) ∷ []
    else if ltb c 0x10000
    then (0xe0 + c / 4096) ∷ (0x80 + c / 64 % 64) ∷ (0x80 + c % 64) ∷ []
    else (0xf0 + c / 262144) ∷ (0x80 + c / 4096 % 64) ∷ (0x80 + c / 64 % 64) ∷ (0x80 + c % 64) ∷ []

-- A character of which `left` more bytes are expected, the next one from `low` to `high`.
pub record Decoder : Type 0 where
  pub left : ℕ
  pub value : ℕ
  pub low : ℕ
  pub high : ℕ

abbrev pub idle : Decoder
idle = record { left = 0; value = 0; low = 0x80; high = 0xbf }

abbrev pub replacement : ℕ
replacement = 0xfffd

abbrev pub expecting : ℕ → ℕ → ℕ → ℕ → Decoder
expecting left value low high = record { left = left; value = value; low = low; high = high }

-- The first byte of a character.
unfoldable pub first_byte : ℕ → Text × Decoder
first_byte b =
    if ltb b 0x80
    then (b ∷ [], idle)
    else if ltb b 0xc2
    then (replacement ∷ [], idle)
    else if ltb b 0xe0
    then ([], expecting 1 (b - 0xc0) 0x80 0xbf)
    else if b == 0xe0
    then ([], expecting 2 0 0xa0 0xbf)
    else if b == 0xed
    then ([], expecting 2 13 0x80 0x9f)
    else if ltb b 0xf0
    then ([], expecting 2 (b - 0xe0) 0x80 0xbf)
    else if b == 0xf0
    then ([], expecting 3 0 0x90 0xbf)
    else if ltb b 0xf4
    then ([], expecting 3 (b - 0xf0) 0x80 0xbf)
    else if b == 0xf4
    then ([], expecting 3 4 0x80 0x8f)
    else (replacement ∷ [], idle)

abbrev interrupted : Text × Decoder → Text × Decoder
interrupted (out, d) = (replacement ∷ out, d)

-- One byte: what it completes, and what is expected then. A character that is cut off is replaced.
unfoldable pub decode_byte : Decoder → ℕ → Text × Decoder
unfolding first_byte
decode_byte d b =
    if d.left == 0
    then first_byte b
    else if leb d.low b && leb b d.high
    then (if d.left == 1
        then ((d.value * 64 + (b - 0x80)) ∷ [], idle)
        else ([], expecting (d.left - 1) (d.value * 64 + (b - 0x80)) 0x80 0xbf))
    else interrupted (first_byte b)

-- At the end of the bytes.
abbrev pub flush : Decoder → Text
flush d = if d.left == 0 then [] else replacement ∷ []
