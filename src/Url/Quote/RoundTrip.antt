-- ===== src/Url/Quote/RoundTrip.antt =====
-- `unquote` undoes `quote` (Url/Quote.antt).
use resellerbot.Prelude.{
  ℕ, ◌/◌, ◌%◌, ◌<◌, ◌≡◌, refl, sym, ap, ◌∙◌, inl, inr, true, false, Option, none, some, List, [],
  ◌∷◌, ◌++◌, ◌==◌, ltb, lt→ltb, All, Bool-cases, if◌then◌else◌, arith,
}
use mathlib.Core.List.{append_assoc}
use resellerbot.Prelude.Text.{Text}
use resellerbot.Url.Utf8.{Decoder, decode_byte, encode_char, idle, flush, IsScalar}
use resellerbot.Url.Utf8.RoundTrip.{decode_bytes, below_limit, decode-encode_char}
use resellerbot.Url.Quote.{
  is_safe, hex_digit, hex_value, percent, byte_of, emit, quote_byte, quote_bytes, quote,
  unquote_from, unquote,
}

safe_ascii : (b : ℕ) → is_safe b ≡ true → (b < 0x80) × ((b == b'%') ≡ false)
unfolding is_safe
safe_ascii b h = ground arith

hex-round : (d : ℕ) → d < 16 → hex_value (hex_digit d) ≡ some d
unfolding hex_value
hex-round d h = ground arith

percent-round : (b : ℕ) → b < 256 → percent (hex_digit (b / 16)) (hex_digit (b % 16)) ≡ some b
percent-round b h =
    rw (percent, hex-round (b / 16) (omega (arith, h)), hex-round (b % 16) (omega arith))
      (ap some (omega arith))

-- The longest clause of `unquote_from`, by the byte that is found.
abbrev pick : Decoder → ℕ → ℕ → ℕ → Text → Option ℕ → Text
pick d c a b s (some byte) = emit (decode_byte d byte) (λ e. unquote_from e s)
pick d c a b s none =
    if ltb c 0x80
    then emit (decode_byte d c) (λ e. unquote_from e (a ∷ b ∷ s))
    else flush d ++ (c ∷ unquote_from idle (a ∷ b ∷ s))

unquote-three :
    (d : Decoder) (c a b : ℕ) (s : Text) (found : Option ℕ)
    → byte_of c a b ≡ found
    → unquote_from d (c ∷ a ∷ b ∷ s) ≡ pick d c a b s found
unfolding unquote_from
unquote-three d c a b s found h = ap (pick d c a b s) h

-- A character that is safe is read as its byte.
unquote-safe :
    (d : Decoder) (b : ℕ) (s : Text)
    → b < 0x80
    → (b == b'%') ≡ false
    → unquote_from d (b ∷ s) ≡ (decode_byte d b).0 ++ unquote_from (decode_byte d b).1 s
unfolding unquote_from
unquote-safe d b [] h k = rw (lt→ltb b 0x80 h) refl
unquote-safe d b (a ∷ []) h k = rw (lt→ltb b 0x80 h) refl
unquote-safe d b (a ∷ c ∷ s) h k =
    unquote-three d b a c s none (rw k refl) ∙ rw (lt→ltb b 0x80 h) refl

unquote-quote_byte :
    (d : Decoder) (b : ℕ) (s : Text)
    → b < 256
    → unquote_from d (quote_byte b ++ s) ≡ (decode_byte d b).0 ++ unquote_from (decode_byte d b).1 s
unfolding quote_byte unquote_from
unquote-quote_byte d b s h = elim (Bool-cases (is_safe b)) [
  | inl k ↦ let ascii = safe_ascii b k in rw k (unquote-safe d b s ascii.0 ascii.1)
  | inr k ↦ rw k (
      unquote-three d b'%' (hex_digit (b / 16)) (hex_digit (b % 16)) s (some b) (percent-round b h))
]

pub encode_char-bytes : (c : ℕ) → c < 0x110000 → All (λ b. b < 256) (encode_char c)
unfolding encode_char
encode_char-bytes c h = ground arith

unquote-quote_bytes :
    (d : Decoder) (bs : List ℕ) (s : Text)
    → All (λ b. b < 256) bs
    → unquote_from d (quote_bytes bs ++ s)
      ≡ (decode_bytes d bs).0 ++ unquote_from (decode_bytes d bs).1 s
unquote-quote_bytes d [] s h = refl
unquote-quote_bytes d (b ∷ bs) s h =
    ap (unquote_from d) (append_assoc (quote_byte b) (quote_bytes bs) s)
    ∙ unquote-quote_byte d b (quote_bytes bs ++ s) h.0
    ∙ ap (λ t. (decode_byte d b).0 ++ t) (unquote-quote_bytes (decode_byte d b).1 bs s h.1)
    ∙ sym (append_assoc (decode_byte d b).0 _ _)

-- Quoting a text without surrogates and unquoting it gives the text.
pub unquote-quote : (s : Text) → All IsScalar s → unquote (quote s) ≡ s
unfolding unquote quote unquote_from
unquote-quote [] h = refl
unquote-quote (c ∷ s) h =
    unquote-quote_bytes idle (encode_char c) (quote s) (encode_char-bytes c (below_limit c h.0))
    ∙ rw (decode-encode_char c h.0) (ap (λ t. c ∷ t) (unquote-quote s h.1))
