-- ===== src/Url/Utf8/RoundTrip.antt =====
-- UTF-8 (Url/Utf8.antt): what the decoder makes of the bytes of one character.
use resellerbot.Prelude.{
  ℕ, ◌+◌, ◌*◌, ◌/◌, ◌%◌, ◌<◌, ◌≤◌, ◌≡◌, refl, ap, ◌∙◌, inl, inr, List, [], ◌∷◌, ◌++◌, ◌==◌, ltb,
  ltb→lt, Bool-cases, if◌then◌else◌, arith,
}
use resellerbot.Prelude.Text.{Text}
use resellerbot.Url.Utf8.{IsScalar, encode_char, Decoder, idle, expecting, first_byte, decode_byte}

first_ascii : (c : ℕ) → c < 0x80 → decode_byte idle c ≡ (c ∷ [], idle)
unfolding decode_byte first_byte
first_ascii c h = ground arith

-- The first byte of two.
first_two : (q : ℕ) → 2 ≤ q → q < 32 → decode_byte idle (0xc0 + q) ≡ ([], expecting 1 q 0x80 0xbf)
unfolding decode_byte first_byte
first_two q h k = ground arith

last_one :
    (v r low high : ℕ)
    → low ≤ 0x80 + r
    → 0x80 + r ≤ high
    → decode_byte (expecting 1 v low high) (0x80 + r) ≡ ((v * 64 + r) ∷ [], idle)
unfolding decode_byte first_byte
last_one v r low high h k = ground arith

-- The range of the second byte of three, and of four.
abbrev low_three : ℕ → ℕ
low_three q = if q == 0 then 0xa0 else 0x80

abbrev high_three : ℕ → ℕ
high_three q = if q == 13 then 0x9f else 0xbf

abbrev low_four : ℕ → ℕ
low_four q = if q == 0 then 0x90 else 0x80

abbrev high_four : ℕ → ℕ
high_four q = if q == 4 then 0x8f else 0xbf

first_three :
    (q : ℕ)
    → q < 16
    → decode_byte idle (0xe0 + q) ≡ ([], expecting 2 q (low_three q) (high_three q))
unfolding decode_byte first_byte
first_three q h = ground arith

first_four :
    (q : ℕ) → q < 5 → decode_byte idle (0xf0 + q) ≡ ([], expecting 3 q (low_four q) (high_four q))
unfolding decode_byte first_byte
first_four q h = ground arith

-- A byte after which one more, or two more, are expected.
middle_three :
    (v r low high : ℕ)
    → low ≤ 0x80 + r
    → 0x80 + r ≤ high
    → decode_byte (expecting 2 v low high) (0x80 + r) ≡ ([], expecting 1 (v * 64 + r) 0x80 0xbf)
unfolding decode_byte first_byte
middle_three v r low high h k = ground arith

middle_four :
    (v r low high : ℕ)
    → low ≤ 0x80 + r
    → 0x80 + r ≤ high
    → decode_byte (expecting 3 v low high) (0x80 + r) ≡ ([], expecting 2 (v * 64 + r) 0x80 0xbf)
unfolding decode_byte first_byte
middle_four v r low high h k = ground arith

-- The bytes of a text, one after the other.
abbrev pub decode_bytes : Decoder → List ℕ → Text × Decoder
decode_bytes d [] = ([], d)
decode_bytes d (b ∷ bs) =
    let (out, e) = decode_byte d b in let (outs, f) = decode_bytes e bs in (out ++ outs, f)

bytes_two :
    (q r : ℕ)
    → 2 ≤ q
    → q < 32
    → r < 64
    → decode_bytes idle ((0xc0 + q) ∷ (0x80 + r) ∷ []) ≡ ((q * 64 + r) ∷ [], idle)
bytes_two q r h k l =
    rw (first_two q h k, last_one q r 0x80 0xbf (omega arith) (omega (arith, l))) refl

bytes_three :
    (q r t : ℕ)
    → q < 16
    → low_three q ≤ 0x80 + r
    → 0x80 + r ≤ high_three q
    → t < 64
    → decode_bytes idle ((0xe0 + q) ∷ (0x80 + r) ∷ (0x80 + t) ∷ [])
      ≡ (((q * 64 + r) * 64 + t) ∷ [], idle)
bytes_three q r t h k l m =
    rw
      (
        first_three q h,
        middle_three q r (low_three q) (high_three q) k l,
        last_one (q * 64 + r) t 0x80 0xbf (omega arith) (omega (arith, m)),
      )
      refl

bytes_four :
    (q r t u : ℕ)
    → q < 5
    → low_four q ≤ 0x80 + r
    → 0x80 + r ≤ high_four q
    → t < 64
    → u < 64
    → decode_bytes idle ((0xf0 + q) ∷ (0x80 + r) ∷ (0x80 + t) ∷ (0x80 + u) ∷ [])
      ≡ ((((q * 64 + r) * 64 + t) * 64 + u) ∷ [], idle)
bytes_four q r t u h k l m n =
    rw
      (
        first_four q h,
        middle_four q r (low_four q) (high_four q) k l,
        middle_three (q * 64 + r) t 0x80 0xbf (omega arith) (omega (arith, m)),
        last_one ((q * 64 + r) * 64 + t) u 0x80 0xbf (omega arith) (omega (arith, n)),
      )
      refl

digits_three : (c : ℕ) → (c / 4096 * 64 + c / 64 % 64) * 64 + c % 64 ≡ c
digits_three c = omega arith

digits_four : (c : ℕ) → ((c / 262144 * 64 + c / 4096 % 64) * 64 + c / 64 % 64) * 64 + c % 64 ≡ c
digits_four c = omega arith

low_three_le : (c : ℕ) → 0x800 ≤ c → low_three (c / 4096) ≤ 0x80 + c / 64 % 64
low_three_le c h = ground arith

high_three_le : (c : ℕ) → IsScalar c → 0x80 + c / 64 % 64 ≤ high_three (c / 4096)
high_three_le c (inl h) = ground arith
high_three_le c (inr (h, k)) = ground arith

low_four_le : (c : ℕ) → 0x10000 ≤ c → low_four (c / 262144) ≤ 0x80 + c / 4096 % 64
low_four_le c h = ground arith

high_four_le : (c : ℕ) → c < 0x110000 → 0x80 + c / 4096 % 64 ≤ high_four (c / 262144)
high_four_le c h = ground arith

pub below_limit : (c : ℕ) → IsScalar c → c < 0x110000
below_limit c (inl h) = omega (arith, h)
below_limit c (inr (h, k)) = k

-- The bytes of a character are decoded to the character.
pub decode-encode_char : (c : ℕ) → IsScalar c → decode_bytes idle (encode_char c) ≡ (c ∷ [], idle)
unfolding encode_char
decode-encode_char c scalar = elim (Bool-cases (ltb c 0x80)) [
  | inl h ↦ rw (h, first_ascii c (ltb→lt c 0x80 h)) refl
  | inr h ↦ elim (Bool-cases (ltb c 0x800)) [
    | inl k ↦
        rw (h, k)
          (bytes_two (c / 64) (c % 64) (ground arith) (ground arith) (omega arith)
            ∙ ap (λ n. (n ∷ [], idle)) (omega arith))
    | inr k ↦ elim (Bool-cases (ltb c 0x10000)) [
      | inl l ↦
          rw (h, k, l)
            (bytes_three (c / 4096) (c / 64 % 64) (c % 64) (ground arith)
                (low_three_le c (ground arith)) (high_three_le c scalar) (omega arith)
              ∙ ap (λ n. (n ∷ [], idle)) (digits_three c))
      | inr l ↦
          let below = below_limit c scalar in
          rw (h, k, l)
            (bytes_four (c / 262144) (c / 4096 % 64) (c / 64 % 64) (c % 64) (omega (arith, below))
                (low_four_le c (ground arith)) (high_four_le c below) (omega arith) (omega arith)
              ∙ ap (λ n. (n ∷ [], idle)) (digits_four c))
    ]
  ]
]
