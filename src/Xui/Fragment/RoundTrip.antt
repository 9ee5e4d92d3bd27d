-- ===== src/Xui/Fragment/RoundTrip.antt =====
-- A remark that is put into a link (xui/link_fragment.py) is the one that is read from it.
use mathlib.Core.List.{append_assoc}
use resellerbot.Prelude.{
  ℕ, ◌/◌, ◌%◌, ◌<◌, ◌≡◌, refl, sym, ap, ◌∙◌, false≢true, inl, inr, true, false, List, [], ◌∷◌, ◌++◌,
  Bool-cases, All, All-append, arith,
}
use resellerbot.Prelude.Text.{Text}
use resellerbot.Errors.{ok}
use resellerbot.Inbounds.{is_empty}
use resellerbot.Url.Utf8.{encode_char, IsScalar}
use resellerbot.Url.Utf8.RoundTrip.{below_limit}
use resellerbot.Url.Quote.{
  is_safe, hex_digit, quote_byte, quote_bytes, quote, unquote_from, unquote,
}
use resellerbot.Url.Quote.RoundTrip.{encode_char-bytes, unquote-quote}
use resellerbot.Url.Split.{Parts, urlsplit, urlunsplit, prefixed, with_host, with_scheme}
use resellerbot.Url.Split.Fragments.{IsQuoted, HasNoHash, urlsplit-hash}
use resellerbot.Xui.Fragment.{with_fragment, decode_link_fragment}

safe-IsQuoted : (b : ℕ) → is_safe b ≡ true → IsQuoted b
unfolding is_safe
safe-IsQuoted b h = ground arith

hex-IsQuoted : (d : ℕ) → d < 16 → IsQuoted (hex_digit d)
hex-IsQuoted d h = ground arith

quote_byte-IsQuoted : (b : ℕ) → b < 256 → All IsQuoted (quote_byte b)
unfolding quote_byte
quote_byte-IsQuoted b h = elim (Bool-cases (is_safe b)) [
  | inl e ↦ rw e (safe-IsQuoted b e, tt)
  | inr e ↦ rw e (
    (omega arith, refl),
    (hex-IsQuoted (b / 16) (omega (arith, h)), (hex-IsQuoted (b % 16) (omega arith), tt)),
  )
]

quote_bytes-IsQuoted : (bs : List ℕ) → All (λ b. b < 256) bs → All IsQuoted (quote_bytes bs)
quote_bytes-IsQuoted [] h = tt
quote_bytes-IsQuoted (b ∷ bs) h =
    All-append IsQuoted (quote_byte b) (quote_bytes bs) (quote_byte-IsQuoted b h.0)
      (quote_bytes-IsQuoted bs h.1)

quote-IsQuoted : (s : Text) → All IsScalar s → All IsQuoted (quote s)
unfolding quote
quote-IsQuoted [] h = tt
quote-IsQuoted (c ∷ s) h =
    All-append IsQuoted (quote_bytes (encode_char c)) (quote s)
      (quote_bytes-IsQuoted (encode_char c) (encode_char-bytes c (below_limit c h.0)))
      (quote-IsQuoted s h.1)

-- The link without its fragment.
abbrev pub bare_link : Parts → Text
bare_link p = urlunsplit (record p { fragment = [] })

urlunsplit-fragment :
    (p : Parts) (c : ℕ) (f : Text)
    → urlunsplit (record p { fragment = c ∷ f }) ≡ bare_link p ++ b'#' ∷ c ∷ f
unfolding urlunsplit
urlunsplit-fragment p c f =
    let before = with_scheme p.scheme (with_host p.netloc p.path) in
    let query = prefixed b'?' p.query in
    ap (λ t. before ++ t) (sym (append_assoc query [] (b'#' ∷ c ∷ f)))
    ∙ sym (append_assoc before (query ++ []) (b'#' ∷ c ∷ f))

empty_unquote : (f : Text) → is_empty f ≡ true → is_empty (unquote f) ≡ true
unfolding unquote unquote_from
empty_unquote [] h = refl
empty_unquote (c ∷ f) h = absurd (false≢true h)

quote-non_empty : (s : Text) → All IsScalar s → is_empty s ≡ false → is_empty (quote s) ≡ false
quote-non_empty s h k = elim (Bool-cases (is_empty (quote s))) [
  | inl e ↦
      absurd
        (false≢true (sym k ∙ ap is_empty (sym (unquote-quote s h)) ∙ empty_unquote (quote s) e))
  | inr e ↦ e
]

decode-fragment :
    (p q : Parts) (f : Text)
    → is_empty f ≡ false
    → All IsQuoted f
    → HasNoHash (bare_link p)
    → urlsplit (bare_link p) ≡ ok q
    → decode_link_fragment (urlunsplit (record p { fragment = f })) ≡ ok (unquote f)
unfolding decode_link_fragment
decode-fragment p q [] e h k l = absurd (false≢true (sym e))
decode-fragment p q (c ∷ f) e h k l =
    rw (urlunsplit-fragment p c f, decode_link_fragment, urlsplit-hash (bare_link p) (c ∷ f) k h, l)
      refl

-- A remark that can be encoded and is not empty is read back from the link that it is put into, if
-- the link without the fragment has no `#` and can be split.
pub decode-with_fragment :
    (p q : Parts) (s : Text)
    → All IsScalar s
    → is_empty s ≡ false
    → HasNoHash (bare_link p)
    → urlsplit (bare_link p) ≡ ok q
    → decode_link_fragment (with_fragment s p) ≡ ok s
unfolding with_fragment
decode-with_fragment p q s h e k l =
    decode-fragment p q (quote s) (quote-non_empty s h e) (quote-IsQuoted s h) k l
    ∙ ap ok (unquote-quote s h)
