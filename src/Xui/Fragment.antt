-- ===== src/Xui/Fragment.antt =====
-- xui/link_fragment.py: the remark behind the `#` of a link, in the form that a panel gives it.
--
-- `value / size` is exact, and so is its rounding, while a number of bytes is below 2 ^ 53.
pub mod RoundTrip
use resellerbot.Prelude.{
  ℕ, zero, suc, ◌+◌, ◌*◌, ◌/◌, ◌%◌, Bool, true, false, ◌||◌, List, [], ◌∷◌, ◌++◌, ◌==◌, ltb, leb,
  if◌then◌else◌, Option, none, some,
}
use resellerbot.Prelude.Int.{ℤ, pos, negsuc}
use resellerbot.Prelude.Text.{Text, codes, strip, starts_with, contains_text}
use resellerbot.Errors.{Result, ok, err}
use resellerbot.Inbounds.{is_empty}
use resellerbot.Labels.{decimal}
use resellerbot.UsageAlerts.{round_div}
use resellerbot.Url.Quote.{quote, unquote}
use resellerbot.Url.Split.{Parts, urlsplit, urlunsplit}

-- `f"{n / d:.2f}"`, `f"{n / d:.1f}"` and `f"{n / d:.0f}"`.
abbrev two_digits : ℕ → Text
two_digits n = (b'0' + n / 10) ∷ (b'0' + n % 10) ∷ []

unfoldable pub fixed_2 : ℕ → ℕ → Text
fixed_2 n d =
    let hundredths = round_div (n * 100) d in
    decimal (hundredths / 100) ++ (b'.' ∷ two_digits (hundredths % 100))

unfoldable pub fixed_1 : ℕ → ℕ → Text
fixed_1 n d =
    let tenths = round_div (n * 10) d in decimal (tenths / 10) ++ (b'.' ∷ (b'0' + tenths % 10) ∷ [])

unfoldable pub fixed_0 : ℕ → ℕ → Text
fixed_0 n d = decimal (round_div n d)

-- The branches on `amount = n / d` of a unit.
unfoldable pub amount : ℕ → ℕ → Text
unfolding fixed_2 fixed_1 fixed_0
amount n d =
    if leb (100 * d) n then fixed_0 n d else if leb (10 * d) n then fixed_1 n d else fixed_2 n d

abbrev pub tb : ℕ
tb = 1099511627776

abbrev pub gb : ℕ
gb = 1073741824

abbrev pub mb : ℕ
mb = 1048576

unfoldable pub format_traffic_bytes : ℤ → Text
unfolding amount fixed_2
format_traffic_bytes (negsuc _) = codes "0B"
format_traffic_bytes (pos zero) = codes "0B"
format_traffic_bytes (pos (suc m)) =
    let n = suc m in
    if leb tb n
    then amount n tb ++ codes "TB"
    else if leb gb n
    then fixed_2 n gb ++ codes "GB"
    else if leb mb n
    then amount n mb ++ codes "MB"
    else if leb 1024 n
    then amount n 1024 ++ codes "KB"
    else decimal n ++ codes "B"

-- The chart emoji.
abbrev chart : ℕ
chart = 0x1f4ca

unfoldable pub build_panel_link_fragment : Text → ℤ → Text
unfolding format_traffic_bytes
build_panel_link_fragment email total_bytes =
    email ++ (b'-' ∷ format_traffic_bytes total_bytes ++ (chart ∷ []))

unfoldable pub merge_panel_link_fragment : Text → Text → ℤ → Text
merge_panel_link_fragment existing email total_bytes =
    let panel = build_panel_link_fragment email total_bytes in
    let given = strip existing in
    if is_empty given
    then panel
    else if contains_text given email
    then given
    else if starts_with given (codes "-") || starts_with given (codes "_")
    then panel ++ given
    else panel ++ (b'-' ∷ given)

unfoldable pub decode_link_fragment : Text → Result Text
decode_link_fragment link = elim (urlsplit link) [
  | err e ↦ err e
  | ok p ↦ ok (if is_empty p.fragment then [] else unquote p.fragment)
]

-- The link with another fragment, percent-encoded.
unfoldable pub with_fragment : Text → Parts → Text
with_fragment s p = urlunsplit (record p { fragment = quote s })

-- The body of `apply_panel_fragment_to_vless_link` after the split.
abbrev apply_to_parts : Text → Text → ℤ → Parts → Text
apply_to_parts link email total_bytes p =
    let existing = if is_empty p.fragment then [] else unquote p.fragment in
    let merged = merge_panel_link_fragment existing email total_bytes in
    if is_empty (strip merged) then link else with_fragment merged p

unfoldable pub apply_panel_fragment_to_vless_link : Text → Text → ℤ → Result Text
apply_panel_fragment_to_vless_link link email total_bytes = elim (urlsplit link) [
  | err e ↦ err e
  | ok p ↦ ok (apply_to_parts link email total_bytes p)
]

unfoldable pub apply_fragment_to_vless_link : Text → Text → Result Text
apply_fragment_to_vless_link link fragment_text =
    if is_empty (strip fragment_text) then ok link else elim (urlsplit link) [
      | err e ↦ err e
      | ok p ↦ ok (if is_empty p.fragment then with_fragment fragment_text p else link)
    ]
