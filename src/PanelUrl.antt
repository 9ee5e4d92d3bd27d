-- ===== src/PanelUrl.antt =====
-- bot/utils/panel_url.py: the addresses that an admin types.
pub mod Accepted
use resellerbot.Prelude.{ℕ, Bool, true, false, not, ◌&&◌, List, [], ◌∷◌, ◌++◌, if◌then◌else◌}
use resellerbot.Prelude.Text.{Text, codes, text_eq, strip, contains_text, rstrip_char}
use resellerbot.Errors.{Result, ok, err, value_error, bad_url, empty_url, bad_scheme}
use resellerbot.Inbounds.{is_empty}
use resellerbot.Url.Split.{Parts, urlsplit}

abbrev pub has_http_scheme : Parts → Bool
has_http_scheme p =
    if text_eq p.scheme (codes "http") then true else text_eq p.scheme (codes "https")

-- The tests on the parsed address.
abbrev pub checked : Text → Result Parts → Result Text
checked value (err e) = err e
checked value (ok p) =
    if not (has_http_scheme p)
    then err (value_error bad_scheme)
    else if is_empty p.netloc
    then err (value_error bad_url)
    else ok value

abbrev pub with_default_scheme : Text → Text
with_default_scheme value =
    if contains_text value (codes "://") then value else codes "https://" ++ value

unfoldable pub normalize_http_url : Text → Result Text
normalize_http_url raw =
    let value = strip raw in
    if is_empty value
    then err (value_error empty_url)
    else (let full = rstrip_char b'/' (with_default_scheme value) in checked full (urlsplit full))

abbrev ends_with_slash : Text → Bool
ends_with_slash [] = false
ends_with_slash (c ∷ []) = text_eq (c ∷ []) (codes "/")
ends_with_slash (c ∷ a ∷ s) = ends_with_slash (a ∷ s)

abbrev slashed : Result Text → Result Text
slashed (err e) = err e
slashed (ok url) = ok (if ends_with_slash url then url else url ++ codes "/")

unfoldable pub normalize_sub_public_url : Text → Result Text
normalize_sub_public_url raw = slashed (normalize_http_url raw)
