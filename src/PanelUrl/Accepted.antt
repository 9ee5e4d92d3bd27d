-- ===== src/PanelUrl/Accepted.antt =====
-- The addresses that bot/utils/panel_url.py accepts.
use resellerbot.Prelude.{ℕ, ◌≡◌, Bool, true, false, [], ◌∷◌, ◌==◌, if◌then◌else◌}
use resellerbot.Prelude.Text.{Text, rstrip_char}
use resellerbot.Errors.{Result, ok, err, value_error, empty_url}
use resellerbot.PanelUrl.{with_default_scheme}

-- The address that `normalize_http_url` tests.
abbrev full : Text → Text
full value = rstrip_char b'/' (with_default_scheme value)

if_empty :
    (b : Bool) (r : Result Text) (url : Text)
    → (if b then err (value_error empty_url) else r) ≡ ok url
    → r ≡ ok url
if_empty true r url h = cc
if_empty false r url h = h

-- What `rstrip_char` makes of a character and the rest, stripped.
abbrev put : ℕ → ℕ → Text → Text
put c a [] = if a == c then [] else a ∷ []
put c a (b ∷ t) = a ∷ b ∷ t
