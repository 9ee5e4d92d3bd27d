-- ===== src/Updater/Versions.antt =====
-- `parse_version` and `compare_versions` of services/updater.py. Digits are those of ASCII.
use resellerbot.Prelude.{
  ℕ, zero, suc, ◌+◌, ◌*◌, ◌-◌, ◌≡◌, Bool, not, ◌&&◌, Option, none, some, [], ◌∷◌, ltb, leb, any,
  if◌then◌else◌,
}
use resellerbot.Prelude.Int.{ℤ, pos, negsuc}
use resellerbot.Prelude.Text.{Text, strip}
use resellerbot.Errors.{Result, ok, err, update_error, bad_version}
use resellerbot.Url.Split.{split_at}

abbrev is_digit : ℕ → Bool
is_digit c = leb b'0' c && leb c b'9'

-- The number that some digits stand for, after the number before them.
abbrev digits_from : ℕ → Text → ℕ
digits_from n [] = n
digits_from n (c ∷ s) = digits_from (n * 10 + (c - b'0')) s

abbrev number : Text → Option ℕ
number [] = none
number (c ∷ s) = if any (λ d. not (is_digit d)) (c ∷ s) then none else some (digits_from 0 (c ∷ s))

abbrev number_or_none : Option Text → Option ℕ
number_or_none none = none
number_or_none (some s) = number s

abbrev triple : Option ℕ → Option ℕ → Option ℕ → Result (ℕ × ℕ × ℕ)
triple (some a) (some b) (some c) = ok (a, b, c)
triple none b c = err (update_error bad_version)
triple (some a) none c = err (update_error bad_version)
triple (some a) (some b) none = err (update_error bad_version)

-- What stands after the first dot.
abbrev after_dot : Option Text → Option Text × Option Text
after_dot none = (none, none)
after_dot (some s) = let (before, after) = split_at b'.' s in (some before, after)

-- Three numbers with dots between them.
abbrev pub match_version : Text → Result (ℕ × ℕ × ℕ)
match_version s =
    let (a, rest) = split_at b'.' s in
    let (b, c) = after_dot rest in triple (number a) (number_or_none b) (number_or_none c)

unfoldable pub parse_version : Text → Result (ℕ × ℕ × ℕ)
parse_version raw = match_version (strip raw)

-- The comparison of two numbers, and of the rest if they are equal.
abbrev then_by : ℕ → ℕ → ℤ → ℤ
then_by a b rest = if ltb a b then negsuc 0 else if ltb b a then pos 1 else rest

abbrev compare_triples : ℕ × ℕ × ℕ → ℕ × ℕ × ℕ → ℤ
compare_triples (a, b, c) (a', b', c') = then_by a a' (then_by b b' (then_by c c' (pos 0)))

abbrev compared : Result (ℕ × ℕ × ℕ) → Result (ℕ × ℕ × ℕ) → Result ℤ
compared (err e) r = err e
compared (ok a) (err e) = err e
compared (ok a) (ok b) = ok (compare_triples a b)

unfoldable pub compare_versions : Text → Text → Result ℤ
compare_versions a b = compared (parse_version a) (parse_version b)

-- The negated number.
abbrev pub negated : ℤ → ℤ
negated (pos zero) = pos 0
negated (pos (suc n)) = negsuc n
negated (negsuc n) = pos (suc n)

abbrev pub flipped : Result ℤ → Result ℤ
flipped (ok c) = ok (negated c)
flipped (err e) = err e

-- A parse that fails gives the one error there is.
abbrev IsVersionError : Result (ℕ × ℕ × ℕ) → Type 0
IsVersionError (ok v) = Unit
IsVersionError (err e) = e ≡ update_error bad_version
