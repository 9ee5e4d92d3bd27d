-- ===== src/Url/Split.antt =====
-- `urlsplit`, `urlunsplit` and the property `port`. The host between brackets is taken to be a
-- valid address, and no character of a host to be one that Unicode normalisation makes a separator.
pub mod Fragments
use resellerbot.Prelude.{
  ℕ, zero, suc, ◌+◌, ◌*◌, ◌-◌, Bool, true, false, not, ◌&&◌, ◌||◌, Option, none, some, List, [],
  ◌∷◌, ◌++◌, ◌==◌, ltb, leb, if◌then◌else◌, map, select, any,
}
use resellerbot.Prelude.Text.{Text, codes}
use resellerbot.Errors.{Result, ok, err, value_error, bad_url}
use resellerbot.Labels.{lower}

pub record Parts : Type 0 where
  pub scheme : Text
  pub netloc : Text
  pub path : Text
  pub query : Text
  pub fragment : Text

-- `s.split(c, 1)`: what stands before and after the first `c`.
abbrev pub split_at : ℕ → Text → Text × Option Text
split_at c [] = ([], none)
split_at c (a ∷ s) =
    let (before, after) = split_at c s in if a == c then ([], some s) else (a ∷ before, after)

-- `url.lstrip(…)` of the controls and the space.
abbrev pub strip_controls : Text → Text
strip_controls [] = []
strip_controls (c ∷ s) = let rest = strip_controls s in if leb c 0x20 then rest else c ∷ s

abbrev pub cleaned : Text → Text
cleaned url = select (λ c. not (c == 9 || (c == 10 || c == 13))) (strip_controls url)

abbrev is_letter : ℕ → Bool
is_letter c = (leb b'a' c && leb c b'z') || (leb b'A' c && leb c b'Z')

abbrev is_scheme_char : ℕ → Bool
is_scheme_char c =
    is_letter c || ((leb b'0' c && leb c b'9') || (c == b'+' || (c == b'-' || c == b'.')))

abbrev starts_with_letter : Text → Bool
starts_with_letter [] = false
starts_with_letter (c ∷ s) = is_letter c

abbrev pub is_scheme : Text → Bool
is_scheme s = starts_with_letter s && not (any (λ c. not (is_scheme_char c)) s)

-- The scheme and the rest, by what stands before and after the first colon.
abbrev pub scheme_from : Text → Text → Option Text → Text × Text
scheme_from url before none = ([], url)
scheme_from url before (some rest) =
    if is_scheme before then (map lower before, rest) else ([], url)

unfoldable pub split_scheme : Text → Text × Text
split_scheme url = let (before, after) = split_at b':' url in scheme_from url before after

-- The host, up to a slash, a question mark or a hash.
abbrev pub split_netloc : Text → Text × Text
split_netloc [] = ([], [])
split_netloc (c ∷ s) =
    let (host, rest) = split_netloc s in
    if c == b'/' || (c == b'?' || c == b'#') then ([], c ∷ s) else (c ∷ host, rest)

abbrev pub has_char : ℕ → Text → Bool
has_char c s = any (λ a. a == c) s

abbrev pub bad_brackets : Text → Bool
bad_brackets netloc =
    (has_char b'[' netloc && not (has_char b']' netloc))
    || (has_char b']' netloc && not (has_char b'[' netloc))

abbrev pub or_nil : Option Text → Text
or_nil none = []
or_nil (some s) = s

abbrev pub host_and_rest : Text → Text × Text
host_and_rest [] = ([], [])
host_and_rest (a ∷ []) = ([], a ∷ [])
host_and_rest (a ∷ b ∷ s) = if a == b'/' && b == b'/' then split_netloc s else ([], a ∷ b ∷ s)

unfoldable pub urlsplit : Text → Result Parts
unfolding split_scheme
urlsplit url =
    let (scheme, rest) = split_scheme (cleaned url) in
    let (netloc, tail) = host_and_rest rest in
    let (before, fragment) = split_at b'#' tail in
    let (path, query) = split_at b'?' before in
    if bad_brackets netloc
    then err (value_error bad_url)
    else ok (record {
      scheme = scheme;
      netloc = netloc;
      path = path;
      query = or_nil query;
      fragment = or_nil fragment;
    })

abbrev pub prefixed : ℕ → Text → Text
prefixed c [] = []
prefixed c (a ∷ s) = c ∷ a ∷ s

abbrev rooted : Text → Text
rooted [] = []
rooted (c ∷ s) = if c == b'/' then c ∷ s else b'/' ∷ c ∷ s

abbrev pub with_host : Text → Text → Text
with_host [] path = path
with_host (c ∷ netloc) path = codes "//" ++ ((c ∷ netloc) ++ rooted path)

abbrev pub with_scheme : Text → Text → Text
with_scheme [] url = url
with_scheme (c ∷ scheme) url = (c ∷ scheme) ++ (b':' ∷ url)

unfoldable pub urlunsplit : Parts → Text
urlunsplit p =
    with_scheme p.scheme (with_host p.netloc p.path)
    ++ (prefixed b'?' p.query ++ prefixed b'#' p.fragment)

-- What stands after the last `c`, or the whole.
abbrev after_last : ℕ → Text → Option Text
after_last c [] = none
after_last c (a ∷ s) = elim (after_last c s) [
  | some t ↦ some t
  | none ↦ (if a == c then some s else none)
]

abbrev or_whole : Option Text → Text → Text
or_whole none s = s
or_whole (some t) s = t

-- The text of the port in `host:port` or `[host]:port`.
abbrev port_text : Text → Text
port_text netloc =
    let hostinfo = or_whole (after_last b'@' netloc) netloc in
    elim (split_at b'[' hostinfo).1 [
      | none ↦ or_nil (split_at b':' hostinfo).1
      | some bracketed ↦ or_nil (split_at b':' (or_nil (split_at b']' bracketed).1)).1
    ]

-- The number that digits stand for.
port_digits : ℕ → Text → Option ℕ
port_digits n [] = some n
port_digits n (c ∷ s) = elim (leb b'0' c && leb c b'9') [
  | true ↦ port_digits (n * 10 + (c - b'0')) s
  | false ↦ none
]

-- `.port`: `none` if there is none; digits up to 65535, or a `ValueError`.
unfoldable pub port : Parts → Result (Option ℕ)
unfolding port_digits
port p = elim (port_text p.netloc) [
  | [] ↦ ok none
  | c ∷ s ↦ elim (port_digits 0 (c ∷ s)) [
    | none ↦ err (value_error bad_url)
    | some n ↦ (if leb n 65535 then ok (some n) else err (value_error bad_url))
  ]
]
