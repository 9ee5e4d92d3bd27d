-- ===== src/Url/Split/Fragments.antt =====
-- A fragment that is added to a URL (Url/Split.antt) is what `urlsplit` finds behind its `#`.
use resellerbot.Prelude.{
  ℕ, ◌<◌, ◌≡◌, refl, sym, false≢true, ap, ◌∙◌, inl, inr, Bool, true, false, not, ◌&&◌, ◌||◌, Option,
  none, some, [], ◌∷◌, ◌++◌, ◌==◌, leb, Bool-cases, All, if◌then◌else◌, select, any, arith,
}
use resellerbot.Prelude.Text.{Text}
use resellerbot.Errors.{Result, ok, err, value_error, bad_url}
use resellerbot.Url.Split.{
  Parts, split_at, strip_controls, cleaned, is_scheme, scheme_from, split_scheme, bad_brackets,
  or_nil, split_netloc, host_and_rest, urlsplit,
}

-- A character that stands in a quoted text: no white space, control or colon.
abbrev pub IsQuoted : ℕ → Type 0
IsQuoted c = (32 < c) × ((c == b':') ≡ false)

abbrev is_kept : ℕ → Bool
is_kept c = not (c == 9 || (c == 10 || c == 13))

select-append : (p : ℕ → Bool) (s t : Text) → select p (s ++ t) ≡ select p s ++ select p t
select-append p [] t = refl
select-append p (c ∷ s) t = elim (Bool-cases (p c)) [
  | inl e ↦ rw e (ap (λ l. c ∷ l) (select-append p s t))
  | inr e ↦ rw e (select-append p s t)
]

kept : (c : ℕ) → 32 < c → is_kept c ≡ true
kept c h = ground arith

select-quoted : (f : Text) → All IsQuoted f → select is_kept f ≡ f
select-quoted [] h = refl
select-quoted (c ∷ f) h = rw (kept c h.0.0) (ap (λ l. c ∷ l) (select-quoted f h.1))

strip_controls-hash : (s f : Text) → strip_controls (s ++ b'#' ∷ f) ≡ strip_controls s ++ b'#' ∷ f
strip_controls-hash [] f = refl
strip_controls-hash (c ∷ s) f = elim (Bool-cases (leb c 0x20)) [
  | inl e ↦ rw e (strip_controls-hash s f)
  | inr e ↦ rw e refl
]

-- The first colon stands before the fragment.
split_at-quoted : (f : Text) → All IsQuoted f → split_at b':' f ≡ (f, none)
split_at-quoted [] h = refl
split_at-quoted (c ∷ f) h = rw h.0.1 (ap (λ p. (c ∷ p.0, p.1)) (split_at-quoted f h.1))

split_netloc-hash :
    (s f : Text)
    → split_netloc (s ++ b'#' ∷ f) ≡ ((split_netloc s).0, (split_netloc s).1 ++ b'#' ∷ f)
split_netloc-hash [] f = refl
split_netloc-hash (c ∷ s) f = elim (Bool-cases (c == b'/' || (c == b'?' || c == b'#'))) [
  | inl e ↦ rw e refl
  | inr e ↦ rw e (ap (λ p. (c ∷ p.0, p.1)) (split_netloc-hash s f))
]

-- No `#` in a text.
abbrev pub HasNoHash : Text → Type 0
HasNoHash s = All (λ c. (c == b'#') ≡ false) s

-- The test that a text has none.
pub HasNoHash-any : (s : Text) → any (λ c. c == b'#') s ≡ false → HasNoHash s
HasNoHash-any [] h = tt
HasNoHash-any (c ∷ s) h = elim (Bool-cases (c == b'#')) [
  | inl e ↦ absurd (false≢true (sym (rw e at h)))
  | inr e ↦ (e, HasNoHash-any s (rw e at h))
]

split_at-hash : (s f : Text) → HasNoHash s → split_at b'#' (s ++ b'#' ∷ f) ≡ (s, some f)
split_at-hash [] f h = refl
split_at-hash (c ∷ s) f h = rw h.0 (ap (λ p. (c ∷ p.0, p.1)) (split_at-hash s f h.1))

split_at-none : (s : Text) → HasNoHash s → split_at b'#' s ≡ (s, none)
split_at-none [] h = refl
split_at-none (c ∷ s) h = rw h.0 (ap (λ p. (c ∷ p.0, p.1)) (split_at-none s h.1))

-- The text after the first colon, with a fragment behind it.
abbrev with_tail : Option Text → Text → Option Text
with_tail none f = none
with_tail (some s) f = some (s ++ b'#' ∷ f)

abbrev or_all : Option Text → Text → Text → Text
or_all none before f = before ++ b'#' ∷ f
or_all (some _) before f = before

or_all-cons :
    (o : Option Text) (c : ℕ) (before f : Text) (after : Option Text)
    → ◌≡◌ {A = Text × Option Text} (c ∷ or_all o before f, after) (or_all o (c ∷ before) f, after)
or_all-cons none c before f after = refl
or_all-cons (some _) c before f after = refl

split_at-colon :
    (s f : Text)
    → All IsQuoted f
    → split_at b':' (s ++ b'#' ∷ f)
      ≡ (or_all (split_at b':' s).1 (split_at b':' s).0 f, with_tail (split_at b':' s).1 f)
split_at-colon [] f h = ap (λ p. (b'#' ∷ p.0, p.1)) (split_at-quoted f h)
split_at-colon (c ∷ s) f h = elim (Bool-cases (c == b':')) [
  | inl e ↦ rw e refl
  | inr e ↦ rw e (
      ap (λ p. (c ∷ p.0, p.1)) (split_at-colon s f h)
      ∙ or_all-cons (split_at b':' s).1 c (split_at b':' s).0 f (with_tail (split_at b':' s).1 f))
]

scheme_from-hash :
    (s before : Text) (after : Option Text) (f : Text)
    → scheme_from (s ++ b'#' ∷ f) (or_all after before f) (with_tail after f)
      ≡ ((scheme_from s before after).0, (scheme_from s before after).1 ++ b'#' ∷ f)
scheme_from-hash s before none f = refl
scheme_from-hash s before (some rest) f = elim (Bool-cases (is_scheme before)) [
  | inl e ↦ rw e refl
  | inr e ↦ rw e refl
]

split_scheme-hash :
    (s f : Text)
    → All IsQuoted f
    → split_scheme (s ++ b'#' ∷ f) ≡ ((split_scheme s).0, (split_scheme s).1 ++ b'#' ∷ f)
unfolding split_scheme
split_scheme-hash s f h =
    ap (λ p. scheme_from (s ++ b'#' ∷ f) p.0 p.1) (split_at-colon s f h)
    ∙ scheme_from-hash s (split_at b':' s).0 (split_at b':' s).1 f

nowhere : (b : Bool) (x y : Text × Text) → (if b && false then x else y) ≡ y
nowhere true x y = refl
nowhere false x y = refl

host_and_rest-hash :
    (s f : Text)
    → host_and_rest (s ++ b'#' ∷ f) ≡ ((host_and_rest s).0, (host_and_rest s).1 ++ b'#' ∷ f)
host_and_rest-hash [] [] = refl
host_and_rest-hash [] (c ∷ f) = refl
host_and_rest-hash (a ∷ []) f = nowhere (a == b'/') _ _
host_and_rest-hash (a ∷ b ∷ s) f = elim (Bool-cases (a == b'/' && b == b'/')) [
  | inl e ↦ rw e (split_netloc-hash s f)
  | inr e ↦ rw e refl
]

cleaned-hash : (s f : Text) → All IsQuoted f → cleaned (s ++ b'#' ∷ f) ≡ cleaned s ++ b'#' ∷ f
cleaned-hash s f h =
    ap (select is_kept) (strip_controls-hash s f)
    ∙ select-append is_kept (strip_controls s) (b'#' ∷ f)
    ∙ ap (λ t. cleaned s ++ b'#' ∷ t) (select-quoted f h)

-- The parts of a text without a `#` have none.
module _ (P : ℕ → Type 0) where
  All-strip_controls : (s : Text) → All P s → All P (strip_controls s)
  All-strip_controls [] h = tt
  All-strip_controls (c ∷ s) h = elim (Bool-cases (leb c 0x20)) [
    | inl e ↦ rw e (All-strip_controls s h.1)
    | inr e ↦ rw e h
  ]

  All-selected : (p : ℕ → Bool) (s : Text) → All P s → All P (select p s)
  All-selected p [] h = tt
  All-selected p (c ∷ s) h = elim (Bool-cases (p c)) [
    | inl e ↦ rw e (h.0, All-selected p s h.1)
    | inr e ↦ rw e (All-selected p s h.1)
  ]

  abbrev AllAfter : Option Text → Type 0
  AllAfter none = Unit
  AllAfter (some s) = All P s

  All-split_at : (s : Text) → All P s → AllAfter (split_at b':' s).1
  All-split_at [] h = tt
  All-split_at (c ∷ s) h = elim (Bool-cases (c == b':')) [
    | inl e ↦ rw e h.1
    | inr e ↦ rw e (All-split_at s h.1)
  ]

  All-scheme_from :
      (s before : Text) (after : Option Text)
      → All P s
      → AllAfter after
      → All P (scheme_from s before after).1
  All-scheme_from s before none h k = h
  All-scheme_from s before (some rest) h k = elim (Bool-cases (is_scheme before)) [
    | inl e ↦ rw e k
    | inr e ↦ rw e h
  ]

  All-split_netloc : (s : Text) → All P s → All P (split_netloc s).1
  All-split_netloc [] h = tt
  All-split_netloc (c ∷ s) h = elim (Bool-cases (c == b'/' || (c == b'?' || c == b'#'))) [
    | inl e ↦ rw e h
    | inr e ↦ rw e (All-split_netloc s h.1)
  ]

  All-host_and_rest : (s : Text) → All P s → All P (host_and_rest s).1
  All-host_and_rest [] h = tt
  All-host_and_rest (a ∷ []) h = h
  All-host_and_rest (a ∷ b ∷ s) h = elim (Bool-cases (a == b'/' && b == b'/')) [
    | inl e ↦ rw e (All-split_netloc s h.1.1)
    | inr e ↦ rw e h
  ]

abbrev IsNoHash : ℕ → Type 0
IsNoHash c = (c == b'#') ≡ false

tail-HasNoHash : (s : Text) → HasNoHash s → HasNoHash (host_and_rest (split_scheme (cleaned s)).1).1
unfolding split_scheme
tail-HasNoHash s h =
    let clean =
      All-selected IsNoHash is_kept (strip_controls s) (All-strip_controls IsNoHash s h) in
    All-host_and_rest IsNoHash (split_scheme (cleaned s)).1 (
      All-scheme_from IsNoHash (cleaned s) (split_at b':' (cleaned s)).0
        (split_at b':' (cleaned s)).1 clean (All-split_at IsNoHash (cleaned s) clean))

-- The parts of a URL, from its scheme, its host, what follows the host, and the fragment.
abbrev pub parts_of : Text → Text → Text × Option Text → Result Parts
parts_of scheme netloc split =
    let (path, query) = split_at b'?' split.0 in
    if bad_brackets netloc
    then err (value_error bad_url)
    else ok (record {
      scheme = scheme;
      netloc = netloc;
      path = path;
      query = or_nil query;
      fragment = or_nil split.1;
    })

abbrev with_parts : Text → Text × Text → Result Parts
with_parts scheme host = parts_of scheme host.0 (split_at b'#' host.1)

abbrev pub add_fragment : Text → Result Parts → Result Parts
add_fragment f (err e) = err e
add_fragment f (ok p) = ok (record p { fragment = f })

add_fragment-parts_of :
    (scheme netloc tail f : Text)
    → parts_of scheme netloc (tail, some f) ≡ add_fragment f (parts_of scheme netloc (tail, none))
add_fragment-parts_of scheme netloc tail f = elim (Bool-cases (bad_brackets netloc)) [
  | inl e ↦ rw e refl
  | inr e ↦ rw e refl
]

-- A URL without a fragment to which one is added splits like the URL, with the fragment.
pub urlsplit-hash :
    (s f : Text)
    → HasNoHash s
    → All IsQuoted f
    → urlsplit (s ++ b'#' ∷ f) ≡ add_fragment f (urlsplit s)
unfolding urlsplit
urlsplit-hash s f h k =
    ap (λ c. with_parts (split_scheme c).0 (host_and_rest (split_scheme c).1)) (cleaned-hash s f k)
    ∙ ap (λ p. with_parts p.0 (host_and_rest p.1)) (split_scheme-hash (cleaned s) f k)
    ∙ ap (with_parts (split_scheme (cleaned s)).0)
        (host_and_rest-hash (split_scheme (cleaned s)).1 f)
    ∙ ap (parts_of (split_scheme (cleaned s)).0 (host_and_rest (split_scheme (cleaned s)).1).0)
        (split_at-hash (host_and_rest (split_scheme (cleaned s)).1).1 f (tail-HasNoHash s h))
    ∙ add_fragment-parts_of (split_scheme (cleaned s)).0
        (host_and_rest (split_scheme (cleaned s)).1).0
        (host_and_rest (split_scheme (cleaned s)).1).1 f
    ∙ ap
        (λ p.
          add_fragment f (
            parts_of (split_scheme (cleaned s)).0 (host_and_rest (split_scheme (cleaned s)).1).0 p))
        (sym (split_at-none (host_and_rest (split_scheme (cleaned s)).1).1 (tail-HasNoHash s h)))
