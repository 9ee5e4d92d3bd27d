-- ===== src/Updater/Release.antt =====
-- services/github_release.py: the latest release on GitHub. The network is a parameter.
pub mod Sizes
use resellerbot.Prelude.{
  ℕ, ◌≤◌, ◌≡◌, refl, Bool, true, false, not, ◌&&◌, ◌||◌, Option, none, some, List, [], ◌∷◌, ◌++◌,
  ◌==◌, leb, ltb, if◌then◌else◌, any, inl, inr, Bool-cases, arith,
}
use resellerbot.Prelude.Int.{ℤ, pos, ltb_ℤ}
use resellerbot.Prelude.Text.{Text, codes, strip, is_blank, starts_with, rstrip_char}
use resellerbot.Errors.{
  Result, ok, err, Error, release_error, bad_repo, no_release, bad_answer, no_asset, no_version,
  release_too_large, release_empty, http_status, unreachable, attribute_error, json_error,
}
use resellerbot.Json.{
  Value, null, bool, int, text, arr, obj, Items, nil, cons, Fields, get, text_of,
}
use resellerbot.Updater.Archive.{lstrip_char, ends_with, without_end, drop_prefix}
use resellerbot.Updater.Versions.{match_version}

abbrev is_ok : {A : Type 0} → Result A → Bool
is_ok (ok _) = true
is_ok (err _) = false

-- `_VERSION_RE.match`: `$` also matches before a last line feed.
abbrev matches_version : Text → Bool
matches_version s =
    is_ok (match_version s)
    || (ends_with s (10 ∷ []) && is_ok (match_version (without_end s (10 ∷ []))))

abbrev if_version : Text → Option Text
if_version s = if matches_version s then some s else none

unfoldable pub parse_version_from_asset : Text → Text → Option Text
parse_version_from_asset name prefix =
    let stem = without_end name (codes ".zip") in
    if not (starts_with name prefix) || not (ends_with name (codes ".zip"))
    then none
    else if ends_with name (codes "-source.zip")
    then none
    else if not (starts_with stem prefix)
    then none
    else if_version (drop_prefix stem prefix)

unfoldable pub version_from_tag : Text → Option Text
version_from_tag tag =
    let s = strip tag in
    if_version (if starts_with s (codes "v") then drop_prefix s (codes "v") else s)

-- The release asset that one asset is, with its name and address.
pub record Asset : Type 0 where
  pub name : Text
  pub url : Text
  pub size : Value

abbrev with_url : Text → Value → Value → Option Asset
with_url name (text url) size =
    if is_blank url then none else some (record { name = name; url = url; size = size })
with_url name null size = none
with_url name _ size = none

unfoldable pub asset_of : Text → Fields → Option Asset
unfolding parse_version_from_asset
asset_of prefix d = elim (get (codes "name") d) [
  | text name ↦ elim (parse_version_from_asset name prefix) [
    | none ↦ none
    | some _ ↦ with_url name (get (codes "browser_download_url") d) (get (codes "size") d)
  ]
  | null ↦ none
  | bool _ ↦ none
  | int _ ↦ none
  | arr _ ↦ none
  | obj _ ↦ none
]

unfoldable pub pick_release_asset : Text → Items → Result Asset
unfolding asset_of
pick_release_asset prefix nil = err (release_error no_asset)
pick_release_asset prefix (cons v vs) =
    let rest = pick_release_asset prefix vs in
    elim v [
      | obj d ↦ elim (asset_of prefix d) [ some a ↦ ok a | none ↦ rest ]
      | null ↦ err attribute_error
      | bool _ ↦ err attribute_error
      | int _ ↦ err attribute_error
      | text _ ↦ err attribute_error
      | arr _ ↦ err attribute_error
    ]

-- GitHub: the status and the body of an answer; `none` is an `httpx.RequestError`, and a body that
-- is no JSON is `none`.
pub record Github : Type 1 where
  pub Bytes : Type 0
  pub size : Bytes → ℕ
  pub latest : Text → Option (ℕ × Option Value)
  pub download : Text → Option (ℕ × Bytes)

abbrev pub is_success : ℕ → Bool
is_success status = leb 200 status && ltb status 300

abbrev pub assets_of : Value → Items
assets_of (arr vs) = vs
assets_of null = nil
assets_of _ = nil

abbrev pub or_tag : Option Text → Value → Option Text
or_tag (some v) tag = some v
or_tag none (text s) = version_from_tag s
or_tag none null = none
or_tag none _ = none

-- `isinstance(size, int) and size > max_bytes`; a Boolean is no more than one byte.
abbrev pub announces_more : Value → ℕ → Bool
announces_more (int n) max_bytes = ltb_ℤ (pos max_bytes) n
announces_more (bool b) max_bytes = b && max_bytes == 0
announces_more null max_bytes = false
announces_more _ max_bytes = false

module _ (github : Github) where
  open github use {Bytes, size, latest, download}

  -- The answer to the download.
  unfoldable pub downloaded : ℕ → Text → Text → Option (ℕ × Bytes) → Result (Text × Bytes × Text)
  downloaded max_bytes version filename none = err (release_error unreachable)
  downloaded max_bytes version filename (some (status, raw)) =
      if not (is_success status)
      then err (release_error http_status)
      else if ltb max_bytes (size raw)
      then err (release_error release_too_large)
      else if ltb (size raw) 1
      then err (release_error release_empty)
      else ok (version, raw, filename)

  unfoldable pub of_release : ℕ → Text → Value → Result (Text × Bytes × Text)
  unfolding pick_release_asset parse_version_from_asset version_from_tag downloaded
  of_release max_bytes prefix (obj d) =
      elim (pick_release_asset prefix (assets_of (get (codes "assets") d))) [
        | err e ↦ err e
        | ok a ↦ elim (or_tag (parse_version_from_asset a.name prefix) (get (codes "tag_name") d)) [
          | none ↦ err (release_error no_version)
          | some version ↦
              (if announces_more a.size max_bytes
                then err (release_error release_too_large)
                else downloaded max_bytes version a.name (download a.url))
        ]
      ]
  of_release max_bytes prefix null = err (release_error bad_answer)
  of_release max_bytes prefix _ = err (release_error bad_answer)

  unfoldable pub fetch_latest_release_zip : Text → ℕ → Text → Result (Text × Bytes × Text)
  unfolding of_release
  fetch_latest_release_zip repo max_bytes prefix =
      let name = rstrip_char b'/' (lstrip_char b'/' (strip repo)) in
      if not (any (λ c. c == b'/') name) then err (release_error bad_repo) else elim (latest name) [
        | none ↦ err (release_error unreachable)
        | some (status, body) ↦
            (if status == 404
              then err (release_error no_release)
              else if not (is_success status)
              then err (release_error http_status)
              else elim body [ none ↦ err json_error | some v ↦ of_release max_bytes prefix v ])
      ]
