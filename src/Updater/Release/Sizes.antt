-- ===== src/Updater/Release/Sizes.antt =====
-- What `fetch_latest_release_zip` (services/github_release.py) returns.
use resellerbot.Prelude.{
  ℕ, ◌≤◌, ◌≡◌, refl, subst, inl, inr, Bool, true, false, not, Option, none, some, ◌==◌, ltb,
  if◌then◌else◌, any, arith,
}
use resellerbot.Prelude.Text.{Text, codes, strip, rstrip_char}
use resellerbot.Errors.{Result, ok, err, Error, Result-cases}
use resellerbot.Json.{Value, null, bool, int, text, arr, obj, get}
use resellerbot.Updater.Archive.{lstrip_char}
use resellerbot.Updater.Release.{
  Github, Asset, pick_release_asset, is_success, assets_of, announces_more, downloaded, of_release,
  fetch_latest_release_zip,
}

module _ (github : Github) (max_bytes : ℕ) where
  open github use {Bytes, size, latest, download}

  -- A download that is not empty and within the limit, if there is one.
  abbrev IsBounded : Result (Text × Bytes × Text) → Type 0
  IsBounded (ok r) = (1 ≤ size r.1) × (size r.1 ≤ max_bytes)
  IsBounded (err e) = Unit

  if-IsBounded :
      (b : Bool) (e : Error) (r : Result (Text × Bytes × Text))
      → IsBounded r
      → IsBounded (if b then err e else r)
  if-IsBounded true e r h = tt
  if-IsBounded false e r h = h

  in_limits :
      (raw : Bytes) (version filename : Text) (more less : Bool) (e d : Error)
      → ltb max_bytes (size raw) ≡ more
      → ltb (size raw) 1 ≡ less
      → IsBounded (if more then err e else if less then err d else ok (version, raw, filename))
  in_limits raw version filename true less e d h k = tt
  in_limits raw version filename false true e d h k = tt
  in_limits raw version filename false false e d h k = (ground arith, ground arith)

  downloaded-IsBounded :
      (version filename : Text) (answer : Option (ℕ × Bytes))
      → IsBounded (downloaded github max_bytes version filename answer)
  unfolding downloaded
  downloaded-IsBounded version filename none = tt
  downloaded-IsBounded version filename (some (status, raw)) =
      if-IsBounded (not (is_success status)) _ _ (in_limits raw version filename _ _ _ _ refl refl)

  with_version :
      (a : Asset) (version : Option Text) (e d : Error)
      → IsBounded (elim version [
        | none ↦ err e
        | some v ↦
            (if announces_more a.size max_bytes
              then err d
              else downloaded github max_bytes v a.name (download a.url))
      ])
  with_version a none e d = tt
  with_version a (some v) e d =
      if-IsBounded (announces_more a.size max_bytes) d _
        (downloaded-IsBounded v a.name (download a.url))

  of_release-IsBounded :
      (prefix : Text) (v : Value) → IsBounded (of_release github max_bytes prefix v)
  unfolding of_release
  of_release-IsBounded prefix (obj d) =
      elim (Result-cases (pick_release_asset prefix (assets_of (get (codes "assets") d)))) [
        | inl (a, h) ↦ rw (of_release, h) (with_version a _ _ _)
        | inr (e, h) ↦ rw (of_release, h) tt
      ]
  of_release-IsBounded prefix null = tt
  of_release-IsBounded prefix (bool b) = tt
  of_release-IsBounded prefix (int n) = tt
  of_release-IsBounded prefix (text s) = tt
  of_release-IsBounded prefix (arr vs) = tt

  known_answer :
      (prefix : Text) (body : Option Value) (e : Error)
      → IsBounded (elim body [ none ↦ err e | some v ↦ of_release github max_bytes prefix v ])
  known_answer prefix none e = tt
  known_answer prefix (some v) e = of_release-IsBounded prefix v

  of_answer :
      (prefix : Text) (answer : Option (ℕ × Option Value)) (a b c d : Error)
      → IsBounded (elim answer [
        | none ↦ err a
        | some (status, body) ↦
            (if status == 404
              then err b
              else if not (is_success status)
              then err c
              else elim body [ none ↦ err d | some v ↦ of_release github max_bytes prefix v ])
      ])
  of_answer prefix none a b c d = tt
  of_answer prefix (some (status, body)) a b c d =
      if-IsBounded (status == 404) b _
        (if-IsBounded (not (is_success status)) c _ (known_answer prefix body d))

  fetch-IsBounded :
      (repo prefix : Text) → IsBounded (fetch_latest_release_zip github repo max_bytes prefix)
  unfolding fetch_latest_release_zip
  fetch-IsBounded repo prefix =
      if-IsBounded (not (any (λ c. c == b'/') (rstrip_char b'/' (lstrip_char b'/' (strip repo))))) _
        _ (of_answer prefix (latest (rstrip_char b'/' (lstrip_char b'/' (strip repo)))) _ _ _ _)

  -- A release that is fetched is not empty and not larger than the limit, whatever size its entry
  -- announces.
  pub fetch_latest_release_zip-bounded :
      (repo prefix version filename : Text) (raw : Bytes)
      → fetch_latest_release_zip github repo max_bytes prefix ≡ ok (version, raw, filename)
      → (1 ≤ size raw) × (size raw ≤ max_bytes)
  fetch_latest_release_zip-bounded repo prefix version filename raw h =
      subst IsBounded h (fetch-IsBounded repo prefix)
