-- ===== src/Updater/Pending.antt =====
-- The pending update of services/updater.py: an upload that waits for the next start.
--
-- The installation of a release (the backup, the copy of its files, pip) is a parameter, which says
-- what it raises. The rest of an update's message is left out.
pub mod Downgrades
use resellerbot.Prelude.{
  ℕ, ◌+◌, Bool, true, false, not, ◌&&◌, ◌||◌, Option, none, some, List, [], ◌∷◌, ◌++◌, ◌==◌, ltb,
  leb, if◌then◌else◌, any,
}
use resellerbot.Prelude.Int.{ℤ, pos, negsuc, ltb_ℤ}
use resellerbot.Prelude.Text.{Text, codes, strip, is_blank, starts_with, rstrip_char, member}
use resellerbot.Errors.{
  Exec, ⊤, Result, ok, err, Error, pure, raise, gets, checks, modify, ◌>>=◌, ◌>>◌, raise_if,
  update_error, no_version_line, older_version, same_version, zip_too_large, no_zip, bad_zip_file,
  key_error, index_error, decode_error, attribute_error,
}
use resellerbot.Json.{Value, null, bool, int, text, arr, obj, Fields, get}
use resellerbot.Url.Split.{split_at}
use resellerbot.Updater.Versions.{compare_versions}
use resellerbot.Updater.Archive.{
  Entry, lstrip_char, file_paths, find_bot_version_path, release_prefix, read_entry,
  extract_release_zip,
}

-- The lines of `s.splitlines()`, and an empty one between `\r` and `\n`.
abbrev is_line_break : ℕ → Bool
is_line_break c =
    (leb 10 c && leb c 13)
    || ((leb 28 c && leb c 30) || (c == 0x85 || (c == 0x2028 || c == 0x2029)))

abbrev add_first : ℕ → List Text → List Text
add_first c [] = (c ∷ []) ∷ []
add_first c (w ∷ ws) = (c ∷ w) ∷ ws

abbrev lines : Text → List Text
lines [] = [] ∷ []
lines (c ∷ s) = let rest = lines s in if is_line_break c then [] ∷ rest else add_first c rest

abbrev strip_char : ℕ → Text → Text
strip_char c s = rstrip_char c (lstrip_char c s)

abbrev after_equals : Option Text → Result Text
after_equals none = err index_error
after_equals (some s) = ok (strip_char b'\'' (strip_char b'"' (strip s)))

abbrev version_in : List Text → Result Text
version_in [] = err (update_error no_version_line)
version_in (l ∷ ls) =
    let rest = version_in ls in
    if starts_with (strip l) (codes "__version__") then after_equals (split_at b'=' l).1 else rest

unfoldable pub parse_version_from_text : Text → Result Text
parse_version_from_text s = version_in (lines s)

pub record PendingUpdateMeta : Type 0 where
  pub target_version : Text
  pub uploaded_by : ℕ
  pub filename : Text

pub record UpdateResult : Type 0 where
  pub success : Bool
  pub previous_version : Text
  pub new_version : Text

-- The files of `data_dir`.
pub record Disk (Bytes : Type 0) : Type 0 where
  pub pending_zip : Option Bytes
  pub pending_meta : Option PendingUpdateMeta
  pub update_result : Option UpdateResult

-- The environment: `zipfile` (`none` is a `BadZipFile`), `json.loads`, and the installation.
pub record Tools : Type 1 where
  pub Bytes : Type 0
  pub size : Bytes → ℕ
  pub open_zip : Bytes → Option (List Entry)
  pub loads : Text → Option Value
  pub install : List Entry → Result ⊤

-- The `version` of `RELEASE.json`: `none`, if the version file is to be read.
abbrev named_version : Option Value → Result (Option Text)
named_version none = ok none
named_version (some (obj d)) = elim (get (codes "version") d) [
  | text s ↦ ok (if is_blank s then none else some (strip s))
  | null ↦ ok none
  | bool _ ↦ ok none
  | int _ ↦ ok none
  | arr _ ↦ ok none
  | obj _ ↦ ok none
]
named_version (some null) = err attribute_error
named_version (some _) = err attribute_error

-- `zf.read(name).decode("utf-8")`
abbrev read_text : Option Entry → Result Text
read_text none = err key_error
read_text (some e) = elim e.content [ none ↦ err decode_error | some s ↦ ok s ]

module _ (tools : Tools) (current : Text) where
  open tools use {Bytes, size, open_zip, loads, install}

  abbrev json_of : Result Text → Option Value
  json_of (err e) = none
  json_of (ok s) = loads s

  abbrev release_version : Text → List Entry → Result (Option Text)
  release_version key entries =
      if member key (file_paths entries)
      then named_version (json_of (read_text (read_entry key entries)))
      else ok none

  unfoldable pub version_of_entries : List Entry → Result Text
  unfolding parse_version_from_text
  version_of_entries entries = elim (find_bot_version_path entries) [
    | err e ↦ err e
    | ok path ↦ elim (release_version (release_prefix path ++ codes "RELEASE.json") entries) [
      | err e ↦ err e
      | ok (some v) ↦ ok v
      | ok none ↦ elim (read_text (read_entry path entries)) [
        | err e ↦ err e
        | ok s ↦ parse_version_from_text s
      ]
    ]
  ]

  unfoldable pub read_version_from_zip : Bytes → Result Text
  unfolding version_of_entries
  read_version_from_zip zip = elim (open_zip zip) [
    | none ↦ err bad_zip_file
    | some entries ↦ version_of_entries entries
  ]

  abbrev pub is_zero : ℤ → Bool
  is_zero c = not (ltb_ℤ c (pos 0) || ltb_ℤ (pos 0) c)

  abbrev pub accept : Bool → Text → ℤ → Result Text
  accept allow_downgrade target cmp =
      if ltb_ℤ cmp (pos 0) && not allow_downgrade
      then err (update_error older_version)
      else if is_zero cmp
      then err (update_error same_version)
      else ok target

  unfoldable pub inspect_release_zip : Bool → Option Bytes → Result Text
  unfolding read_version_from_zip
  inspect_release_zip allow_downgrade none = err (update_error no_zip)
  inspect_release_zip allow_downgrade (some zip) = elim (read_version_from_zip zip) [
    | err e ↦ err e
    | ok target ↦ elim (compare_versions target current) [
      | err e ↦ err e
      | ok cmp ↦ accept allow_downgrade target cmp
    ]
  ]

  unfoldable pub save_pending_update :
      Bytes → ℕ → Text → ℕ → Bool → Exec (Disk Bytes) PendingUpdateMeta
  unfolding inspect_release_zip
  save_pending_update zip uploaded_by filename max_bytes allow_downgrade = do
    raise_if (ltb max_bytes (size zip)) (update_error zip_too_large)
    modify (λ d. record d { pending_zip = some zip })
    target ← checks (λ d. inspect_release_zip allow_downgrade d.pending_zip)
    let meta : PendingUpdateMeta = record {
      target_version = target;
      uploaded_by = uploaded_by;
      filename = filename;
    }
    modify (λ d. record d { pending_meta = some meta })
    pure meta

  abbrev extract_and_install : List Entry → Result ⊤
  extract_and_install entries = elim (extract_release_zip entries) [
    | err e ↦ err e
    | ok _ ↦ install entries
  ]

  abbrev pub install_zip : Bytes → Result ⊤
  install_zip zip = elim (open_zip zip) [
    | none ↦ err bad_zip_file
    | some entries ↦ extract_and_install entries
  ]

  -- The `try` block after the version was read.
  unfoldable pub try_update : Bool → Bytes → Text → Result ⊤
  try_update allow_downgrade zip target = elim (compare_versions target current) [
    | err e ↦ err e
    | ok cmp ↦
        (if ltb_ℤ cmp (pos 0) && not allow_downgrade
          then err (update_error older_version)
          else install_zip zip)
  ]

  abbrev pub result : Bool → Text → UpdateResult
  result success target = record {
    success = success;
    previous_version = current;
    new_version = target;
  }

  abbrev pub finished : Text → Result ⊤ → Disk Bytes → Option UpdateResult × Disk Bytes
  finished target (ok _) d = (
    some (result true target),
    record { pending_zip = none; pending_meta = none; update_result = some (result true target) },
  )
  finished target (err e) d =
      (some (result false target), record d { update_result = some (result false target) })

  unfoldable pub apply_pending_update : Bool → Disk Bytes → Option UpdateResult × Disk Bytes
  unfolding read_version_from_zip try_update
  apply_pending_update allow_downgrade d = elim d.pending_zip [
    | none ↦ (none, d)
    | some zip ↦ elim (read_version_from_zip zip) [
      | err e ↦ finished current (err e) d
      | ok target ↦ finished target (try_update allow_downgrade zip target) d
    ]
  ]
