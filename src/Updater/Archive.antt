-- ===== src/Updater/Archive.antt =====
-- The ZIP of a release (services/updater.py): where its files go, and its version.
--
-- The reader of ZIP files is Python's; an archive is the list of its entries, and a content that is
-- no UTF-8 is `none`. `loads` is `json.loads`.
pub mod Paths
use resellerbot.Prelude.{
  ℕ, ◌+◌, Bool, true, false, not, ◌&&◌, ◌||◌, Option, none, some, List, [], ◌∷◌, ◌++◌, ◌==◌, ltb,
  leb, if◌then◌else◌, select, any, map,
}
use resellerbot.Prelude.Text.{
  Text, codes, text_eq, strip, starts_with, rstrip_char, is_blank, member,
}
use resellerbot.Errors.{
  Result, ok, err, Error, update_error, no_version_file, no_version_line, unsafe_path, key_error,
  index_error, decode_error, attribute_error,
}
use resellerbot.Json.{Value, null, bool, int, text, arr, obj, Fields, get}
use resellerbot.Url.Split.{split_at}

pub record Entry : Type 0 where
  pub filename : Text
  pub is_dir : Bool
  pub content : Option Text

-- `s.lstrip(c)`, of one character.
abbrev pub lstrip_char : ℕ → Text → Text
lstrip_char c [] = []
lstrip_char c (a ∷ s) = let rest = lstrip_char c s in if a == c then rest else a ∷ s

-- `_normalize_zip_path`
unfoldable pub normalize_zip_path : Text → Text
normalize_zip_path name = lstrip_char b'/' (map (λ c. if c == b'\\' then b'/' else c) name)

-- `s.split("/")`
abbrev add_first : ℕ → List Text → List Text
add_first c [] = (c ∷ []) ∷ []
add_first c (w ∷ ws) = (c ∷ w) ∷ ws

abbrev pub split_slash : Text → List Text
split_slash [] = [] ∷ []
split_slash (c ∷ s) = let rest = split_slash s in if c == b'/' then [] ∷ rest else add_first c rest

-- `s.endswith(t)`
abbrev pub ends_with : Text → Text → Bool
ends_with [] t = text_eq [] t
ends_with (c ∷ s) t = if text_eq (c ∷ s) t then true else ends_with s t

abbrev pub version_path : Text
version_path = codes "bot/version.py"

-- `_is_bot_version_path`
unfoldable pub is_bot_version_path : Text → Bool
is_bot_version_path path =
    if text_eq path version_path then true else ends_with path (codes "/bot/version.py")

-- The files of an archive, by their normalised paths.
abbrev pub file_paths : List Entry → List Text
file_paths entries = map (λ e. normalize_zip_path e.filename) (select (λ e. not e.is_dir) entries)

abbrev before_text : Text → Text → Bool
before_text [] t = true
before_text (a ∷ s) [] = false
before_text (a ∷ s) (b ∷ t) = if ltb a b then true else a == b && before_text s t

-- `sorted(texts)[0]`
abbrev least : Text → List Text → Text
least s [] = s
least s (t ∷ ts) = least (if before_text s t then s else t) ts

-- `_find_bot_version_path_in_zip`
unfoldable pub find_bot_version_path : List Entry → Result Text
unfolding is_bot_version_path
find_bot_version_path entries = elim (select is_bot_version_path (file_paths entries)) [
  | [] ↦ err (update_error no_version_file)
  | s ∷ ts ↦ ok (least s ts)
]

-- `s[: -len(t)]`, of a text that ends in `t`.
abbrev pub without_end : Text → Text → Text
without_end [] t = []
without_end (c ∷ s) t = let rest = without_end s t in if text_eq (c ∷ s) t then [] else c ∷ rest

-- `_release_prefix_from_version_path`
unfoldable pub release_prefix : Text → Text
release_prefix path =
    if text_eq path version_path
    then []
    else if ends_with path (codes "/bot/version.py")
    then without_end path (codes "/bot/version.py") ++ codes "/"
    else []

-- `s[len(t):]`, of a text that starts with `t`.
abbrev pub drop_prefix : Text → Text → Text
drop_prefix s [] = s
drop_prefix [] (b ∷ t) = []
drop_prefix (a ∷ s) (b ∷ t) = drop_prefix s t

abbrev pub is_unsafe : Text → Bool
is_unsafe path = member (codes "..") (split_slash path)

abbrev is_empty_text : Text → Bool
is_empty_text [] = true
is_empty_text (c ∷ s) = false

-- The loop of `_extract_release_zip`: the paths below `dest` that are written.
unfoldable pub extracted : Text → List Text → Result (List Text)
extracted prefix [] = ok []
extracted prefix (path ∷ paths) =
    let rest = extracted prefix paths in
    if is_unsafe path
    then err (update_error unsafe_path)
    else if not (starts_with path prefix) || is_empty_text (drop_prefix path prefix)
    then rest
    else elim rest [ err e ↦ err e | ok written ↦ ok (drop_prefix path prefix ∷ written) ]

-- `_extract_release_zip`, without the search for the release in what was written.
unfoldable pub extract_release_zip : List Entry → Result (List Text)
unfolding find_bot_version_path release_prefix
extract_release_zip entries = elim (find_bot_version_path entries) [
  | err e ↦ err e
  | ok path ↦ extracted (release_prefix path) (file_paths entries)
]

-- `zf.read(name)`: the last entry of that name counts.
abbrev pub read_entry : Text → List Entry → Option Entry
read_entry name [] = none
read_entry name (e ∷ es) = elim (read_entry name es) [
  | some f ↦ some f
  | none ↦ (if text_eq e.filename name then some e else none)
]
