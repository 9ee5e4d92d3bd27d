-- ===== src/Updater/Archive/Paths.antt =====
-- Where the files of a release are written (services/updater.py).
use resellerbot.Prelude.{
  ◌≡◌, refl, subst, ap, inl, inr, Bool, true, false, not, ◌&&◌, ◌||◌, List, [], ◌∷◌, ◌==◌,
  Bool-cases, All, if◌then◌else◌, map,
}
use resellerbot.Prelude.Text.{Text, text_eq, starts_with, codes}
use resellerbot.Errors.{Result, ok, err, update_error, unsafe_path}
use resellerbot.Updater.Archive.{
  Entry, lstrip_char, normalize_zip_path, version_path, find_bot_version_path, release_prefix,
  extract_release_zip, file_paths, is_unsafe, extracted, is_empty_text, drop_prefix,
}

-- A path that stays below the directory that it is joined to: no `..`, and no slash in front.
abbrev pub IsInside : Text → Type 0
IsInside path = (is_unsafe path ≡ false) × (starts_with path (codes "/") ≡ false)

abbrev IsRelative : Text → Type 0
IsRelative path = starts_with path (codes "/") ≡ false

lstrip-IsRelative : (s : Text) → IsRelative (lstrip_char b'/' s)
lstrip-IsRelative [] = refl
lstrip-IsRelative (c ∷ s) = elim (Bool-cases (c == b'/')) [
  | inl e ↦ rw e (lstrip-IsRelative s)
  | inr e ↦ rw e (ap (λ b. b && true) e)
]

normalize_zip_path-IsRelative : (name : Text) → IsRelative (normalize_zip_path name)
unfolding normalize_zip_path
normalize_zip_path-IsRelative name =
    lstrip-IsRelative (map (λ c. if c == b'\\' then b'/' else c) name)

file_paths-IsRelative : (entries : List Entry) → All IsRelative (file_paths entries)
file_paths-IsRelative [] = tt
file_paths-IsRelative (e ∷ es) = elim (Bool-cases (not e.is_dir)) [
  | inl h ↦ rw h (normalize_zip_path-IsRelative e.filename, file_paths-IsRelative es)
  | inr h ↦ rw h (file_paths-IsRelative es)
]

abbrev AllInside : Result (List Text) → Type 0
AllInside (err e) = Unit
AllInside (ok written) = All IsInside written

add_inside :
    (p : Text) (rest : Result (List Text))
    → IsInside p
    → AllInside rest
    → AllInside (elim rest [ err e ↦ err e | ok written ↦ ok (p ∷ written) ])
add_inside p (err e) h k = tt
add_inside p (ok written) h k = (h, k)

one_more :
    (unsafe skipped : Bool) (p : Text) (rest : Result (List Text))
    → is_unsafe p ≡ unsafe
    → IsRelative p
    → AllInside rest
    → AllInside (
        if unsafe
        then err (update_error unsafe_path)
        else if skipped
        then rest
        else elim rest [ err e ↦ err e | ok written ↦ ok (p ∷ written) ])
one_more true skipped p rest e h k = tt
one_more false true p rest e h k = k
one_more false false p rest e h k = add_inside p rest (e, h) k

extracted-AllInside : (paths : List Text) → All IsRelative paths → AllInside (extracted [] paths)
unfolding extracted
extracted-AllInside [] h = tt
extracted-AllInside (p ∷ ps) h =
    one_more (is_unsafe p) (not (starts_with p []) || is_empty_text (drop_prefix p [])) p
      (extracted [] ps) refl h.0 (extracted-AllInside ps h.1)

extracted-IsInside :
    (entries : List Entry) (written : List Text)
    → extracted [] (file_paths entries) ≡ ok written
    → All IsInside written
extracted-IsInside entries written e =
    subst AllInside e (extracted-AllInside (file_paths entries) (file_paths-IsRelative entries))

-- Extracting a release that lies at the top of its archive writes only below the directory that it
-- is extracted to.
pub extract_release_zip-IsInside :
    (entries : List Entry) (written : List Text)
    → find_bot_version_path entries ≡ ok version_path
    → extract_release_zip entries ≡ ok written
    → All IsInside written
unfolding extract_release_zip release_prefix text_eq
extract_release_zip-IsInside entries written top e =
    extracted-IsInside entries written (rw (extract_release_zip, top) at e)
