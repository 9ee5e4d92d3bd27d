-- ===== src/Tests/Updates.antt =====
-- Runs of the updater.
use resellerbot.Prelude.{ℕ, ◌≤◌, ◌≡◌, refl, true, false, none, some, List, [], ◌∷◌, All}
use resellerbot.Prelude.Int.{pos, ltb_ℤ}
use resellerbot.Prelude.Text.{Text, codes, text_eq, strip}
use resellerbot.Errors.{ok, err, update_error, same_version}
use resellerbot.Updater.Versions.{parse_version, compare_versions}
use resellerbot.Updater.Archive.{
  Entry, normalize_zip_path, is_bot_version_path, find_bot_version_path, release_prefix, extracted,
  extract_release_zip,
}
use resellerbot.Updater.Archive.Paths.{IsInside, extract_release_zip-IsInside}
use resellerbot.Json.{Value, text, arr, obj, nil, cons, end, field}
use resellerbot.Updater.Release.{Github, fetch_latest_release_zip}
use resellerbot.Updater.Release.Sizes.{fetch_latest_release_zip-bounded}
use resellerbot.Updater.Pending.{
  Disk, Tools, version_of_entries, read_version_from_zip, result, try_update, save_pending_update,
  apply_pending_update,
}
use resellerbot.Updater.Pending.Downgrades.{apply_pending_update-NotOlder, refused_update_installed}

abbrev file : Text → Text → Entry
file name content = record { filename = name; is_dir = false; content = some content }

-- The release 1.2.0.
abbrev release : List Entry
release =
    file (codes "bot/version.py") (codes "__version__ = '1.2.0'")
    ∷ file (codes "/db\\models.py") []
    ∷ []

abbrev tools : Tools
tools = record {
  Bytes = List Entry;
  size = λ _. 10;
  open_zip = λ z. some z;
  loads = λ _. none;
  install = λ _. ok tt;
}

abbrev disk : Disk (List Entry)
disk = record { pending_zip = some release; pending_meta = none; update_result = none }

extract_release_zip-IsInside_example :
    All IsInside (codes "bot/version.py" ∷ codes "db/models.py" ∷ [])
unfolding find_bot_version_path extract_release_zip normalize_zip_path is_bot_version_path text_eq
    extracted release_prefix
extract_release_zip-IsInside_example =
    extract_release_zip-IsInside release (codes "bot/version.py" ∷ codes "db/models.py" ∷ []) refl
      refl

-- A release in a folder, with a second slash behind the folder: an absolute path is written.
escapes :
    extract_release_zip
      (file (codes "a/bot/version.py") [] ∷ file (codes "a//etc/cron.d/x") [] ∷ [])
    ≡ ok (codes "bot/version.py" ∷ codes "/etc/cron.d/x" ∷ [])
unfolding find_bot_version_path extract_release_zip normalize_zip_path is_bot_version_path text_eq
    extracted release_prefix
escapes = refl

apply_pending_update-NotOlder_example : ltb_ℤ (pos 1) (pos 0) ≡ false
unfolding apply_pending_update read_version_from_zip version_of_entries try_update
    find_bot_version_path text_eq normalize_zip_path release_prefix strip compare_versions
    parse_version extract_release_zip extracted
apply_pending_update-NotOlder_example =
    apply_pending_update-NotOlder tools (codes "1.1.9") disk
      (result tools (codes "1.1.9") true (codes "1.2.0")) (pos 1) refl refl refl

refused_update_installed_example :
    ((save_pending_update tools (codes "1.2.0") release 7 (codes "r.zip") 100 false disk).0
      ≡ err (update_error same_version))
    × ((apply_pending_update tools
          (codes "1.2.0")
          false
          (save_pending_update tools (codes "1.2.0") release 7 (codes "r.zip") 100 false disk).1).0
        ≡ some (result tools (codes "1.2.0") true (codes "1.2.0")))
unfolding read_version_from_zip version_of_entries find_bot_version_path text_eq normalize_zip_path
    release_prefix strip compare_versions parse_version extract_release_zip extracted
refused_update_installed_example =
    refused_update_installed tools (codes "1.2.0") release (codes "1.2.0") disk 7 (codes "r.zip")
      100 false refl refl refl refl

-- The release 1.2.0 on GitHub, of 10 bytes.
abbrev asset : Value
asset = obj (
    field (codes "name") (text (codes "resellerbot-1.2.0.zip"))
      (field (codes "browser_download_url") (text (codes "https://x/z")) end))

abbrev github : Github
github = record {
  Bytes = ℕ;
  size = λ n. n;
  latest = λ _. some (200, some (obj (field (codes "assets") (arr (cons asset nil)) end)));
  download = λ _. some (200, 10);
}

fetch_latest_release_zip-bounded_example : (1 ≤ 10) × (10 ≤ 100)
unfolding fetch_latest_release_zip strip text_eq
fetch_latest_release_zip-bounded_example =
    fetch_latest_release_zip-bounded github 100 (codes "owner/repo") (codes "resellerbot-")
      (codes "1.2.0") (codes "resellerbot-1.2.0.zip") 10 refl
