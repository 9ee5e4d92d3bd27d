-- ===== src/Updater/Pending/Downgrades.antt =====
-- Which versions a start of the bot installs (services/updater.py).
use resellerbot.Prelude.{
  ℕ, ◌≡◌, ◌≢◌, refl, ap, ◌∙◌, false≢true, ltb, inl, inr, Bool, true, false, ◌&&◌, Option, none,
  some, Option-cases, if◌then◌else◌,
}
use resellerbot.Prelude.Int.{ℤ, pos, ltb_ℤ}
use resellerbot.Prelude.Text.{Text}
use resellerbot.Errors.{
  Result, ok, err, Error, ⊤, Result-cases, update_error, same_version, ◌>>=◌, ◌>>◌,
}
use resellerbot.Updater.Versions.{compare_versions}
use resellerbot.Updater.Pending.{
  Disk, Tools, UpdateResult, read_version_from_zip, inspect_release_zip, save_pending_update,
  install_zip, try_update, result, finished, apply_pending_update,
}

some_inj : {A : Type 0} {a b : A} → some a ≡ some b → a ≡ b
some_inj h = cc

module _ (tools : Tools) (current : Text) where
  open tools use {Bytes, size}

  accepted :
      (b : Bool) (e : Error) (r : Result ⊤) → (if b && true then err e else r) ≡ ok tt → b ≡ false
  accepted true e r h = cc
  accepted false e r h = refl

  try_update-NotOlder :
      (zip : Bytes) (target : Text) (c : ℤ)
      → try_update tools current false zip target ≡ ok tt
      → compare_versions target current ≡ ok c
      → ltb_ℤ c (pos 0) ≡ false
  unfolding try_update
  try_update-NotOlder zip target c h e = accepted (ltb_ℤ c (pos 0)) _ _ (rw (try_update, e) at h)

  no_result :
      (r : UpdateResult) (b : Bool) → ◌≡◌ {A = Option UpdateResult} none (some r) → b ≡ false
  no_result r b h = cc

  failed-success :
      (target : Text) (r : UpdateResult)
      → some (result tools current false target) ≡ some r
      → r.success ≢ true
  failed-success target r e s = false≢true (ap (λ (x : UpdateResult). x.success) (some_inj e) ∙ s)

  finished-NotOlder :
      (zip : Bytes) (target : Text) (d : Disk Bytes) (r : UpdateResult) (c : ℤ) (t : Result ⊤)
      → try_update tools current false zip target ≡ t
      → (finished tools current target t d).0 ≡ some r
      → r.success ≡ true
      → compare_versions r.new_version current ≡ ok c
      → ltb_ℤ c (pos 0) ≡ false
  finished-NotOlder zip target d r c (ok u) h e s g =
      try_update-NotOlder zip target c h
        (ap (λ (x : UpdateResult). compare_versions x.new_version current) (some_inj e) ∙ g)
  finished-NotOlder zip target d r c (err x) h e s g = absurd (failed-success target r e s)

  -- Unless downgrades are allowed, what a start installs is not older than what runs.
  pub apply_pending_update-NotOlder :
      (d : Disk Bytes) (r : UpdateResult) (c : ℤ)
      → (apply_pending_update tools current false d).0 ≡ some r
      → r.success ≡ true
      → compare_versions r.new_version current ≡ ok c
      → ltb_ℤ c (pos 0) ≡ false
  unfolding apply_pending_update
  apply_pending_update-NotOlder d r c e s g = elim (Option-cases d.pending_zip) [
    | inl n ↦ no_result r (ltb_ℤ c (pos 0)) (rw (apply_pending_update, n) at e)
    | inr (zip, n) ↦ elim (Result-cases (read_version_from_zip tools current zip)) [
      | inl (target, v) ↦
          finished-NotOlder zip target d r c (try_update tools current false zip target) refl
            (rw (apply_pending_update, n, v) at e) s g
      | inr (x, v) ↦ absurd (failed-success current r (rw (apply_pending_update, n, v) at e) s)
    ]
  ]

  inspect-same :
      (zip : Bytes) (target : Text) (allow_downgrade : Bool)
      → read_version_from_zip tools current zip ≡ ok target
      → compare_versions target current ≡ ok (pos 0)
      → inspect_release_zip tools current allow_downgrade (some zip)
        ≡ err (update_error same_version)
  unfolding inspect_release_zip
  inspect-same zip target allow_downgrade read same = rw (inspect_release_zip, read, same) refl

  save_refused :
      (zip : Bytes) (d : Disk Bytes) (uploaded_by : ℕ) (filename : Text) (max_bytes : ℕ)
      (allow_downgrade : Bool) (e : Error)
      → ltb max_bytes (size zip) ≡ false
      → inspect_release_zip tools current allow_downgrade (some zip) ≡ err e
      → save_pending_update tools current zip uploaded_by filename max_bytes allow_downgrade d
        ≡ (err e, record d { pending_zip = some zip })
  unfolding save_pending_update
  save_refused zip d uploaded_by filename max_bytes allow_downgrade e fits refused =
      rw (save_pending_update, ◌>>=◌, ◌>>◌, fits, refused, fits) refl

  install_same :
      (zip : Bytes) (target : Text) (d : Disk Bytes) (allow_downgrade : Bool)
      → read_version_from_zip tools current zip ≡ ok target
      → compare_versions target current ≡ ok (pos 0)
      → install_zip tools current zip ≡ ok tt
      → (apply_pending_update tools current allow_downgrade (record d { pending_zip = some zip })).0
        ≡ some (result tools current true target)
  unfolding apply_pending_update try_update
  install_same zip target d allow_downgrade read same done =
      rw (apply_pending_update, read, try_update, same, done) refl

  -- An upload of the running version is refused, and installed all the same at the next start: it
  -- is stored before it is inspected, and the start only refuses older versions.
  pub refused_update_installed :
      (zip : Bytes) (target : Text) (d : Disk Bytes) (uploaded_by : ℕ) (filename : Text)
      (max_bytes : ℕ) (allow_downgrade : Bool)
      → ltb max_bytes (size zip) ≡ false
      → read_version_from_zip tools current zip ≡ ok target
      → compare_versions target current ≡ ok (pos 0)
      → install_zip tools current zip ≡ ok tt
      → ((save_pending_update tools current zip uploaded_by filename max_bytes allow_downgrade d).0
          ≡ err (update_error same_version))
        × ((apply_pending_update tools current allow_downgrade
              (save_pending_update tools current zip uploaded_by filename max_bytes allow_downgrade
                d).1).0
            ≡ some (result tools current true target))
  refused_update_installed zip target d uploaded_by filename max_bytes allow_downgrade fits read
        same done =
      let refused =
        save_refused zip d uploaded_by filename max_bytes allow_downgrade _ fits
          (inspect-same zip target allow_downgrade read same) in
      (ap (λ p. p.0) refused, rw refused (install_same zip target d allow_downgrade read same done))
