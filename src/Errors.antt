-- ===== src/Errors.antt =====
-- The exceptions that db/, services/ and xui/ raise, and the calls that may raise one. What a call
-- wrote before it raised stays written, so the state comes back beside the error too.
use resellerbot.Prelude.{
  ℕ, ◌≡◌, refl, ap, ◌⊎◌, inl, inr, Bool, true, false, Option, none, some, if◌then◌else◌,
}
use resellerbot.Prelude.Text.{Text}

-- The `ValueError`s, one for each message.
pub data ValueReason : Type 0 where
  empty_allowed empty_attach not_subset allowed_required already_assigned : ValueReason
  missing_reseller missing_assignment has_clients last_panel default_panel panel_in_use :
      ValueReason
  below_lifetime non_positive_amount empty_name no_credentials empty_token : ValueReason
  bad_url empty_url bad_scheme : ValueReason
  name_too_long non_positive_volume negative_expiry non_positive_price : ValueReason
  pending_orders : ℕ → ValueReason

-- `QuotaExceeded` of services/quota.py.
pub data QuotaReason : Type 0 where
  reseller_inactive panel_not_assigned create_forbidden volume_too_low : QuotaReason
  non_positive_bytes client_limit above_remaining above_allocated below_used : QuotaReason
  inbound_not_allowed : ℕ → QuotaReason

-- `XuiError`: those that services/reseller_service.py raises itself, those that wrap another
-- exception, and those of the panel.
pub data XuiReason : Type 0 where
  no_assignment email_taken email_on_panel not_owned no_days no_expiry : XuiReason
  negative_limit_ip client_missing no_fields too_few_bytes no_panel : XuiReason
  over_quota : QuotaReason → XuiReason
  panel_refused panel_skipped create_failed : XuiReason
  missing_credentials no_csrf unauthorized forbidden empty_response request_failed : XuiReason
  panel_message : Text → XuiReason

-- `ResellerPanelReason` of services/panel_resolve.py.
pub data PanelReason : Type 0 where
  missing inactive not_loaded not_assigned assignment_inactive : PanelReason

-- The `UpdateError`s of services/updater.py.
pub data UpdateReason : Type 0 where
  bad_version no_version_file no_version_line unsafe_path : UpdateReason
  older_version same_version zip_too_large no_zip : UpdateReason

-- The `GitHubReleaseError`s of services/github_release.py.
pub data ReleaseReason : Type 0 where
  bad_repo no_release bad_answer no_asset no_version : ReleaseReason
  release_too_large release_empty http_status unreachable : ReleaseReason

pub data Error : Type 0 where
  value_error : ValueReason → Error
  quota_exceeded : QuotaReason → Error
  xui_error : XuiReason → Error
  panel_unavailable : ℕ → PanelReason → Error
  reseller_not_found panel_not_found assignment_not_found service_not_found : Error
  set_panel_blocked service_panel_unavailable : ℕ → Error
  suffix_too_long integrity_error assertion_error : Error
  http_error json_error attribute_error : Error
  panel_connection : Error → Error
  update_error : UpdateReason → Error
  release_error : ReleaseReason → Error
  -- `int` of a float that is nan or infinite: `ValueError` and `OverflowError`.
  no_integer : Error
  bad_zip_file key_error index_error decode_error : Error

pub data Result {ℓ} (A : Type ℓ) : Type ℓ where
  ok : A → Result A
  err : Error → Result A

abbrev pub ⊤ : Type 0
⊤ = Unit

-- A coroutine over the state `S`.
abbrev pub Exec : Type 0 → Type 0 → Type 0
Exec S A = S → Result A × S

module _ {S A : Type 0} where
  abbrev pub pure : A → Exec S A
  pure a s = (ok a, s)

  abbrev pub raise : Error → Exec S A
  raise e s = (err e, s)

  abbrev pub gets : (S → A) → Exec S A
  gets f s = (ok (f s), s)

  -- A call that reads the state and may raise, and writes nothing.
  abbrev pub checks : (S → Result A) → Exec S A
  checks f s = (f s, s)

abbrev pub modify : {S : Type 0} → (S → S) → Exec S ⊤
modify f s = (ok tt, f s)

infixl 5 ◌>>=◌ ◌>>◌
abbrev pub ◌>>=◌ : {S A B : Type 0} → Exec S A → (A → Exec S B) → Exec S B
◌>>=◌ m f s = let (r, s') = m s in elim r [ ok a ↦ f a s' | err e ↦ raise e s' ]

abbrev pub ◌>>◌ : {S A B : Type 0} → Exec S A → Exec S B → Exec S B
m >> k = m >>= λ _. k

abbrev pub raise_if : {S : Type 0} → Bool → Error → Exec S ⊤
raise_if true e s = (err e, s)
raise_if false e s = (ok tt, s)

-- `if x is None: raise e`
abbrev pub or_raise : {S A : Type 0} → Option A → Error → Exec S A
or_raise none e s = (err e, s)
or_raise (some a) e s = (ok a, s)

-- `if b: m`
abbrev pub when : {S : Type 0} → Bool → Exec S ⊤ → Exec S ⊤
when true m s = m s
when false m s = (ok tt, s)

-- `if not row: return None`
abbrev pub when_found : {S A B : Type 0} → Option A → (A → Exec S (Option B)) → Exec S (Option B)
when_found none k s = (ok none, s)
when_found (some a) k s = k a s

abbrev pub is_xui_error : Error → Bool
is_xui_error (xui_error _) = true
is_xui_error _ = false

-- `except XuiError: pass`, with the value that is used then. The state is the one at the raise.
abbrev pub except_xui : {S A : Type 0} → Exec S A → A → Exec S A
except_xui m a s =
    let (r, s') = m s in
    elim r [ ok b ↦ (ok b, s') | err e ↦ (if is_xui_error e then ok a else err e, s') ]

-- `except Exception as e:`
abbrev pub except_any : {S A : Type 0} → Exec S A → (Error → Exec S A) → Exec S A
except_any m handler s = let (r, s') = m s in elim r [ ok a ↦ (ok a, s') | err e ↦ handler e s' ]

-- `except QuotaExceeded as e: raise XuiError(str(e))`
abbrev pub quota_as_xui : Error → Error
quota_as_xui (quota_exceeded q) = xui_error (over_quota q)
quota_as_xui e = e

abbrev pub reraise_quota : {S A : Type 0} → Exec S A → Exec S A
reraise_quota m s =
    let (r, s') = m s in elim r [ ok a ↦ (ok a, s') | err e ↦ (err (quota_as_xui e), s') ]

pub Result-cases {ℓ} :
    {A : Type ℓ} (r : Result A) → ((a : A) × (r ≡ ok a)) ⊎ ((e : Error) × (r ≡ err e))
Result-cases (ok a) = inl (a, refl)
Result-cases (err e) = inr (e, refl)

-- What a chain does after its first call.
module _ {S A B : Type 0} (m : Exec S A) (k : A → Exec S B) (s s' : S) where
  pub >>=-ok : (a : A) → m s ≡ (ok a, s') → (m >>= k) s ≡ k a s'
  >>=-ok a h = ap (λ p. elim p.0 [ ok a ↦ k a p.1 | err e ↦ raise e p.1 ]) h

  pub >>=-err : (e : Error) → m s ≡ (err e, s') → (m >>= k) s ≡ (err e, s')
  >>=-err e h = ap (λ p. elim p.0 [ ok a ↦ k a p.1 | err e ↦ raise e p.1 ]) h
