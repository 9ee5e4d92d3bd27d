-- ===== src/Inbounds/Subset.antt =====
-- What the checks on inbound lists guarantee.
use resellerbot.Prelude.{ℕ, ◌≡◌, refl, ◌↔◌, ◌≢◌, true, List, [], ◌∷◌, arith, select}
use resellerbot.Errors.{ok}
use resellerbot.Inbounds.{contains, is_subset, validate_inbound_subset, trim_attach_to_allowed}

-- Every id of `xs` is one of `ys`.
abbrev pub Within : List ℕ → List ℕ → Type 0
Within xs ys = (i : ℕ) → contains xs i ≡ true → contains ys i ≡ true

pub is_subset_sound : (xs ys : List ℕ) → is_subset xs ys ≡ true → Within xs ys
is_subset_sound [] ys h i e = cc
is_subset_sound (x ∷ xs) ys h i e = ground (arith, is_subset_sound xs ys (ground arith) i)

Within-tail : (x : ℕ) (xs ys : List ℕ) → Within (x ∷ xs) ys → Within xs ys
Within-tail x xs ys h i e = h i (ground arith)

pub is_subset_complete : (xs ys : List ℕ) → Within xs ys → is_subset xs ys ≡ true
is_subset_complete [] ys h = refl
is_subset_complete (x ∷ xs) ys h =
    ground (arith, h x, is_subset_complete xs ys (Within-tail x xs ys h))

pub contains-select : (allowed xs : List ℕ) → Within (select (contains allowed) xs) allowed
contains-select allowed [] i e = cc
contains-select allowed (x ∷ xs) i e = ground (arith, contains-select allowed xs i)

-- The check passes exactly when both lists are non-empty and every attached id is allowed.
pub validate_inbound_subset_iff :
    (allowed attach : List ℕ)
    → (validate_inbound_subset allowed attach ≡ ok tt)
      ↔ ((attach ≢ []) × (allowed ≢ []) × Within attach allowed)
unfolding validate_inbound_subset
validate_inbound_subset_iff allowed [] = (λ h. cc, λ h. absurd (h.0 refl))
validate_inbound_subset_iff [] (i ∷ attach) = (λ h. cc, λ h. absurd (h.1 refl))
validate_inbound_subset_iff (j ∷ allowed) (i ∷ attach) = (
  λ h. (cc, cc, is_subset_sound (i ∷ attach) (j ∷ allowed) (ground arith)),
  λ h. ground (arith, is_subset_complete (i ∷ attach) (j ∷ allowed) h.2),
)

-- A trimmed list holds allowed ids alone.
pub trim_attach-Within :
    (allowed attach : List ℕ) → Within (trim_attach_to_allowed allowed attach) allowed
unfolding trim_attach_to_allowed
trim_attach-Within allowed attach i e = ground (arith, contains-select allowed attach i)
