-- ===== src/Inbounds.antt =====
-- Allowed and attached inbound ids: the helpers at the top of db/repository.py.
pub mod Subset
use resellerbot.Prelude.{
  ℕ, Bool, true, false, not, ◌&&◌, ◌||◌, Option, none, some, List, [], ◌∷◌, ◌==◌, if◌then◌else◌,
  select,
}
use resellerbot.Errors.{Result, ok, err, value_error, empty_allowed, empty_attach, not_subset, ⊤}
use resellerbot.Models.{Reseller, ResellerPanel}

-- `i in set(ids)`
abbrev pub contains : List ℕ → ℕ → Bool
contains [] i = false
contains (j ∷ ids) i = if i == j then true else contains ids i

-- `set(xs) - set(ys)` is empty.
abbrev pub is_subset : List ℕ → List ℕ → Bool
is_subset [] ys = true
is_subset (x ∷ xs) ys = contains ys x && is_subset xs ys

-- `not xs`
abbrev pub is_empty : List ℕ → Bool
is_empty [] = true
is_empty (_ ∷ _) = false

-- `set(xs) != set(ys)`
unfoldable pub differs : List ℕ → List ℕ → Bool
differs xs ys = not (is_subset xs ys && is_subset ys xs)

abbrev pub inbound_ids_from_json : Option (List ℕ) → List ℕ
inbound_ids_from_json none = []
inbound_ids_from_json (some ids) = ids

-- `attach or allowed`
abbrev pub resolve : List ℕ → List ℕ → List ℕ
resolve [] allowed = allowed
resolve (i ∷ ids) allowed = i ∷ ids

unfoldable pub resolve_attach_inbound_ids : Reseller → List ℕ
resolve_attach_inbound_ids r =
    resolve (inbound_ids_from_json r.attach_inbound_ids) r.allowed_inbound_ids

unfoldable pub resolve_attach_inbound_ids_for_assignment : ResellerPanel → List ℕ
resolve_attach_inbound_ids_for_assignment a =
    resolve (inbound_ids_from_json a.attach_inbound_ids) a.allowed_inbound_ids

unfoldable pub validate_inbound_subset : List ℕ → List ℕ → Result ⊤
validate_inbound_subset allowed attach =
    if is_empty attach
    then err (value_error empty_attach)
    else if is_empty allowed
    then err (value_error empty_allowed)
    else if is_subset attach allowed
    then ok tt
    else err (value_error not_subset)

unfoldable pub trim_attach_to_allowed : List ℕ → List ℕ → List ℕ
trim_attach_to_allowed allowed attach = resolve (select (contains allowed) attach) allowed
