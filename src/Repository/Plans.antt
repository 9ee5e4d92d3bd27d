-- ===== src/Repository/Plans.antt =====
-- `PlanRepository` of db/repository.py: the plans that guests buy.
pub mod Pending
use resellerbot.Prelude.{
  ℕ, Bool, true, false, ◌&&◌, Option, none, some, List, [], ◌∷◌, ◌++◌, ◌==◌, leb, ltb,
  if◌then◌else◌, find, select, update, remove, order_by, fresh_key, length,
}
use resellerbot.Prelude.Int.{ℤ, pos, ◌+ℤ◌, ltb_ℤ, leb_ℤ}
use resellerbot.Prelude.Text.{Text, strip}
use resellerbot.Errors.{
  Exec, pure, gets, checks, modify, ◌>>=◌, ◌>>◌, raise_if, when_found, Result, ok, err, value_error,
  empty_name, name_too_long, non_positive_volume, negative_expiry, non_positive_price,
  pending_orders, ⊤,
}
use resellerbot.Models.{Db, Plan, Float}
use resellerbot.Inbounds.{is_empty}
use resellerbot.Volume.{is_non_positive}
use resellerbot.Repository.Templates.{max_template_name_len, max_order, or_default}
use resellerbot.Repository.Orders.{count_pending_for_plan}

unfoldable pub normalize_plan_name : Text → Result Text
normalize_plan_name raw =
    let name = strip raw in
    if is_empty name
    then err (value_error empty_name)
    else if ltb max_template_name_len (length name)
    then err (value_error name_too_long)
    else ok name

unfoldable pub validate_plan_params : Float → ℤ → ℤ → Result ⊤
validate_plan_params volume_gb expiry_days price_toman =
    if is_non_positive volume_gb
    then err (value_error non_positive_volume)
    else if ltb_ℤ expiry_days (pos 0)
    then err (value_error negative_expiry)
    else if leb_ℤ price_toman (pos 0)
    then err (value_error non_positive_price)
    else ok tt

-- `ORDER BY sort_order, id`
abbrev by_order : Plan → Plan → Bool
by_order a b =
    if ltb_ℤ a.sort_order b.sort_order
    then true
    else leb_ℤ a.sort_order b.sort_order && leb a.id b.id

abbrev pub is_plan : ℕ → Plan → Bool
is_plan plan_id p = p.id == plan_id

-- `session.get(Plan, plan_id)`
abbrev pub get : ℕ → Db → Option Plan
get plan_id db = find (is_plan plan_id) db.plans

unfoldable pub list_active : Db → List Plan
list_active db = order_by by_order (select (λ p. p.is_active) db.plans)

unfoldable pub list_all : Db → List Plan
list_all db = order_by by_order db.plans

unfoldable pub get_active : ℕ → Db → Option Plan
get_active plan_id db = elim (get plan_id db) [
  | none ↦ none
  | some p ↦ (if p.is_active then some p else none)
]

unfoldable pub create : Text → Float → ℤ → ℤ → Option ℤ → Exec Db Plan
create raw_name volume_gb expiry_days price_toman sort_order = do
  name ← checks (λ _. normalize_plan_name raw_name)
  checks (λ _. validate_plan_params volume_gb expiry_days price_toman)
  last ← gets (λ db. max_order (λ (p : Plan). p.sort_order) db.plans)
  id ← gets (λ db. fresh_key (λ (p : Plan). p.id) db.plans)
  let row : Plan = record {
    id = id;
    name = name;
    volume_gb = volume_gb;
    expiry_days = expiry_days;
    price_toman = price_toman;
    sort_order = or_default sort_order (last +ℤ pos 1);
    is_active = true;
  }
  modify (λ db. record db { plans = db.plans ++ row ∷ [] })
  pure row

module _ (plan_id : ℕ) where
  unfoldable pub set_active : Bool → Exec Db (Option Plan)
  set_active active = do
    row ← gets (get plan_id)
    when_found row λ p. do
      let p' = record p { is_active = active }
      modify (λ db. record db { plans = update (is_plan plan_id) (λ _. p') db.plans })
      pure (some p')

  unfoldable pub delete : Exec Db Bool
  delete = do
    row ← gets (get plan_id)
    elim row [
      | none ↦ pure false
      | some p ↦ do
        pending ← gets (count_pending_for_plan plan_id)
        raise_if (ltb 0 pending) (value_error (pending_orders pending))
        modify λ db. record db { plans = remove (is_plan plan_id) db.plans }
        pure true
    ]
