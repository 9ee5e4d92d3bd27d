-- ===== src/Repository/Plans/Pending.antt =====
-- The plan of a pending order stays in the table of plans.
use resellerbot.Prelude.{
  ℕ, ◌≡◌, ◌⊎◌, ◌∙◌, refl, ap, inl, inr, true, false, List, [], ◌∷◌, arith, ◌==◌, ltb, All, find,
  remove, count_where, is_some, Bool-cases, Option-cases,
}
use resellerbot.Models.{Db, Plan, GuestOrder}
use resellerbot.Repository.Orders
use resellerbot.Repository.Plans

find-remove_other :
    (i j : ℕ) (ps : List Plan)
    → (j == i) ≡ false
    → find (Plans.is_plan j) (remove (Plans.is_plan i) ps) ≡ find (Plans.is_plan j) ps
find-remove_other i j [] h = refl
find-remove_other i j (p ∷ ps) h = ground (arith, find-remove_other i j ps h)

-- Every pending order's plan is in the table.
abbrev pub IsOffered : List Plan → List GuestOrder → Type 0
IsOffered ps =
    All (λ o. Orders.is_pending o ≡ true → is_some (find (Plans.is_plan o.plan_id) ps) ≡ true)

IsOffered-remove :
    (i : ℕ) (ps : List Plan) (os : List GuestOrder)
    → count_where (Orders.pending_for_plan i) os ≡ 0
    → IsOffered ps os
    → IsOffered (remove (Plans.is_plan i) ps) os
IsOffered-remove i ps [] h a = tt
IsOffered-remove i ps (o ∷ os) h a = elim (Bool-cases (Orders.pending_for_plan i o)) [
  | inl e ↦ absurd (omega (arith, rw e at h))
  | inr e ↦ (
    λ t. (ap is_some (find-remove_other i o.plan_id ps (ground arith)) ∙ a.0 t),
    IsOffered-remove i ps os (rw e at h) a.1,
  )
]

-- A deletion writes nothing, or it found no pending order of the plan and removes the row.
delete-cases :
    (plan_id : ℕ) (db : Db)
    → ((Plans.delete plan_id db).1 ≡ db)
      ⊎ ((count_where (Orders.pending_for_plan plan_id) db.orders ≡ 0)
          × ((Plans.delete plan_id db).1
              ≡ record db { plans = remove (Plans.is_plan plan_id) db.plans }))
unfolding Plans.delete Orders.count_pending_for_plan
delete-cases plan_id db = elim (Option-cases (Plans.get plan_id db)) [
  | inl n ↦ inl (ground arith)
  | inr n ↦ elim (Bool-cases (ltb 0 (Orders.count_pending_for_plan plan_id db))) [
    | inl f ↦ inl (ground (arith, n.1))
    | inr f ↦ inr (ground arith, ground (arith, n.1))
  ]
]

-- Deleting a plan, whether it is refused or not, leaves every pending order with a plan that is in
-- the table.
pub delete-IsOffered :
    (plan_id : ℕ) (db : Db)
    → IsOffered db.plans db.orders
    → let db' = (Plans.delete plan_id db).1 in IsOffered db'.plans db'.orders
delete-IsOffered plan_id db a = elim (delete-cases plan_id db) [
  | inl e ↦ rw e a
  | inr (h, e) ↦ rw e (IsOffered-remove plan_id db.plans db.orders h a)
]
