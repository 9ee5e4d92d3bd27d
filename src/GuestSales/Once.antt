-- ===== src/GuestSales/Once.antt =====
-- Histories of guest orders: they are placed, approved and refused in any order, by several admins.
use resellerbot.Prelude.{
  ℕ, ◌≡◌, ◌∙◌, ap, ==_iff, inl, inr, true, false, Option, none, some, arith, sym, subst, false≢true,
  Option-cases, Bool-cases, find-append_some, find, update, ◌==◌,
}
use mathlib.Core.Option.{some-injective}
use resellerbot.Prelude.Text.{Text}
use resellerbot.Errors.{ok}
use resellerbot.Models.{rejected, GuestOrder, ClientRecord}
use resellerbot.Registry.{Site, Network}
use resellerbot.Repository.Orders
use resellerbot.GuestSales.{guest_order_approve, guest_order_reject, order_approved}
use resellerbot.GuestSales.Decisions.{
  approve-HasOutcome, approved_row, is_approval, find-update_other, find-update_here, get-id,
  get-own,
}

abbrev rejected_row : GuestOrder → ℕ → GuestOrder
rejected_row o now = record o { status = rejected; reject_reason = none; decided_at = some now }

pub data Step (net : Network) (s s' : Site) : Type 0 where
  placed :
      (telegram_id plan_id : ℕ) (username : Option Text) (kind : Text) (file text : Option Text)
      → s'.db.orders ≡ (Orders.create telegram_id plan_id username kind file text s.db).1.orders
      → Step net s s'
  approve : (id : ℕ) → s' ≡ (guest_order_approve net id s).1 → Step net s s'
  reject : (id : ℕ) → s' ≡ (guest_order_reject net id s).1 → Step net s s'

pub data Reach (net : Network) (s : Site) : Site → Type 0 where
  here : Reach net s s
  next : {m s' : Site} → Reach net s m → Step net m s' → Reach net s s'

-- A pending order is another one than a decided order.
other :
    (id : ℕ) (o p : GuestOrder) (s : Site)
    → Orders.get id s.db ≡ some o
    → Orders.is_pending o ≡ false
    → Orders.get p.id s.db ≡ some p
    → Orders.is_pending p ≡ true
    → (p.id == id) ≡ false
other id o p s h d g t = elim (Bool-cases (p.id == id)) [
  | inr f ↦ f
  | inl f ↦
      same p o t d
        (some-injective p o (sym g ∙ ap (λ i. Orders.get i s.db) ((==_iff p.id id).0 f) ∙ h))
]
  where
    same :
        (p o : GuestOrder)
        → Orders.is_pending p ≡ true
        → Orders.is_pending o ≡ false
        → p ≡ o
        → (p.id == id) ≡ false
    same p o t d e = absurd (false≢true (sym d ∙ ap Orders.is_pending (sym e) ∙ t))

module _ (net : Network) (id : ℕ) (o : GuestOrder) (d : Orders.is_pending o ≡ false) where
  step-stays :
      (s s' : Site) → Step net s s' → Orders.get id s.db ≡ some o → Orders.get id s'.db ≡ some o
  unfolding Orders.create guest_order_reject Orders.mark_rejected
  step-stays s s' (placed tg plan_id username kind file text e) h =
      rw e (find-append_some (Orders.is_order id) s.db.orders _ o h)
  step-stays s s' (approve i e) h = elim (approve-HasOutcome net i s) [
    | inl g ↦ rw (e, g.1) h
    | inr (p, c, now, g, t, k, w) ↦
        rw (e, w)
          (find-update_other id (approved_row p c.id now) s.db.orders
              (other id o p s h d (get-own i p s.db g) t)
            ∙ h)
  ]
  step-stays s s' (reject i e) h = elim (Option-cases (Orders.get i s.db)) [
    | inl f ↦ rw e (ground arith)
    | inr (p, f) ↦ elim (Bool-cases (Orders.is_pending p)) [
      | inr t ↦ rw e (ground arith)
      | inl t ↦ rw e (
          ground (
            arith,
            get-own i p s.db f,
            find-update_other id (rejected_row p s.db.clock) s.db.orders
                (other id o p s h d (get-own i p s.db f) t),
          ))
    ]
  ]

-- Once an order is approved or rejected, its row stays as it is: in every history of placed orders,
-- approvals and rejections, a second decision on it changes nothing.
pub decided_orders_stay :
    (net : Network) (id : ℕ) (o : GuestOrder) (s s' : Site)
    → Reach net s s'
    → Orders.get id s.db ≡ some o
    → Orders.is_pending o ≡ false
    → Orders.get id s'.db ≡ some o
decided_orders_stay net id o s _ here h d = h
decided_orders_stay net id o s s' (next {m} r t) h d =
    step-stays net id o d m s' t (decided_orders_stay net id o s m r h d)

-- An approval that reports a delivered service found the order pending, and leaves it approved with
-- the key of that service.
pub guest_order_approve-marks :
    (net : Network) (id : ℕ) (s : Site) (c : ClientRecord)
    → (guest_order_approve net id s).0 ≡ ok (order_approved c)
    → (o : GuestOrder) × (now : ℕ) × (Orders.get id s.db ≡ some o)
      × (Orders.is_pending o ≡ true)
      × (Orders.get id (guest_order_approve net id s).1.db ≡ some (approved_row o c.id now))
guest_order_approve-marks net id s c e = elim (approve-HasOutcome net id s) [
  | inl g ↦ absurd (false≢true (sym g.0 ∙ ap is_approval e))
  | inr (o, c', now, g, t, k, w) ↦
      let same : c' ≡ c = cc in
      let wrote = find-update_here (approved_row o c'.id now) o s.db.orders (get-own id o s.db g) in
      let marked : Orders.get id (guest_order_approve net id s).1.db
          ≡ some (approved_row o c'.id now) =
        rw w (
          subst
            (λ i.
              find (Orders.is_order i)
                (update (Orders.is_order o.id) (λ _. approved_row o c'.id now) s.db.orders)
              ≡ some (approved_row o c'.id now))
            {x = o.id} {y = id} (get-id id o s.db g) wrote) in
      (o, now, g, t, marked ∙ ap (λ (k : ClientRecord). some (approved_row o k.id now)) same)
]
