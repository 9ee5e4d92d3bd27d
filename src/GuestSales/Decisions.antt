-- ===== src/GuestSales/Decisions.antt =====
-- The life of a guest's order: pending, and then decided once.
use resellerbot.Prelude.{
  ℕ, ◌≡◌, ◌⊎◌, refl, sym, subst, [], ◌∷◌, inl, inr, Bool, true, false, some, List, arith,
  Option-cases, Bool-cases, find_sound, ==_iff, find, update, ◌==◌,
}
use resellerbot.Errors.{Exec, Result, Result-cases, ok}
use resellerbot.Panel.{ClientDelivery}
use resellerbot.Models.{Db, Plan, GuestOrder, ClientRecord, approved}
use resellerbot.Registry.{Site, Network}
use resellerbot.Repository.Orders
use resellerbot.Repository.GuestConfig
use resellerbot.Repository.Plans
use resellerbot.GuestSales.{
  guest_order_approve, approve_order, configured_panel, deliver_guest_order, decide, order_approved,
  Decision,
}
use resellerbot.GuestSales.Frames.{orders-deliver}

pub orders-config : (db : Db) → (GuestConfig.get_or_create db).1.orders ≡ db.orders
unfolding GuestConfig.get_or_create
orders-config db = ground arith

-- Writing a row leaves the rows of other ids.
pub find-update_other :
    (id : ℕ) (row : GuestOrder) (os : List GuestOrder)
    → (row.id == id) ≡ false
    → find (Orders.is_order id) (update (Orders.is_order row.id) (λ _. row) os)
      ≡ find (Orders.is_order id) os
find-update_other id row [] h = refl
find-update_other id row (o ∷ os) h = ground (arith, find-update_other id row os h)

pub find-update_here :
    (row o : GuestOrder) (os : List GuestOrder)
    → find (Orders.is_order row.id) os ≡ some o
    → find (Orders.is_order row.id) (update (Orders.is_order row.id) (λ _. row) os) ≡ some row
find-update_here row o [] h = cc
find-update_here row o (p ∷ os) h = ground (arith, find-update_here row o os)

abbrev pub is_approval : Result Decision → Bool
is_approval (ok (order_approved _)) = true
is_approval _ = false

-- The row of an approved order.
abbrev pub approved_row : GuestOrder → ℕ → ℕ → GuestOrder
approved_row o client_record_id now = record o {
  status = approved;
  client_record_id = some client_record_id;
  decided_at = some now;
}

-- The table after a decision on `o`: written by the decision alone.
abbrev IsDecided : GuestOrder → Exec Site Decision → Site → Type 0
IsDecided o m s =
    ((is_approval (m s).0 ≡ false) × ((m s).1.db.orders ≡ s.db.orders))
    ⊎ ((c : ClientRecord) × (now : ℕ) × ((m s).0 ≡ ok (order_approved c))
        × ((m s).1.db.orders
            ≡ update (Orders.is_order o.id) (λ _. approved_row o c.id now) s.db.orders))

decide-IsDecided :
    (o : GuestOrder) (deliver : Exec Site (ClientRecord × ClientDelivery)) (s : Site)
    → (deliver s).1.db.orders ≡ s.db.orders
    → Orders.get o.id s.db ≡ some o
    → IsDecided o (decide o deliver) s
unfolding decide Orders.mark_approved
decide-IsDecided o deliver s frame found = elim (Result-cases (deliver s).0) [
  | inl (p, e) ↦ inr (p.0, (deliver s).1.db.clock, ground arith, ground arith)
  | inr (x, e) ↦ inl (ground arith, ground arith)
]

-- An approval that did not deliver writes no order; one that did found the order pending.
abbrev HasOutcome : Network → ℕ → Site → Type 0
HasOutcome net id s =
    let (r, s') = guest_order_approve net id s in
    ((is_approval r ≡ false) × (s'.db.orders ≡ s.db.orders))
    ⊎ ((o : GuestOrder) × (c : ClientRecord) × (now : ℕ) × (Orders.get id s.db ≡ some o)
        × (Orders.is_pending o ≡ true)
        × (r ≡ ok (order_approved c))
        × (s'.db.orders ≡ update (Orders.is_order o.id) (λ _. approved_row o c.id now) s.db.orders))

pub get-id : (id : ℕ) (o : GuestOrder) (db : Db) → Orders.get id db ≡ some o → o.id ≡ id
get-id id o db h = (==_iff o.id id).0 (find_sound (Orders.is_order id) db.orders o h)

pub get-own :
    (id : ℕ) (o : GuestOrder) (db : Db) → Orders.get id db ≡ some o → Orders.get o.id db ≡ some o
get-own id o db h =
    subst (λ i. Orders.get i db ≡ some o) {x = id} {y = o.id} (sym (get-id id o db h)) h

module _ (net : Network) where
  order-IsDecided :
      (o : GuestOrder) (plan : Plan) (s : Site)
      → Orders.get o.id s.db ≡ some o
      → IsDecided o (approve_order net o plan) s
  unfolding approve_order
  order-IsDecided o plan s found =
      let (r, db') = GuestConfig.get_or_create s.db in
      let s' : Site = record s { db = db' } in
      elim (Result-cases r) [
        | inr (e, h) ↦ inl (ground (arith, orders-config s.db), ground (arith, orders-config s.db))
        | inl (c, h) ↦ elim (Option-cases (configured_panel c)) [
          | inl f ↦ inl (ground (arith, orders-config s.db), ground (arith, orders-config s.db))
          | inr (p, f) ↦
              elim (decide-IsDecided o (deliver_guest_order net o plan c) s'
                (orders-deliver net o plan c s') (rw (orders-config s.db) found)) [
                  | inl g ↦ inl (ground (arith, g.0), ground (arith, g.1, orders-config s.db))
                  | inr (k, now, g, g') ↦
                      inr (k, now, ground (arith, g), ground (arith, g', orders-config s.db))
                ]
        ]
      ]

  pub approve-HasOutcome : (id : ℕ) (s : Site) → HasOutcome net id s
  unfolding guest_order_approve
  approve-HasOutcome id s = elim (Option-cases (Orders.get id s.db)) [
    | inl e ↦ inl (ground arith, ground arith)
    | inr (o, e) ↦ elim (Bool-cases (Orders.is_pending o)) [
      | inr f ↦ inl (ground arith, ground arith)
      | inl t ↦ elim (Option-cases (Plans.get o.plan_id s.db)) [
        | inl f ↦ inl (ground arith, ground arith)
        | inr (plan, f) ↦ elim (order-IsDecided o plan s (get-own id o s.db e)) [
          | inl g ↦ inl (ground (arith, g.0, g.1), ground (arith, g.0, g.1))
          | inr (c, now, g, g') ↦ inr (o, c, now, e, t, ground (arith, g), ground (arith, g'))
        ]
      ]
    ]
  ]
