-- ===== src/Repository/Orders.antt =====
-- `GuestOrderRepository` of db/repository.py: the purchases of guests, with their receipts.
use resellerbot.Prelude.{
  ℕ, zero, suc, Bool, true, false, ◌&&◌, Option, none, some, List, [], ◌∷◌, ◌++◌, ◌==◌, leb, ltb,
  if◌then◌else◌, find, select, update, order_by, fresh_key, count_where,
}
use resellerbot.Prelude.Text.{Text}
use resellerbot.Errors.{Exec, ⊤, pure, gets, modify, ◌>>=◌, ◌>>◌, when_found}
use resellerbot.Models.{Db, GuestOrder, pending, approved, rejected}

abbrev pub is_pending : GuestOrder → Bool
is_pending o = elim o.status [ pending ↦ true | approved ↦ false | rejected ↦ false ]

abbrev pub is_order : ℕ → GuestOrder → Bool
is_order order_id o = o.id == order_id

abbrev pub get : ℕ → Db → Option GuestOrder
get order_id db = find (is_order order_id) db.orders

-- The commit of a changed row.
abbrev pub save : GuestOrder → Exec Db ⊤
save row = modify λ db. record db { orders = update (is_order row.id) (λ _. row) db.orders }

abbrev oldest_first : GuestOrder → GuestOrder → Bool
oldest_first a b = leb a.created_at b.created_at

-- `ORDER BY created_at DESC, id DESC`
abbrev newest_first : GuestOrder → GuestOrder → Bool
newest_first a b =
    if ltb b.created_at a.created_at then true else a.created_at == b.created_at && leb b.id a.id

abbrev first {ℓ} : {A : Type ℓ} → List A → Option A
first [] = none
first (x ∷ _) = some x

abbrev limit {ℓ} : {A : Type ℓ} → ℕ → List A → List A
limit zero xs = []
limit (suc n) [] = []
limit (suc n) (x ∷ xs) = x ∷ limit n xs

unfoldable pub create : ℕ → ℕ → Option Text → Text → Option Text → Option Text → Exec Db GuestOrder
create telegram_id plan_id username receipt_kind receipt_file_id receipt_text = do
  id ← gets (λ db. fresh_key (λ (o : GuestOrder). o.id) db.orders)
  now ← gets (λ db. db.clock)
  let row : GuestOrder = record {
    id = id;
    telegram_id = telegram_id;
    username = username;
    plan_id = plan_id;
    status = pending;
    receipt_kind = receipt_kind;
    receipt_file_id = receipt_file_id;
    receipt_text = receipt_text;
    client_record_id = none;
    reject_reason = none;
    created_at = now;
    decided_at = none;
  }
  modify (λ db. record db { orders = db.orders ++ row ∷ [] })
  pure row

unfoldable pub list_pending : Db → List GuestOrder
list_pending db = order_by oldest_first (select is_pending db.orders)

abbrev pub pending_for_plan : ℕ → GuestOrder → Bool
pending_for_plan plan_id o = o.plan_id == plan_id && is_pending o

unfoldable pub count_pending_for_plan : ℕ → Db → ℕ
count_pending_for_plan plan_id db = count_where (pending_for_plan plan_id) db.orders

unfoldable pub get_pending_for_user : ℕ → Db → Option GuestOrder
get_pending_for_user telegram_id db =
    first
      (order_by newest_first (select (λ o. o.telegram_id == telegram_id && is_pending o) db.orders))

unfoldable pub list_for_telegram_id : ℕ → ℕ → Db → List GuestOrder
list_for_telegram_id telegram_id n db =
    limit n (order_by newest_first (select (λ o. o.telegram_id == telegram_id) db.orders))

module _ (order_id : ℕ) where
  unfoldable pub mark_approved : ℕ → Exec Db (Option GuestOrder)
  mark_approved client_record_id = do
    row ← gets (get order_id)
    when_found row λ o. do
      now ← gets (λ db. db.clock)
      let o' = record o {
        status = approved;
        client_record_id = some client_record_id;
        decided_at = some now;
      }
      save o'
      pure (some o')

  unfoldable pub mark_rejected : Option Text → Exec Db (Option GuestOrder)
  mark_rejected reason = do
    row ← gets (get order_id)
    when_found row λ o. do
      now ← gets (λ db. db.clock)
      let o' = record o { status = rejected; reject_reason = reason; decided_at = some now }
      save o'
      pure (some o')
