-- ===== src/Service/Deletion.antt =====
-- What `delete_service` does to the database: nothing on a missing service or a failed connection,
-- and else the row goes, and its bytes are given back or stay charged.
use resellerbot.Prelude.{
  ◌≡◌, inl, inr, ◌⊎◌, true, false, none, some, arith, Bool-cases, Option-cases, find_sound, update,
  remove,
}
use resellerbot.Prelude.Int.{ℤ, pos, ◌-ℤ◌, ltb_ℤ, max_ℤ}
use resellerbot.Prelude.Text.{Text}
use resellerbot.Errors.{Error, ok, err, Result-cases}
use resellerbot.Models.{Db, Reseller, ClientRecord, Float}
use resellerbot.Panel.{XuiClient, World}
use resellerbot.Repository.Resellers
use resellerbot.Repository.Clients
use resellerbot.Repository.Alerts
use resellerbot.Repository.Resellers.Rows.{resellers-subtract_lifetime, clients-subtract_lifetime}
use resellerbot.Service.Accounts.{IsAccounted, IsAccounted-delete, IsAccounted-refund}
use resellerbot.Service.{read_refund, drop_client, delete_service, client_traffic}

module _ (xui : XuiClient) (limit : Float) (c : ClientRecord) (email : Text)
    (w : World xui.State) where
  pub db-read_refund : (read_refund xui limit c email w).1.db ≡ w.db
  unfolding read_refund
  db-read_refund = ground arith

  pub db-drop_client : (drop_client xui email w).1.db ≡ w.db
  unfolding drop_client
  db-drop_client = ground arith

  -- The refund is the whole service or nothing.
  pub read_refund-cases :
      (refund : ℤ)
      → (read_refund xui limit c email w).0 ≡ ok refund
      → (refund ≡ c.allocated_bytes) ⊎ (refund ≡ pos 0)
  unfolding read_refund
  read_refund-cases refund h = ground arith

module _ (xui : XuiClient) (limit : Float) (r : Reseller) (email : Text) (w : World xui.State)
    (a : IsAccounted w.db.clients w.db.resellers)
    (current : Resellers.get r.telegram_id w.db ≡ some r) where
  abbrev after : World xui.State
  after = (delete_service xui limit r email w).1

  abbrev Same : Type 0
  Same = (after.db.clients ≡ w.db.clients) × (after.db.resellers ≡ w.db.resellers)

  delete-missing : Clients.get_for_reseller_email r.telegram_id email w.db ≡ none → Same
  unfolding delete_service
  delete-missing h = ground arith

  module _ (c : ClientRecord)
      (found : Clients.get_for_reseller_email r.telegram_id email w.db ≡ some c) where
    owner : c.reseller_tg_id ≡ r.telegram_id
    owner = ground (arith, find_sound (Clients.owned r.telegram_id email) w.db.clients c found)

    abbrev w1 : World xui.State
    w1 = (read_refund xui limit c email w).1

    delete-unread : (e : Error) → (read_refund xui limit c email w).0 ≡ err e → Same
    unfolding delete_service
    delete-unread e h = ground (arith, db-read_refund xui limit c email w)

    delete-undropped :
        (refund : ℤ) (e : Error)
        → (read_refund xui limit c email w).0 ≡ ok refund
        → (drop_client xui email w1).0 ≡ err e
        → Same
    unfolding delete_service
    delete-undropped refund e h d =
        ground (arith, db-read_refund xui limit c email w, db-drop_client xui limit c email w1)

    module _ (refund : ℤ) (h : (read_refund xui limit c email w).0 ≡ ok refund)
        (d : (drop_client xui email w1).0 ≡ ok tt) where
      delete-kept :
          ltb_ℤ (pos 0) refund ≡ false
          → (after.db.clients ≡ remove (Clients.has_id c.id) w.db.clients)
            × (after.db.resellers ≡ w.db.resellers)
      unfolding delete_service Alerts.clear Clients.delete
      delete-kept p =
          ground (arith, db-read_refund xui limit c email w, db-drop_client xui limit c email w1)

      delete-refunded :
          ltb_ℤ (pos 0) refund ≡ true
          → (after.db.clients ≡ remove (Clients.has_id c.id) w.db.clients)
            × (after.db.resellers
                ≡ update
                    (Resellers.is_reseller r.telegram_id)
                    (λ _. record r {
                      lifetime_allocated_bytes =
                          max_ℤ (pos 0) (r.lifetime_allocated_bytes -ℤ refund);
                    })
                    w.db.resellers)
      unfolding delete_service Alerts.clear Clients.delete
      delete-refunded p =
          let cleared : Db = (Alerts.clear r.telegram_id client_traffic (some email) w.db).1 in
          let gone : Db = record cleared {
            clients = remove (Clients.has_id c.id) cleared.clients;
          } in
          ground (
            arith,
            db-read_refund xui limit c email w,
            db-drop_client xui limit c email w1,
            resellers-subtract_lifetime r gone current refund,
            clients-subtract_lifetime r gone current refund,
          )

      kept-IsAccounted : IsAccounted after.db.clients after.db.resellers
      kept-IsAccounted = elim (Bool-cases (ltb_ℤ (pos 0) refund)) [
        | inl p ↦
            let whole : refund ≡ c.allocated_bytes =
              ground (arith, read_refund-cases xui limit c email w refund h) in
            rw ((delete-refunded p).0, (delete-refunded p).1, whole)
              (IsAccounted-refund w.db.clients w.db.resellers a r current
                (Clients.owned r.telegram_id email) c found owner)
        | inr p ↦
            rw ((delete-kept p).0, (delete-kept p).1)
              (IsAccounted-delete w.db.clients w.db.resellers a r current
                (Clients.owned r.telegram_id email) c found owner)
      ]

    found-IsAccounted : IsAccounted after.db.clients after.db.resellers
    found-IsAccounted = elim (Result-cases (read_refund xui limit c email w).0) [
      | inr (e, h) ↦ rw ((delete-unread e h).0, (delete-unread e h).1) a
      | inl (refund, h) ↦ elim (Result-cases (drop_client xui email w1).0) [
        | inr (e, d) ↦ rw ((delete-undropped refund e h d).0, (delete-undropped refund e h d).1) a
        | inl (u, d) ↦ kept-IsAccounted refund h d
      ]
    ]

  -- Deleting a service keeps the accounts of all resellers, whatever the panel answers: whether the
  -- service is missing, the connection fails, or the bytes are given back or stay charged.
  pub delete_service-IsAccounted : IsAccounted after.db.clients after.db.resellers
  delete_service-IsAccounted =
      elim (Option-cases (Clients.get_for_reseller_email r.telegram_id email w.db)) [
        | inl h ↦ rw ((delete-missing h).0, (delete-missing h).1) a
        | inr (c, found) ↦ found-IsAccounted c found
      ]
