-- ===== src/Service/Extending.antt =====
-- What `update_service_expiry` does to the database: nothing if it raises, and else the service's
-- expiry alone.
use resellerbot.Prelude.{◌≡◌, inl, inr, Option, none, some, arith, Option-cases, update}
use resellerbot.Prelude.Int.{ℤ}
use resellerbot.Prelude.Text.{Text}
use resellerbot.Errors.{Error, ok, err, Result-cases}
use resellerbot.Models.{Reseller, ClientRecord}
use resellerbot.Panel.{XuiClient, World}
use resellerbot.Repository.Clients
use resellerbot.Service.Accounts.{IsAccounted, IsAccounted-redate}
use resellerbot.Service.{update_service_expiry}

module _ (xui : XuiClient) (r : Reseller) (email : Text) (w : World xui.State)
    (add_days expiry_ms : Option ℤ) where
  abbrev after : World xui.State
  after = (update_service_expiry xui r email add_days expiry_ms w).1

  refused :
      (e : Error)
      → (update_service_expiry xui r email add_days expiry_ms w).0 ≡ err e
      → (after.db.clients ≡ w.db.clients) × (after.db.resellers ≡ w.db.resellers)
  unfolding update_service_expiry Clients.set_expiry_time
  refused e h = ground arith

  done :
      (c : ClientRecord) (ms : ℤ)
      → Clients.get_for_reseller_email r.telegram_id email w.db ≡ some c
      → (update_service_expiry xui r email add_days expiry_ms w).0 ≡ ok ms
      → (after.db.clients
          ≡ update (Clients.has_id c.id) (λ _. record c { expiry_time = ms }) w.db.clients)
        × (after.db.resellers ≡ w.db.resellers)
  unfolding update_service_expiry Clients.set_expiry_time
  done c ms found h = ground arith

  missing :
      Clients.get_for_reseller_email r.telegram_id email w.db ≡ none
      → (after.db.clients ≡ w.db.clients) × (after.db.resellers ≡ w.db.resellers)
  unfolding update_service_expiry
  missing h = ground arith

  -- Another expiry keeps the accounts of all resellers.
  pub update_service_expiry-IsAccounted :
      IsAccounted w.db.clients w.db.resellers → IsAccounted after.db.clients after.db.resellers
  update_service_expiry-IsAccounted a =
      elim (Option-cases (Clients.get_for_reseller_email r.telegram_id email w.db)) [
        | inl h ↦ rw ((missing h).0, (missing h).1) a
        | inr (c, found) ↦
            elim (Result-cases (update_service_expiry xui r email add_days expiry_ms w).0) [
              | inr (e, h) ↦ rw ((refused e h).0, (refused e h).1) a
              | inl (ms, h) ↦
                  rw ((done c ms found h).0, (done c ms found h).1)
                    (IsAccounted-redate w.db.clients w.db.resellers a
                      (Clients.owned r.telegram_id email) c found ms)
            ]
      ]
