-- ===== src/Service/Addressing.antt =====
-- Services are addressed by the reseller and the email, without the panel: which row that finds.
use resellerbot.Prelude.{ℕ, ◌≡◌, inl, inr, Option, some, List, [], ◌∷◌, find-append_some, arith}
use resellerbot.Prelude.Int.{ℤ}
use resellerbot.Prelude.Text.{Text}
use resellerbot.Errors.{Result-cases, ◌>>=◌}
use resellerbot.Models.{Reseller, ClientRecord, Float}
use resellerbot.Panel.{XuiClient, World}
use resellerbot.Repository.Resellers
use resellerbot.Repository.Clients
use resellerbot.Service.{check_create, create_service}
use resellerbot.Service.Accounts.{IsAccounted}
use resellerbot.Service.Creation.{db-check_create, check_create-room, store-clients}

-- From accounts that agree, creating a service, whatever comes of it, leaves which row an email of
-- the reseller addresses, if it addresses one.
pub create_service-keeps_owned :
    (xui : XuiClient) (r : Reseller) (volume : Float) (days : ℤ) (ids : Option (List ℕ))
    (suffix : Text) (panel_id : ℕ) (w : World xui.State) (email : Text) (old : ClientRecord)
    → IsAccounted w.db.clients w.db.resellers
    → Resellers.get r.telegram_id w.db ≡ some r
    → Clients.get_for_reseller_email r.telegram_id email w.db ≡ some old
    → Clients.get_for_reseller_email r.telegram_id email
        (create_service xui r volume days ids suffix panel_id w).1.db
      ≡ some old
unfolding create_service
create_service-keeps_owned xui r volume days ids suffix panel_id w email old a current owned =
    let same = db-check_create xui r volume days ids suffix panel_id w in
    elim (Result-cases (check_create xui r volume days ids suffix panel_id w).0) [
      | inl (new, h) ↦
          let room = check_create-room xui r volume days ids suffix panel_id w new h in
          elim (store-clients xui r volume days panel_id new
            (check_create xui r volume days ids suffix panel_id w).1 (rw same a) (rw same current)
            (omega (arith, room)) room.1) [
              | inl e ↦ rw (h, ◌>>=◌, e, same) owned
              | inr (c, e) ↦
                  rw (h, ◌>>=◌, e, same)
                    (find-append_some (Clients.owned r.telegram_id email) w.db.clients (c ∷ []) old
                      owned)
            ]
      | inr (e, h) ↦ rw (h, ◌>>=◌) (rw same owned)
    ]
