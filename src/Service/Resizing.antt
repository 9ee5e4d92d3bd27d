-- ===== src/Service/Resizing.antt =====
-- What `add_service_traffic` and `remove_service_traffic` do to the database: nothing if a check or
-- the panel refuses, and else the service and the charge move together.
use resellerbot.Prelude.{ℕ, ◌≡◌, inl, inr, none, some, arith, Option-cases, find_sound, update}
use resellerbot.Prelude.Int.{ℤ, pos, ◌+ℤ◌, ◌-ℤ◌, ◌≤ℤ◌, ◌<ℤ◌, max_ℤ, int_laws}
use resellerbot.Prelude.Text.{Text}
use resellerbot.Errors.{Error, Result, ok, err, Result-cases}
use resellerbot.Models.{Db, Reseller, ClientRecord, Float}
use resellerbot.Panel.{XuiClient, World, Traffic}
use resellerbot.Repository.Resellers
use resellerbot.Repository.Clients
use resellerbot.Repository.Resellers.Rows.{
  resellers-add_lifetime, clients-add_lifetime, resellers-subtract_lifetime,
  clients-subtract_lifetime,
}
use resellerbot.Quota.{validate_add_traffic, validate_remove_traffic}
use resellerbot.Service.Accounts.{IsAccounted, IsAccounted-grow, IsAccounted-shrink}
use resellerbot.Service.{used_bytes, add_service_traffic, remove_service_traffic}

pub db-validate_add_traffic :
    (r : Reseller) (panel_id : ℕ) (volume : Float) (db : Db)
    → (validate_add_traffic r panel_id volume db).1 ≡ db
unfolding validate_add_traffic
db-validate_add_traffic r panel_id volume db = ground arith

pub validate_add_traffic-room :
    (r : Reseller) (panel_id : ℕ) (volume : Float) (db : Db) (b : ℤ)
    → (validate_add_traffic r panel_id volume db).0 ≡ ok b
    → (pos 0 <ℤ b) × (r.lifetime_allocated_bytes +ℤ b ≤ℤ r.quota_bytes)
unfolding validate_add_traffic
validate_add_traffic-room r panel_id volume db b h = grind int_laws

pub validate_remove_traffic-fits :
    (r : Reseller) (volume : Float) (held used b : ℤ)
    → validate_remove_traffic r volume held used ≡ ok b
    → (pos 0 <ℤ b) × (b ≤ℤ held) × (used ≤ℤ held -ℤ b)
unfolding validate_remove_traffic
validate_remove_traffic-fits r volume held used b h = grind int_laws

module _ (xui : XuiClient) (r : Reseller) (email : Text) (volume : Float) (w : World xui.State)
    (a : IsAccounted w.db.clients w.db.resellers)
    (current : Resellers.get r.telegram_id w.db ≡ some r) where
  abbrev grown : World xui.State
  grown = (add_service_traffic xui r email volume w).1

  abbrev shrunk : World xui.State
  shrunk = (remove_service_traffic xui r email volume w).1

  abbrev Same : World xui.State → Type 0
  Same after = (after.db.clients ≡ w.db.clients) × (after.db.resellers ≡ w.db.resellers)

  missing-add : Clients.get_for_reseller_email r.telegram_id email w.db ≡ none → Same grown
  unfolding add_service_traffic
  missing-add h = ground arith

  missing-remove : Clients.get_for_reseller_email r.telegram_id email w.db ≡ none → Same shrunk
  unfolding remove_service_traffic
  missing-remove h = ground arith

  module _ (c : ClientRecord)
      (found : Clients.get_for_reseller_email r.telegram_id email w.db ≡ some c) where
    owner : c.reseller_tg_id ≡ r.telegram_id
    owner = ground (arith, find_sound (Clients.owned r.telegram_id email) w.db.clients c found)

    refused-add :
        (e : Error) → (validate_add_traffic r c.panel_id volume w.db).0 ≡ err e → Same grown
    unfolding add_service_traffic
    refused-add e h = ground (arith, db-validate_add_traffic r c.panel_id volume w.db)

    module _ (b : ℤ) (valid : (validate_add_traffic r c.panel_id volume w.db).0 ≡ ok b) where
      failed-add :
          (e : Error) → (xui.add_client_traffic_bytes email b w.panel).0 ≡ err e → Same grown
      unfolding add_service_traffic
      failed-add e h = ground (arith, db-validate_add_traffic r c.panel_id volume w.db)

      done-add :
          (xui.add_client_traffic_bytes email b w.panel).0 ≡ ok tt
          → (grown.db.clients
              ≡ update
                  (Clients.has_id c.id)
                  (λ _. record c { allocated_bytes = c.allocated_bytes +ℤ b })
                  w.db.clients)
            × (grown.db.resellers
                ≡ update
                    (Resellers.is_reseller r.telegram_id)
                    (λ _. record r { lifetime_allocated_bytes = r.lifetime_allocated_bytes +ℤ b })
                    w.db.resellers)
      unfolding add_service_traffic Clients.add_allocated_bytes
      done-add h =
          let larger : Db = record w.db {
            clients =
                update (Clients.has_id c.id)
                  (λ _. record c { allocated_bytes = c.allocated_bytes +ℤ b }) w.db.clients;
          } in
          ground (
            arith,
            db-validate_add_traffic r c.panel_id volume w.db,
            resellers-add_lifetime r larger current b,
            clients-add_lifetime r larger current b,
          )

      answered-add : IsAccounted grown.db.clients grown.db.resellers
      answered-add = elim (Result-cases (xui.add_client_traffic_bytes email b w.panel).0) [
        | inr (e, h) ↦ rw ((failed-add e h).0, (failed-add e h).1) a
        | inl (u, h) ↦
            let room = validate_add_traffic-room r c.panel_id volume w.db b valid in
            rw ((done-add h).0, (done-add h).1)
              (IsAccounted-grow w.db.clients w.db.resellers a r current
                (Clients.owned r.telegram_id email) c found owner b (omega (arith, room)) room.1)
      ]

    found-add : IsAccounted grown.db.clients grown.db.resellers
    found-add = elim (Result-cases (validate_add_traffic r c.panel_id volume w.db).0) [
      | inr (e, h) ↦ rw ((refused-add e h).0, (refused-add e h).1) a
      | inl (b, h) ↦ answered-add b h
    ]

    unread-remove : (e : Error) → (xui.get_traffic email w.panel).0 ≡ err e → Same shrunk
    unfolding remove_service_traffic
    unread-remove e h = ground arith

    module _ (t : Traffic) (read : (xui.get_traffic email w.panel).0 ≡ ok t) where
      refused-remove :
          (e : Error)
          → validate_remove_traffic r volume c.allocated_bytes (used_bytes t) ≡ err e
          → Same shrunk
      unfolding remove_service_traffic
      refused-remove e h = ground arith

      module _ (b : ℤ)
          (valid : validate_remove_traffic r volume c.allocated_bytes (used_bytes t) ≡ ok b) where
        abbrev answer : Result (Unit {0}) × xui.State
        answer = xui.subtract_client_traffic_bytes email b (xui.get_traffic email w.panel).1

        failed-remove : (e : Error) → answer.0 ≡ err e → Same shrunk
        unfolding remove_service_traffic
        failed-remove e h = ground arith

        done-remove :
            answer.0 ≡ ok tt
            → (shrunk.db.clients
                ≡ update
                    (Clients.has_id c.id)
                    (λ _. record c { allocated_bytes = max_ℤ (pos 0) (c.allocated_bytes -ℤ b) })
                    w.db.clients)
              × (shrunk.db.resellers
                  ≡ update
                      (Resellers.is_reseller r.telegram_id)
                      (λ _. record r {
                        lifetime_allocated_bytes = max_ℤ (pos 0) (r.lifetime_allocated_bytes -ℤ b);
                      })
                      w.db.resellers)
        unfolding remove_service_traffic Clients.subtract_allocated_bytes
        done-remove h =
            let smaller : Db = record w.db {
              clients =
                  update (Clients.has_id c.id)
                    (λ _. record c { allocated_bytes = max_ℤ (pos 0) (c.allocated_bytes -ℤ b) })
                    w.db.clients;
            } in
            ground (
              arith,
              resellers-subtract_lifetime r smaller current b,
              clients-subtract_lifetime r smaller current b,
            )

        answered-remove : IsAccounted shrunk.db.clients shrunk.db.resellers
        answered-remove = elim (Result-cases answer.0) [
          | inr (e, h) ↦ rw ((failed-remove e h).0, (failed-remove e h).1) a
          | inl (u, h) ↦
              let fits =
                validate_remove_traffic-fits r volume c.allocated_bytes (used_bytes t) b valid in
              rw ((done-remove h).0, (done-remove h).1)
                (IsAccounted-shrink w.db.clients w.db.resellers a r current
                  (Clients.owned r.telegram_id email) c found owner b (omega (arith, fits)) fits.1)
        ]

      read-remove : IsAccounted shrunk.db.clients shrunk.db.resellers
      read-remove =
          elim (Result-cases (validate_remove_traffic r volume c.allocated_bytes (used_bytes t))) [
            | inr (e, h) ↦ rw ((refused-remove e h).0, (refused-remove e h).1) a
            | inl (b, h) ↦ answered-remove b h
          ]

    found-remove : IsAccounted shrunk.db.clients shrunk.db.resellers
    found-remove = elim (Result-cases (xui.get_traffic email w.panel).0) [
      | inr (e, h) ↦ rw ((unread-remove e h).0, (unread-remove e h).1) a
      | inl (t, h) ↦ read-remove t h
    ]

  -- Adding traffic to a service keeps the accounts of all resellers, on every path.
  pub add_service_traffic-IsAccounted : IsAccounted grown.db.clients grown.db.resellers
  add_service_traffic-IsAccounted =
      elim (Option-cases (Clients.get_for_reseller_email r.telegram_id email w.db)) [
        | inl h ↦ rw ((missing-add h).0, (missing-add h).1) a
        | inr (c, found) ↦ found-add c found
      ]

  -- Removing traffic from a service keeps the accounts of all resellers, on every path.
  pub remove_service_traffic-IsAccounted : IsAccounted shrunk.db.clients shrunk.db.resellers
  remove_service_traffic-IsAccounted =
      elim (Option-cases (Clients.get_for_reseller_email r.telegram_id email w.db)) [
        | inl h ↦ rw ((missing-remove h).0, (missing-remove h).1) a
        | inr (c, found) ↦ found-remove c found
      ]
