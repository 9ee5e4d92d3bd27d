-- ===== src/Service/Creation.antt =====
-- What `create_service` does to the database: the checks write nothing, a refused creation is taken
-- back, and a finished one is charged.
use resellerbot.Prelude.{
  ℕ, ◌≡◌, refl, ◌⊎◌, inl, inr, true, false, Option, none, some, List, [], ◌∷◌, ◌++◌, arith, ◌==◌,
  if◌then◌else◌, Bool-cases, update, fresh_key,
}
use resellerbot.Prelude.Int.{ℤ, pos, ◌+ℤ◌, ◌≤ℤ◌, ◌<ℤ◌, int_laws}
use resellerbot.Prelude.Text.{Text}
use resellerbot.Errors.{Result, ok, err, ◌>>=◌}
use resellerbot.Models.{Db, Reseller, ClientRecord, Float}
use resellerbot.Quota.{validate_create}
use resellerbot.Panel.{XuiClient, World, ClientDelivery}
use resellerbot.Repository.Resellers
use resellerbot.Prelude.{All, any}
use resellerbot.Repository.Resellers.Rows.{resellers-add_lifetime, clients-add_lifetime}
use resellerbot.Errors.{Error, Result-cases}
use resellerbot.Labels.{panel_group_name}
use resellerbot.Repository.Clients
use resellerbot.Repository.Clients.Active.{key, fresh_key-Fresh, remove-append, update-append}
use resellerbot.Service.Accounts.{IsAccounted, IsAccounted-create}
use resellerbot.Service.{NewService, check_create, store_service, create_service}

pub db-validate_create :
    (r : Reseller) (panel_id : ℕ) (volume : Float) (ids : List ℕ) (db : Db)
    → (validate_create r panel_id volume ids db).1 ≡ db
unfolding validate_create
db-validate_create r panel_id volume ids db = ground arith

pub validate_create-room :
    (r : Reseller) (panel_id : ℕ) (volume : Float) (ids : List ℕ) (db : Db) (b : ℤ)
    → (validate_create r panel_id volume ids db).0 ≡ ok b
    → (pos 0 <ℤ b) × (r.lifetime_allocated_bytes +ℤ b ≤ℤ r.quota_bytes)
unfolding validate_create
validate_create-room r panel_id volume ids db b h = grind int_laws

module _ (xui : XuiClient) (r : Reseller) (volume : Float) (days : ℤ) (ids : Option (List ℕ))
    (suffix : Text) (panel_id : ℕ) (w : World xui.State) where
  pub db-check_create : (check_create xui r volume days ids suffix panel_id w).1.db ≡ w.db
  unfolding check_create
  db-check_create = grind (arith, db-validate_create)

-- The row that `create_service` writes first.
abbrev new_row : Reseller → ℕ → NewService → Db → ClientRecord
new_row r panel_id new db = record {
  id = fresh_key key db.clients;
  reseller_tg_id = r.telegram_id;
  panel_id = panel_id;
  email = new.email;
  sub_id = none;
  inbound_ids = new.ids;
  allocated_bytes = new.allocated;
  expiry_time = new.expiry_ms;
  created_at = db.clock;
}

module _ (xui : XuiClient) (r : Reseller) (volume : Float) (days : ℤ) (panel_id : ℕ)
    (new : NewService) (w : World xui.State) (a : IsAccounted w.db.clients w.db.resellers)
    (current : Resellers.get r.telegram_id w.db ≡ some r) (size : pos 0 ≤ℤ new.allocated)
    (room : r.lifetime_allocated_bytes +ℤ new.allocated ≤ℤ r.quota_bytes) where
  row : ClientRecord
  row = new_row r panel_id new w.db

  row-Fresh : All (λ (d : ClientRecord). (d.id == row.id) ≡ false) w.db.clients
  unfolding row
  row-Fresh = fresh_key-Fresh w.db.clients

  group : Text
  group = if xui.auto_reseller_group then panel_group_name r else []

  -- What the panel answers to the creation, and to the request for the links after it.
  answer : Result Text × xui.State
  unfolding row group
  answer = xui.create_client new.email volume new.ids days group w.panel

  links : Text → Result ClientDelivery × xui.State
  unfolding answer
  links sub_id = xui.get_client_delivery new.email (some sub_id) new.allocated answer.1

  abbrev after : World xui.State
  after = (store_service xui r volume days panel_id new w).1

  -- The panel refused the client.
  store-refused :
      (e : Error)
      → answer.0 ≡ err e
      → (after.db.clients ≡ w.db.clients) × (after.db.resellers ≡ w.db.resellers)
  unfolding store_service answer Clients.add Clients.delete
  store-refused e h = ground (arith, remove-append w.db.clients row row-Fresh)

  -- The panel made the client and then failed to give its links.
  store-undone :
      (s : Text) (e : Error)
      → answer.0 ≡ ok s
      → (links s).0 ≡ err e
      → (after.db.clients ≡ w.db.clients) × (after.db.resellers ≡ w.db.resellers)
  unfolding store_service links Clients.add Clients.delete
  store-undone s e h l = ground (
    arith,
    remove-append w.db.clients row row-Fresh,
    update-append w.db.clients row (record row { sub_id = some s }) row-Fresh,
    remove-append w.db.clients (record row { sub_id = some s }) row-Fresh,
  )

  -- The email is in the table already.
  store-taken :
      any (Clients.on_panel panel_id new.email) w.db.clients ≡ true
      → (after.db.clients ≡ w.db.clients) × (after.db.resellers ≡ w.db.resellers)
  unfolding store_service Clients.add
  store-taken h = ground arith

  charged_row : Text → ClientRecord
  unfolding row
  charged_row s = record row { sub_id = some s }

  store-done :
      (s : Text) (d : ClientDelivery)
      → any (Clients.on_panel panel_id new.email) w.db.clients ≡ false
      → answer.0 ≡ ok s
      → (links s).0 ≡ ok d
      → (after.db.clients ≡ w.db.clients ++ charged_row s ∷ [])
        × (after.db.resellers
            ≡ update
                (Resellers.is_reseller r.telegram_id)
                (λ _. record r {
                  lifetime_allocated_bytes = r.lifetime_allocated_bytes +ℤ new.allocated;
                })
                w.db.resellers)
  unfolding store_service links Clients.add charged_row
  store-done s d t h l =
      let stored : Db = record w.db { clients = w.db.clients ++ charged_row s ∷ [] } in
      ground (
        arith,
        update-append w.db.clients row (record row { sub_id = some s }) row-Fresh,
        resellers-add_lifetime r stored current new.allocated,
        clients-add_lifetime r stored current new.allocated,
      )

  -- The table of services gets one row at its end, or stays.
  pub store-clients :
      (after.db.clients ≡ w.db.clients)
      ⊎ ((c : ClientRecord) × (after.db.clients ≡ w.db.clients ++ c ∷ []))
  store-clients = elim (Bool-cases (any (Clients.on_panel panel_id new.email) w.db.clients)) [
    | inl t ↦ inl (store-taken t).0
    | inr t ↦ elim (Result-cases answer.0) [
      | inr (e, h) ↦ inl (store-refused e h).0
      | inl (s, h) ↦ elim (Result-cases (links s).0) [
        | inr (e, l) ↦ inl (store-undone s e h l).0
        | inl (d, l) ↦ inr (charged_row s, (store-done s d t h l).0)
      ]
    ]
  ]

  IsAccounted-same :
      (after.db.clients ≡ w.db.clients) × (after.db.resellers ≡ w.db.resellers)
      → IsAccounted after.db.clients after.db.resellers
  IsAccounted-same h = rw (h.0, h.1) a

  -- Whatever the panel answers, the accounts agree after the rest of `create_service`.
  pub store_service-IsAccounted : IsAccounted after.db.clients after.db.resellers
  unfolding charged_row
  store_service-IsAccounted =
      elim (Bool-cases (any (Clients.on_panel panel_id new.email) w.db.clients)) [
        | inl t ↦ IsAccounted-same (store-taken t)
        | inr t ↦ elim (Result-cases answer.0) [
          | inr (e, h) ↦ IsAccounted-same (store-refused e h)
          | inl (s, h) ↦ elim (Result-cases (links s).0) [
            | inr (e, l) ↦ IsAccounted-same (store-undone s e h l)
            | inl (d, l) ↦
                rw ((store-done s d t h l).0, (store-done s d t h l).1)
                  (IsAccounted-create w.db.clients w.db.resellers a r current (charged_row s) refl
                    refl size room)
          ]
        ]
      ]

module _ (xui : XuiClient) (r : Reseller) (volume : Float) (days : ℤ) (ids : Option (List ℕ))
    (suffix : Text) (panel_id : ℕ) (w : World xui.State) where
  validated :
      (new : NewService)
      → (check_create xui r volume days ids suffix panel_id w).0 ≡ ok new
      → (validate_create r panel_id volume new.ids w.db).0 ≡ ok new.allocated
  unfolding check_create
  validated new h = ground arith

  -- What the checks let through is positive, and fits into the quota.
  pub check_create-room :
      (new : NewService)
      → (check_create xui r volume days ids suffix panel_id w).0 ≡ ok new
      → (pos 0 <ℤ new.allocated) × (r.lifetime_allocated_bytes +ℤ new.allocated ≤ℤ r.quota_bytes)
  check_create-room new h =
      validate_create-room r panel_id volume new.ids w.db new.allocated (validated new h)

  -- Creating a service, whether it succeeds or is refused by a check, the table or the panel, keeps
  -- the accounts of all resellers: ids unique, sizes not negative, and held ≤ charged ≤ quota.
  pub create_service-IsAccounted :
      IsAccounted w.db.clients w.db.resellers
      → Resellers.get r.telegram_id w.db ≡ some r
      → let db' = (create_service xui r volume days ids suffix panel_id w).1.db in
        IsAccounted db'.clients db'.resellers
  unfolding create_service
  create_service-IsAccounted a current =
      let same = db-check_create xui r volume days ids suffix panel_id w in
      elim (Result-cases (check_create xui r volume days ids suffix panel_id w).0) [
        | inl (new, h) ↦
            let room = check_create-room new h in
            rw (h, ◌>>=◌)
              (store_service-IsAccounted xui r volume days panel_id new
                (check_create xui r volume days ids suffix panel_id w).1 (rw same a)
                (rw same current) (omega (arith, room)) room.1)
        | inr (e, h) ↦ rw (h, ◌>>=◌) (rw same a)
      ]
