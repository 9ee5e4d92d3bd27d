-- ===== src/GuestSales/Frames.antt =====
-- The delivery of a guest's order writes no order: the decision is written by the handler alone.
use resellerbot.Prelude.{ℕ, ◌≡◌, Option, List, arith}
use resellerbot.Prelude.Int.{ℤ}
use resellerbot.Prelude.Text.{Text}
use resellerbot.Models.{Db, Reseller, Float, GuestOrder, Plan, GuestSalesConfig}
use resellerbot.Panel.{XuiClient, World}
use resellerbot.Repository.Assignments
use resellerbot.Repository.Resellers
use resellerbot.Repository.Clients
use resellerbot.Service.{NewService, store_service, create_service}
use resellerbot.Service.Creation.{db-check_create}
use resellerbot.Registry.{Site, Network, xui_for_reseller_panel, on_service}
use resellerbot.GuestSales.{ensure_system_reseller, deliver_guest_order}

pub orders-sync :
    (r : Reseller) (db : Db) → (Resellers.sync_primary_panel_assignment r db).1.orders ≡ db.orders
unfolding Resellers.sync_primary_panel_assignment Assignments.add
orders-sync r db = ground arith

pub orders-add_quota :
    (tg : ℕ) (b : ℤ) (db : Db) → (Resellers.add_quota_bytes tg b db).1.orders ≡ db.orders
unfolding Resellers.add_quota_bytes
orders-add_quota tg b db = grind (arith, orders-sync)

pub orders-add_lifetime :
    (tg : ℕ) (b : ℤ) (db : Db) → (Resellers.add_lifetime_allocated tg b db).1.orders ≡ db.orders
unfolding Resellers.add_lifetime_allocated
orders-add_lifetime tg b db = grind (arith, orders-sync)

pub orders-ensure :
    (panel_id : ℕ) (ids : List ℕ) (db : Db)
    → (ensure_system_reseller panel_id ids db).1.orders ≡ db.orders
unfolding ensure_system_reseller Resellers.upsert
orders-ensure panel_id ids db = grind (arith, orders-sync)

pub db-xui :
    (r : Reseller) (panel_id : ℕ) (s : Site) → (xui_for_reseller_panel r panel_id s).1.db ≡ s.db
unfolding xui_for_reseller_panel
db-xui r panel_id s = ground arith

module _ (xui : XuiClient) (r : Reseller) (volume : Float) (days : ℤ) (panel_id : ℕ) where
  pub orders-store :
      (new : NewService) (w : World xui.State)
      → (store_service xui r volume days panel_id new w).1.db.orders ≡ w.db.orders
  unfolding store_service Clients.add Clients.delete
  orders-store new w = grind (arith, orders-add_lifetime)

  pub orders-create :
      (ids : Option (List ℕ)) (suffix : Text) (w : World xui.State)
      → (create_service xui r volume days ids suffix panel_id w).1.db.orders ≡ w.db.orders
  unfolding create_service
  orders-create ids suffix w =
      grind (arith, db-check_create xui r volume days ids suffix panel_id w, orders-store)

module _ (net : Network) (order : GuestOrder) (plan : Plan) (c : GuestSalesConfig) where
  -- Delivering an order leaves the table of orders as it is, on every path.
  pub orders-deliver :
      (s : Site) → (deliver_guest_order net order plan c s).1.db.orders ≡ s.db.orders
  unfolding deliver_guest_order on_service
  orders-deliver s = grind (arith, orders-ensure, orders-add_quota, orders-create, db-xui)
