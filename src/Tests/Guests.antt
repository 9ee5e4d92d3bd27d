-- ===== src/Tests/Guests.antt =====
-- The guest sales, the panels and the alerts, run on the sample database.
use resellerbot.Prelude.{ℕ, ◌≡◌, ◌≢◌, ◌↔◌, refl, true, none, some, List, [], ◌∷◌}
use resellerbot.Prelude.Int.{pos, ◌+ℤ◌, ◌-ℤ◌}
use resellerbot.Prelude.Text.{codes, text_eq}
use resellerbot.Errors.{Error, ok, err}
use resellerbot.Models.{
  Reseller, GuestSalesConfig, Db, Plan, GuestOrder, ClientRecord, pending, rejected,
}
use resellerbot.Inbounds.{validate_inbound_subset, resolve_attach_inbound_ids_for_assignment}
use resellerbot.Inbounds.Subset.{Within, validate_inbound_subset_iff}
use resellerbot.Volume.{whole_gb, gb_to_bytes, is_volume_too_low}
use resellerbot.Registry.{Site, Network, xui_for_reseller_panel, xui_for_panel_id, on_service}
use resellerbot.Repository.Assignments
use resellerbot.Repository.Resellers
use resellerbot.Repository.Clients
use resellerbot.Repository.GuestConfig
use resellerbot.Repository.Usage.{client_count_on_panel}
use resellerbot.Quota.{validate_create, check_inbounds, is_full}
use resellerbot.Service.{create_service, check_create, store_service, days_ms}
use resellerbot.Labels.{build_client_email, decimal}
use resellerbot.Repository.Orders
use resellerbot.Repository.Alerts
use resellerbot.Repository.Panels
use resellerbot.Repository.Panels.References.{IsReferenced, delete-IsReferenced}
use resellerbot.Repository.Plans
use resellerbot.Repository.Plans.Pending.{IsOffered, delete-IsOffered}
use resellerbot.UsageAlerts.{pending_thresholds, check_usage, send_all, AlertToSend}
use resellerbot.UsageAlerts.Once.{no_second_alert}
use resellerbot.GuestSales.{
  guest_order_approve, guest_order_reject, order_approved, approve_order, deliver_guest_order,
  decide, ensure_system_reseller, order_suffix,
}
use resellerbot.GuestSales.Decisions.{approved_row}
use resellerbot.GuestSales.Once.{
  approve, reject, here, next, decided_orders_stay, guest_order_approve-marks,
}
use resellerbot.GuestSales.Moving.{IsElsewhere, deliver_guest_order_refused}
use resellerbot.Tests.Sample.{sara, db, panel, xui}

abbrev net : Network
net = record { connect = λ _. xui; remembered = λ _. 0 }

abbrev plan : Plan
plan = record {
  id = 1;
  name = codes "p";
  volume_gb = whole_gb 20;
  expiry_days = pos 30;
  price_toman = pos 1;
  sort_order = pos 1;
  is_active = true;
}

abbrev order : GuestOrder
order = record {
  id = 1;
  telegram_id = 9;
  username = none;
  plan_id = 1;
  status = pending;
  receipt_kind = codes "text";
  receipt_file_id = none;
  receipt_text = none;
  client_record_id = none;
  reject_reason = none;
  created_at = 15;
  decided_at = none;
}

abbrev refused_order : GuestOrder
refused_order = record order { id = 2; status = rejected; decided_at = some 16 }

abbrev shop_db : Db
shop_db = record db {
  plans = plan ∷ record plan { id = 2 } ∷ [];
  orders = order ∷ refused_order ∷ [];
  guest_config = some (record {
    panel_id = some 1;
    inbound_ids = some (1 ∷ []);
    card_number = none;
    card_holder = none;
    is_enabled = true;
  });
}

abbrev shop : Site
shop = record { db = shop_db; loaded = panel ∷ []; now_ms = pos 1000 }

shop-IsOffered : IsOffered shop_db.plans shop_db.orders
shop-IsOffered = (λ _. refl, (λ _. refl, tt))

delete-IsReferenced_example : IsReferenced (Panels.delete 2 db).1
delete-IsReferenced_example = delete-IsReferenced 2 db ((refl, tt), (refl, (refl, tt)))

delete-IsOffered_example : let db' = (Plans.delete 2 shop_db).1 in IsOffered db'.plans db'.orders
delete-IsOffered_example = delete-IsOffered 2 shop_db shop-IsOffered

abbrev approved_site : Site
approved_site = (guest_order_approve net 1 shop).1

decided_orders_stay_example :
    Orders.get 2 (guest_order_reject net 2 approved_site).1.db ≡ some refused_order
decided_orders_stay_example =
    decided_orders_stay net 2 refused_order shop (guest_order_reject net 2 approved_site).1
      (next (next here (approve 1 refl)) (reject 2 refl)) refl refl

abbrev alert_at : ℕ → AlertToSend
alert_at t = record {
  reseller_tg_id = 7;
  alert_kind = codes "k";
  threshold_percent = t;
  client_email = none;
}

first_alert :
    (check_usage 7 (codes "k") none (some (pos 95)) db).0 ≡ ok (alert_at 80 ∷ alert_at 90 ∷ [])
unfolding check_usage pending_thresholds Alerts.get_sent_thresholds
first_alert = refl

abbrev alerted : Site
alerted =
    (send_all net (λ _. true) (alert_at 80 ∷ alert_at 90 ∷ [])
      (record shop { db = (check_usage 7 (codes "k") none (some (pos 95)) db).1 })).1

no_second_alert_example : (check_usage 7 (codes "k") none (some (pos 95)) alerted.db).0 ≡ ok []
no_second_alert_example =
    no_second_alert net 7 (codes "k") none (pos 95) (record shop { db = db })
      (alert_at 80 ∷ alert_at 90 ∷ []) first_alert

abbrev allowed : List ℕ
allowed = 1 ∷ 2 ∷ []

abbrev attached : List ℕ
attached = 2 ∷ []

validate_inbound_subset_iff_example :
    (validate_inbound_subset allowed attached ≡ ok tt)
    ↔ ((attached ≢ []) × (allowed ≢ []) × Within attached allowed)
validate_inbound_subset_iff_example = validate_inbound_subset_iff allowed attached

abbrev guest_client : ClientRecord
guest_client = record {
  id = 2;
  reseller_tg_id = 0;
  panel_id = 1;
  email = codes "guest-sales-client-guest9_1";
  sub_id = some (codes "sub");
  inbound_ids = 1 ∷ [];
  allocated_bytes = pos 21474836480;
  expiry_time = pos 2592001000;
  created_at = 20;
}

approved_now : (guest_order_approve net 1 shop).0 ≡ ok (order_approved guest_client)
unfolding guest_order_approve approve_order deliver_guest_order decide ensure_system_reseller
    on_service xui_for_reseller_panel xui_for_panel_id order_suffix Resellers.upsert
    GuestConfig.get_or_create Resellers.add_quota_bytes validate_inbound_subset create_service
    check_create store_service validate_create check_inbounds
    resolve_attach_inbound_ids_for_assignment is_volume_too_low gb_to_bytes is_full days_ms
    client_count_on_panel ◌-ℤ◌ ◌+ℤ◌ build_client_email decimal Clients.email_exists text_eq
    Clients.add Resellers.add_lifetime_allocated Resellers.sync_primary_panel_assignment
    Assignments.add Orders.mark_approved
approved_now = refl

guest_order_approve-marks_example :
    (o : GuestOrder) × (now : ℕ) × (Orders.get 1 shop_db ≡ some o)
    × (Orders.is_pending o ≡ true)
    × (Orders.get 1 approved_site.db ≡ some (approved_row o guest_client.id now))
guest_order_approve-marks_example = guest_order_approve-marks net 1 shop guest_client approved_now

-- The seller is on panel 1, and guest sales are moved to panel 2.
abbrev seller : Reseller
seller = record sara { telegram_id = 0; is_system = true }

abbrev moved_config : GuestSalesConfig
moved_config = record {
  panel_id = some 2;
  inbound_ids = some (1 ∷ []);
  card_number = none;
  card_holder = none;
  is_enabled = true;
}

abbrev moved_shop : Site
moved_shop = record shop { db = record shop_db { resellers = seller ∷ [] } }

seller-IsElsewhere : IsElsewhere 2 moved_shop.db
seller-IsElsewhere = (seller, refl, refl, refl)

deliver_guest_order_refused_example :
    (e : Error) × ((deliver_guest_order net order plan moved_config moved_shop).0 ≡ err e)
deliver_guest_order_refused_example =
    deliver_guest_order_refused net order plan moved_config 2 moved_shop refl seller-IsElsewhere
