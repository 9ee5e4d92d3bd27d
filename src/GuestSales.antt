-- ===== src/GuestSales.antt =====
-- services/guest_sales.py and the decisions of bot/handlers/admin_guest_orders.py: a guest's order
-- is delivered as a service of a hidden reseller, or refused.
--
-- The handlers' Telegram messages are left out; a handler answers how it ended.
pub mod Frames
pub mod Decisions
pub mod Once
pub mod Moving
use resellerbot.Prelude.{
  ℕ, Bool, true, false, not, ◌||◌, Option, none, some, List, [], ◌∷◌, ◌++◌, ◌==◌, if◌then◌else◌,
}
use resellerbot.Prelude.Int.{ℤ, pos}
use resellerbot.Prelude.Text.{Text, codes}
use resellerbot.Errors.{
  Exec, ⊤, pure, raise, gets, modify, ◌>>=◌, ◌>>◌, or_raise, Error, Result, ok, err,
  assertion_error, quota_exceeded, xui_error, panel_unavailable,
}
use resellerbot.Models.{Db, Reseller, ClientRecord, GuestOrder, GuestSalesConfig, Plan, Panel}
use resellerbot.Inbounds.{is_empty, inbound_ids_from_json}
use resellerbot.Volume.{gb_to_bytes}
use resellerbot.Labels.{decimal}
use resellerbot.Panel.{XuiClient, ClientDelivery}
use resellerbot.Registry.{Site, Network, xui_for_reseller_panel, on_service, on_site_db}
use resellerbot.Service.{create_service}
use resellerbot.Repository.Resellers
use resellerbot.Repository.Plans
use resellerbot.Repository.Orders
use resellerbot.Repository.GuestConfig

abbrev pub system_reseller_tg_id : ℕ
system_reseller_tg_id = 0

abbrev pub system_reseller_display_name : Text
system_reseller_display_name = codes "guest-sales"

abbrev quota_of : Option Reseller → ℤ
quota_of none = pos 0
quota_of (some r) = r.quota_bytes

unfoldable pub ensure_system_reseller : ℕ → List ℕ → Exec Db Reseller
ensure_system_reseller panel_id inbound_ids = do
  existing ← gets (Resellers.get system_reseller_tg_id)
  row ←
      Resellers.upsert system_reseller_tg_id (quota_of existing) (some inbound_ids)
        (some inbound_ids) panel_id (some system_reseller_display_name) true none
  elim row.is_system [
    | true ↦ pure row
    | false ↦ do let row' = record row { is_system = true }; Resellers.save row'; pure row'
  ]

abbrev or_self : Option Reseller → Reseller → Reseller
or_self none r = r
or_self (some r') r = r'

-- `f"guest{order.telegram_id}_{order.id}"`
unfoldable pub order_suffix : GuestOrder → Text
order_suffix order = codes "guest" ++ decimal order.telegram_id ++ codes "_" ++ decimal order.id

-- How a handler ended: what it answers to the admin.
pub data Decision : Type 0 where
  order_not_found order_not_pending plan_deleted not_configured : Decision
  refused : Error → Decision
  order_approved : ClientRecord → Decision
  order_rejected : Decision

-- The exceptions that the handler catches.
abbrev is_caught : Error → Bool
is_caught (quota_exceeded _) = true
is_caught (xui_error _) = true
is_caught (panel_unavailable _ _) = true
is_caught _ = false

-- `not guest_config.panel_id or not guest_config.inbound_ids`; the text `[]` of no inbounds is not
-- empty.
abbrev pub configured_panel : GuestSalesConfig → Option ℕ
configured_panel c = elim c.panel_id [
  | none ↦ none
  | some p ↦ elim c.inbound_ids [ none ↦ none | some ids ↦ (if p == 0 then none else some p) ]
]

-- The `try` of `guest_order_approve` and what follows: the order is marked after the delivery.
unfoldable pub decide : GuestOrder → Exec Site (ClientRecord × ClientDelivery) → Exec Site Decision
decide order deliver s =
    let (r, s') = deliver s in
    elim r [
      | ok (client, delivery) ↦
          (do on_site_db (Orders.mark_approved order.id client.id); pure (order_approved client)) s'
      | err e ↦ (if is_caught e then ok (refused e) else err e, s')
    ]

module _ (net : Network) where
  open net use {connect}

  unfoldable pub deliver_guest_order :
      GuestOrder → Plan → GuestSalesConfig → Exec Site (ClientRecord × ClientDelivery)
  deliver_guest_order order plan guest_config = do
    panel_id ← or_raise guest_config.panel_id assertion_error
    let inbound_ids = inbound_ids_from_json guest_config.inbound_ids
    ensured ← on_site_db (ensure_system_reseller panel_id inbound_ids)
    on_site_db (Resellers.add_quota_bytes system_reseller_tg_id (gb_to_bytes plan.volume_gb))
    current ← gets (λ s. Resellers.get system_reseller_tg_id s.db)
    let reseller = or_self current ensured
    p ← xui_for_reseller_panel reseller panel_id
    on_service net p (
        create_service (connect p) reseller plan.volume_gb plan.expiry_days (some inbound_ids)
          (order_suffix order) panel_id)

  -- `guest_order_approve` with a pending order and its plan.
  unfoldable pub approve_order : GuestOrder → Plan → Exec Site Decision
  approve_order order plan = do
    guest_config ← on_site_db GuestConfig.get_or_create
    elim (configured_panel guest_config) [
      | none ↦ pure not_configured
      | some _ ↦ decide order (deliver_guest_order order plan guest_config)
    ]

  -- `guest_order_approve`, once the admin and the order's number are known.
  unfoldable pub guest_order_approve : ℕ → Exec Site Decision
  guest_order_approve order_id = do
    found ← gets (λ s. Orders.get order_id s.db)
    elim found [
      | none ↦ pure order_not_found
      | some order ↦ elim (Orders.is_pending order) [
        | false ↦ pure order_not_pending
        | true ↦ do
          plan ← gets (λ s. Plans.get order.plan_id s.db)
          elim plan [ none ↦ pure plan_deleted | some plan ↦ approve_order order plan ]
      ]
    ]

  -- `guest_order_reject`
  unfoldable pub guest_order_reject : ℕ → Exec Site Decision
  guest_order_reject order_id = do
    found ← gets (λ s. Orders.get order_id s.db)
    elim found [
      | none ↦ pure order_not_found
      | some order ↦ elim (Orders.is_pending order) [
        | false ↦ pure order_not_pending
        | true ↦ do on_site_db (Orders.mark_rejected order.id none); pure order_rejected
      ]
    ]
