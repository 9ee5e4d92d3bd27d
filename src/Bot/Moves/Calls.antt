-- ===== src/Bot/Moves/Calls.antt =====
-- The calls of the services that the handlers make are the user's.
use resellerbot.Prelude.{
  ℕ, ◌≡◌, ◌∙◌, sym, refl, ap, subst, inl, inr, Bool, Option, some, List, [], ◌∷◌, arith,
}
use resellerbot.Prelude.Int.{ℤ}
use resellerbot.Prelude.Text.{Text}
use resellerbot.Errors.{Exec, ok, Result-cases}
use resellerbot.Models.{Reseller, Float, AnyFloat, finite, infinite, nan}
use resellerbot.Panel.{XuiClient, World}
use resellerbot.Registry.{
  Site, Network, on_service, xui_for_reseller_panel, xui_for_panel_id, reload_panel, xui_for_record,
}
use resellerbot.Repository.Resellers
use resellerbot.Service.{
  get_owned_record, set_service_enabled, service_traffic, get_delivery, get_client_panel_fields,
  update_service_limit_ip, update_service_comment, delete_service, update_service_expiry,
  AddTrafficResult, RemoveTrafficResult,
}
use resellerbot.Service.AnyVolume.{
  add_service_traffic_of, remove_service_traffic_of, db-add_refused, db-remove_refused,
}
use resellerbot.ServiceResolve.{ServiceContext, resolve_service, resolve_service-IsOwned}
use resellerbot.History.{IsCurrent}
use resellerbot.Bot.Chat.{Host, run}
use resellerbot.Bot.Said.{Said, Reply}
use resellerbot.Bot.Create.{accessible, accessible_panel_ids}
use resellerbot.Bot.Browse.{load_service_detail}
use resellerbot.Bot.Services.{in_service}
use resellerbot.Bot.Moves.{Serves, look, delete, grow, shrink, extend}
use resellerbot.Bot.Moves.Rules.{
  Keeps, >>=-at, run-at, run-Keeps, catching-at, catching-Keeps, xui_error_as-Keeps,
  answer_resolve-Keeps,
}
use resellerbot.Bot.Moves.Senders.{run-is}

db-reload_panel : (p : ℕ) (s : Site) → (reload_panel p s).1.db ≡ s.db
unfolding reload_panel
db-reload_panel p s = ground arith

pub db-xui_for_reseller_panel :
    (r : Reseller) (p : ℕ) (s : Site) → (xui_for_reseller_panel r p s).1.db ≡ s.db
unfolding xui_for_reseller_panel xui_for_panel_id
db-xui_for_reseller_panel r p s = grind (arith, db-reload_panel)

db-accessible : (r : Reseller) (ps : List ℕ) (s : Site) → (accessible r ps s).1.db ≡ s.db
unfolding accessible
db-accessible r [] s = refl
db-accessible r (p ∷ ps) s =
    ground
      (arith, db-xui_for_reseller_panel r p s, db-accessible r ps (xui_for_reseller_panel r p s).1)

pub db-accessible_panel_ids : (r : Reseller) (s : Site) → (accessible_panel_ids r s).1.db ≡ s.db
unfolding accessible_panel_ids
db-accessible_panel_ids r s = db-accessible r _ s

pub site-resolve_service :
    (user : ℕ) (email : Text) (s : Site) → (resolve_service user email s).1 ≡ s
unfolding resolve_service xui_for_record
site-resolve_service user email s = ground arith

current-resolve_service :
    (user : ℕ) (email : Text) (s : Site) (ctx : ServiceContext)
    → (resolve_service user email s).0 ≡ ok ctx
    → Resellers.get user s.db ≡ some ctx.reseller
unfolding resolve_service xui_for_record
current-resolve_service user email s ctx h = ground arith

module _ (xui : XuiClient) (r : Reseller) (email : Text) (w : World xui.State) where
  pub db-set_service_enabled : (b : Bool) → (set_service_enabled xui r email b w).1.db ≡ w.db
  unfolding set_service_enabled get_owned_record
  db-set_service_enabled b = ground arith

  pub db-service_traffic : (service_traffic xui r email w).1.db ≡ w.db
  unfolding service_traffic get_owned_record
  db-service_traffic = ground arith

  pub db-get_delivery : (get_delivery xui r email w).1.db ≡ w.db
  unfolding get_delivery get_owned_record
  db-get_delivery = ground arith

  pub db-get_client_panel_fields : (get_client_panel_fields xui r email w).1.db ≡ w.db
  unfolding get_client_panel_fields get_owned_record
  db-get_client_panel_fields = ground arith

  pub db-update_service_limit_ip : (n : ℤ) → (update_service_limit_ip xui r email n w).1.db ≡ w.db
  unfolding update_service_limit_ip get_owned_record
  db-update_service_limit_ip n = ground arith

  pub db-update_service_comment : (s : Text) → (update_service_comment xui r email s w).1.db ≡ w.db
  unfolding update_service_comment get_owned_record
  db-update_service_comment s = ground arith

pub db-on_service :
    {A : Type 0} (net : Network) (s : Site) (ctx : ServiceContext)
    (m : (xui : XuiClient) → Exec (World xui.State) A)
    → ((xui : XuiClient) (w : World xui.State) → (m xui w).1.db ≡ w.db)
    → (on_service net ctx.xui (m (net.connect ctx.xui)) s).1.db ≡ s.db
unfolding on_service
db-on_service net s ctx m h = h (net.connect ctx.xui) _

pub db-load_service_detail :
    (host : Host) (user : ℕ) (email : Text) (s : Site)
    → (load_service_detail host user email s).1.db ≡ s.db
unfolding load_service_detail on_service
db-load_service_detail host user email s = elim (Result-cases (resolve_service user email s).0) [
  | inl (ctx, e) ↦ ground (
    arith,
    site-resolve_service user email s,
    db-service_traffic (host.net.connect ctx.xui) ctx.reseller email
        (record { db = s.db; panel = host.net.remembered ctx.xui; now_ms = s.now_ms }),
  )
  | inr (x, e) ↦ ground (arith, site-resolve_service user email s)
]

module _ {user : ℕ} where
  -- A method that is the user's on the user's own row, through `open_service_context`.
  pub in_service-Keeps :
      {A : Type 0} (host : Host) (how : Reply → Said) (email : Text)
      (method : (xui : XuiClient) → ServiceContext → Exec (World xui.State) A)
      → ((xui : XuiClient) (ctx : ServiceContext) (w : World xui.State)
          → ctx.reseller.telegram_id ≡ user
          → IsCurrent ctx.reseller w.db
          → Serves user w.db (method xui ctx w).1.db)
      → Keeps user (in_service host how user email method)
  unfolding in_service on_service
  in_service-Keeps host how email method h =
      catching-Keeps _ _
        (record {
          moves = λ c.
              >>=-at (run (resolve_service user email)) _ c
                (run-at _ c (look (ap (λ s. s.db) (site-resolve_service user email c.site))))
                (λ ctx e.
                  let found = run-is (resolve_service user email) c ctx e in
                  let owned = resolve_service-IsOwned user email c.site ctx found.0 in
                  let current = current-resolve_service user email c.site ctx found.0 in
                  let at : (run (resolve_service user email) c).1.site ≡ c.site =
                    found.1 ∙ site-resolve_service user email c.site in
                  catching-at _ _ _
                    (run-at _ _ (
                      h _ ctx _ owned.0 (
                        subst
                          (λ (s : Site).
                            Resellers.get ctx.reseller.telegram_id s.db ≡ some ctx.reseller)
                          {y = (run (resolve_service user email) c).1.site} (sym at)
                          (subst (λ (t : ℕ). Resellers.get t c.site.db ≡ some ctx.reseller)
                            (sym owned.0) current))))
                    (xui_error_as-Keeps how));
        })
        (answer_resolve-Keeps how)

module _ {user : ℕ} where
  pub resolve_service-Keeps : (n : ℕ) (email : Text) → Keeps user (run (resolve_service n email))
  resolve_service-Keeps n email =
      run-Keeps _ λ s. look (ap (λ (t : Site). t.db) (site-resolve_service n email s))

  pub service_traffic-Keeps :
      (net : Network) (ctx : ServiceContext) (email : Text)
      → Keeps user
          (run (on_service net ctx.xui (service_traffic (net.connect ctx.xui) ctx.reseller email)))
  unfolding on_service
  service_traffic-Keeps net ctx email =
      run-Keeps _ λ s. look (db-service_traffic (net.connect ctx.xui) ctx.reseller email _)

-- The methods that the handlers call, on the row of the context.
module _ {user : ℕ} (xui : XuiClient) (ctx : ServiceContext) (w : World xui.State)
    (mine : ctx.reseller.telegram_id ≡ user) (current : IsCurrent ctx.reseller w.db) where
  pub own_enabled :
      (email : Text) (b : Bool)
      → Serves user w.db (set_service_enabled xui ctx.reseller email b w).1.db
  own_enabled email b = look (db-set_service_enabled xui ctx.reseller email w b)

  pub own_traffic :
      (email : Text) → Serves user w.db (service_traffic xui ctx.reseller email w).1.db
  own_traffic email = look (db-service_traffic xui ctx.reseller email w)

  pub own_delivery : (email : Text) → Serves user w.db (get_delivery xui ctx.reseller email w).1.db
  own_delivery email = look (db-get_delivery xui ctx.reseller email w)

  pub own_fields :
      (email : Text) → Serves user w.db (get_client_panel_fields xui ctx.reseller email w).1.db
  own_fields email = look (db-get_client_panel_fields xui ctx.reseller email w)

  pub own_limit :
      (email : Text) (n : ℤ)
      → Serves user w.db (update_service_limit_ip xui ctx.reseller email n w).1.db
  own_limit email n = look (db-update_service_limit_ip xui ctx.reseller email w n)

  pub own_comment :
      (email s : Text) → Serves user w.db (update_service_comment xui ctx.reseller email s w).1.db
  own_comment email s = look (db-update_service_comment xui ctx.reseller email w s)

  pub own_delete :
      (limit : Float) (email : Text)
      → Serves user w.db (delete_service xui limit ctx.reseller email w).1.db
  own_delete limit email = delete xui w.panel w.now_ms limit ctx.reseller email mine current refl

  pub own_grow :
      (email : Text) (v : AnyFloat)
      → Serves user w.db (add_service_traffic_of xui ctx.reseller email v w).1.db
  unfolding add_service_traffic_of
  own_grow email (finite v) = grow xui w.panel w.now_ms ctx.reseller email v mine current refl
  own_grow email (infinite b) = look (db-add_refused xui AddTrafficResult ctx.reseller w email)
  own_grow email nan = look (db-add_refused xui AddTrafficResult ctx.reseller w email)

  pub own_shrink :
      (email : Text) (v : AnyFloat)
      → Serves user w.db (remove_service_traffic_of xui ctx.reseller email v w).1.db
  unfolding remove_service_traffic_of
  own_shrink email (finite v) = shrink xui w.panel w.now_ms ctx.reseller email v mine current refl
  own_shrink email (infinite b) =
      look (db-remove_refused xui RemoveTrafficResult ctx.reseller w email)
  own_shrink email nan = look (db-remove_refused xui RemoveTrafficResult ctx.reseller w email)

  pub own_extend :
      (email : Text) (days ms : Option ℤ)
      → Serves user w.db (update_service_expiry xui ctx.reseller email days ms w).1.db
  own_extend email days ms =
      extend xui w.panel w.now_ms ctx.reseller email days ms mine current refl

pub ruleset own = (
  own_enabled, own_traffic, own_delivery, own_fields, own_limit, own_comment, own_delete, own_grow,
  own_shrink, own_extend,
)
