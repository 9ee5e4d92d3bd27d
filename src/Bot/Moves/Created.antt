-- ===== src/Bot/Moves/Created.antt =====
-- The confirmation of a new service makes it for the user, with the row that the database holds.
use resellerbot.Prelude.{
  ℕ, ◌≡◌, ◌∙◌, refl, subst, sym, ap, Bool, true, none, some, arith, ==_iff, find_sound,
}
use resellerbot.Prelude.Int.{ℤ}
use resellerbot.Prelude.Text.{Text}
use resellerbot.Errors.{Error, quota_exceeded, xui_error, panel_unavailable}
use resellerbot.Models.{Db, Reseller, ClientRecord, AnyFloat, finite, infinite, nan}
use resellerbot.Registry.{Site, on_service, xui_for_reseller_panel}
use resellerbot.Panel.{XuiClient, World, ClientDelivery}
use resellerbot.Service.AnyVolume.{create_service_of, db-create_refused}
use resellerbot.History.{IsCurrent}
use resellerbot.Repository.Resellers
use resellerbot.Bot.Chat.{
  Chat, Update, Host, ◌>>=◌, pure, raise, modify, say, update_data, if_none, run, catching, finish,
  stop, on_message, clear,
}
use resellerbot.Bot.Said.{Said}
use resellerbot.Bot.Create.{get_active_reseller}
use resellerbot.Bot.Confirm.{
  creation_refused, panel_refused, client_for, create_confirmed, rate_limit_check, confirm_create,
}
use resellerbot.Bot.Moves.{Serves, once, counted, locked, look, create}
use resellerbot.Bot.Moves.Rules.{Keeps, keeps, >>=-at, run-at, run-Keeps, catching-at, raise-Keeps}
use resellerbot.Bot.Moves.Senders.{user_of-after}
use resellerbot.Bot.Moves.Calls.{db-xui_for_reseller_panel}
use resellerbot.Bot.Moves.Points.{gets-at, if_none-at}

active-current :
    (user : ℕ) (s : Site) (r : Reseller)
    → get_active_reseller user s ≡ some r
    → Resellers.get user s.db ≡ some r
unfolding get_active_reseller
active-current user s r h = ground arith

active-user :
    (user : ℕ) (s : Site) (r : Reseller)
    → get_active_reseller user s ≡ some r
    → r.telegram_id ≡ user
active-user user s r h =
    (==_iff r.telegram_id user).0
      (find_sound (Resellers.is_reseller user) s.db.resellers r (active-current user s r h))

module _ (host : Host) (r : Reseller) (p : ℕ) (c : Chat) where
  pub db-client_for : (client_for host r p c).1.site.db ≡ c.site.db
  unfolding client_for catching if_none run pure panel_refused ◌>>=◌ update_data modify say raise
      stop
  db-client_for = ground (arith, db-xui_for_reseller_panel r p c.site)

module _ {user : ℕ} where
  locked-Keeps : (b : Bool) → Keeps user (update_data (λ d. record d { create_locked = b }))
  unfolding update_data modify
  locked-Keeps b = record { moves = λ c. once (locked b) }

  creation_refused-Keeps : (u : Update) (e : Error) → Keeps user (creation_refused u e)
  unfolding creation_refused
  creation_refused-Keeps u (quota_exceeded q) = search (locked-Keeps, keeps) depth 12
  creation_refused-Keeps u (xui_error x) = search (locked-Keeps, keeps) depth 12
  creation_refused-Keeps u e = raise-Keeps e

  panel_run-Keeps : (r : Reseller) (p : ℕ) → Keeps user (run (xui_for_reseller_panel r p))
  panel_run-Keeps r p = run-Keeps _ λ s. look (db-xui_for_reseller_panel r p s)

  panel_refused-Keeps : (e : Error) → Keeps user (panel_refused e)
  unfolding panel_refused
  panel_refused-Keeps (panel_unavailable p x) = search (locked-Keeps, keeps) depth 12
  panel_refused-Keeps e = raise-Keeps e

  client_for-Keeps : (host : Host) (r : Reseller) (p : ℕ) → Keeps user (client_for host r p)
  unfolding client_for
  client_for-Keeps host r p = search (panel_run-Keeps, panel_refused-Keeps, keeps) depth 12

  -- The row is gone, or no longer active.
  gone-Keeps :
      (u : Update) (x : Said)
      → Keeps user (clear >>= λ _. (on_message u x >>= λ _. finish {A = Unit} Said.acknowledged))
  gone-Keeps u x = search keeps depth 12

  made-Keeps :
      (u : Update) (x : Said)
      → Keeps user (clear >>= λ _. (on_message u x >>= λ _. say Said.acknowledged))
  made-Keeps u x = search keeps depth 12

  own_create :
      (xui : XuiClient) (r : Reseller) (v : AnyFloat) (days : ℤ) (suffix : Text) (p : ℕ)
      (w : World xui.State)
      → r.telegram_id ≡ user
      → IsCurrent r w.db
      → Serves user w.db (create_service_of xui r v days none suffix p w).1.db
  unfolding create_service_of
  own_create xui r (finite v) days suffix p w mine current =
      create xui w.panel w.now_ms r v days none suffix p mine current refl
  own_create xui r (infinite b) days suffix p w mine current =
      look (db-create_refused xui (ClientRecord × ClientDelivery) r w (infinite b) none p)
  own_create xui r nan days suffix p w mine current =
      look (db-create_refused xui (ClientRecord × ClientDelivery) r w nan none p)

  pub create_confirmed-Keeps :
      (host : Host) (u : Update) (v : AnyFloat) (days : ℤ) (suffix : Text) (p : ℕ)
      → Keeps user (create_confirmed host u user v days suffix p)
  unfolding create_confirmed on_service update_data modify
  create_confirmed-Keeps host u v days suffix p = record {
    moves = λ c.
        let c1 : Chat = record c { form = record c.form { create_locked = true } } in
        >>=-at _ _ c (once (locked true)) λ _ _. gets-at c1 _ _ (
          if_none-at c1 _ _ _ ((gone-Keeps u _).moves c1) λ r active.
            let c2 : Chat = (client_for host r p c1).1 in
            let mine = active-user user c1.site r active in
            let stored : Resellers.get user c2.site.db ≡ some r =
              ap (λ (db : Db). Resellers.get user db) (db-client_for host r p c1)
              ∙ active-current user c1.site r active in
            >>=-at (client_for host r p) _ c1 ((client_for-Keeps host r p).moves c1) λ client _.
              >>=-at _ _ c2
                (catching-at _ _ c2
                  (run-at _ c2 (
                    own_create (host.net.connect client) r v days suffix p _ mine
                      (subst (λ (n : ℕ). Resellers.get n c2.site.db ≡ some r) (sym mine) stored)))
                  (creation_refused-Keeps u))
                λ created _. (made-Keeps u _).moves _);
  }

  rate_limit-Keeps : (host : Host) (n : ℕ) → Keeps user (rate_limit_check host n)
  unfolding rate_limit_check
  rate_limit-Keeps host n = record { moves = λ c. once (counted _) }

  incomplete-Keeps : (x : Said) → Keeps user (clear >>= λ _. finish {A = Unit} x)
  incomplete-Keeps x = search keeps

  pub confirm_create-Keeps :
      (host : Host) (u : Update) → u.from_user ≡ some user → Keeps user (confirm_create host u)
  unfolding confirm_create
  confirm_create-Keeps host u from =
      search (from, user_of-after, rate_limit-Keeps, create_confirmed-Keeps, keeps) depth 16
