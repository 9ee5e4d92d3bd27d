-- ===== src/Bot/Moves/Resizing.antt =====
-- The dialogs about traffic resize the user's own service.
use resellerbot.Prelude.{ℕ, ◌≡◌, refl, sym, subst, Option, none, some, arith}
use resellerbot.Prelude.Text.{Text}
use resellerbot.Errors
use resellerbot.Errors.{Exec}
use resellerbot.Models.{Db, Reseller, AnyFloat, Panel}
use resellerbot.Quota.{status, get_assignment}
use resellerbot.Panel.{XuiClient, World}
use resellerbot.Registry.{Network, on_client, on_site_db}
use resellerbot.Service.AnyVolume.{add_service_traffic_of, remove_service_traffic_of}
use resellerbot.ServiceResolve.{ServiceContext}
use resellerbot.History.{IsCurrent}
use resellerbot.Bot.Chat.{
  State, Data, Update, Host, Handler, ◌>>=◌, update_data, set_state, modify, run,
}
use resellerbot.Bot.Said.{Said, Reply}
use resellerbot.Bot.Traffic.{
  Direction, add, reduce, known_email, remaining_gb, used_gb, check_volume, show_traffic_confirm,
  confirm_state, menu_values, traffic_menu, quick_volume, custom_start, custom_volume, change,
  traffic_confirm,
}
use resellerbot.Bot.Moves.{IsReady, Serves, look, once, traffic_asked, Moves-trans}
use resellerbot.Bot.Moves.Rules.{Keeps, keeps, run-Keeps}
use resellerbot.Bot.Moves.Senders.{need_both-after}
use resellerbot.Bot.Moves.Calls.{in_service-Keeps, own_grow, own_shrink, resolve_service-Keeps}
use resellerbot.Bot.Moves.Changing.{stored_email-Keeps}

state-mapped :
    {S A B : Type 0} (m : Exec S A) (f : A → B) (s : S)
    → (Errors.◌>>=◌ m (λ a. Errors.pure (f a)) s).1 ≡ (m s).1
state-mapped m f s = ground arith

db-status : (r : Reseller) (p : Option ℕ) (db : Db) → (status r p db).1 ≡ db
unfolding status get_assignment
db-status r none db = refl
db-status r (some p) db = ground arith

free_state : (dir : Direction) (d : Data) → IsReady (some (confirm_state dir)) d
free_state add d = tt
free_state reduce d = tt

module _ {user : ℕ} where
  -- The email, the volume and a state that needs none of the creation's data.
  traffic_asked-Keeps :
      {A : Type 0} (email : Text) (v : AnyFloat) (st : State) (k : Unit → Handler A)
      → ((d : Data) → IsReady (some st) d)
      → ((a : Unit) → Keeps user (k a))
      → Keeps user (
          update_data (λ d. record d { email = some email; volume_gb = some v }) >>= λ _.
          (set_state (some st) >>= k))
  unfolding ◌>>=◌ update_data set_state modify
  traffic_asked-Keeps email v st k free h = record {
    moves = λ c. Moves-trans (once (traffic_asked email v st free)) (
        (h tt).moves (record c {
          form = record c.form { email = some email; volume_gb = some v };
          state = some st;
        }));
  }

  status-Keeps : (r : Reseller) (p : Option ℕ) → Keeps user (run (on_site_db (status r p)))
  status-Keeps r p = run-Keeps _ λ s. look (db-status r p s.db)

  panel-Keeps :
      {A : Type 0} (net : Network) (p : Panel) (m : Exec ((net.connect p).State) A)
      → Keeps user (run (on_client net p m))
  unfolding on_client
  panel-Keeps net p m = run-Keeps (on_client net p m) λ s. look refl

  known_email-Keeps : Keeps user known_email
  unfolding known_email
  known_email-Keeps = search keeps depth 12

  module _ (host : Host) where
    remaining_gb-Keeps : (ctx : ServiceContext) → Keeps user (remaining_gb host ctx)
    unfolding remaining_gb
    remaining_gb-Keeps ctx = search (status-Keeps, keeps) depth 12

    used_gb-Keeps : (ctx : ServiceContext) (email : Text) → Keeps user (used_gb host ctx email)
    unfolding used_gb
    used_gb-Keeps ctx email = search (panel-Keeps, keeps) depth 12

    check_volume-Keeps :
        (dir : Direction) (ctx : ServiceContext) (email : Text) (v : AnyFloat)
        → Keeps user (check_volume host dir ctx email v)
    unfolding check_volume
    check_volume-Keeps add ctx email v = search (remaining_gb-Keeps, keeps) depth 12
    check_volume-Keeps reduce ctx email v =
        search (remaining_gb-Keeps, used_gb-Keeps, keeps) depth 12

    menu_values-Keeps :
        (dir : Direction) (ctx : ServiceContext) (email : Text)
        → Keeps user (menu_values host dir ctx email)
    unfolding menu_values
    menu_values-Keeps add ctx email = search (remaining_gb-Keeps, keeps) depth 12
    menu_values-Keeps reduce ctx email = search (remaining_gb-Keeps, used_gb-Keeps, keeps) depth 12

    show_traffic_confirm-Keeps :
        (dir : Direction) (how : Reply → Said) (n : ℕ) (email : Text) (v : AnyFloat)
        → Keeps user (show_traffic_confirm host dir how n email v)
    unfolding show_traffic_confirm
    show_traffic_confirm-Keeps add how n email v =
        search (traffic_asked-Keeps, free_state, check_volume-Keeps, resolve_service-Keeps, keeps)
          depth 14
    show_traffic_confirm-Keeps reduce how n email v =
        search (traffic_asked-Keeps, free_state, check_volume-Keeps, resolve_service-Keeps, keeps)
          depth 14

    module _ (u : Update) where
      pub traffic_menu-Keeps : (dir : Direction) → Keeps user (traffic_menu host dir u)
      unfolding traffic_menu
      traffic_menu-Keeps add = search (menu_values-Keeps, resolve_service-Keeps, keeps) depth 14
      traffic_menu-Keeps reduce = search (menu_values-Keeps, resolve_service-Keeps, keeps) depth 14

      pub quick_volume-Keeps : (dir : Direction) → Keeps user (quick_volume host dir u)
      unfolding quick_volume
      quick_volume-Keeps dir =
          search (known_email-Keeps, show_traffic_confirm-Keeps, keeps) depth 14

      pub custom_start-Keeps : (dir : Direction) → Keeps user (custom_start host dir u)
      unfolding custom_start
      custom_start-Keeps add = search (known_email-Keeps, keeps) depth 12
      custom_start-Keeps reduce = search (known_email-Keeps, keeps) depth 12

      pub custom_volume-Keeps : (dir : Direction) → Keeps user (custom_volume host dir u)
      unfolding custom_volume
      custom_volume-Keeps dir =
          search (stored_email-Keeps, show_traffic_confirm-Keeps, keeps) depth 14

  own_change :
      (dir : Direction) (email : Text) (v : AnyFloat) (xui : XuiClient) (ctx : ServiceContext)
      (w : World xui.State)
      → ctx.reseller.telegram_id ≡ user
      → IsCurrent ctx.reseller w.db
      → Serves user w.db (change dir v email xui ctx w).1.db
  unfolding change
  own_change add email v xui ctx w mine current =
      subst (λ (w' : World xui.State). Serves user w.db w'.db)
        (sym (state-mapped (add_service_traffic_of xui ctx.reseller email v) _ w))
        (own_grow xui ctx w mine current email v)
  own_change reduce email v xui ctx w mine current =
      subst (λ (w' : World xui.State). Serves user w.db w'.db)
        (sym (state-mapped (remove_service_traffic_of xui ctx.reseller email v) _ w))
        (own_shrink xui ctx w mine current email v)

module _ {user : ℕ} (host : Host) (u : Update) (from : u.from_user ≡ some user) where
  pub traffic_confirm-Keeps : (dir : Direction) → Keeps user (traffic_confirm host dir u)
  unfolding traffic_confirm
  traffic_confirm-Keeps dir =
      search (from, need_both-after, in_service-Keeps, own_change, keeps) depth 14
