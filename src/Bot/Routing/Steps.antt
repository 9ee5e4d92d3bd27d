-- ===== src/Bot/Routing/Steps.antt =====
-- Whatever an update is, the chat goes on by moves of the user who sent it.
use resellerbot.Prelude.{
  ℕ, ◌≡◌, subst, inl, inr, true, false, ◌&&◌, Option, some, List, [], ◌∷◌, ◌++◌, arith, Bool-cases,
}
use resellerbot.Bot.Chat.{
  State, create_volume, create_expiry, create_client_name, Chat, Update, Host, pure,
}
use resellerbot.Bot.Traffic.{add, reduce}
use resellerbot.Bot.Moves.{IsReady, IsReadyChat, Moves}
use resellerbot.Bot.Moves.Rules.{Keeps, say-Keeps}
use resellerbot.Bot.Moves.Browsing.{
  my_services-Keeps, services_back-Keeps, services_page-Keeps, service_search_start-Keeps,
  service_search_input-Keeps, service_search_clear-Keeps, service_search_cancel-Keeps,
  service_detail_page-Keeps,
}
use resellerbot.Bot.Moves.Changing.{
  service_delete_prompt-Keeps, back_to_detail-Keeps, expiry_menu-Keeps, cancel_to_detail-Keeps,
  expiry_start_add_days-Keeps, expiry_start_set_date-Keeps, service_edit_limit_start-Keeps,
  service_edit_comment_start-Keeps, service_set_enabled-Keeps, service_link-Keeps,
  show_vless_qr_menu-Keeps, send_vless_qr-Keeps, show_traffic-Keeps, service_delete_confirm-Keeps,
  expiry_set_unlimited-Keeps, expiry_process_add_days-Keeps, expiry_process_set_date-Keeps,
  service_edit_menu-Keeps, service_edit_limit_input-Keeps, service_edit_comment_input-Keeps,
}
use resellerbot.Bot.Moves.Resizing.{
  traffic_menu-Keeps, quick_volume-Keeps, custom_start-Keeps, custom_volume-Keeps,
  traffic_confirm-Keeps,
}
use resellerbot.Bot.Moves.Creating.{
  account_status-Keeps, start_create-Keeps, create_manual-Keeps, pick_panel-Keeps,
  create_from_template-Keeps, cancel_create-Keeps, process_volume-at, process_expiry-at,
}
use resellerbot.Bot.Moves.Confirming.{process_client_name-at, create_auto_name-at}
use resellerbot.Bot.Moves.Created.{confirm_create-Keeps}
use resellerbot.Bot.Confirm.{confirm_create_stale}
use resellerbot.Bot.Routing.{
  Route, Labels, in_state, message_routes, create_routes, browse_routes, change_routes,
  service_routes, first_route, Event, message, callback, update_of, routes, dispatch,
}

in_state-is :
    (st : State) (current : Option State) → in_state (some st) current ≡ true → current ≡ some st
unfolding in_state
in_state-is st current h = ground arith

module _ (user : ℕ) where
  -- The handler of the route moves as the user may, where its filters let it run.
  Admits : Route → Type 1
  Admits r =
      (u : Update) (c : Chat)
      → u.from_user ≡ some user
      → IsReadyChat c
      → in_state r.state c.state ≡ true
      → Moves user c (r.handler u c).1

  infixr 5 ◌&◌
  data Admitted : List Route → Type 1 where
    done : Admitted []
    ◌&◌ : {r : Route} {rs : List Route} → Admits r → Admitted rs → Admitted (r ∷ rs)

  Admitted-append : {rs ss : List Route} → Admitted rs → Admitted ss → Admitted (rs ++ ss)
  Admitted-append done b = b
  Admitted-append (h & a) b = h & Admitted-append a b

  keeps :
      (r : Route) → ((u : Update) → u.from_user ≡ some user → Keeps user (r.handler u)) → Admits r
  unfolding Admits
  keeps r h u c from ready at = (h u from).moves c

  admits :
      (r : Route)
      → ((u : Update) (c : Chat)
          → u.from_user ≡ some user
          → IsReadyChat c
          → in_state r.state c.state ≡ true
          → Moves user c (r.handler u c).1)
      → Admits r
  unfolding Admits
  admits r h = h

  -- The data that the route's state relies on.
  IsReady-in :
      (st : State) (c : Chat)
      → IsReadyChat c
      → in_state (some st) c.state ≡ true
      → IsReady (some st) c.form
  IsReady-in st c ready at =
      subst (λ (s : Option State). IsReady s c.form) {x = c.state} {y = some st}
        (in_state-is st c.state at) ready

  module _ (host : Host) (labels : Labels) where
    admits-messages : Admitted (message_routes host labels)
    unfolding message_routes
    admits-messages =
        keeps _ (λ u from. account_status-Keeps host u)
        & keeps _ (λ u from. start_create-Keeps host u)
        & admits _
            (λ u c from ready at. process_volume-at host u c (IsReady-in create_volume c ready at))
        & admits _
            (λ u c from ready at. process_expiry-at host u c (IsReady-in create_expiry c ready at))
        & admits _ (λ u c from ready at.
          process_client_name-at host u c (in_state-is create_client_name c.state at)
            (IsReady-in create_client_name c ready at))
        & keeps _ (λ u from. my_services-Keeps u)
        & keeps _ (λ u from. service_search_input-Keeps u)
        & keeps _ (λ u from. custom_volume-Keeps host u add)
        & keeps _ (λ u from. custom_volume-Keeps host u reduce)
        & keeps _ (λ u from. expiry_process_add_days-Keeps host u from)
        & keeps _ (λ u from. expiry_process_set_date-Keeps host u from)
        & keeps _ (λ u from. service_edit_limit_input-Keeps host u from)
        & keeps _ (λ u from. service_edit_comment_input-Keeps host u from)
        & done

    stale-Keeps : Keeps user (confirm_create_stale host)
    unfolding confirm_create_stale
    stale-Keeps = say-Keeps _

    admits-create : Admitted (create_routes host labels)
    unfolding create_routes
    admits-create =
        keeps _ (λ u from. create_manual-Keeps host u)
        & keeps _ (λ u from. pick_panel-Keeps host u)
        & keeps _ (λ u from. create_from_template-Keeps host u)
        & admits _ (λ u c from ready at.
          create_auto_name-at host u c (in_state-is create_client_name c.state at)
            (IsReady-in create_client_name c ready at))
        & keeps _ (λ u from. cancel_create-Keeps host u)
        & keeps _ (λ u from. confirm_create-Keeps host u from)
        & keeps _ (λ u from. stale-Keeps)
        & done

    admits-browse : Admitted (browse_routes host labels)
    unfolding browse_routes
    admits-browse =
        keeps _ (λ u from. services_back-Keeps u)
        & keeps _ (λ u from. services_page-Keeps u)
        & keeps _ (λ u from. service_search_start-Keeps u)
        & keeps _ (λ u from. service_search_clear-Keeps u)
        & keeps _ (λ u from. service_search_cancel-Keeps u)
        & keeps _ (λ u from. service_detail_page-Keeps host u)
        & done

    admits-change : Admitted (change_routes host labels)
    unfolding change_routes
    admits-change =
        keeps _ (λ u from. expiry_menu-Keeps host u)
        & keeps _ (λ u from. expiry_start_add_days-Keeps u)
        & keeps _ (λ u from. expiry_start_set_date-Keeps u)
        & keeps _ (λ u from. expiry_set_unlimited-Keeps host u from)
        & keeps _ (λ u from. cancel_to_detail-Keeps host u)
        & keeps _ (λ u from. traffic_menu-Keeps host u add)
        & keeps _ (λ u from. quick_volume-Keeps host u add)
        & keeps _ (λ u from. custom_start-Keeps host u add)
        & keeps _ (λ u from. traffic_confirm-Keeps host u from add)
        & keeps _ (λ u from. cancel_to_detail-Keeps host u)
        & keeps _ (λ u from. traffic_menu-Keeps host u reduce)
        & keeps _ (λ u from. quick_volume-Keeps host u reduce)
        & keeps _ (λ u from. custom_start-Keeps host u reduce)
        & keeps _ (λ u from. traffic_confirm-Keeps host u from reduce)
        & keeps _ (λ u from. cancel_to_detail-Keeps host u)
        & done

    admits-service : Admitted (service_routes host labels)
    unfolding service_routes
    admits-service =
        keeps _ (λ u from. service_set_enabled-Keeps host u from true)
        & keeps _ (λ u from. service_set_enabled-Keeps host u from false)
        & keeps _ (λ u from. service_link-Keeps host u from)
        & keeps _ (λ u from. show_vless_qr_menu-Keeps host u from)
        & keeps _ (λ u from. send_vless_qr-Keeps host u from)
        & keeps _ (λ u from. show_traffic-Keeps host u from)
        & keeps _ (λ u from. service_delete_prompt-Keeps host u)
        & keeps _ (λ u from. service_delete_confirm-Keeps host u from)
        & keeps _ (λ u from. back_to_detail-Keeps host u)
        & keeps _ (λ u from. service_edit_menu-Keeps host u from)
        & keeps _ (λ u from. back_to_detail-Keeps host u)
        & keeps _ (λ u from. service_edit_limit_start-Keeps u)
        & keeps _ (λ u from. service_edit_comment_start-Keeps u)
        & done

    admits-routes : (e : Event) → Admitted (routes host labels e)
    unfolding routes
    admits-routes (message u) = admits-messages
    admits-routes (callback u) =
        Admitted-append admits-create
          (Admitted-append admits-browse (Admitted-append admits-change admits-service))

  first_route-Moves :
      (rs : List Route) (u : Update) (c : Chat)
      → Admitted rs
      → u.from_user ≡ some user
      → IsReadyChat c
      → Moves user c (first_route rs u c).1
  unfolding first_route Admits pure
  first_route-Moves [] u c done from ready = Moves.here
  first_route-Moves (r ∷ rs) u c (h & a) from ready =
      elim (Bool-cases (in_state r.state c.state && r.applies u.payload)) [
        | inl e ↦ rw e (h u c from ready (ground arith))
        | inr e ↦ rw e (first_route-Moves rs u c a from ready)
      ]

  -- From a chat whose state has its data, whatever its user sends or presses, the handler that the
  -- router picks does a sequence of moves of the abstract conversation: it enters a state of the
  -- creation only with that state's data stored, and it changes the database only by methods of
  -- ResellerService on the user's own row.
  pub dispatch-Moves :
      (host : Host) (labels : Labels) (e : Event) (c : Chat)
      → (update_of e).from_user ≡ some user
      → IsReadyChat c
      → Moves user c (dispatch host labels e c)
  unfolding dispatch
  dispatch-Moves host labels e c from ready =
      first_route-Moves (routes host labels e) (update_of e) c (admits-routes host labels e) from
        ready
