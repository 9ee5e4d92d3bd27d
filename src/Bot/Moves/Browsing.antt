-- ===== src/Bot/Moves/Browsing.antt =====
-- The handlers of the list, the search and the page of a service only look.
use resellerbot.Prelude.{ℕ, Option, none, some, List, [], ◌∷◌}
use resellerbot.Prelude.Int.{ℤ}
use resellerbot.Prelude.Text.{Text}
use resellerbot.Bot.Chat.{Update, Host, run}
use resellerbot.Bot.Said.{Said, Reply}
use resellerbot.Bot.Browse.{
  show_service_list, my_services, show_page, services_back, services_page, service_search_start,
  service_search_input, service_search_clear, service_search_cancel, load_service_detail,
  show_service_detail, detail_or_alert, service_detail_page,
}
use resellerbot.Bot.Moves.{look}
use resellerbot.Bot.Moves.Rules.{Keeps, keeps, say-Keeps, run-Keeps}
use resellerbot.Bot.Moves.Calls.{db-load_service_detail}

module _ {user : ℕ} where
  pub show_service_list-Keeps :
      (how : Reply → Said) (emails : List Text) (page : ℤ) (query : Option Text)
      → Keeps user (show_service_list how emails page query)
  unfolding show_service_list
  show_service_list-Keeps how [] page none = say-Keeps _
  show_service_list-Keeps how [] page (some []) = say-Keeps _
  show_service_list-Keeps how [] page (some (c ∷ q)) = say-Keeps _
  show_service_list-Keeps how (e ∷ emails) page query = say-Keeps _

  show_page-Keeps : (n : ℕ) (page : ℤ) → Keeps user (show_page n page)
  unfolding show_page
  show_page-Keeps n page = search (keeps, show_service_list-Keeps) depth 12

  module _ (u : Update) where
    pub my_services-Keeps : Keeps user (my_services u)
    unfolding my_services
    my_services-Keeps = search (keeps, show_service_list-Keeps) depth 12

    pub services_back-Keeps : Keeps user (services_back u)
    unfolding services_back
    services_back-Keeps = search (keeps, show_page-Keeps) depth 12

    pub services_page-Keeps : Keeps user (services_page u)
    unfolding services_page
    services_page-Keeps = search (keeps, show_page-Keeps) depth 12

    pub service_search_start-Keeps : Keeps user (service_search_start u)
    unfolding service_search_start
    service_search_start-Keeps = search keeps depth 12

    pub service_search_input-Keeps : Keeps user (service_search_input u)
    unfolding service_search_input
    service_search_input-Keeps = search (keeps, show_service_list-Keeps) depth 12

    pub service_search_clear-Keeps : Keeps user (service_search_clear u)
    unfolding service_search_clear
    service_search_clear-Keeps = search (keeps, show_page-Keeps) depth 12

    pub service_search_cancel-Keeps : Keeps user (service_search_cancel u)
    unfolding service_search_cancel
    service_search_cancel-Keeps = search (keeps, show_page-Keeps) depth 12

  module _ (host : Host) where
    pub load_detail-Keeps :
        (n : ℕ) (email : Text) → Keeps user (run (load_service_detail host n email))
    load_detail-Keeps n email = run-Keeps _ (λ s. look (db-load_service_detail host n email s))

    pub show_service_detail-Keeps :
        (n : ℕ) (email : Text) → Keeps user (show_service_detail host n email)
    unfolding show_service_detail
    show_service_detail-Keeps n email = search (keeps, load_detail-Keeps) depth 12

    pub detail_or_alert-Keeps : (n : ℕ) (email : Text) → Keeps user (detail_or_alert host n email)
    unfolding detail_or_alert
    detail_or_alert-Keeps n email = search (keeps, show_service_detail-Keeps) depth 12

    pub service_detail_page-Keeps : (u : Update) → Keeps user (service_detail_page host u)
    unfolding service_detail_page
    service_detail_page-Keeps u = search (keeps, detail_or_alert-Keeps) depth 12
