-- ===== src/Repository/Alerts.antt =====
-- `UsageAlertRepository` of db/repository.py: the thresholds that were already notified.
use resellerbot.Prelude.{
  ℕ, Bool, true, false, ◌&&◌, Option, none, some, List, [], ◌∷◌, ◌++◌, map, ◌==◌, any, select,
  remove, fresh_key,
}
use resellerbot.Prelude.Text.{Text, text_eq, strip}
use resellerbot.Errors.{Exec, ⊤, pure, gets, modify, ◌>>=◌}
use resellerbot.Models.{Db, UsageAlertSent}

-- `_client_key`
unfoldable pub client_key : Option Text → Text
client_key none = []
client_key (some email) = strip email

abbrev pub is_for : ℕ → Text → Text → UsageAlertSent → Bool
is_for reseller_tg_id alert_kind key a =
    a.reseller_tg_id == reseller_tg_id
    && (text_eq a.alert_kind alert_kind && text_eq a.client_email key)

module _ (reseller_tg_id : ℕ) (alert_kind : Text) where
  unfoldable pub get_sent_thresholds : Option Text → Db → List ℕ
  get_sent_thresholds client_email db =
      map (λ a. a.threshold_percent)
        (select (is_for reseller_tg_id alert_kind (client_key client_email)) db.alerts)

  unfoldable pub mark_sent : ℕ → Option Text → Exec Db ⊤
  mark_sent threshold_percent client_email = do
    let key = client_key client_email
    existing ← gets (λ db.
        any
          (λ a. is_for reseller_tg_id alert_kind key a && a.threshold_percent == threshold_percent)
          db.alerts)
    elim existing [
      | true ↦ pure tt
      | false ↦ modify λ db. record db {
        alerts =
            db.alerts
            ++ record {
              id = fresh_key (λ (a : UsageAlertSent). a.id) db.alerts;
              reseller_tg_id = reseller_tg_id;
              alert_kind = alert_kind;
              client_email = key;
              threshold_percent = threshold_percent;
            }
              ∷ [];
      }
    ]

  unfoldable pub clear : Option Text → Exec Db ⊤
  clear client_email = modify λ db. record db {
    alerts = remove (is_for reseller_tg_id alert_kind (client_key client_email)) db.alerts;
  }
