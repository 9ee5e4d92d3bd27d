-- ===== src/UsageAlerts.antt =====
-- services/usage_alerts.py: which thresholds of a quota, or of a service's volume, are to be
-- notified, each once until the usage falls below 75 %.
--
-- `round(used * 100 / total)` is taken of the exact quotient, with ties to the even number.
pub mod Once
use resellerbot.Prelude.{
  ℕ, zero, suc, ◌*◌, ◌/◌, ◌%◌, ◌+◌, Bool, true, false, not, ◌&&◌, ◌||◌, Option, none, some, List,
  [], ◌∷◌, ◌++◌, ◌==◌, leb, ltb, if◌then◌else◌,
}
use resellerbot.Prelude.Int.{ℤ, pos, negsuc, sub_ℕ, ◌+ℤ◌, ltb_ℤ, leb_ℤ}
use resellerbot.Prelude.Text.{Text, codes}
use resellerbot.Errors.{Exec, ⊤, pure, gets, ◌>>=◌, ◌>>◌, except_xui}
use resellerbot.Models.{Db, Reseller, ClientRecord}
use resellerbot.Inbounds.{contains}
use resellerbot.Panel.{XuiClient, Traffic}
use resellerbot.Quota.{global_status}
use resellerbot.Registry.{Site, Network, loaded_client, on_client, on_site_db}
use resellerbot.Repository.Resellers
use resellerbot.Repository.Clients
use resellerbot.Repository.Alerts

abbrev pub reset_below_percent : ℕ
reset_below_percent = 75

abbrev pub reseller_quota : Text
reseller_quota = codes "reseller_quota"

abbrev pub client_traffic : Text
client_traffic = codes "client_traffic"

-- `AlertToSend`, without its text.
pub record AlertToSend : Type 0 where
  pub reseller_tg_id : ℕ
  pub alert_kind : Text
  pub threshold_percent : ℕ
  pub client_email : Option Text

unfoldable pub pending_thresholds : ℤ → List ℕ → List ℕ
pending_thresholds percent already_sent =
    if ltb_ℤ percent (pos reset_below_percent)
    then []
    else ((if leb_ℤ (pos 80) percent && not (contains already_sent 80) then 80 ∷ [] else [])
        ++ (if leb_ℤ (pos 90) percent && not (contains already_sent 90) then 90 ∷ [] else []))

-- The natural number nearest to `n / d`, the even one of two.
unfoldable pub round_div : ℕ → ℕ → ℕ
round_div n d =
    let q = n / d in
    let r = n % d in
    if ltb (2 * r) d then q else if ltb d (2 * r) then suc q else if q % 2 == 0 then q else suc q

unfoldable pub usage_percent : ℤ → ℤ → Option ℤ
usage_percent used (negsuc _) = none
usage_percent used (pos zero) = none
usage_percent (pos used) (pos (suc total)) =
    let percent = round_div (used * 100) (suc total) in
    some (if ltb 100 percent then pos 100 else pos percent)
usage_percent (negsuc used) (pos (suc total)) =
    some (sub_ℕ 0 (round_div (suc used * 100) (suc total)))

abbrev pub alerts_for : ℕ → Text → Option Text → List ℕ → List AlertToSend
alerts_for reseller_tg_id alert_kind client_email [] = []
alerts_for reseller_tg_id alert_kind client_email (t ∷ ts) =
    record {
      reseller_tg_id = reseller_tg_id;
      alert_kind = alert_kind;
      threshold_percent = t;
      client_email = client_email;
    }
    ∷ alerts_for reseller_tg_id alert_kind client_email ts

-- What `_check_reseller_quotas` and `_check_one_client` do with the percentage: below 75 the sent
-- marks are cleared.
unfoldable pub check_usage : ℕ → Text → Option Text → Option ℤ → Exec Db (List AlertToSend)
check_usage reseller_tg_id alert_kind client_email none = pure []
check_usage reseller_tg_id alert_kind client_email (some percent) = do
  sent ← gets (Alerts.get_sent_thresholds reseller_tg_id alert_kind client_email)
  elim (ltb_ℤ percent (pos reset_below_percent)) [
    | true ↦ do Alerts.clear reseller_tg_id alert_kind client_email; pure []
    | false ↦
        pure (alerts_for reseller_tg_id alert_kind client_email (pending_thresholds percent sent))
  ]

-- `_check_reseller_quotas`
unfoldable pub check_reseller_quotas : Reseller → Exec Db (List AlertToSend)
check_reseller_quotas reseller = elim (leb_ℤ reseller.quota_bytes (pos 0)) [
  | true ↦ pure []
  | false ↦ do
    st ← gets (global_status reseller)
    check_usage reseller.telegram_id reseller_quota (some [])
        (usage_percent st.lifetime_bytes st.quota_bytes)
]

-- `mark_sent`
unfoldable pub mark_sent : AlertToSend → Exec Db ⊤
mark_sent alert =
    Alerts.mark_sent alert.reseller_tg_id alert.alert_kind alert.threshold_percent
      alert.client_email

-- A call that answers, beside the `none` of one that raises.
abbrev some_result : {S A : Type 0} → Exec S A → Exec S (Option A)
some_result m = do a ← m; pure (some a)

module _ (net : Network) where
  open net use {connect}

  -- `_check_one_client`: nothing is notified when the panel is not loaded or does not answer.
  unfoldable pub check_one_client : Reseller → ClientRecord → Exec Site (List AlertToSend)
  check_one_client reseller client = do
    loaded ← gets (loaded_client client.panel_id)
    elim loaded [
      | none ↦ pure []
      | some p ↦ do
        raw ← except_xui (on_client net p (some_result ((connect p).get_traffic client.email))) none
        elim raw [
          | none ↦ pure []
          | some t ↦ on_site_db (
              check_usage reseller.telegram_id client_traffic (some client.email) (
                usage_percent (t.up +ℤ t.down)
                  (if leb_ℤ t.total (pos 0) then client.allocated_bytes else t.total)))
        ]
    ]

  -- `_check_clients`
  check_each : Reseller → List ClientRecord → Exec Site (List AlertToSend)
  check_each reseller [] = pure []
  check_each reseller (c ∷ cs) = do
    alerts ← check_one_client reseller c
    rest ← check_each reseller cs
    pure (alerts ++ rest)

  unfoldable pub check_clients : Reseller → Exec Site (List AlertToSend)
  unfolding check_each
  check_clients reseller = do
    clients ← gets (λ s. Clients.list_for_reseller reseller.telegram_id s.db)
    check_each reseller clients

  collect : List Reseller → Exec Site (List AlertToSend)
  collect [] = pure []
  collect (r ∷ rs) = do
    alerts ← elim r.is_active [
      | false ↦ pure []
      | true ↦ do
        quotas ← on_site_db (check_reseller_quotas r)
        clients ← check_clients r
        pure (quotas ++ clients)
    ]
    rest ← collect rs
    pure (alerts ++ rest)

  unfoldable pub collect_pending_alerts : Exec Site (List AlertToSend)
  unfolding collect
  collect_pending_alerts = do resellers ← gets (λ s. Resellers.list_all s.db); collect resellers

  -- The messages of a cycle: `delivers` says which of them Telegram accepts. One that it refuses is
  -- not marked.
  unfoldable pub send_all : (AlertToSend → Bool) → List AlertToSend → Exec Site ℕ
  send_all delivers [] = pure 0
  send_all delivers (a ∷ alerts) = do
    sent ← elim (delivers a) [ false ↦ pure 0 | true ↦ do on_site_db (mark_sent a); pure 1 ]
    rest ← send_all delivers alerts
    pure (sent + rest)

  unfoldable pub run_usage_alert_cycle : (AlertToSend → Bool) → Exec Site ℕ
  run_usage_alert_cycle delivers = do pending ← collect_pending_alerts; send_all delivers pending
