-- ===== src/UsageAlerts/Once.antt =====
-- An alert that was sent is not sent again while the usage stays high.
use resellerbot.Prelude.{
  ℕ, ◌≡◌, ◌∙◌, refl, sym, ap, subst, false≢true, fresh_key, ==_iff, inl, inr, Bool, true, false,
  ◌&&◌, Option, some, List, [], ◌∷◌, ◌++◌, map, arith, any, select, ◌==◌, ==_refl, Bool-cases,
  if◌then◌else◌,
}
use resellerbot.Prelude.Int.{ℤ, pos, ltb_ℤ, leb_ℤ}
use resellerbot.Prelude.Text.{Text, text_eq_refl}
use resellerbot.Errors.{ok}
use resellerbot.Models.{Db, UsageAlertSent}
use resellerbot.Inbounds.{contains}
use resellerbot.Registry.{Site, Network}
use resellerbot.Repository.Alerts
use resellerbot.UsageAlerts.{
  alerts_for, AlertToSend, pending_thresholds, check_usage, send_all, mark_sent,
}

any-append :
    (q : UsageAlertSent → Bool) (xs : List UsageAlertSent) (x : UsageAlertSent)
    → any q (xs ++ x ∷ []) ≡ (if any q xs then true else q x)
any-append q [] x = ground arith
any-append q (y ∷ xs) x = ground (arith, any-append q xs x)

module _ (tg : ℕ) (kind : Text) (email : Option Text) where
  abbrev is_mark : ℕ → UsageAlertSent → Bool
  is_mark t a = Alerts.is_for tg kind (Alerts.client_key email) a && a.threshold_percent == t

  abbrev is_sent : ℕ → Db → Bool
  is_sent t db = contains (Alerts.get_sent_thresholds tg kind email db) t

  contains-select :
      (t : ℕ) (xs : List UsageAlertSent)
      → contains
          (map
            (λ (a : UsageAlertSent). a.threshold_percent)
            (select (Alerts.is_for tg kind (Alerts.client_key email)) xs))
          t
        ≡ any (is_mark t) xs
  contains-select t [] = refl
  contains-select t (x ∷ xs) = ground (arith, contains-select t xs)

  sent_iff_any : (t : ℕ) (db : Db) → is_sent t db ≡ any (is_mark t) db.alerts
  unfolding Alerts.get_sent_thresholds
  sent_iff_any t db = contains-select t db.alerts

  abbrev new_mark : ℕ → Db → UsageAlertSent
  new_mark t db = record {
    id = fresh_key (λ (a : UsageAlertSent). a.id) db.alerts;
    reseller_tg_id = tg;
    alert_kind = kind;
    client_email = Alerts.client_key email;
    threshold_percent = t;
  }

  abbrev after : ℕ → Db → Db
  after t db = (Alerts.mark_sent tg kind t email db).1

  marks : (t : ℕ) (db : Db) → any (is_mark t) (after t db).alerts ≡ true
  unfolding Alerts.mark_sent
  marks t db =
      let key = Alerts.client_key email in
      ground (
        arith,
        any-append (is_mark t) db.alerts (new_mark t db),
        text_eq_refl kind,
        text_eq_refl key,
        ==_refl tg,
        ==_refl t,
      )

  keeps :
      (t u : ℕ) (db : Db)
      → any (is_mark u) db.alerts ≡ true
      → any (is_mark u) (after t db).alerts ≡ true
  unfolding Alerts.mark_sent
  keeps t u db h = ground (arith, any-append (is_mark u) db.alerts (new_mark t db))

  mark_all : List ℕ → Db → Db
  mark_all [] db = db
  mark_all (t ∷ ts) db = mark_all ts (after t db)

  keeps_all :
      (ts : List ℕ) (u : ℕ) (db : Db)
      → any (is_mark u) db.alerts ≡ true
      → any (is_mark u) (mark_all ts db).alerts ≡ true
  unfolding mark_all
  keeps_all [] u db h = h
  keeps_all (t ∷ ts) u db h = keeps_all ts u (after t db) (keeps t u db h)

  marks_all :
      (ts : List ℕ) (u : ℕ) (db : Db)
      → contains ts u ≡ true
      → any (is_mark u) (mark_all ts db).alerts ≡ true
  unfolding mark_all
  marks_all [] u db h = absurd (false≢true h)
  marks_all (t ∷ ts) u db h = elim (Bool-cases (u == t)) [
    | inl e ↦ keeps_all ts u (after t db) (
        subst (λ v. any (is_mark v) (after t db).alerts ≡ true) {x = t} {y = u}
          (sym ((==_iff u t).0 e)) (marks t db))
    | inr e ↦ marks_all ts u (after t db) (rw e at h)
  ]

-- Thresholds that were sent, or are marked now, are pending no more.
pending_none :
    (p : ℤ) (sent sent' : List ℕ)
    → ((t : ℕ) → contains sent t ≡ true → contains sent' t ≡ true)
    → ((t : ℕ) → contains (pending_thresholds p sent) t ≡ true → contains sent' t ≡ true)
    → pending_thresholds p sent' ≡ []
unfolding pending_thresholds
pending_none p sent sent' a b = elim (Bool-cases (leb_ℤ (pos 80) p)) [
  | inr l ↦ ground arith
  | inl l ↦ elim (Bool-cases (leb_ℤ (pos 90) p)) [
    | inr m ↦ ground (arith, reached 80 (λ n. ground arith))
    | inl m ↦ ground (arith, reached 80 (λ n. ground arith), reached 90 (λ n. ground arith))
  ]
]
  where
    reached :
        (t : ℕ)
        → (contains sent t ≡ false → contains (pending_thresholds p sent) t ≡ true)
        → contains sent' t ≡ true
    reached t f = elim (Bool-cases (contains sent t)) [ inl e ↦ a t e | inr e ↦ b t (f e) ]

ok-mark_sent :
    (tg t : ℕ) (kind : Text) (email : Option Text) (db : Db)
    → (Alerts.mark_sent tg kind t email db).0 ≡ ok tt
unfolding Alerts.mark_sent
ok-mark_sent tg t kind email db = ground arith

module _ (net : Network) (tg : ℕ) (kind : Text) (email : Option Text) where
  db-send_all :
      (ts : List ℕ) (s : Site)
      → (send_all net (λ _. true) (alerts_for tg kind email ts) s).1.db
        ≡ mark_all tg kind email ts s.db
  unfolding send_all mark_all mark_sent
  db-send_all [] s = refl
  db-send_all (t ∷ ts) s = ground (
    arith,
    ok-mark_sent tg t kind email s.db,
    db-send_all ts (record s { db = after tg kind email t s.db }),
  )

  check-low :
      (p : ℤ) (db : Db)
      → ltb_ℤ p (pos 75) ≡ true
      → (check_usage tg kind email (some p) db).0 ≡ ok []
  unfolding check_usage Alerts.clear
  check-low p db l = ground arith

  check-high :
      (p : ℤ) (db : Db)
      → ltb_ℤ p (pos 75) ≡ false
      → check_usage tg kind email (some p) db ≡ (
        ok (
            alerts_for tg kind email
              (pending_thresholds p (Alerts.get_sent_thresholds tg kind email db))),
        db,
      )
  unfolding check_usage
  check-high p db l = ground arith

  -- When all the alerts that a check asks for were delivered, the same usage asks for none.
  pub no_second_alert :
      (p : ℤ) (s : Site) (alerts : List AlertToSend)
      → (check_usage tg kind email (some p) s.db).0 ≡ ok alerts
      → let checked = record s { db = (check_usage tg kind email (some p) s.db).1 } in
        let sent = (send_all net (λ _. true) alerts checked).1 in
        (check_usage tg kind email (some p) sent.db).0 ≡ ok []
  no_second_alert p s alerts h = elim (Bool-cases (ltb_ℤ p (pos 75))) [
    | inl l ↦ check-low p _ l
    | inr l ↦
        let ts = pending_thresholds p (Alerts.get_sent_thresholds tg kind email s.db) in
        let last = mark_all tg kind email ts s.db in
        let first = check-high p s.db l in
        let same : ok alerts ≡ ok (alerts_for tg kind email ts) = sym h ∙ ap (λ x. x.0) first in
        let asked : alerts ≡ alerts_for tg kind email ts = cc in
        let none_left : pending_thresholds p (Alerts.get_sent_thresholds tg kind email last) ≡ [] =
          pending_none p (Alerts.get_sent_thresholds tg kind email s.db)
            (Alerts.get_sent_thresholds tg kind email last)
            (λ t e.
              sent_iff_any tg kind email t last
              ∙ keeps_all tg kind email ts t s.db (sym (sent_iff_any tg kind email t s.db) ∙ e))
            (λ t e. sent_iff_any tg kind email t last ∙ marks_all tg kind email ts t s.db e) in
        rw (first, asked, db-send_all ts s, check-high p last l, none_left) refl
  ]
