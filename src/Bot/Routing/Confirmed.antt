-- ===== src/Bot/Routing/Confirmed.antt =====
-- The confirmation of a new service whose volume is nan or infinite (bot/handlers/reseller.py).
use resellerbot.Prelude.{
  ℕ, ◌≡◌, ◌∙◌, refl, inl, inr, Bool, Option, none, some, Option-cases, ap, arith,
}
use resellerbot.Prelude.Int.{ℤ}
use resellerbot.Prelude.Text.{Text}
use resellerbot.Errors.{Error, Exec, quota_exceeded, xui_error}
use resellerbot.Models.{Reseller, Panel, Float, AnyFloat, finite, infinite, nan}
use resellerbot.Registry.{Site, on_service}
use resellerbot.RateLimit.{check}
use resellerbot.Service.AnyVolume.{create_service_of, db-create_refused}
use resellerbot.Bot.Chat.{
  Data, Chat, Update, Host, Handler, ◌>>=◌, ◌>>◌, user_of, pure, raise, gets, stop, finish, stop_if,
  if_none, modify, say, update_data, run, catching, on_message, clear, non_empty,
}
use resellerbot.Bot.Said.{Said, alerted, create_incomplete}
use resellerbot.Bot.Confirm.{
  days_of, client_for, creation_refused, create_confirmed, confirm_create,
}
use resellerbot.Bot.Moves.Rules.{Flow-cases}
use resellerbot.Bot.Moves.Created.{db-client_for}

-- A handler that leaves the database alone.
record IsStill {A : Type 0} (m : Handler A) : Type 0 where
  still : (c : Chat) → (m c).1.site.db ≡ c.site.db

>>=-IsStill :
    {A B : Type 0} (m : Handler A) (k : A → Handler B)
    → IsStill m
    → ((a : A) → IsStill (k a))
    → IsStill (m >>= k)
unfolding ◌>>=◌
>>=-IsStill m k h after = record {
  still = λ c. elim (Flow-cases (m c).0) [
    | inl (a, e) ↦ rw (◌>>=◌, e) ((after a).still (m c).1 ∙ h.still c)
    | inr (inl e) ↦ rw (◌>>=◌, e) (h.still c)
    | inr (inr (x, e)) ↦ rw (◌>>=◌, e) (h.still c)
  ];
}

catching-IsStill :
    {A : Type 0} (m : Handler A) (k : Error → Handler A)
    → IsStill m
    → ((e : Error) → IsStill (k e))
    → IsStill (catching m k)
unfolding catching
catching-IsStill m k h after = record {
  still = λ c. elim (Flow-cases (m c).0) [
    | inl (a, e) ↦ rw (catching, e) (h.still c)
    | inr (inl e) ↦ rw (catching, e) (h.still c)
    | inr (inr (x, e)) ↦ rw (catching, e) ((after x).still (m c).1 ∙ h.still c)
  ];
}

if_none-IsStill :
    {A B : Type 0} (m : Handler B) (o : Option A) (k : A → Handler B)
    → IsStill m
    → ((a : A) → IsStill (k a))
    → IsStill (if_none o m k)
unfolding if_none
if_none-IsStill m none k h after = h
if_none-IsStill m (some a) k h after = after a

say-IsStill : (x : Said) → IsStill (say x)
unfolding say modify
say-IsStill x = record { still = λ c. refl }

stop-IsStill : {A : Type 0} → IsStill (stop {A = A})
unfolding stop
stop-IsStill = record { still = λ c. refl }

raise-IsStill : {A : Type 0} (e : Error) → IsStill (raise {A = A} e)
unfolding raise
raise-IsStill e = record { still = λ c. refl }

gets-IsStill : {A : Type 0} (f : Chat → A) → IsStill (gets f)
unfolding gets
gets-IsStill f = record { still = λ c. refl }

clear-IsStill : IsStill clear
unfolding clear modify
clear-IsStill = record { still = λ c. refl }

locked-IsStill : (b : Bool) → IsStill (update_data (λ d. record d { create_locked = b }))
unfolding update_data modify
locked-IsStill b = record { still = λ c. refl }

on_message-IsStill : (u : Update) (x : Said) → IsStill (on_message u x)
unfolding on_message say modify raise
on_message-IsStill u x = record { still = λ c. ground arith }

ruleset stills = (
  >>=-IsStill, catching-IsStill, if_none-IsStill, say-IsStill, stop-IsStill, raise-IsStill,
  gets-IsStill, clear-IsStill, locked-IsStill, on_message-IsStill,
)

creation_refused-IsStill : (u : Update) (e : Error) → IsStill (creation_refused u e)
unfolding creation_refused
creation_refused-IsStill u (quota_exceeded q) = search stills depth 12
creation_refused-IsStill u (xui_error x) = search stills depth 12
creation_refused-IsStill u e = raise-IsStill e

client_for-IsStill : (host : Host) (r : Reseller) (p : ℕ) → IsStill (client_for host r p)
client_for-IsStill host r p = record { still = λ c. db-client_for host r p c }

run-IsStill : {A : Type 0} (m : Exec Site A) → ((s : Site) → (m s).1.db ≡ s.db) → IsStill (run m)
unfolding run
run-IsStill m h = record { still = λ c. ground (arith, h c.site) }

-- The call of the service, on a volume that has no number of bytes.
refused_run :
    (host : Host) (client : Panel) (r : Reseller) (v : AnyFloat) (days : ℤ) (suffix : Text) (p : ℕ)
    → ¬ ((f : Float) × (v ≡ finite f))
    → IsStill (
        run (
          on_service host.net client
            (create_service_of (host.net.connect client) r v days none suffix p)))
unfolding create_service_of on_service
refused_run host client r (finite f) days suffix p odd = absurd (odd (f, refl))
refused_run host client r (infinite b) days suffix p odd =
    run-IsStill _ λ s. db-create_refused (host.net.connect client) _ r _ (infinite b) none p
refused_run host client r nan days suffix p odd =
    run-IsStill _ λ s. db-create_refused (host.net.connect client) _ r _ nan none p

create_confirmed-IsStill :
    (host : Host) (u : Update) (user : ℕ) (v : AnyFloat) (days : ℤ) (suffix : Text) (p : ℕ)
    → ¬ ((f : Float) × (v ≡ finite f))
    → IsStill (create_confirmed host u user v days suffix p)
unfolding create_confirmed
create_confirmed-IsStill host u user v days suffix p odd =
    search (refused_run, odd, client_for-IsStill, creation_refused-IsStill, stills) depth 16

-- What `confirm_create` does with the data of the chat.
abbrev with_data : Host → Update → ℕ → Data → Handler Unit
with_data host u user d =
    let incomplete : Handler Unit = clear >> finish (alerted create_incomplete) in
    if_none d.volume_gb incomplete λ volume_gb.
      if_none (non_empty d.client_suffix) incomplete λ suffix.
        if_none d.panel_id incomplete
          λ panel_id. create_confirmed host u user volume_gb (days_of d.expiry_days) suffix panel_id

incomplete-IsStill : (x : Said) → IsStill (clear >>= λ _. finish {A = Unit} x)
incomplete-IsStill x = search stills depth 12

-- As `if_none-IsStill`, with what the value that is there is.
if_none-known :
    {A B : Type 0} (m : Handler B) (o : Option A) (k : A → Handler B)
    → IsStill m
    → ((a : A) → o ≡ some a → IsStill (k a))
    → IsStill (if_none o m k)
unfolding if_none
if_none-known m none k h after = h
if_none-known m (some a) k h after = after a refl

with_data-IsStill :
    (host : Host) (u : Update) (user : ℕ) (d : Data)
    → ¬ ((f : Float) × (d.volume_gb ≡ some (finite f)))
    → IsStill (with_data host u user d)
with_data-IsStill host u user d odd =
    let ended = incomplete-IsStill (alerted create_incomplete) in
    if_none-known _ _ _ ended λ v e. if_none-IsStill _ _ _ ended λ suffix.
      if_none-IsStill _ _ _ ended λ p.
        create_confirmed-IsStill host u user v _ suffix p λ (f, same). odd (f, e ∙ ap some same)

-- A confirmation writes nothing to the database unless the chat has a finite volume stored: with no
-- volume, with nan and with an infinity, whatever else is stored and however it ends.
pub confirm_create_unwritten :
    (host : Host) (u : Update) (c : Chat)
    → ¬ ((f : Float) × (c.form.volume_gb ≡ some (finite f)))
    → (confirm_create host u c).1.site.db ≡ c.site.db
unfolding confirm_create ◌>>=◌ user_of gets stop_if pure stop say modify
confirm_create_unwritten host u c odd = elim (Option-cases u.from_user) [
  | inl e ↦ ground arith
  | inr (user, e) ↦
      let counted : Chat = record c {
        hits = (check host.create_rate_limit host.window user c.time c.hits).1;
      } in
      ground (arith, (with_data-IsStill host u user c.form odd).still counted)
]
