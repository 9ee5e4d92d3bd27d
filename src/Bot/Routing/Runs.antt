-- ===== src/Bot/Routing/Runs.antt =====
-- Conversations: any sequence of the updates of one user, while others act on the same database.
use resellerbot.Prelude.{ℕ, ◌≡◌, ap, some}
use resellerbot.Prelude.Int.{◌≤ℤ◌}
use resellerbot.Models.{Db, Reseller}
use resellerbot.RateLimit.{Hits}
use resellerbot.Registry.{Site}
use resellerbot.Repository.Resellers
use resellerbot.Repository.Usage.{active_bytes}
use resellerbot.Service.Accounts.{IsAccounted}
use resellerbot.History.{Step, Reach, quota_never_exceeded}
use resellerbot.Bot.Chat.{Chat, Host}
use resellerbot.Bot.Moves.{
  IsReadyChat, Serves, Move, Moves, Moves-IsReady, create, delete, grow, shrink, extend, look,
  spoken, counted, served, ended, advanced, panel_picked, volume_given, template_picked, days_given,
  named, previewed, locked, addressed, searched, traffic_asked, here, next,
}
use resellerbot.Bot.Routing.{Labels, Event, update_of, dispatch}
use resellerbot.Bot.Routing.Steps.{dispatch-Moves}

Serves-Step : {user : ℕ} {db db' : Db} → Serves user db db' → Step db db'
Serves-Step (create xui p now r v days ids s panel_id mine c e) =
    Step.create xui p now r v days ids s panel_id c e
Serves-Step (delete xui p now limit r email mine c e) = Step.delete xui p now limit r email c e
Serves-Step (grow xui p now r email v mine c e) = Step.grow xui p now r email v c e
Serves-Step (shrink xui p now r email v mine c e) = Step.shrink xui p now r email v c e
Serves-Step (extend xui p now r email days ms mine c e) = Step.extend xui p now r email days ms c e
Serves-Step (look e) = Step.other (ap (λ (d : Db). d.clients) e) (ap (λ (d : Db). d.resellers) e)

-- A move is a step of the history, or leaves the database alone.
Move-Reach :
    {user : ℕ} {c d : Chat} {db : Db} → Move user c d → Reach db c.site.db → Reach db d.site.db
Move-Reach (spoken x) r = r
Move-Reach (counted h) r = r
Move-Reach (served s m) r = Reach.next r (Serves-Step m)
Move-Reach ended r = r
Move-Reach (advanced st h) r = r
Move-Reach (panel_picked p name) r = r
Move-Reach (volume_given v low) r = r
Move-Reach (template_picked p v days name low) r = r
Move-Reach (days_given days) r = r
Move-Reach (named s st) r = r
Move-Reach (previewed email) r = r
Move-Reach (locked b) r = r
Move-Reach (addressed email) r = r
Move-Reach (searched q) r = r
Move-Reach (traffic_asked email v st h) r = r

Moves-Reach :
    {user : ℕ} {c d : Chat} {db : Db} → Moves user c d → Reach db c.site.db → Reach db d.site.db
Moves-Reach here r = r
Moves-Reach (next m s) r = Move-Reach s (Moves-Reach m r)

Reach-trans : {a b c : Db} → Reach a b → Reach b c → Reach a c
Reach-trans r Reach.here = r
Reach-trans r (Reach.next s t) = Reach.next (Reach-trans r s) t

-- The chats that a conversation of `user` comes to, with what others do in between: they change the
-- database by a history, and the registry, the rate limits and the clock as they like.
pub data Run (host : Host) (labels : Labels) (user : ℕ) (c : Chat) : Chat → Type 1 where
  start : Run host labels user c c
  event :
      {d : Chat} (e : Event)
      → (update_of e).from_user ≡ some user
      → Run host labels user c d
      → Run host labels user c (dispatch host labels e d)
  elsewhere :
      {d : Chat} (s : Site) (h : Hits) (t : ℕ)
      → Reach d.site.db s.db
      → Run host labels user c d
      → Run host labels user c (record d { site = s; hits = h; time = t })

module _ (host : Host) (labels : Labels) (user : ℕ) (c : Chat) (ready : IsReadyChat c) where
  -- From a chat whose state has its data, in every chat that a conversation comes to the state has
  -- its data: who is asked for the days or the name has stored a panel and a volume that is not
  -- below 20 GB, where nan and the infinity are not below either, and who is asked to confirm has
  -- also stored a name.
  pub Run-IsReady : (d : Chat) → Run host labels user c d → IsReadyChat d
  Run-IsReady d start = ready
  Run-IsReady d (event {d = d'} e from r) =
      let before = Run-IsReady d' r in
      Moves-IsReady (dispatch-Moves user host labels e d' from before) before
  Run-IsReady d (elsewhere {d = d'} s h t m r) = Run-IsReady d' r

  Run-Reach : (d : Chat) → Run host labels user c d → Reach c.site.db d.site.db
  Run-Reach d start = Reach.here
  Run-Reach d (event {d = d'} e from r) =
      Moves-Reach (dispatch-Moves user host labels e d' from (Run-IsReady d' r)) (Run-Reach d' r)
  Run-Reach d (elsewhere {d = d'} s h t m r) = Reach-trans (Run-Reach d' r) m

  -- From a chat whose state has its data and a database whose accounts agree, after any
  -- conversation, and whatever histories others add in between, the services of every reseller hold
  -- at most what was charged, and the charge is within the quota.
  pub conversation_within_quota :
      IsAccounted c.site.db.clients c.site.db.resellers
      → (d : Chat) → Run host labels user c d
      → (tg : ℕ) (r : Reseller) → Resellers.get tg d.site.db ≡ some r
      → (active_bytes tg d.site.db ≤ℤ r.lifetime_allocated_bytes)
        × (r.lifetime_allocated_bytes ≤ℤ r.quota_bytes)
  conversation_within_quota a d run tg r e =
      quota_never_exceeded c.site.db d.site.db a (Run-Reach d run) tg r e
