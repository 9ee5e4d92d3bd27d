-- ===== src/History.antt =====
-- Histories of the database: any sequence of the calls of services/reseller_service.py that make,
-- delete, resize or extend a service and of the quota edits of services/reseller_edit.py, by any resellers
-- and the admin, on any panels, each panel answering as it likes.
--
-- The handlers of bot/handlers/ get the reseller's row in the session that makes the call, so a
-- call is made with the row that the database holds.
use resellerbot.Prelude.{ℕ, ◌≡◌, Option, some, List}
use resellerbot.Prelude.Int.{ℤ, ◌≤ℤ◌}
use resellerbot.Prelude.Text.{Text}
use resellerbot.Models.{Db, Reseller, Float}
use resellerbot.Panel.{XuiClient, World}
use resellerbot.Repository.Resellers
use resellerbot.Repository.Usage.{active_bytes}
use resellerbot.Service.{
  create_service, delete_service, add_service_traffic, remove_service_traffic,
  update_service_expiry,
}
use resellerbot.Service.Accounts.{IsAccounted}
use resellerbot.Service.Creation.{create_service-IsAccounted}
use resellerbot.Service.Deletion.{delete_service-IsAccounted}
use resellerbot.Service.Resizing.{
  add_service_traffic-IsAccounted, remove_service_traffic-IsAccounted,
}
use resellerbot.Service.Extending.{update_service_expiry-IsAccounted}
use resellerbot.ResellerEdit.{
  apply_quota, apply_add_quota, apply_subtract_quota, apply_reset_quota_usage,
}
use resellerbot.ResellerEdit.Accounts.{
  apply_quota-IsAccounted, apply_add_quota-IsAccounted, apply_subtract_quota-IsAccounted,
  apply_reset_quota_usage-IsAccounted,
}

-- The caller's row is the database's.
abbrev pub IsCurrent : Reseller → Db → Type 0
IsCurrent r db = Resellers.get r.telegram_id db ≡ some r

abbrev pub world : (xui : XuiClient) → Db → xui.State → ℤ → World xui.State
world xui db p now = record { db = db; panel = p; now_ms = now }

pub data Step (db db' : Db) : Type 1 where
  create :
      (xui : XuiClient) (p : xui.State) (now : ℤ) (r : Reseller) (volume : Float) (days : ℤ)
      (ids : Option (List ℕ)) (suffix : Text) (panel_id : ℕ)
      → IsCurrent r db
      → db' ≡ (create_service xui r volume days ids suffix panel_id (world xui db p now)).1.db
      → Step db db'
  delete :
      (xui : XuiClient) (p : xui.State) (now : ℤ) (limit : Float) (r : Reseller) (email : Text)
      → IsCurrent r db
      → db' ≡ (delete_service xui limit r email (world xui db p now)).1.db
      → Step db db'
  grow :
      (xui : XuiClient) (p : xui.State) (now : ℤ) (r : Reseller) (email : Text) (volume : Float)
      → IsCurrent r db
      → db' ≡ (add_service_traffic xui r email volume (world xui db p now)).1.db
      → Step db db'
  shrink :
      (xui : XuiClient) (p : xui.State) (now : ℤ) (r : Reseller) (email : Text) (volume : Float)
      → IsCurrent r db
      → db' ≡ (remove_service_traffic xui r email volume (world xui db p now)).1.db
      → Step db db'
  extend :
      (xui : XuiClient) (p : xui.State) (now : ℤ) (r : Reseller) (email : Text)
      (add_days expiry_ms : Option ℤ)
      → IsCurrent r db
      → db' ≡ (update_service_expiry xui r email add_days expiry_ms (world xui db p now)).1.db
      → Step db db'
  set_quota : (tg : ℕ) (v : Float) → db' ≡ (apply_quota tg v db).1 → Step db db'
  add_quota : (tg : ℕ) (v : Float) → db' ≡ (apply_add_quota tg v db).1 → Step db db'
  subtract_quota : (tg : ℕ) (v : Float) → db' ≡ (apply_subtract_quota tg v db).1 → Step db db'
  reset_usage : (tg : ℕ) → db' ≡ (apply_reset_quota_usage tg db).1 → Step db db'
  -- A call of another kind, or time that passes: services and resellers stay as they are.
  other : db'.clients ≡ db.clients → db'.resellers ≡ db.resellers → Step db db'

pub data Reach (db : Db) : Db → Type 1 where
  here : Reach db db
  next : {db' db'' : Db} → Reach db db' → Step db' db'' → Reach db db''

Step-IsAccounted :
    {db db' : Db}
    → Step db db'
    → IsAccounted db.clients db.resellers
    → IsAccounted db'.clients db'.resellers
Step-IsAccounted {db} (create xui p now r volume days ids suffix panel_id c e) a =
    rw e (create_service-IsAccounted xui r volume days ids suffix panel_id (world xui db p now) a c)
Step-IsAccounted {db} (delete xui p now limit r email c e) a =
    rw e (delete_service-IsAccounted xui limit r email (world xui db p now) a c)
Step-IsAccounted {db} (grow xui p now r email volume c e) a =
    rw e (add_service_traffic-IsAccounted xui r email volume (world xui db p now) a c)
Step-IsAccounted {db} (shrink xui p now r email volume c e) a =
    rw e (remove_service_traffic-IsAccounted xui r email volume (world xui db p now) a c)
Step-IsAccounted {db} (extend xui p now r email add_days expiry_ms c e) a =
    rw e (update_service_expiry-IsAccounted xui r email (world xui db p now) add_days expiry_ms a)
Step-IsAccounted {db} (set_quota tg v e) a = rw e (apply_quota-IsAccounted tg v db a)
Step-IsAccounted {db} (add_quota tg v e) a = rw e (apply_add_quota-IsAccounted tg v db a)
Step-IsAccounted {db} (subtract_quota tg v e) a = rw e (apply_subtract_quota-IsAccounted tg v db a)
Step-IsAccounted {db} (reset_usage tg e) a = rw e (apply_reset_quota_usage-IsAccounted tg db a)
Step-IsAccounted (other cs rs) a = rw (cs, rs) a

pub Reach-IsAccounted :
    {db db' : Db}
    → IsAccounted db.clients db.resellers
    → Reach db db'
    → IsAccounted db'.clients db'.resellers
Reach-IsAccounted a here = a
Reach-IsAccounted a (next r s) = Step-IsAccounted s (Reach-IsAccounted a r)

-- From a database whose accounts agree, after any history of service creations, deletions,
-- resizings and extensions and of the quota edits of the admin, the services of a reseller hold at most what was
-- charged, and the charge is within the quota.
pub quota_never_exceeded :
    (db db' : Db)
    → IsAccounted db.clients db.resellers
    → Reach db db'
    → (tg : ℕ) (r : Reseller) → Resellers.get tg db' ≡ some r
    → (active_bytes tg db' ≤ℤ r.lifetime_allocated_bytes)
      × (r.lifetime_allocated_bytes ≤ℤ r.quota_bytes)
unfolding active_bytes
quota_never_exceeded db db' a reach tg r e =
    let b = Reach-IsAccounted a reach in (b.held tg r e, b.charged tg r e)
