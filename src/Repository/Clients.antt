-- ===== src/Repository/Clients.antt =====
-- `ClientRepository` of db/repository.py: the services of the resellers.
pub mod Active
pub mod Changes
use resellerbot.Prelude.{
  ℕ, Bool, true, false, ◌&&◌, Option, none, some, List, [], ◌∷◌, ◌++◌, ◌==◌, leb, ltb,
  if◌then◌else◌, find, select, update, remove, any, is_some, order_by, fresh_key,
}
use resellerbot.Prelude.Int.{ℤ, pos, ◌+ℤ◌, ◌-ℤ◌, max_ℤ}
use resellerbot.Prelude.Text.{Text, text_eq}
use resellerbot.Errors.{
  Exec, ⊤, pure, raise, gets, checks, modify, ◌>>=◌, ◌>>◌, raise_if, integrity_error,
}
use resellerbot.Models.{Db, ClientRecord}
use resellerbot.Inbounds.{contains, is_empty}

abbrev pub has_email : Text → ClientRecord → Bool
has_email email c = text_eq c.email email

abbrev pub on_panel : ℕ → Text → ClientRecord → Bool
on_panel panel_id email c = has_email email c && c.panel_id == panel_id

abbrev pub owned : ℕ → Text → ClientRecord → Bool
owned reseller_tg_id email c = c.reseller_tg_id == reseller_tg_id && has_email email c

abbrev pub has_id : ℕ → ClientRecord → Bool
has_id id c = c.id == id

unfoldable pub get_by_email : Text → Option ℕ → Db → Option ClientRecord
get_by_email email none db = find (has_email email) db.clients
get_by_email email (some panel_id) db = find (on_panel panel_id email) db.clients

-- The panel is not part of the query, and there is no ORDER BY: of several rows, the model takes the
-- first in order of insertion.
abbrev pub get_for_reseller_email : ℕ → Text → Db → Option ClientRecord
get_for_reseller_email reseller_tg_id email db = find (owned reseller_tg_id email) db.clients

abbrev newest_first : ClientRecord → ClientRecord → Bool
newest_first a b = leb b.created_at a.created_at

unfoldable pub list_for_reseller_on_panels : ℕ → List ℕ → Db → List ClientRecord
list_for_reseller_on_panels reseller_tg_id panel_ids db =
    if is_empty panel_ids
    then []
    else order_by newest_first (
        select (λ c. c.reseller_tg_id == reseller_tg_id && contains panel_ids c.panel_id)
          db.clients)

unfoldable pub email_exists : Text → ℕ → Db → Bool
unfolding get_by_email
email_exists email panel_id db = is_some (get_by_email email (some panel_id) db)

unfoldable pub list_for_reseller : ℕ → Db → List ClientRecord
list_for_reseller reseller_tg_id db =
    order_by newest_first (select (λ c. c.reseller_tg_id == reseller_tg_id) db.clients)

abbrev by_reseller : ClientRecord → ClientRecord → Bool
by_reseller a b = leb a.reseller_tg_id b.reseller_tg_id

unfoldable pub list_all : Db → List ClientRecord
list_all db = order_by by_reseller db.clients

-- The constraint `uq_client_panel_email` refuses a second row for an email on a panel.
unfoldable pub add : ℕ → ℕ → Text → List ℕ → ℤ → ℤ → Option Text → Exec Db ClientRecord
add reseller_tg_id panel_id email inbound_ids allocated_bytes expiry_time sub_id = do
  taken ← gets (λ db. any (on_panel panel_id email) db.clients)
  raise_if taken integrity_error
  id ← gets (λ db. fresh_key (λ (c : ClientRecord). c.id) db.clients)
  now ← gets (λ db. db.clock)
  let row : ClientRecord = record {
    id = id;
    reseller_tg_id = reseller_tg_id;
    panel_id = panel_id;
    email = email;
    sub_id = sub_id;
    inbound_ids = inbound_ids;
    allocated_bytes = allocated_bytes;
    expiry_time = expiry_time;
    created_at = now;
  }
  modify (λ db. record db { clients = db.clients ++ row ∷ [] })
  pure row

-- The commit of a changed row.
abbrev pub save : ClientRecord → Exec Db ⊤
save row = modify λ db. record db { clients = update (has_id row.id) (λ _. row) db.clients }

unfoldable pub set_sub_id : ClientRecord → Text → Exec Db ClientRecord
set_sub_id c sub_id = do let row = record c { sub_id = some sub_id }; save row; pure row

unfoldable pub set_expiry_time : ClientRecord → ℤ → Exec Db ClientRecord
set_expiry_time c expiry_ms = do let row = record c { expiry_time = expiry_ms }; save row; pure row

unfoldable pub add_allocated_bytes : ClientRecord → ℤ → Exec Db ClientRecord
add_allocated_bytes c delta = do
  let row = record c { allocated_bytes = c.allocated_bytes +ℤ delta }
  save row
  pure row

unfoldable pub subtract_allocated_bytes : ClientRecord → ℤ → Exec Db ClientRecord
subtract_allocated_bytes c delta = do
  let row = record c { allocated_bytes = max_ℤ (pos 0) (c.allocated_bytes -ℤ delta) }
  save row
  pure row

unfoldable pub delete : ClientRecord → Exec Db ⊤
delete c = modify λ db. record db { clients = remove (has_id c.id) db.clients }
