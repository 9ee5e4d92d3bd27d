-- ===== src/Repository/Usage.antt =====
-- The aggregates of `ResellerRepository` over the table of services.
use resellerbot.Prelude.{ℕ, Bool, ◌&&◌, ◌==◌, count_where, sum_where}
use resellerbot.Prelude.Int.{ℤ}
use resellerbot.Models.{Db, ClientRecord}

abbrev pub owned_by : ℕ → ClientRecord → Bool
owned_by telegram_id c = c.reseller_tg_id == telegram_id

abbrev pub owned_on_panel : ℕ → ℕ → ClientRecord → Bool
owned_on_panel telegram_id panel_id c = c.reseller_tg_id == telegram_id && c.panel_id == panel_id

abbrev pub allocated : ClientRecord → ℤ
allocated c = c.allocated_bytes

unfoldable pub active_bytes : ℕ → Db → ℤ
active_bytes telegram_id db = sum_where (owned_by telegram_id) allocated db.clients

unfoldable pub client_count : ℕ → Db → ℕ
client_count telegram_id db = count_where (owned_by telegram_id) db.clients

unfoldable pub client_count_on_panel : ℕ → ℕ → Db → ℕ
client_count_on_panel telegram_id panel_id db =
    count_where (owned_on_panel telegram_id panel_id) db.clients

unfoldable pub active_bytes_on_panel : ℕ → ℕ → Db → ℤ
active_bytes_on_panel telegram_id panel_id db =
    sum_where (owned_on_panel telegram_id panel_id) allocated db.clients
