-- ===== src/Panel.antt =====
-- What services/ uses of an `XuiClient` (xui/client.py): the operations of one 3x-ui panel, as an
-- interface. `State` is whatever the panel remembers between two calls.
use resellerbot.Prelude.{ℕ, Bool, Option, List}
use resellerbot.Prelude.Int.{ℤ}
use resellerbot.Prelude.Text.{Text}
use resellerbot.Errors.{Exec, ⊤}
use resellerbot.Models.{Db, Float}

-- A traffic row: its counters, after `_coerce_int`, whether the client is enabled, and its expiry,
-- which is `none` where it is no number.
pub record Traffic : Type 0 where
  pub up : ℤ
  pub down : ℤ
  pub total : ℤ
  pub enable : Bool
  pub expiry_time : Option ℤ

-- The fields of a panel's client that services/ reads, and whether there is no field at all; an
-- expiry that is no number is `none`.
pub record PanelClient : Type 0 where
  pub is_empty : Bool
  pub expiry_time : Option ℤ
  pub limit_ip : ℤ
  pub comment : Text

pub record ClientDelivery : Type 0 where
  pub vless_links : List Text
  pub subscription_links : List Text

pub record XuiClient : Type 1 where
  pub State : Type 0
  pub auto_reseller_group : Bool
  pub get_client : Text → Exec State (Option PanelClient)
  -- Email, volume, inbounds, days and group; returns the subscription id.
  pub create_client : Text → Float → List ℕ → ℤ → Text → Exec State Text
  pub get_client_delivery : Text → Option Text → ℤ → Exec State ClientDelivery
  pub get_traffic : Text → Exec State Traffic
  pub delete_client : Text → Exec State ⊤
  pub set_client_enabled : Text → Bool → Exec State ⊤
  pub add_client_expiry_days : Text → ℤ → Exec State ⊤
  pub set_client_expiry_ms : Text → ℤ → Exec State ⊤
  pub add_client_traffic_bytes : Text → ℤ → Exec State ⊤
  pub subtract_client_traffic_bytes : Text → ℤ → Exec State ⊤
  pub update_limit_ip : Text → ℤ → Exec State ⊤
  pub update_comment : Text → Text → Exec State ⊤

-- The database, the panel, and `int(time.time() * 1000)`.
pub record World (State : Type 0) : Type 0 where
  pub db : Db
  pub panel : State
  pub now_ms : ℤ

module _ {State A : Type 0} where
  abbrev pub on_db : Exec Db A → Exec (World State) A
  on_db m w = let (r, db') = m w.db in (r, record w { db = db' })

  abbrev pub on_panel : Exec State A → Exec (World State) A
  on_panel m w = let (r, panel') = m w.panel in (r, record w { panel = panel' })
