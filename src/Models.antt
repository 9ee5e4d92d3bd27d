-- ===== src/Models.antt =====
-- The tables of db/models.py as records, one row each, and the database as the lists of their
-- rows, in order of insertion.
--
-- A column that holds the JSON text of a list of inbound ids is the list itself; NULL is `none`.
-- Byte counts are Python integers; ids are natural numbers. A volume in GB is a finite float,
-- which is exactly `mantissa / 2 ^ scale`; one that `float` reads from a text may also be an
-- infinity or nan.
use resellerbot.Prelude.{ℕ, Bool, Option, List}
use resellerbot.Prelude.Int.{ℤ}
use resellerbot.Prelude.Text.{Text}

pub record Float : Type 0 where
  pub mantissa : ℤ
  pub scale : ℕ

-- What `float` makes of a text: `infinite` has the sign, true for the negative one.
pub data AnyFloat : Type 0 where
  finite : Float → AnyFloat
  infinite : Bool → AnyFloat
  nan : AnyFloat

pub record Panel : Type 0 where
  pub id : ℕ
  pub name : Text
  pub base_url : Text
  pub api_token : Option Text
  pub username : Option Text
  pub password : Option Text
  pub sub_public_url : Option Text
  pub verify_ssl : Bool
  pub auto_vision_flow : Bool
  pub auto_reseller_group : Bool
  pub is_active : Bool

pub record Reseller : Type 0 where
  pub telegram_id : ℕ
  pub panel_id : ℕ
  pub display_name : Option Text
  pub quota_bytes : ℤ
  pub lifetime_allocated_bytes : ℤ
  pub allowed_inbound_ids : List ℕ
  pub attach_inbound_ids : Option (List ℕ)
  pub is_active : Bool
  pub max_clients : Option ℤ
  pub is_system : Bool
  pub created_at : ℕ

pub record ResellerPanel : Type 0 where
  pub reseller_tg_id : ℕ
  pub panel_id : ℕ
  pub quota_bytes : ℤ
  pub lifetime_allocated_bytes : ℤ
  pub allowed_inbound_ids : List ℕ
  pub attach_inbound_ids : Option (List ℕ)
  pub max_clients : Option ℤ
  pub is_active : Bool

pub record ClientRecord : Type 0 where
  pub id : ℕ
  pub reseller_tg_id : ℕ
  pub panel_id : ℕ
  pub email : Text
  pub sub_id : Option Text
  pub inbound_ids : List ℕ
  pub allocated_bytes : ℤ
  pub expiry_time : ℤ
  pub created_at : ℕ

pub record UsageAlertSent : Type 0 where
  pub id : ℕ
  pub reseller_tg_id : ℕ
  pub alert_kind : Text
  pub client_email : Text
  pub threshold_percent : ℕ

pub record ServiceTemplate : Type 0 where
  pub id : ℕ
  pub name : Text
  pub volume_gb : Float
  pub expiry_days : ℤ
  pub sort_order : ℤ
  pub is_active : Bool

pub record Plan : Type 0 where
  pub id : ℕ
  pub name : Text
  pub volume_gb : Float
  pub expiry_days : ℤ
  pub price_toman : ℤ
  pub sort_order : ℤ
  pub is_active : Bool

-- The texts of the column `status`.
pub data Status : Type 0 where
  pending approved rejected : Status

pub record GuestOrder : Type 0 where
  pub id : ℕ
  pub telegram_id : ℕ
  pub username : Option Text
  pub plan_id : ℕ
  pub status : Status
  pub receipt_kind : Text
  pub receipt_file_id : Option Text
  pub receipt_text : Option Text
  pub client_record_id : Option ℕ
  pub reject_reason : Option Text
  pub created_at : ℕ
  pub decided_at : Option ℕ

pub record GuestSalesConfig : Type 0 where
  pub panel_id : Option ℕ
  pub inbound_ids : Option (List ℕ)
  pub card_number : Option Text
  pub card_holder : Option Text
  pub is_enabled : Bool

-- The database. `clock` is what `func.now()` and `datetime.now` read.
pub record Db : Type 0 where
  pub clock : ℕ
  pub panels : List Panel
  pub resellers : List Reseller
  pub assignments : List ResellerPanel
  pub clients : List ClientRecord
  pub alerts : List UsageAlertSent
  pub templates : List ServiceTemplate
  pub plans : List Plan
  pub orders : List GuestOrder
  pub guest_config : Option GuestSalesConfig
