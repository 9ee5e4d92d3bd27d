-- ===== src/Tests/Sample.antt =====
-- A database with one panel and two resellers, and a panel that answers at once.
use resellerbot.Prelude.{ℕ, true, false, none, some, [], ◌∷◌}
use resellerbot.Prelude.Int.{pos}
use resellerbot.Prelude.Text.{codes}
use resellerbot.Errors.{pure, raise, http_error, xui_error, panel_refused}
use resellerbot.Models.{Db, Panel, Reseller, ResellerPanel, ClientRecord}
use resellerbot.Panel.{XuiClient, World}

abbrev pub panel : Panel
panel = record {
  id = 1;
  name = codes "main";
  base_url = codes "https://x";
  api_token = some (codes "t");
  username = none;
  password = none;
  sub_public_url = none;
  verify_ssl = true;
  auto_vision_flow = true;
  auto_reseller_group = true;
  is_active = true;
}

-- 100 GB, of which 40 GB are charged.
abbrev pub ali : Reseller
ali = record {
  telegram_id = 7;
  panel_id = 1;
  display_name = some (codes "ali");
  quota_bytes = pos 107374182400;
  lifetime_allocated_bytes = pos 42949672960;
  allowed_inbound_ids = 1 ∷ 2 ∷ [];
  attach_inbound_ids = some (1 ∷ []);
  is_active = true;
  max_clients = some (pos 5);
  is_system = false;
  created_at = 10;
}

abbrev pub sara : Reseller
sara = record {
  telegram_id = 8;
  panel_id = 1;
  display_name = none;
  quota_bytes = pos 0;
  lifetime_allocated_bytes = pos 0;
  allowed_inbound_ids = 1 ∷ [];
  attach_inbound_ids = none;
  is_active = false;
  max_clients = none;
  is_system = false;
  created_at = 11;
}

abbrev pub ali_on_panel : ResellerPanel
ali_on_panel = record {
  reseller_tg_id = 7;
  panel_id = 1;
  quota_bytes = pos 107374182400;
  lifetime_allocated_bytes = pos 0;
  allowed_inbound_ids = 1 ∷ 2 ∷ [];
  attach_inbound_ids = some (1 ∷ []);
  max_clients = some (pos 5);
  is_active = true;
}

abbrev pub service : ClientRecord
service = record {
  id = 1;
  reseller_tg_id = 7;
  panel_id = 1;
  email = codes "ali-client-home";
  sub_id = some (codes "s1");
  inbound_ids = 1 ∷ [];
  allocated_bytes = pos 32212254720;
  expiry_time = pos 0;
  created_at = 12;
}

abbrev pub db : Db
db = record {
  clock = 20;
  panels = panel ∷ [];
  resellers = ali ∷ sara ∷ [];
  assignments = ali_on_panel ∷ [];
  clients = service ∷ [];
  alerts = [];
  templates = [];
  plans = [];
  orders = [];
  guest_config = none;
}

-- A panel that knows no client, and counts its calls.
abbrev pub xui : XuiClient
xui = record {
  State = ℕ;
  auto_reseller_group = true;
  get_client = λ _. pure none;
  create_client = λ _ _ _ _ _. pure (codes "sub");
  get_client_delivery = λ _ _ _. pure (record { vless_links = []; subscription_links = [] });
  get_traffic = λ _. pure (record {
    up = pos 5;
    down = pos 6;
    total = pos 0;
    enable = true;
    expiry_time = some (pos 0);
  });
  delete_client = λ _. raise (xui_error panel_refused);
  set_client_enabled = λ _ _. pure tt;
  add_client_expiry_days = λ _ _. pure tt;
  set_client_expiry_ms = λ _ _. pure tt;
  add_client_traffic_bytes = λ _ _. pure tt;
  subtract_client_traffic_bytes = λ _ _. raise http_error;
  update_limit_ip = λ _ _. pure tt;
  update_comment = λ _ _. pure tt;
}

abbrev pub start : World ℕ
start = record { db = db; panel = 0; now_ms = pos 1000 }
