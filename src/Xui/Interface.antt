-- ===== src/Xui/Interface.antt =====
-- A panel behind an `XuiClient` (xui/client.py), as services/ uses it: what services/ reads of the
-- client's answers, with `normalize_traffic_data` and `_coerce_int` of bot/utils/format_traffic.py.
use resellerbot.Prelude.{ℕ, true, false, Option, none, some, map}
use resellerbot.Prelude.Int.{ℤ, ◌+ℤ◌}
use resellerbot.Prelude.Text.{Text, codes}
use resellerbot.Errors.{Exec, ⊤, pure, ◌>>=◌}
use resellerbot.Panel
use resellerbot.Panel.{XuiClient, Traffic, PanelClient}
use resellerbot.Json.{
  Value, null, arr, obj, nil, cons, Fields, end, field, get, get_or, truthy, int_of, bool,
}
use resellerbot.Xui.Payload.{read_limit_ip, read_expiry, read_comment, or_zero}
use resellerbot.Xui.Session.{Connection, Config, Link}
use resellerbot.Xui.Calls.{
  create_client, delete_client, get_traffic, get_client, set_client_enabled, update_client_fields,
  add_client_expiry_days, set_client_expiry_ms, add_client_traffic_bytes,
  subtract_client_traffic_bytes,
}
use resellerbot.Xui.Delivery.{ClientDelivery, get_client_delivery}

-- A dictionary, or an empty one.
abbrev dict_or_empty : Value → Fields
dict_or_empty (obj fs) = fs
dict_or_empty null = end
dict_or_empty _ = end

unfoldable pub normalize_traffic_data : Value → Fields
normalize_traffic_data (arr nil) = end
normalize_traffic_data (arr (cons v _)) = dict_or_empty v
normalize_traffic_data (obj fs) = fs
normalize_traffic_data null = end
normalize_traffic_data _ = end

-- `_coerce_int(row.get(key))`
unfoldable pub coerce_int : Value → ℤ
unfolding int_of
coerce_int v = or_zero (int_of v)

unfoldable pub client_traffic_used_bytes : Value → ℤ
unfolding normalize_traffic_data coerce_int
client_traffic_used_bytes answer =
    let row = normalize_traffic_data answer in
    coerce_int (get (codes "up") row) +ℤ coerce_int (get (codes "down") row)

-- What services/ and bot/ read of a traffic row.
unfoldable pub traffic_of : Value → Traffic
unfolding normalize_traffic_data coerce_int read_expiry
traffic_of answer =
    let row = normalize_traffic_data answer in
    record {
      up = coerce_int (get (codes "up") row);
      down = coerce_int (get (codes "down") row);
      total = coerce_int (get (codes "total") row);
      enable = truthy (get_or (codes "enable") (bool true) row);
      expiry_time = read_expiry row;
    }

-- What services/ reads of a client.
unfoldable pub panel_client : Fields → PanelClient
unfolding read_limit_ip read_comment read_expiry
panel_client fs = record {
  is_empty = elim fs [ end ↦ true | field _ _ _ ↦ false ];
  expiry_time = read_expiry fs;
  limit_ip = read_limit_ip fs;
  comment = read_comment fs;
}

abbrev delivery_of : ClientDelivery → Panel.ClientDelivery
delivery_of d = record {
  vless_links = map (λ c. c.link) d.vless_configs;
  subscription_links = d.subscription_links;
}

-- A call whose answer is not used.
abbrev ignoring : {S A : Type 0} → Exec S A → Exec S ⊤
ignoring m = m >>= λ _. pure tt

abbrev mapped : {S A B : Type 0} → (A → B) → Exec S A → Exec S B
mapped f m = m >>= λ a. pure (f a)

abbrev seen : Option Fields → Option PanelClient
seen none = none
seen (some fs) = some (panel_client fs)

module _ (connection : Connection) (config : Config) (loads : Text → Option Value)
    (ids : ℕ → Text) where
  -- The client of services/, over the requests of this one.
  unfoldable pub xui_client : XuiClient
  xui_client = record {
    State = Link connection.Server;
    auto_reseller_group = config.auto_reseller_group;
    get_client = λ email. mapped seen (get_client connection config loads ids email);
    create_client = create_client connection config loads ids;
    get_client_delivery = λ email sub_id total.
        mapped delivery_of (get_client_delivery connection config loads ids email sub_id total);
    get_traffic = λ email. mapped traffic_of (get_traffic connection config loads ids email);
    delete_client = λ email. ignoring (delete_client connection config loads ids email);
    set_client_enabled =
        λ email enabled. ignoring (set_client_enabled connection config loads ids email enabled);
    add_client_expiry_days =
        λ email days. ignoring (add_client_expiry_days connection config loads ids email days);
    set_client_expiry_ms =
        λ email ms. ignoring (set_client_expiry_ms connection config loads ids email ms);
    add_client_traffic_bytes =
        λ email bytes. ignoring (add_client_traffic_bytes connection config loads ids email bytes);
    subtract_client_traffic_bytes = λ email bytes.
        ignoring (subtract_client_traffic_bytes connection config loads ids email bytes);
    update_limit_ip =
        λ email n. ignoring (update_client_fields connection config loads ids email (some n) none);
    update_comment =
        λ email s. ignoring (update_client_fields connection config loads ids email none (some s));
  }
