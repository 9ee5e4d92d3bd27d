-- ===== src/PanelSettings.antt =====
-- services/panel_edit.py: the admin's edits of a panel's connection.
--
-- The network is a parameter: the connection to an address, with or without the check of its
-- certificate, and the state in which a test of the connection finds the panel. A test does not
-- change what the bot stores. The texts of the results are left out.
pub mod Edits
use resellerbot.Prelude.{ℕ, Bool, true, false, Option, none, some, List, [], ◌∷◌, if◌then◌else◌}
use resellerbot.Prelude.Int.{ℤ, pos}
use resellerbot.Prelude.Text.{Text, strip}
use resellerbot.Errors.{
  Exec, ⊤, Result, ok, err, Error, pure, raise, gets, checks, ◌>>=◌, ◌>>◌, raise_if, or_raise,
  value_error, empty_token, panel_not_found, assertion_error, panel_connection,
}
use resellerbot.Models.{Db, Panel}
use resellerbot.Inbounds.{is_empty}
use resellerbot.PanelUrl.{normalize_http_url}
use resellerbot.Repository.Panels
use resellerbot.Xui.Session.{Connection, Config, Link, ensure_authenticated}

-- The panels that can be reached.
pub record Network : Type 1 where
  pub connection : Text → Bool → Connection
  pub server : (base_url : Text) (verify_ssl : Bool) → (connection base_url verify_ssl).Server

-- `sub_public_url` as `XuiClient` keeps it.
abbrev kept_sub_url : Option Text → Option Text
kept_sub_url none = none
kept_sub_url (some s) = elim (strip s) [ [] ↦ none | c ∷ t ↦ some (c ∷ t) ]

-- The client of a panel with another token.
unfoldable pub config_of : Panel → Option Text → Config
config_of panel api_token = record {
  api_token = api_token;
  username = panel.username;
  password = panel.password;
  max_retries = 3;
  sub_public_url = kept_sub_url panel.sub_public_url;
  auto_vision_flow = panel.auto_vision_flow;
  auto_reseller_group = panel.auto_reseller_group;
}

-- `get_panel`
unfoldable pub get_panel : ℕ → Exec Db Panel
get_panel panel_id = do row ← gets (Panels.get panel_id); or_raise row panel_not_found

-- `a or b`, of an address, and `a if a is not None else b`, of a token.
abbrev or_text : Option Text → Text → Text
or_text none b = b
or_text (some []) b = b
or_text (some (c ∷ s)) b = c ∷ s

abbrev or_option : Option Text → Option Text → Option Text
or_option none b = b
or_option (some a) b = some a

module _ (network : Network) where
  -- `_test_panel_connection`, with another address or another token.
  unfoldable pub test_panel_connection : Panel → Option Text → Option Text → Result ⊤
  unfolding config_of
  test_panel_connection panel base_url api_token =
      let url = or_text base_url panel.base_url in
      let link : Link (network.connection url panel.verify_ssl).Server = record {
        csrf_token = none;
        server = network.server url panel.verify_ssl;
        now_ms = pos 0;
        drawn = 0;
      } in
      elim (ensure_authenticated (network.connection url panel.verify_ssl)
        (config_of panel (or_option api_token panel.api_token)) link).0 [
          | ok _ ↦ ok tt
          | err e ↦ err (panel_connection e)
        ]

  unfoldable pub apply_panel_base_url : ℕ → Text → Exec Db Panel
  unfolding get_panel
  apply_panel_base_url panel_id base_url = do
    panel ← get_panel panel_id
    normalized ← checks (λ _. normalize_http_url base_url)
    checks (λ _. test_panel_connection panel (some normalized) none)
    row ← Panels.update_base_url panel_id normalized
    or_raise row assertion_error

  unfoldable pub apply_panel_api_token : ℕ → Text → Exec Db Panel
  unfolding get_panel
  apply_panel_api_token panel_id api_token = do
    panel ← get_panel panel_id
    raise_if (is_empty (strip api_token)) (value_error empty_token)
    checks (λ _. test_panel_connection panel none (some (strip api_token)))
    row ← Panels.update_api_token panel_id (strip api_token)
    or_raise row assertion_error

unfoldable pub apply_panel_name : ℕ → Text → Exec Db Panel
apply_panel_name panel_id name = do
  row ← Panels.update_name panel_id name
  or_raise row panel_not_found

unfoldable pub apply_panel_sub_public_url : ℕ → Option Text → Exec Db Panel
apply_panel_sub_public_url panel_id sub_public_url = do
  row ← Panels.update_sub_public_url panel_id sub_public_url
  or_raise row panel_not_found
