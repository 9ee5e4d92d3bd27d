-- ===== src/Repository/Panels.antt =====
-- `PanelRepository` of db/repository.py: the 3x-ui panels.
pub mod References
use resellerbot.Prelude.{
  ℕ, Bool, true, false, not, ◌&&◌, [], ◌∷◌, ◌++◌, fresh_key, Option, none, some, List, ◌==◌, leb,
  ltb, if◌then◌else◌, find, select, update, remove, order_by, count_where,
}
use resellerbot.Prelude.Text.{Text, strip}
use resellerbot.Errors.{
  Exec, ⊤, Result, ok, err, pure, gets, checks, modify, no_credentials, ◌>>=◌, ◌>>◌, raise_if,
  when_found, value_error, empty_name, empty_token, default_panel, panel_in_use,
}
use resellerbot.Models.{Db, Panel}
use resellerbot.Inbounds.{is_empty}
use resellerbot.PanelUrl.{normalize_http_url, normalize_sub_public_url}
use resellerbot.Repository.Assignments.{assignment_count_on_panel}

abbrev pub is_panel : ℕ → Panel → Bool
is_panel panel_id p = p.id == panel_id

abbrev pub get : ℕ → Db → Option Panel
get panel_id db = find (is_panel panel_id) db.panels

-- The commit of a changed row.
abbrev save : Panel → Exec Db ⊤
save row = modify λ db. record db { panels = update (is_panel row.id) (λ _. row) db.panels }

abbrev by_id : Panel → Panel → Bool
by_id a b = leb a.id b.id

unfoldable pub list_all : Db → List Panel
list_all db = order_by by_id db.panels

unfoldable pub list_active : Db → List Panel
list_active db = order_by by_id (select (λ p. p.is_active) db.panels)

-- The address for subscriptions, if one is given.
abbrev sub_public_url_of : Option Text → Result (Option Text)
sub_public_url_of none = ok none
sub_public_url_of (some s) =
    if is_empty (strip s)
    then ok none
    else elim (normalize_sub_public_url s) [ ok url ↦ ok (some url) | err e ↦ err e ]

abbrev is_given : Option Text → Bool
is_given none = false
is_given (some []) = false
is_given (some (_ ∷ _)) = true

-- `create` with `verify_ssl`, `auto_vision_flow` and `auto_reseller_group`.
unfoldable pub create :
    Text
    → Text
    → Option Text
    → Option Text
    → Option Text
    → Option Text
    → Bool
    → Bool
    → Bool
    → Exec Db Panel
create name base_url api_token username password sub_public_url verify_ssl auto_vision_flow
      auto_reseller_group =
    do
      raise_if (is_empty (strip name)) (value_error empty_name)
      raise_if (not (is_given api_token) && not (is_given username && is_given password))
          (value_error no_credentials)
      normalized_base ← checks (λ _. normalize_http_url base_url)
      normalized_sub ← checks (λ _. sub_public_url_of sub_public_url)
      id ← gets (λ db. fresh_key (λ (p : Panel). p.id) db.panels)
      let row : Panel = record {
        id = id;
        name = strip name;
        base_url = normalized_base;
        api_token = api_token;
        username = username;
        password = password;
        sub_public_url = normalized_sub;
        verify_ssl = verify_ssl;
        auto_vision_flow = auto_vision_flow;
        auto_reseller_group = auto_reseller_group;
        is_active = true;
      }
      modify (λ db. record db { panels = db.panels ++ row ∷ [] })
      pure row

module _ (panel_id : ℕ) where
  unfoldable pub set_active : Bool → Exec Db (Option Panel)
  set_active active = do
    row ← gets (get panel_id)
    when_found row λ p. do let p' = record p { is_active = active }; save p'; pure (some p')

  unfoldable pub update_name : Text → Exec Db (Option Panel)
  update_name name = do
    row ← gets (get panel_id)
    when_found row λ p. do
      raise_if (is_empty (strip name)) (value_error empty_name)
      let p' = record p { name = strip name }
      save p'
      pure (some p')

  unfoldable pub update_base_url : Text → Exec Db (Option Panel)
  update_base_url base_url = do
    row ← gets (get panel_id)
    when_found row λ p. do
      url ← checks (λ _. normalize_http_url base_url)
      let p' = record p { base_url = url }
      save p'
      pure (some p')

  unfoldable pub update_sub_public_url : Option Text → Exec Db (Option Panel)
  update_sub_public_url sub_public_url = do
    row ← gets (get panel_id)
    when_found row λ p. do
      url ← checks (λ _. sub_public_url_of sub_public_url)
      let p' = record p { sub_public_url = url }
      save p'
      pure (some p')

  unfoldable pub update_api_token : Text → Exec Db (Option Panel)
  update_api_token api_token = do
    row ← gets (get panel_id)
    when_found row λ p. do
      raise_if (is_empty (strip api_token)) (value_error empty_token)
      let p' = record p { api_token = some (strip api_token) }
      save p'
      pure (some p')

  unfoldable pub reseller_count : Db → ℕ
  reseller_count db =
      let count = assignment_count_on_panel panel_id db in
      if ltb 0 count then count else count_where (λ r. r.panel_id == panel_id) db.resellers

  unfoldable pub delete : Exec Db Bool
  delete = do
    raise_if (panel_id == 1) (value_error default_panel)
    assigned ← gets (assignment_count_on_panel panel_id)
    raise_if (ltb 0 assigned) (value_error panel_in_use)
    resellers ← gets reseller_count
    raise_if (ltb 0 resellers) (value_error panel_in_use)
    row ← gets (get panel_id)
    elim row [
      | none ↦ pure false
      | some p ↦ do
        modify λ db. record db { panels = remove (is_panel panel_id) db.panels }
        pure true
    ]
