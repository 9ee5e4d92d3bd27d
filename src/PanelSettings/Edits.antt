-- ===== src/PanelSettings/Edits.antt =====
-- The edits of services/panel_edit.py: what they store, and what the test of the connection covers.
use resellerbot.Prelude.{
  ℕ, ◌≡◌, refl, ap, ◌∙◌, false, Option, none, some, List, [], ◌∷◌, inl, inr, ◌==◌, ==_iff,
  Bool-cases, find, find_sound, update, arith,
}
use resellerbot.Prelude.Text.{Text, strip}
use resellerbot.Errors.{ok, ◌>>=◌, ◌>>◌}
use resellerbot.Models.{Db, Panel}
use resellerbot.Inbounds.{is_empty}
use resellerbot.Repository.Panels
use resellerbot.Xui.Session.{ensure_authenticated}
use resellerbot.PanelSettings.{
  Network, config_of, get_panel, test_panel_connection, apply_panel_api_token,
}

-- With a token, the test of a connection succeeds on any network.
test-token :
    (network : Network) (panel : Panel) (url : Option Text) (s : Text)
    → is_empty s ≡ false
    → test_panel_connection network panel url (some s) ≡ ok tt
unfolding test_panel_connection config_of ensure_authenticated
test-token network panel url [] h = cc
test-token network panel url (c ∷ s) h = refl

-- The row that is saved is found.
find-saved :
    (panel_id : ℕ) (row : Panel) (ps : List Panel) (p : Panel)
    → row.id ≡ panel_id
    → find (Panels.is_panel panel_id) ps ≡ some p
    → find (Panels.is_panel panel_id) (update (Panels.is_panel row.id) (λ _. row) ps) ≡ some row
find-saved panel_id row [] p same h = cc
find-saved panel_id row (q ∷ ps) p same h = elim (Bool-cases (q.id == panel_id)) [
  | inl e ↦ ground (arith, ==_iff row.id panel_id, ==_iff q.id row.id)
  | inr e ↦ ground (arith, find-saved panel_id row ps p same)
]

-- A new API token without white space at its ends is stored in the panel's row, and the stored row
-- is the result, whatever the network does: a wrong one is not noticed.
pub apply_panel_api_token_untested :
    (network : Network) (panel_id : ℕ) (token : Text) (db : Db) (p : Panel)
    → Panels.get panel_id db ≡ some p
    → strip token ≡ token
    → is_empty token ≡ false
    → ((apply_panel_api_token network panel_id token db).0
        ≡ ok (record p { api_token = some token }))
      × (Panels.get panel_id (apply_panel_api_token network panel_id token db).1
          ≡ some (record p { api_token = some token }))
unfolding apply_panel_api_token get_panel Panels.update_api_token
apply_panel_api_token_untested network panel_id token db p found stripped h =
    let given : is_empty (strip token) ≡ false = rw stripped h in
    let twice : is_empty (strip (strip token)) ≡ false = rw (stripped, stripped) h in
    let row : Panel = record p { api_token = some token } in
    let same : p.id ≡ panel_id =
      (==_iff p.id panel_id).0 (find_sound (Panels.is_panel panel_id) db.panels p found) in
    let tested = test-token network p none (strip token) given in
    let again : strip (strip token) ≡ token = ap strip stripped ∙ stripped in
    let written : (apply_panel_api_token network panel_id token db).1 ≡ record db {
      panels =
          update (Panels.is_panel p.id) (λ _. record p { api_token = some (strip (strip token)) })
            db.panels;
    } =
      ground (arith, found, given, twice, tested) in
    (
      rw (◌>>=◌, found, ◌>>◌, given, tested)
          (rw (◌>>=◌, found, given, found, ◌>>◌, twice)
            (ap (λ t. ok (record p { api_token = some t })) again)),
      rw written (rw again (find-saved panel_id row db.panels p same found)),
    )
