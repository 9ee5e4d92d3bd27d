-- ===== src/Registry.antt =====
-- services/panel_registry.py and services/panel_resolve.py: the clients of the panels that are
-- loaded, and which of them may serve a reseller.
--
-- A client is known by the panel row that it was made from (`xui_client_from_panel`). Closing the
-- connection of a client that is dropped is left out.
use resellerbot.Prelude.{
  ℕ, Bool, true, false, not, if◌then◌else◌, Option, none, some, List, [], ◌∷◌, ◌++◌, find, remove,
  map,
}
use resellerbot.Prelude.Int.{ℤ}
use resellerbot.Errors.{
  Exec, ⊤, pure, gets, modify, ◌>>=◌, ◌>>◌, raise_if, or_raise, panel_unavailable, missing,
  inactive, not_loaded, not_assigned, assignment_inactive, panel_not_found,
  service_panel_unavailable,
}
use resellerbot.Models.{Db, Panel, Reseller, ResellerPanel, ClientRecord}
use resellerbot.Panel.{XuiClient, World}
use resellerbot.Repository.Panels
use resellerbot.Repository.Assignments

-- The database, the panel rows that the registry's clients were made from, by panel id, and the
-- time in milliseconds.
pub record Site : Type 0 where
  pub db : Db
  pub loaded : List Panel
  pub now_ms : ℤ

abbrev pub loaded_client : ℕ → Site → Option Panel
loaded_client panel_id s = find (Panels.is_panel panel_id) s.loaded

-- `PanelRegistry.get_client`
unfoldable pub get_client : ℕ → Exec Site Panel
get_client panel_id = do row ← gets (loaded_client panel_id); or_raise row panel_not_found

-- `PanelRegistry.load_from_db`
unfoldable pub load_from_db : Exec Site ⊤
load_from_db = modify λ s. record s { loaded = Panels.list_active s.db }

unfoldable pub loaded_panel_ids : Site → List ℕ
loaded_panel_ids s = map (λ (p : Panel). p.id) s.loaded

-- The dictionary without a key.
abbrev drop : ℕ → Exec Site ⊤
drop panel_id = modify λ s. record s { loaded = remove (Panels.is_panel panel_id) s.loaded }

-- `PanelRegistry.reload_panel`
unfoldable pub reload_panel : ℕ → Exec Site ⊤
reload_panel panel_id = do
  panel ← gets (λ s. Panels.get panel_id s.db)
  drop panel_id
  elim panel [
    | none ↦ pure tt
    | some p ↦ elim p.is_active [
      | false ↦ pure tt
      | true ↦ modify λ s. record s { loaded = s.loaded ++ p ∷ [] }
    ]
  ]

-- `_xui_for_panel_id`
unfoldable pub xui_for_panel_id : ℕ → Exec Site Panel
unfolding reload_panel
xui_for_panel_id panel_id = do
  row ← gets (λ s. Panels.get panel_id s.db)
  panel ← or_raise row (panel_unavailable panel_id missing)
  raise_if (not panel.is_active) (panel_unavailable panel_id inactive)
  client ← gets (loaded_client panel_id)
  elim client [
    | some c ↦ pure c
    | none ↦ do
      reload_panel panel_id
      again ← gets (loaded_client panel_id)
      or_raise again (panel_unavailable panel_id not_loaded)
  ]

-- `xui_for_reseller_panel`
unfoldable pub xui_for_reseller_panel : Reseller → ℕ → Exec Site Panel
unfolding xui_for_panel_id
xui_for_reseller_panel reseller panel_id = do
  row ← gets (λ s. Assignments.get reseller.telegram_id panel_id s.db)
  assignment ← or_raise row (panel_unavailable panel_id not_assigned)
  raise_if (not assignment.is_active) (panel_unavailable panel_id assignment_inactive)
  xui_for_panel_id panel_id

unfoldable pub xui_for_reseller : Reseller → Exec Site Panel
xui_for_reseller reseller = xui_for_reseller_panel reseller reseller.panel_id

-- `xui_for_record`
unfoldable pub xui_for_record : ClientRecord → Exec Site Panel
xui_for_record client = do
  row ← gets (loaded_client client.panel_id)
  or_raise row (service_panel_unavailable client.panel_id)

-- The clients of the panels, and what each panel remembers when it is next called. What a call
-- leaves there is not kept: the next call may find any state.
pub record Network : Type 1 where
  pub connect : Panel → XuiClient
  pub remembered : (p : Panel) → (connect p).State

module _ {A : Type 0} (net : Network) (p : Panel) where
  open net use {connect, remembered}

  -- A call on the client made from `p`.
  unfoldable pub on_client : Exec ((connect p).State) A → Exec Site A
  on_client m s = ((m (remembered p)).0, s)

  -- An operation of `ResellerService(session, xui)`.
  unfoldable pub on_service : Exec (World ((connect p).State)) A → Exec Site A
  on_service m s =
      let (r, w) = m (record { db = s.db; panel = remembered p; now_ms = s.now_ms }) in
      (r, record s { db = w.db })

abbrev pub on_site_db : {A : Type 0} → Exec Db A → Exec Site A
on_site_db m s = let (r, db') = m s.db in (r, record s { db = db' })

-- `PanelRegistry.close_all`
unfoldable pub close_all : Exec Site ⊤
close_all = modify λ s. record s { loaded = [] }

-- A set, as the list of the loaded panels.
unfoldable pub list_accessible_panel_ids : Site → List ℕ
unfolding loaded_panel_ids
list_accessible_panel_ids s = loaded_panel_ids s

unfoldable pub list_reseller_panel_ids : Reseller → Bool → Site → List ℕ
list_reseller_panel_ids reseller active_only s =
    if active_only
    then Assignments.list_active_panel_ids reseller.telegram_id s.db
    else map (λ (r : ResellerPanel). r.panel_id)
        (Assignments.list_for_reseller reseller.telegram_id false s.db)
