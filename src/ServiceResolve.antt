-- ===== src/ServiceResolve.antt =====
-- bot/utils/service_resolve.py: the service that a handler is asked for, with its panel's client.
-- The answers to the user, and the session that is opened for the handler, are left out.
use resellerbot.Prelude.{
  ℕ, ◌≡◌, ◌∙◌, sym, subst, ==_iff, find_sound, Option-cases, false≢true, inl, inr, List, arith,
}
use resellerbot.Prelude.Text.{Text, eq_of_text_eq}
use resellerbot.Errors.{Exec, ok, pure, gets, ◌>>=◌, or_raise, service_not_found}
use resellerbot.Models.{Panel, Reseller, ClientRecord}
use resellerbot.Registry.{Site, loaded_client, xui_for_record, loaded_panel_ids}
use resellerbot.Repository.Resellers
use resellerbot.Repository.Clients
use resellerbot.Repository.Panels

-- `xui` is the row that the client was made from.
pub record ServiceContext : Type 0 where
  pub reseller : Reseller
  pub client : ClientRecord
  pub xui : Panel

unfoldable pub resolve_service : ℕ → Text → Exec Site ServiceContext
resolve_service user_id email = do
  found ← gets (λ s. Resellers.get user_id s.db)
  reseller ← or_raise found service_not_found
  row ← gets (λ s. Clients.get_for_reseller_email user_id email s.db)
  client ← or_raise row service_not_found
  xui ← xui_for_record client
  pure (record { reseller = reseller; client = client; xui = xui })

unfoldable pub list_accessible_clients : ℕ → Site → List ClientRecord
list_accessible_clients reseller_tg_id s =
    Clients.list_for_reseller_on_panels reseller_tg_id (loaded_panel_ids s) s.db

abbrev context : Reseller → ClientRecord → Panel → ServiceContext
context r d p = record { reseller = r; client = d; xui = p }

-- The context is about the user's own service of that email, and the client of its panel.
abbrev pub IsOwned : ℕ → Text → ServiceContext → Type 0
IsOwned user_id email c =
    (c.reseller.telegram_id ≡ user_id)
    × (c.client.reseller_tg_id ≡ user_id)
    × (c.client.email ≡ email)
    × (c.xui.id ≡ c.client.panel_id)

-- A service that is found is the reseller's, has the email that was asked for, and its panel's
-- client was made from the row of the service's panel.
pub resolve_service-IsOwned :
    (user_id : ℕ) (email : Text) (s : Site) (c : ServiceContext)
    → (resolve_service user_id email s).0 ≡ ok c
    → IsOwned user_id email c
unfolding resolve_service xui_for_record
resolve_service-IsOwned user_id email s c h = elim (Option-cases (Resellers.get user_id s.db)) [
  | inl e ↦ absurd (false≢true (ground arith))
  | inr (r, e) ↦ elim (Option-cases (Clients.get_for_reseller_email user_id email s.db)) [
    | inl f ↦ absurd (false≢true (ground arith))
    | inr (d, f) ↦ elim (Option-cases (loaded_client d.panel_id s)) [
      | inl g ↦ absurd (false≢true (ground arith))
      | inr (p, g) ↦
          let found : (resolve_service user_id email s).0 ≡ ok (context r d p) = ground arith in
          let both : ok c ≡ ok (context r d p) = sym h ∙ found in
          let same : c ≡ context r d p = cc in
          let mine = find_sound (Clients.owned user_id email) s.db.clients d f in
          subst (IsOwned user_id email) {x = context r d p} {y = c} (sym same) (
            (==_iff r.telegram_id user_id).0
                (find_sound (Resellers.is_reseller user_id) s.db.resellers r e),
            ground (arith, mine),
            eq_of_text_eq d.email email (ground (arith, mine)),
            (==_iff p.id d.panel_id).0 (find_sound (Panels.is_panel d.panel_id) s.loaded p g),
          )
    ]
  ]
]
