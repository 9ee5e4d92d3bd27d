-- ===== src/Xui/Flow/Support.antt =====
-- When `resolve_flow_for_inbound_ids` (xui/inbound_flow.py) turns the vision flow on.
use resellerbot.Prelude.{
  ℕ, ◌≡◌, refl, false≢true, Bool, true, false, ◌&&◌, Option, List, [], ◌∷◌, ◌++◌, if◌then◌else◌,
}
use resellerbot.Prelude.Text.{Text}
use resellerbot.Json.{Value, Fields}
use resellerbot.Xui.Flow.{
  vision_flow, inbound_id, id_in, selected, inbound_supports_vision_flow, all_support,
  resolve_flow_for_inbound_ids,
}

and_true : (a b : Bool) → (a && b) ≡ true → (a ≡ true) × (b ≡ true)
and_true true b h = (refl, h)
and_true false b h = absurd (false≢true h)

chosen :
    (a b c : Bool)
    → (if a then [] else if b then [] else if c then vision_flow else []) ≡ vision_flow
    → c ≡ true
chosen true b c h = cc
chosen false true c h = cc
chosen false false true h = refl
chosen false false false h = cc

module _ (loads : Text → Option Value) where
  first_support :
      (b : Bool) (ib : Fields) (rest : List Fields)
      → b ≡ true
      → all_support loads (if b then ib ∷ rest else rest) ≡ true
      → inbound_supports_vision_flow loads ib ≡ true
  first_support true ib rest e h = (and_true _ _ h).0
  first_support false ib rest e h = absurd (false≢true e)

  rest_support :
      (b : Bool) (ib : Fields) (rest : List Fields)
      → all_support loads (if b then ib ∷ rest else rest) ≡ true
      → all_support loads rest ≡ true
  rest_support true ib rest h = (and_true (inbound_supports_vision_flow loads ib) _ h).1
  rest_support false ib rest h = h

  support_of :
      (ids : List ℕ) (before after : List Fields) (ib : Fields)
      → all_support loads (selected ids (before ++ ib ∷ after)) ≡ true
      → id_in ids (inbound_id ib) ≡ true
      → inbound_supports_vision_flow loads ib ≡ true
  support_of ids [] after ib h wanted =
      first_support (id_in ids (inbound_id ib)) ib (selected ids after) wanted h
  support_of ids (b ∷ before) after ib h wanted =
      support_of ids before after ib
        (rest_support (id_in ids (inbound_id b)) b (selected ids (before ++ ib ∷ after)) h) wanted

  -- If the vision flow is chosen for a client, then an inbound of the panel that the client goes
  -- to supports the flow.
  pub resolve_flow-supported :
      (before after : List Fields) (ib : Fields) (ids : List ℕ)
      → resolve_flow_for_inbound_ids loads (before ++ ib ∷ after) ids ≡ vision_flow
      → id_in ids (inbound_id ib) ≡ true
      → inbound_supports_vision_flow loads ib ≡ true
  unfolding resolve_flow_for_inbound_ids
  resolve_flow-supported before after ib ids h wanted =
      support_of ids before after ib (chosen _ _ _ h) wanted
