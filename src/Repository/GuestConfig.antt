-- ===== src/Repository/GuestConfig.antt =====
-- `GuestSalesConfigRepository` of db/repository.py: the one row with the settings of guest sales.
use resellerbot.Prelude.{ℕ, Bool, false, Option, none, some, List}
use resellerbot.Prelude.Text.{Text}
use resellerbot.Errors.{Exec, ⊤, pure, gets, modify, ◌>>=◌, ◌>>◌}
use resellerbot.Models.{Db, GuestSalesConfig}

abbrev save : GuestSalesConfig → Exec Db ⊤
save row = modify λ db. record db { guest_config = some row }

abbrev fresh : GuestSalesConfig
fresh = record {
  panel_id = none;
  inbound_ids = none;
  card_number = none;
  card_holder = none;
  is_enabled = false;
}

unfoldable pub get_or_create : Exec Db GuestSalesConfig
get_or_create = do
  row ← gets (λ db. db.guest_config)
  elim row [ none ↦ (do save fresh; pure fresh) | some c ↦ pure c ]

-- `x` if it is given, else what the nullable column holds.
abbrev given {ℓ} : {A : Type ℓ} → Option A → Option A → Option A
given none old = old
given (some x) old = some x

abbrev given_bool : Option Bool → Bool → Bool
given_bool none old = old
given_bool (some b) old = b

module _ (panel_id : Option ℕ) (inbound_ids : Option (List ℕ))
    (card_number card_holder : Option Text) (is_enabled : Option Bool) where
  unfoldable pub update : Exec Db GuestSalesConfig
  unfolding get_or_create
  update = do
    c ← get_or_create
    let c' : GuestSalesConfig = record {
      panel_id = given panel_id c.panel_id;
      inbound_ids = given inbound_ids c.inbound_ids;
      card_number = given card_number c.card_number;
      card_holder = given card_holder c.card_holder;
      is_enabled = given_bool is_enabled c.is_enabled;
    }
    save c'
    pure c'
