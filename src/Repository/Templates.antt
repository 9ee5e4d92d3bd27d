-- ===== src/Repository/Templates.antt =====
-- `ServiceTemplateRepository` of db/repository.py: the service sizes that an admin offers to
-- resellers.
use resellerbot.Prelude.{
  ℕ, Bool, true, false, ◌&&◌, Option, none, some, List, [], ◌∷◌, ◌++◌, ◌==◌, leb, ltb,
  if◌then◌else◌, find, select, remove, order_by, fresh_key, length,
}
use resellerbot.Prelude.Int.{ℤ, pos, ◌+ℤ◌, ltb_ℤ, leb_ℤ}
use resellerbot.Prelude.Text.{Text, strip}
use resellerbot.Errors.{
  Exec, pure, gets, checks, modify, ◌>>=◌, ◌>>◌, Result, ok, err, value_error, empty_name,
  name_too_long, non_positive_volume, negative_expiry, ⊤,
}
use resellerbot.Models.{Db, ServiceTemplate, Float}
use resellerbot.Inbounds.{is_empty}
use resellerbot.Volume.{is_non_positive}

-- `_MAX_TEMPLATE_NAME_LEN`
abbrev pub max_template_name_len : ℕ
max_template_name_len = 64

unfoldable pub normalize_template_name : Text → Result Text
normalize_template_name raw =
    let name = strip raw in
    if is_empty name
    then err (value_error empty_name)
    else if ltb max_template_name_len (length name)
    then err (value_error name_too_long)
    else ok name

unfoldable pub validate_template_params : Float → ℤ → Result ⊤
validate_template_params volume_gb expiry_days =
    if is_non_positive volume_gb
    then err (value_error non_positive_volume)
    else if ltb_ℤ expiry_days (pos 0)
    then err (value_error negative_expiry)
    else ok tt

-- `ORDER BY sort_order, id`
abbrev by_order : ServiceTemplate → ServiceTemplate → Bool
by_order a b =
    if ltb_ℤ a.sort_order b.sort_order
    then true
    else leb_ℤ a.sort_order b.sort_order && leb a.id b.id

-- `max(sort_order) or 0`; every stored order is positive.
abbrev pub max_order {ℓ} : {A : Type ℓ} → (A → ℤ) → List A → ℤ
max_order order [] = pos 0
max_order order (x ∷ xs) =
    let rest = max_order order xs in if ltb_ℤ rest (order x) then order x else rest

abbrev is_template : ℕ → ServiceTemplate → Bool
is_template template_id t = t.id == template_id

unfoldable pub list_active : Db → List ServiceTemplate
list_active db = order_by by_order (select (λ t. t.is_active) db.templates)

unfoldable pub list_all : Db → List ServiceTemplate
list_all db = order_by by_order db.templates

unfoldable pub get_active : ℕ → Db → Option ServiceTemplate
get_active template_id db = elim (find (is_template template_id) db.templates) [
  | none ↦ none
  | some t ↦ (if t.is_active then some t else none)
]

abbrev pub or_default : Option ℤ → ℤ → ℤ
or_default none a = a
or_default (some b) a = b

unfoldable pub create : Text → Float → ℤ → Option ℤ → Exec Db ServiceTemplate
create raw_name volume_gb expiry_days sort_order = do
  name ← checks (λ _. normalize_template_name raw_name)
  checks (λ _. validate_template_params volume_gb expiry_days)
  last ← gets (λ db. max_order (λ (t : ServiceTemplate). t.sort_order) db.templates)
  id ← gets (λ db. fresh_key (λ (t : ServiceTemplate). t.id) db.templates)
  let row : ServiceTemplate = record {
    id = id;
    name = name;
    volume_gb = volume_gb;
    expiry_days = expiry_days;
    sort_order = or_default sort_order (last +ℤ pos 1);
    is_active = true;
  }
  modify (λ db. record db { templates = db.templates ++ row ∷ [] })
  pure row

unfoldable pub delete : ℕ → Exec Db Bool
delete template_id = do
  row ← gets (λ db. find (is_template template_id) db.templates)
  elim row [
    | none ↦ pure false
    | some t ↦ do
      modify λ db. record db { templates = remove (is_template template_id) db.templates }
      pure true
  ]
