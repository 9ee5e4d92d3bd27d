-- ===== src/Bot/Chat.antt =====
-- A conversation with the bot, and the handlers that move it on: aiogram's FSM context with the
-- states of bot/states.py that bot/handlers/reseller.py uses, and what the bot said.
--
-- A handler may return early, and may raise; what it wrote until then stays. An edit of a message
-- and an answer reach the user; the errors of Telegram's API are left out.
use resellerbot.Prelude.{ℕ, Bool, true, false, not, Option, none, some, List, [], ◌∷◌}
use resellerbot.Prelude.Int.{ℤ}
use resellerbot.Prelude.Text.{Text}
use resellerbot.Errors.{
  Exec, ok, err, Error, ⊤, is_xui_error, service_not_found, service_panel_unavailable,
  attribute_error,
}
use resellerbot.Models.{Float, AnyFloat, Panel}
use resellerbot.RateLimit.{Hits}
use resellerbot.Registry.{Site, Network}
use resellerbot.Bot.Said.{
  Reply, Said, acknowledged, error_text, service_not_found_text, service_panel_unavailable_text,
}

pub data State : Type 0 where
  create_pick_panel create_volume create_expiry create_client_name create_confirm : State
  extend_add_days extend_set_date : State
  add_traffic_volume add_traffic_confirm : State
  reduce_traffic_volume reduce_traffic_confirm : State
  edit_limit_ip edit_comment : State
  search_query : State

-- The dictionary of the FSM context. A key that is missing reads as `None` does.
pub record Data : Type 0 where
  pub panel_id : Option ℕ
  pub volume_gb : Option AnyFloat
  pub expiry_days : Option ℤ
  pub template_name : Option Text
  pub client_suffix : Option Text
  pub email_preview : Option Text
  pub create_locked : Bool
  pub email : Option Text
  pub service_search_query : Option Text

abbrev pub no_data : Data
no_data = record {
  panel_id = none;
  volume_gb = none;
  expiry_days = none;
  template_name = none;
  client_suffix = none;
  email_preview = none;
  create_locked = false;
  email = none;
  service_search_query = none;
}

-- The site, the calls that were accepted, `time()`, the FSM state and data of this user's chat, and
-- what was said, the last first.
pub record Chat : Type 0 where
  pub site : Site
  pub hits : Hits
  pub time : ℕ
  pub state : Option State
  pub form : Data
  pub said : List Said

-- A message (its text) or the press of a button (its callback data).
pub record Update : Type 0 where
  pub from_user : Option ℕ
  pub has_message : Bool
  pub payload : Text

-- What the handlers use of Python, of the settings, and of the middleware: `float` on the text of a
-- finite number, the difference and the rounding of floats (`bytes_to_gb`), `strptime` with the end
-- of that local day, a fresh `secrets.token_hex(4)`, and the client that the middleware passes on.
pub record Host : Type 1 where
  pub net : Network
  pub to_float : Text → Option AnyFloat
  pub minus : Float → Float → Float
  pub bytes_to_gb : ℤ → Float
  pub end_of_day_ms : Text → Option ℤ
  pub token_hex : Text
  pub window : ℕ
  pub create_rate_limit : ℕ
  pub quota_refund_max_traffic_gb : Float
  pub injected : Option Panel

pub data Flow (A : Type 0) : Type 0 where
  next : A → Flow A
  returned : Flow A
  raised : Error → Flow A

abbrev pub Handler : Type 0 → Type 0
Handler A = Chat → Flow A × Chat

infixl 5 ◌>>=◌ ◌>>◌
unfoldable pub ◌>>=◌ : {A B : Type 0} → Handler A → (A → Handler B) → Handler B
◌>>=◌ m k c =
    let (f, c') = m c in
    elim f [ next a ↦ k a c' | returned ↦ (returned, c') | raised e ↦ (raised e, c') ]

abbrev pub ◌>>◌ : {A B : Type 0} → Handler A → Handler B → Handler B
m >> k = m >>= λ _. k

module _ {A : Type 0} where
  unfoldable pub pure : A → Handler A
  pure a c = (next a, c)

  -- `return`
  unfoldable pub stop : Handler A
  stop c = (returned, c)

  unfoldable pub raise : Error → Handler A
  raise e c = (raised e, c)

  unfoldable pub gets : (Chat → A) → Handler A
  gets f c = (next (f c), c)

unfoldable pub modify : (Chat → Chat) → Handler ⊤
modify f c = (next tt, f c)

unfoldable pub say : Said → Handler ⊤
say x = modify λ c. record c { said = x ∷ c.said }

-- Say it and return.
abbrev pub finish : {A : Type 0} → Said → Handler A
finish x = say x >> stop

-- `if b: say x; return`
unfoldable pub stop_if : Bool → Said → Handler ⊤
stop_if true x = finish x
stop_if false x = pure tt

unfoldable pub or_stop : {A : Type 0} → Option A → Said → Handler A
or_stop none x = finish x
or_stop (some a) x = pure a

-- `if x is None: m`, and `k` on what is there.
unfoldable pub if_none : {A B : Type 0} → Option A → Handler B → (A → Handler B) → Handler B
if_none none m k = m
if_none (some a) m k = k a

-- `if b: m`, or else `k`.
unfoldable pub if_true : {A : Type 0} → Bool → Handler A → Handler A → Handler A
if_true true m k = m
if_true false m k = k

-- `if not xs: m`, and `k` on a list that is not empty.
unfoldable pub if_empty : {A B : Type 0} → List A → Handler B → (A → List A → Handler B) → Handler B
if_empty [] m k = m
if_empty (x ∷ xs) m k = k x xs

-- `if not x`, of a text.
abbrev pub non_empty : Option Text → Option Text
non_empty none = none
non_empty (some []) = none
non_empty (some (c ∷ s)) = some (c ∷ s)

-- `if not message.from_user: return`
unfoldable pub user_of : Update → Handler ℕ
user_of u = elim u.from_user [ none ↦ stop | some user ↦ pure user ]

-- `if not callback.message: await callback.answer(); return`
unfoldable pub need_message : Update → Handler ⊤
need_message u = stop_if (not u.has_message) acknowledged

-- `if not callback.from_user or not callback.message: await callback.answer(); return`
unfoldable pub need_both : Update → Handler ℕ
need_both u = elim u.from_user [
  | none ↦ finish acknowledged
  | some user ↦ need_message u >> pure user
]

-- `await callback.message.edit_text(…)`, and the like: an AttributeError without a message.
unfoldable pub on_message : Update → Said → Handler ⊤
on_message u x = elim u.has_message [ true ↦ say x | false ↦ raise attribute_error ]

unfoldable pub when : Bool → Handler ⊤ → Handler ⊤
when true m = m
when false m = pure tt

unfoldable pub set_state : Option State → Handler ⊤
set_state st = modify λ c. record c { state = st }

unfoldable pub update_data : (Data → Data) → Handler ⊤
update_data f = modify λ c. record c { form = f c.form }

-- `state.clear()`
unfoldable pub clear : Handler ⊤
clear = modify λ c. record c { state = none; form = no_data }

-- A call of the services.
unfoldable pub run : {A : Type 0} → Exec Site A → Handler A
run m c =
    let (r, s) = m c.site in
    elim r [ ok a ↦ (next a, record c { site = s }) | err e ↦ (raised e, record c { site = s }) ]

abbrev pub reads : {A : Type 0} → (Site → A) → Handler A
reads f = gets λ c. f c.site

-- `try: m except …: handler`, where a handler raises again what it does not catch.
unfoldable pub catching : {A : Type 0} → Handler A → (Error → Handler A) → Handler A
catching m handler c =
    let (f, c') = m c in
    elim f [ next a ↦ (next a, c') | returned ↦ (returned, c') | raised e ↦ handler e c' ]

module _ {A : Type 0} where
  -- `except XuiError as e: await callback.answer(str(e), show_alert=True); return`, or as a message.
  unfoldable pub xui_error_as : (Reply → Said) → Error → Handler A
  xui_error_as how e = elim (is_xui_error e) [
    | true ↦ finish (how (error_text e))
    | false ↦ raise e
  ]

  -- `answer_resolve_callback` (an alert) and `answer_resolve_message` (a message), then `return`.
  unfoldable pub answer_resolve : (Reply → Said) → Error → Handler A
  answer_resolve how service_not_found = finish (how service_not_found_text)
  answer_resolve how (service_panel_unavailable p) = finish (how (service_panel_unavailable_text p))
  answer_resolve how e = raise e
