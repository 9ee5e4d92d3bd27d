-- ===== src/Bot/Moves/Rules.antt =====
-- The moves of a handler are those of its parts.
use resellerbot.Prelude.{
  ℕ, ◌≡◌, refl, ◌⊎◌, inl, inr, Bool, true, false, Option, none, some, List, [], ◌∷◌,
}
use resellerbot.Prelude.Text.{Text}
use resellerbot.Errors.{
  Exec, Error, ⊤, Result-cases, is_xui_error, attribute_error, service_not_found,
  service_panel_unavailable,
}
use resellerbot.Registry.{Site}
use resellerbot.Bot.Chat.{
  if_none, if_empty, if_true, State, Data, Chat, Update, Handler, Flow, next, returned, raised,
  ◌>>=◌, ◌>>◌, pure, stop, raise, gets, modify, say, finish, stop_if, or_stop, user_of,
  need_message, need_both, on_message, when, set_state, update_data, clear, run, catching,
  xui_error_as, answer_resolve,
}
use resellerbot.Bot.Said.{Said, Reply, acknowledged, error_text}
use resellerbot.Bot.Moves.{
  IsReady, Serves, Moves, Moves-trans, once, spoken, served, ended, searched, addressed, advanced,
  here,
}

pub Flow-cases :
    {A : Type 0} (f : Flow A)
    → ((a : A) × (f ≡ next a)) ⊎ ((f ≡ returned) ⊎ ((e : Error) × (f ≡ raised e)))
Flow-cases (next a) = inl (a, refl)
Flow-cases returned = inr (inl refl)
Flow-cases (raised e) = inr (inr (e, refl))

-- The handler moves as the user may, from any chat.
pub record Keeps {A : Type 0} (user : ℕ) (m : Handler A) : Type 1 where
  pub moves : (c : Chat) → Moves user c (m c).1

module _ {user : ℕ} where
  -- A part, and what comes after it.
  pub >>=-at :
      {A B : Type 0} (m : Handler A) (k : A → Handler B) (c : Chat)
      → Moves user c (m c).1
      → ((a : A) → (m c).0 ≡ next a → Moves user (m c).1 (k a (m c).1).1)
      → Moves user c ((m >>= k) c).1
  unfolding ◌>>=◌
  >>=-at m k c h after = elim (Flow-cases (m c).0) [
    | inl (a, e) ↦ rw (◌>>=◌, e) (Moves-trans h (after a e))
    | inr (inl e) ↦ rw (◌>>=◌, e) h
    | inr (inr (x, e)) ↦ rw (◌>>=◌, e) h
  ]

  pub >>=-Keeps :
      {A B : Type 0} (m : Handler A) (k : A → Handler B)
      → Keeps user m
      → ((a : A) → Keeps user (k a))
      → Keeps user (m >>= k)
  >>=-Keeps m k h after = record {
    moves = λ c. >>=-at m k c (h.moves c) (λ a e. (after a).moves (m c).1);
  }

  module _ {A : Type 0} where
    pub pure-Keeps : (a : A) → Keeps user (pure a)
    unfolding pure
    pure-Keeps a = record { moves = λ c. here }

    pub stop-Keeps : Keeps user (stop {A = A})
    unfolding stop
    stop-Keeps = record { moves = λ c. here }

    pub raise-Keeps : (e : Error) → Keeps user (raise {A = A} e)
    unfolding raise
    raise-Keeps e = record { moves = λ c. here }

    pub gets-Keeps : (f : Chat → A) → Keeps user (gets f)
    unfolding gets
    gets-Keeps f = record { moves = λ c. here }

  pub say-Keeps : (x : Said) → Keeps user (say x)
  unfolding say modify
  say-Keeps x = record { moves = λ c. once (spoken x) }

  pub finish-Keeps : {A : Type 0} (x : Said) → Keeps user (finish {A = A} x)
  finish-Keeps x = >>=-Keeps _ _ (say-Keeps x) λ _. stop-Keeps

  pub stop_if-Keeps : (b : Bool) (x : Said) → Keeps user (stop_if b x)
  unfolding stop_if
  stop_if-Keeps true x = finish-Keeps x
  stop_if-Keeps false x = pure-Keeps tt

  pub or_stop-Keeps : {A : Type 0} (o : Option A) (x : Said) → Keeps user (or_stop o x)
  unfolding or_stop
  or_stop-Keeps none x = finish-Keeps x
  or_stop-Keeps (some a) x = pure-Keeps a

  pub user_of-Keeps : (u : Update) → Keeps user (user_of u)
  unfolding user_of
  user_of-Keeps u =
      elim u.from_user as (λ o. Keeps user (elim o [ none ↦ stop | some n ↦ pure n ])) [
        | none ↦ stop-Keeps
        | some n ↦ pure-Keeps n
      ]

  pub clear-Keeps : Keeps user clear
  unfolding clear modify
  clear-Keeps = record { moves = λ c. once ended }

  pub set_state-Keeps :
      (st : Option State) → ((d : Data) → IsReady st d) → Keeps user (set_state st)
  unfolding set_state modify
  set_state-Keeps st h = record { moves = λ c. once (advanced st (h c.form)) }

  pub need_message-Keeps : (u : Update) → Keeps user (need_message u)
  unfolding need_message
  need_message-Keeps u = stop_if-Keeps _ _

  pub need_both-Keeps : (u : Update) → Keeps user (need_both u)
  unfolding need_both
  need_both-Keeps u =
      elim u.from_user
        as (λ o.
          Keeps user (elim o [ none ↦ finish acknowledged | some n ↦ need_message u >> pure n ])) [
            | none ↦ finish-Keeps acknowledged
            | some n ↦ >>=-Keeps _ _ (need_message-Keeps u) λ _. pure-Keeps n
          ]

  pub on_message-Keeps : (u : Update) (x : Said) → Keeps user (on_message u x)
  unfolding on_message
  on_message-Keeps u x =
      elim u.has_message
        as (λ b. Keeps user (elim b [ true ↦ say x | false ↦ raise attribute_error ])) [
          | true ↦ say-Keeps x
          | false ↦ raise-Keeps _
        ]

  pub when-Keeps : (b : Bool) (m : Handler ⊤) → Keeps user m → Keeps user (when b m)
  unfolding when
  when-Keeps true m h = h
  when-Keeps false m h = pure-Keeps tt

  module _ {A B : Type 0} (m : Handler B) where
    pub if_none-Keeps :
        (o : Option A) (k : A → Handler B)
        → Keeps user m
        → ((a : A) → Keeps user (k a))
        → Keeps user (if_none o m k)
    unfolding if_none
    if_none-Keeps none k h after = h
    if_none-Keeps (some a) k h after = after a

    pub if_empty-Keeps :
        (xs : List A) (k : A → List A → Handler B)
        → Keeps user m
        → ((x : A) (xs : List A) → Keeps user (k x xs))
        → Keeps user (if_empty xs m k)
    unfolding if_empty
    if_empty-Keeps [] k h after = h
    if_empty-Keeps (x ∷ xs) k h after = after x xs

  pub if_true-Keeps :
      {A : Type 0} (b : Bool) (m k : Handler A)
      → Keeps user m
      → Keeps user k
      → Keeps user (if_true b m k)
  unfolding if_true
  if_true-Keeps true m k h after = h
  if_true-Keeps false m k h after = after

  pub set_query-Keeps :
      (q : Option Text) → Keeps user (update_data (λ d. record d { service_search_query = q }))
  unfolding update_data modify
  set_query-Keeps q = record { moves = λ c. once (searched q) }

  pub set_email-Keeps :
      (email : Text) → Keeps user (update_data (λ d. record d { email = some email }))
  unfolding update_data modify
  set_email-Keeps email = record { moves = λ c. once (addressed email) }

  -- A call of the services.
  pub run-at :
      {A : Type 0} (m : Exec Site A) (c : Chat)
      → Serves user c.site.db (m c.site).1.db
      → Moves user c (run m c).1
  unfolding run
  run-at m c h = elim (Result-cases (m c.site).0) [
    | inl (a, e) ↦ rw (run, e) (once (served (m c.site).1 h))
    | inr (x, e) ↦ rw (run, e) (once (served (m c.site).1 h))
  ]

  pub run-Keeps :
      {A : Type 0} (m : Exec Site A)
      → ((s : Site) → Serves user s.db (m s).1.db)
      → Keeps user (run m)
  run-Keeps m h = record { moves = λ c. run-at m c (h c.site) }

  pub catching-at :
      {A : Type 0} (m : Handler A) (handler : Error → Handler A) (c : Chat)
      → Moves user c (m c).1
      → ((e : Error) → Keeps user (handler e))
      → Moves user c (catching m handler c).1
  unfolding catching
  catching-at m handler c h after = elim (Flow-cases (m c).0) [
    | inl (a, e) ↦ rw (catching, e) h
    | inr (inl e) ↦ rw (catching, e) h
    | inr (inr (x, e)) ↦ rw (catching, e) (Moves-trans h ((after x).moves (m c).1))
  ]

  pub catching-Keeps :
      {A : Type 0} (m : Handler A) (handler : Error → Handler A)
      → Keeps user m
      → ((e : Error) → Keeps user (handler e))
      → Keeps user (catching m handler)
  catching-Keeps m handler h after = record {
    moves = λ c. catching-at m handler c (h.moves c) after;
  }

  pub xui_error_as-Keeps :
      {A : Type 0} (how : Reply → Said) (e : Error) → Keeps user (xui_error_as {A = A} how e)
  unfolding xui_error_as
  xui_error_as-Keeps {A} how e =
      elim (is_xui_error e)
        as (λ b.
          Keeps user (elim b [ true ↦ finish {A = A} (how (error_text e)) | false ↦ raise e ])) [
            | true ↦ finish-Keeps _
            | false ↦ raise-Keeps _
          ]

  pub answer_resolve-Keeps :
      {A : Type 0} (how : Reply → Said) (e : Error) → Keeps user (answer_resolve {A = A} how e)
  unfolding answer_resolve
  answer_resolve-Keeps how service_not_found = finish-Keeps _
  answer_resolve-Keeps how (service_panel_unavailable p) = finish-Keeps _
  answer_resolve-Keeps how e = raise-Keeps _

pub ruleset keeps = (
  >>=-Keeps, pure-Keeps, stop-Keeps, raise-Keeps, gets-Keeps, say-Keeps, stop_if-Keeps,
  set_state-Keeps, or_stop-Keeps, user_of-Keeps, clear-Keeps, need_message-Keeps, need_both-Keeps,
  on_message-Keeps, when-Keeps, if_none-Keeps, if_empty-Keeps, if_true-Keeps, set_query-Keeps,
  set_email-Keeps, catching-Keeps, xui_error_as-Keeps, answer_resolve-Keeps,
)
