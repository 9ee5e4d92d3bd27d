-- ===== src/Bot/Moves/Confirming.antt =====
-- The name and the confirmation of a new service: the confirmation is asked for when all its data is
-- there, and makes a service of the user's.
use resellerbot.Prelude.{ℕ, ◌≡◌, Bool, true, false, Option, none, some, List}
use resellerbot.Prelude.Text.{Text}
use resellerbot.Errors.{Error, Result, ok, err}
use resellerbot.Models.{Reseller, AnyFloat}
use resellerbot.Labels
use resellerbot.Bot.Chat.{
  create_client_name, create_confirm, Chat, Update, Host, Handler, ◌>>=◌, ◌>>◌, pure, raise, gets,
  modify, say, update_data, set_state, when, if_true, finish, stop, clear,
}
use resellerbot.Bot.Said.{Said, Reply}
use resellerbot.Bot.Confirm.{
  or_raise, if_error, confirm_shown, show_create_confirm, suffix_of, process_client_name,
  create_auto_name,
}
use resellerbot.Bot.Moves.{
  HasPanel, HasVolume, HasName, Moves, Moves-trans, once, spoken, advanced, previewed, named,
}
use resellerbot.Bot.Moves.Rules.{Keeps, keeps, >>=-at, say-Keeps, when-Keeps, pure-Keeps}
use resellerbot.Bot.Moves.Points.{gets-at, if_none-at, user_of-at, non_empty-is}

module _ {user : ℕ} where
  answer_false-Keeps : (r : Reply) → Keeps user (say (Said.answered r) >> pure false)
  answer_false-Keeps r = search keeps

  confirm_shown-at :
      (host : Host) (r : Reseller) (p : ℕ) (v : AnyFloat) (email : Text) (ids : List ℕ) (c : Chat)
      → HasPanel c.form × HasVolume c.form × HasName c.form
      → Moves user c (confirm_shown host r p v email ids c).1
  unfolding confirm_shown ◌>>=◌ gets update_data set_state modify say pure
  confirm_shown-at host r p v email ids c h =
      Moves-trans (once (previewed email))
        (Moves-trans (once (advanced (some create_confirm) h)) (once (spoken _)))

  or_raise-at :
      {A B : Type 0} (c : Chat) (o : Option A) (e : Error) (k : A → Handler B)
      → ((a : A) → Moves user c (k a c).1)
      → Moves user c ((or_raise o e >>= k) c).1
  unfolding or_raise ◌>>=◌ pure raise
  or_raise-at c none e k h = Moves.here
  or_raise-at c (some a) e k h = h a

  if_error-at :
      {A B : Type 0} (c : Chat) (r : Result A) (m : Error → Handler B) (k : A → Handler B)
      → ((e : Error) → Moves user c (m e c).1)
      → ((a : A) → Moves user c (k a c).1)
      → Moves user c (if_error r m k c).1
  unfolding if_error
  if_error-at c (ok a) m k h after = after a
  if_error-at c (err e) m k h after = h e

  if_true-at :
      {A : Type 0} (c : Chat) (b : Bool) (m k : Handler A)
      → Moves user c (m c).1
      → Moves user c (k c).1
      → Moves user c (if_true b m k c).1
  unfolding if_true
  if_true-at c true m k h after = h
  if_true-at c false m k h after = after

  -- The prompt to choose another name.
  renamed-at :
      (x : Said) (c : Chat)
      → HasPanel c.form × HasVolume c.form
      → Moves user c
          ((say x >>= λ _. (set_state (some create_client_name) >>= λ _. pure false)) c).1
  unfolding ◌>>=◌ set_state modify say pure
  renamed-at x c h = Moves-trans (once (spoken x)) (once (advanced (some create_client_name) h))

  show_create_confirm-at :
      (host : Host) (r : Reseller) (c : Chat)
      → HasPanel c.form × HasVolume c.form
      → Moves user c (show_create_confirm host r c).1
  unfolding show_create_confirm
  show_create_confirm-at host r c h = gets-at c _ _ (
      or_raise-at c _ _ _ λ v. gets-at c _ _ (
        gets-at c _ _ (
          if_none-at c _ _ _ ((answer_false-Keeps _).moves c) λ name e. gets-at c _ _ (
            if_error-at c _ _ _ (λ x. (answer_false-Keeps _).moves c)
              λ email. if_none-at c _ _ _ ((answer_false-Keeps _).moves c) λ p _. gets-at c _ _ (
                gets-at c _ _ (
                  if_none-at c _ _ _ ((answer_false-Keeps _).moves c) λ a _.
                    if_true-at c _ _ _ (renamed-at _ c h) (
                      confirm_shown-at host r p v email _ c (h.0, h.1, non_empty-is _ name e))))))))

  ended_with : (x : Said) → Keeps user (clear >>= λ _. finish {A = Unit} x)
  ended_with x = search keeps

  suffix_of-after :
      {A : Type 0} (c : Chat) (n : Labels.Normalized) (k : Text → Handler A)
      → ((s : Text) → Moves user c (k s c).1)
      → Moves user c ((suffix_of n >>= k) c).1
  unfolding suffix_of ◌>>=◌ pure stop say modify
  suffix_of-after c (Labels.accepted s) k h = h s
  suffix_of-after c (Labels.refused e) k h = once (spoken _)

  pub process_client_name-at :
      (host : Host) (u : Update) (c : Chat)
      → c.state ≡ some create_client_name
      → HasPanel c.form × HasVolume c.form
      → Moves user c (process_client_name host u c).1
  unfolding process_client_name update_data modify
  process_client_name-at host u c st h = user_of-at c u _ λ n. gets-at c _ _ (
      if_none-at c _ _ _ ((ended_with _).moves c) λ r _. suffix_of-after c _ _ λ s.
        >>=-at _ _ c (once (named s st)) (λ a e.
          >>=-at _ _ _ (show_create_confirm-at host r _ h) (λ b _. (pure-Keeps tt).moves _)))

  shown_by :
      (host : Host) (b : Bool) (r : Reseller) (x : Said) (c : Chat)
      → HasPanel c.form × HasVolume c.form
      → Moves user c (when b (show_create_confirm host r >>= λ shown. when shown (say x)) c).1
  unfolding when pure
  shown_by host false r x c h = Moves.here
  shown_by host true r x c h =
      >>=-at (show_create_confirm host r) _ c (show_create_confirm-at host r c h)
        (λ b _. (when-Keeps b (say x) (say-Keeps x)).moves _)

  pub create_auto_name-at :
      (host : Host) (u : Update) (c : Chat)
      → c.state ≡ some create_client_name
      → HasPanel c.form × HasVolume c.form
      → Moves user c (create_auto_name host u c).1
  unfolding create_auto_name update_data modify
  create_auto_name-at host u c st h = user_of-at c u _ λ n. gets-at c _ _ (
      if_none-at c _ _ _ ((ended_with _).moves c) λ r _.
        >>=-at _ _ c (once (named host.token_hex st)) (λ a e.
          >>=-at _ _ _ (shown_by host u.has_message r _ _ h) (λ b _. (say-Keeps _).moves _)))
