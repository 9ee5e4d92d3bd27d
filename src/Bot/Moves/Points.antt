-- ===== src/Bot/Moves/Points.antt =====
-- The moves of a handler from one chat, where what the handler has tested is known.
use resellerbot.Prelude.{
  ℕ, ◌≡◌, refl, Bool, true, false, Option, none, some, [], ◌∷◌, ap, is_some, false≢true,
}
use resellerbot.Prelude.Text.{Text}
use resellerbot.Bot.Chat.{
  Chat, Update, Handler, ◌>>=◌, pure, stop, gets, modify, say, stop_if, or_stop, user_of, if_none,
  non_empty,
}
use resellerbot.Bot.Said.{Said}
use resellerbot.Bot.Moves.{Moves}
use resellerbot.Bot.Moves.Rules.{finish-Keeps}

module _ {user : ℕ} {B : Type 0} (c : Chat) where
  pub or_stop-at :
      {A : Type 0} (o : Option A) (x : Said) (k : A → Handler B)
      → ((a : A) → o ≡ some a → Moves user c (k a c).1)
      → Moves user c ((or_stop o x >>= k) c).1
  unfolding or_stop ◌>>=◌ pure stop say modify
  or_stop-at none x k h = (finish-Keeps {user = user} {A = B} x).moves c
  or_stop-at (some a) x k h = h a refl

  pub stop_if-at :
      (b : Bool) (x : Said) (k : Unit → Handler B)
      → (b ≡ false → Moves user c (k tt c).1)
      → Moves user c ((stop_if b x >>= k) c).1
  unfolding stop_if ◌>>=◌ pure stop say modify
  stop_if-at true x k h = (finish-Keeps {user = user} {A = B} x).moves c
  stop_if-at false x k h = h refl

  pub gets-at :
      {A : Type 0} (f : Chat → A) (k : A → Handler B)
      → Moves user c (k (f c) c).1
      → Moves user c ((gets f >>= k) c).1
  unfolding gets ◌>>=◌
  gets-at f k h = h

  pub if_none-at :
      {A : Type 0} (o : Option A) (m : Handler B) (k : A → Handler B)
      → Moves user c (m c).1
      → ((a : A) → o ≡ some a → Moves user c (k a c).1)
      → Moves user c (if_none o m k c).1
  unfolding if_none
  if_none-at none m k h after = h
  if_none-at (some a) m k h after = after a refl

  pub user_of-at :
      (u : Update) (k : ℕ → Handler B)
      → ((n : ℕ) → Moves user c (k n c).1)
      → Moves user c ((user_of u >>= k) c).1
  unfolding user_of ◌>>=◌ pure stop
  user_of-at u k h = by_user u.from_user
    where
      by_user :
          (o : Option ℕ) → Moves user c (((elim o [ none ↦ stop | some n ↦ pure n ]) >>= k) c).1
      by_user none = Moves.here
      by_user (some n) = h n

pub non_empty-is :
    (o : Option Text) (n : Text) → non_empty o ≡ some n → (a : ℕ) × (s : Text) × (o ≡ some (a ∷ s))
non_empty-is none n h = absurd (false≢true (ap is_some h))
non_empty-is (some []) n h = absurd (false≢true (ap is_some h))
non_empty-is (some (a ∷ s)) n h = (a, s, refl)
