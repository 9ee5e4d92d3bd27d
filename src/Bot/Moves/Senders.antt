-- ===== src/Bot/Moves/Senders.antt =====
-- What is known after a guard: who sent the update, and what a call gave.
use resellerbot.Prelude.{ℕ, ◌≡◌, subst, some, arith}
use resellerbot.Errors.{Exec, ok}
use resellerbot.Registry.{Site}
use resellerbot.Bot.Chat.{
  Chat, Update, Handler, next, ◌>>=◌, pure, stop, modify, say, stop_if, user_of, need_message,
  need_both, run,
}
use resellerbot.Bot.Moves.{Moves}
use resellerbot.Bot.Moves.Rules.{Keeps, >>=-at, user_of-Keeps, need_both-Keeps}

pub user_of-is : (u : Update) (c : Chat) (a : ℕ) → (user_of u c).0 ≡ next a → u.from_user ≡ some a
unfolding user_of stop pure
user_of-is u c a h = ground arith

pub need_both-is :
    (u : Update) (c : Chat) (a : ℕ) → (need_both u c).0 ≡ next a → u.from_user ≡ some a
unfolding need_both stop pure say modify need_message stop_if ◌>>=◌
need_both-is u c a h = ground arith

-- A call that gave a result, and where it left the site.
pub run-is :
    {A : Type 0} (m : Exec Site A) (c : Chat) (a : A)
    → (run m c).0 ≡ next a
    → ((m c.site).0 ≡ ok a) × ((run m c).1.site ≡ (m c.site).1)
unfolding run
run-is m c a h = ground arith

-- The user whom the update names.
module _ {user : ℕ} {B : Type 0} (u : Update) (k : ℕ → Handler B) (from : u.from_user ≡ some user)
    (h : Keeps user (k user)) where
  same : (a : ℕ) → u.from_user ≡ some a → user ≡ a
  same a e = ground arith

  pub user_of-after : Keeps user (user_of u >>= k)
  user_of-after = record {
    moves = λ c. >>=-at (user_of u) k c ((user_of-Keeps u).moves c) (λ a e.
        subst (λ (n : ℕ). Moves user (user_of u c).1 (k n (user_of u c).1).1)
          (same a (user_of-is u c a e)) (h.moves (user_of u c).1));
  }

  pub need_both-after : Keeps user (need_both u >>= k)
  need_both-after = record {
    moves = λ c. >>=-at (need_both u) k c ((need_both-Keeps u).moves c) (λ a e.
        subst (λ (n : ℕ). Moves user (need_both u c).1 (k n (need_both u c).1).1)
          (same a (need_both-is u c a e)) (h.moves (need_both u c).1));
  }
