-- ===== src/Broadcast.antt =====
-- services/broadcast.py: a text to all resellers. Telegram is an argument, which says how each
-- message ends; the pause between two messages is left out.
use resellerbot.Prelude.{ℕ, ◌+◌, ◌≤◌, ◌≡◌, List, [], ◌∷◌, length, arith}
use resellerbot.Models.{Reseller}

-- A sent message, `TelegramForbiddenError`, or another exception.
pub data Sending : Type 0 where
  accepted forbidden failing : Sending

pub record BroadcastResult : Type 0 where
  pub sent : ℕ
  pub failed : ℕ
  pub blocked : ℕ

-- The loop's body on the counters.
abbrev counted : Sending → BroadcastResult → BroadcastResult
counted accepted c = record c { sent = c.sent + 1 }
counted forbidden c = record c { failed = c.failed + 1; blocked = c.blocked + 1 }
counted failing c = record c { failed = c.failed + 1 }

broadcast_from : (Reseller → Sending) → List Reseller → BroadcastResult → BroadcastResult
broadcast_from send [] c = c
broadcast_from send (r ∷ rs) c = broadcast_from send rs (counted (send r) c)

unfoldable pub broadcast_text_to_resellers : (Reseller → Sending) → List Reseller → BroadcastResult
unfolding broadcast_from
broadcast_text_to_resellers send resellers =
    broadcast_from send resellers (record { sent = 0; failed = 0; blocked = 0 })

-- The counters after the loop, from any counters.
broadcast_from_counts :
    (send : Reseller → Sending) (rs : List Reseller) (c : BroadcastResult)
    → let d = broadcast_from send rs c in
      (d.sent + d.failed ≡ c.sent + c.failed + length rs)
      × (d.blocked + c.failed ≤ d.failed + c.blocked)
unfolding broadcast_from
broadcast_from_counts send [] c = (omega arith, omega arith)
broadcast_from_counts send (r ∷ rs) c =
    ground (arith, broadcast_from_counts send rs (counted (send r) c))

-- Whatever becomes of the messages, every reseller is counted once, as sent or as failed, and those
-- who blocked the bot are among the failed.
pub broadcast_counts_all :
    (send : Reseller → Sending) (rs : List Reseller)
    → let d = broadcast_text_to_resellers send rs in
      (d.sent + d.failed ≡ length rs) × (d.blocked ≤ d.failed)
unfolding broadcast_text_to_resellers
broadcast_counts_all send rs =
    let h = broadcast_from_counts send rs (record { sent = 0; failed = 0; blocked = 0 }) in
    (omega (arith, h.0), omega (arith, h.1))
