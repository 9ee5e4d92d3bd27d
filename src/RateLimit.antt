-- ===== src/RateLimit.antt =====
-- `RateLimitMiddleware` of bot/middlewares/auth.py: how often a user may place an order or create a
-- service.
--
-- Times are counted in ticks of `time()`; the window is as many ticks as 60 seconds have.
pub mod Window
use resellerbot.Prelude.{
  ℕ, ◌+◌, Bool, true, false, List, [], ◌∷◌, ◌++◌, ◌==◌, ltb, leb, if◌then◌else◌, select, length,
}

-- `defaultdict(list)`: the times of each user's accepted calls.
abbrev pub Hits : Type 0
Hits = ℕ → List ℕ

abbrev pub put : ℕ → List ℕ → Hits → Hits
put user times hits u = if u == user then times else hits u

-- `now - t < window`
abbrev pub is_recent : ℕ → ℕ → ℕ → Bool
is_recent window now t = ltb now (t + window)

-- `_check`
unfoldable pub check : ℕ → ℕ → ℕ → ℕ → Hits → Bool × Hits
check limit window user now hits =
    let recent = select (is_recent window now) (hits user) in
    if leb limit (length recent)
    then (false, put user recent hits)
    else (true, put user (recent ++ now ∷ []) hits)
