-- ===== src/RateLimit/Window.antt =====
-- However the calls of all users interleave, no window of time holds more accepted calls of a user
-- than the largest limit.
use resellerbot.Prelude.{
  ℕ, suc, ◌+◌, ◌≤◌, ◌<◌, ◌≡◌, ◌∙◌, refl, sym, ap, subst, ==_iff, inl, inr, Bool, false, ◌&&◌, List,
  [], ◌∷◌, ◌++◌, ◌==◌, ltb, leb, if◌then◌else◌, select, length, count_where, arith, Bool-cases,
}
use resellerbot.RateLimit.{Hits, is_recent, check}

module _ (limit window user : ℕ) where
  -- The times of the accepted calls after a call with the limit `lim`: `user`'s alone are logged.
  abbrev pub logged : ℕ → ℕ → ℕ → Hits → List ℕ → List ℕ
  logged lim u now hits log =
      if u == user && (check lim window u now hits).0 then log ++ now ∷ [] else log

  -- The calls so far, at times that do not go back: the state, the time of the last call, and the
  -- times at which calls of `user` were accepted. The handlers share the state, and each has its
  -- own limit, `create_rate_limit` or `guest_order_rate_limit`; `limit` is the largest of them.
  pub data Run : Hits → ℕ → List ℕ → Type 0 where
    start : Run (λ _. []) 0 []
    call :
        {hits : Hits} {last : ℕ} {log : List ℕ} (lim u now : ℕ)
        → lim ≤ limit
        → Run hits last log
        → last ≤ now
        → Run (check lim window u now hits).1 now (logged lim u now hits log)

  -- Filtering with an earlier time first makes no difference.
  select-select :
      (m now : ℕ) (xs : List ℕ)
      → m ≤ now
      → select (is_recent window now) (select (is_recent window m) xs)
        ≡ select (is_recent window now) xs
  select-select m now [] h = refl
  select-select m now (x ∷ xs) h = ground (arith, select-select m now xs h)

  select-append :
      (p : ℕ → Bool) (xs : List ℕ) (x : ℕ)
      → select p (xs ++ x ∷ []) ≡ (if p x then select p xs ++ x ∷ [] else select p xs)
  select-append p [] x = ground arith
  select-append p (y ∷ xs) x = ground (arith, select-append p xs x)

  -- The accepted calls in the window that ends at `t`.
  abbrev pub in_window : ℕ → ℕ → Bool
  in_window t a = leb a t && ltb t (a + window)

  count-append :
      (t : ℕ) (xs : List ℕ) (x : ℕ)
      → count_where (in_window t) (xs ++ x ∷ []) ≡ (
          if in_window t x
          then suc (count_where (in_window t) xs)
          else count_where (in_window t) xs)
  count-append t [] x = ground arith
  count-append t (y ∷ xs) x = ground (arith, count-append t xs x)

  -- A later window holds recent calls alone.
  count_le_length :
      (now t : ℕ) (xs : List ℕ)
      → now ≤ t
      → count_where (in_window t) xs ≤ length (select (is_recent window now) xs)
  count_le_length now t [] h = omega arith
  count_le_length now t (x ∷ xs) h = ground (arith, count_le_length now t xs h)

  -- What is kept for `user` is what was recent at some earlier call.
  abbrev IsKept : Hits → ℕ → List ℕ → Type 0
  IsKept hits last log = (m : ℕ) × (m ≤ last) × (hits user ≡ select (is_recent window m) log)

  abbrev IsLimited : List ℕ → Type 0
  IsLimited log = (t : ℕ) → count_where (in_window t) log ≤ limit

  module _ (positive : 0 < window) (lim : ℕ) (hits : Hits) (last now : ℕ) (log : List ℕ)
      (later : last ≤ now) (kept : IsKept hits last log) where
    recent-kept : select (is_recent window now) (hits user) ≡ select (is_recent window now) log
    recent-kept =
        ap (select (is_recent window now)) kept.2
        ∙ select-select kept.0 now log (omega (arith, kept.1))

    own-IsKept : IsKept (check lim window user now hits).1 now (logged lim user now hits log)
    unfolding check
    own-IsKept = (
      now,
      omega arith,
      ground (arith, recent-kept, select-append (is_recent window now) log now),
    )

    other-IsKept :
        (u : ℕ)
        → (u == user) ≡ false
        → IsKept (check lim window u now hits).1 now (logged lim u now hits log)
    unfolding check
    other-IsKept u e = (kept.0, omega (arith, kept.1), ground (arith, kept.2))

    own-IsLimited : lim ≤ limit → IsLimited log → IsLimited (logged lim user now hits log)
    unfolding check
    own-IsLimited allowed a t = elim (Bool-cases (in_window t now)) [
      | inr e ↦ ground (arith, count-append t log now, a t)
      | inl e ↦ ground (
        arith,
        allowed,
        count-append t log now,
        a t,
        recent-kept,
        count_le_length now t log (ground arith),
      )
    ]

  Run-Invariant :
      {hits : Hits} {last : ℕ} {log : List ℕ}
      → 0 < window
      → Run hits last log
      → IsKept hits last log × IsLimited log
  Run-Invariant positive start = ((0, omega arith, refl), λ t. omega arith)
  Run-Invariant positive (call {hits} {last} {log} lim u now allowed r later) =
      let (kept, few) = Run-Invariant positive r in
      elim (Bool-cases (u == user)) [
        | inr e ↦ (other-IsKept positive lim hits last now log later kept u e, rw e few)
        | inl e ↦
            subst
              (λ v.
                IsKept (check lim window v now hits).1 now (logged lim v now hits log)
                × IsLimited (logged lim v now hits log))
              {x = user} {y = u} (sym ((==_iff u user).0 e))
              (
                own-IsKept positive lim hits last now log later kept,
                own-IsLimited positive lim hits last now log later kept allowed few,
              )
      ]

  -- With a window that is not empty, and a clock that does not go back, the accepted calls of a user
  -- in any window of time, its start excluded, are at most `limit`, however the calls of all users
  -- interleave, where each call may be made with a limit of its own that is at most `limit`.
  pub accepted_within_limit :
      {hits : Hits} {last : ℕ} {log : List ℕ}
      → 0 < window
      → Run hits last log
      → (t : ℕ) → count_where (in_window t) log ≤ limit
  accepted_within_limit positive r = (Run-Invariant positive r).1
