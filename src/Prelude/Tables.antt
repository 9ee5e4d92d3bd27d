-- ===== src/Prelude/Tables.antt =====
-- Aggregates and orders of a query: `count`, `coalesce(sum(…), 0)`, the next primary key, `ORDER BY`.
use Prim.Native.Nat.{ℕ, suc, max}
use mathlib.Core.Bool.{Bool, true}
use mathlib.Core.List.{List, [], ◌∷◌}
use mathlib.Core.Path.{◌≡◌}
use mathlib.Core.Logic.{inl, inr}
use resellerbot.Prelude.Tests.{if◌then◌else◌, Bool-cases}
use resellerbot.Prelude.Lists.{All, select}
use resellerbot.Prelude.Int.{ℤ, pos, ◌+ℤ◌}

module _ {ℓ} {A : Type ℓ} where
  abbrev pub count_where : (A → Bool) → List A → ℕ
  count_where p [] = 0
  count_where p (x ∷ xs) = let rest = count_where p xs in if p x then suc rest else rest

  abbrev pub sum_where : (A → Bool) → (A → ℤ) → List A → ℤ
  sum_where p f [] = pos 0
  sum_where p f (x ∷ xs) = let rest = sum_where p f xs in if p x then f x +ℤ rest else rest

  -- SQLite's key for a new row: one more than the largest.
  abbrev pub max_key : (A → ℕ) → List A → ℕ
  max_key key [] = 0
  max_key key (x ∷ xs) = max (key x) (max_key key xs)

  abbrev pub fresh_key : (A → ℕ) → List A → ℕ
  fresh_key key xs = suc (max_key key xs)

  abbrev insert_by : (A → A → Bool) → A → List A → List A
  insert_by le x [] = x ∷ []
  insert_by le x (y ∷ ys) = if le x y then x ∷ y ∷ ys else y ∷ insert_by le x ys

  -- `ORDER BY`, rows that tie in order of insertion.
  unfoldable pub order_by : (A → A → Bool) → List A → List A
  order_by le [] = []
  order_by le (x ∷ xs) = insert_by le x (order_by le xs)

  All-insert_by {κ} :
      (P : A → Type κ) (le : A → A → Bool) (x : A) (xs : List A)
      → P x
      → All P xs
      → All P (insert_by le x xs)
  All-insert_by P le x [] h a = (h, tt)
  All-insert_by P le x (y ∷ ys) h a = elim (Bool-cases (le x y)) [
    | inl e ↦ rw e (h, a)
    | inr e ↦ rw e (a.0, All-insert_by P le x ys h a.1)
  ]

  -- Ordering keeps what holds of all rows.
  pub All-order_by {κ} :
      (P : A → Type κ) (le : A → A → Bool) (xs : List A) → All P xs → All P (order_by le xs)
  unfolding order_by
  All-order_by P le [] a = tt
  All-order_by P le (x ∷ xs) a =
      All-insert_by P le x (order_by le xs) a.0 (All-order_by P le xs a.1)

  -- The selected rows pass the test.
  pub All-select : (p : A → Bool) (xs : List A) → All (λ x. p x ≡ true) (select p xs)
  All-select p [] = tt
  All-select p (x ∷ xs) = elim (Bool-cases (p x)) [
    | inl e ↦ rw e (e, All-select p xs)
    | inr e ↦ rw e (All-select p xs)
  ]
