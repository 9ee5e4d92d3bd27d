-- ===== src/Repository/Clients/Active.antt =====
-- The bytes of a reseller's services under each change of the table of services.
use resellerbot.Prelude.{
  ℕ, ◌<◌, ◌≡◌, refl, inl, inr, false, List, [], ◌∷◌, ◌++◌, arith, ◌==◌, if◌then◌else◌, Bool-cases,
  All, All-append, update, remove, sum_where, max_key, fresh_key,
}
use resellerbot.Prelude.Int.{ℤ, pos, ◌+ℤ◌, int_laws}
use resellerbot.Models.{ClientRecord}
use resellerbot.Repository.Usage.{owned_by, allocated}
use resellerbot.Repository.Clients.{has_id}

abbrev pub key : ClientRecord → ℕ
key c = c.id

-- No two rows have one id.
abbrev pub UniqueIds : List ClientRecord → Type 0
UniqueIds [] = Unit
UniqueIds (c ∷ cs) = All (λ d. (d.id == c.id) ≡ false) cs × UniqueIds cs

abbrev pub active : ℕ → List ClientRecord → ℤ
active t cs = sum_where (owned_by t) allocated cs

-- What one row adds to the bytes of the reseller `t`.
abbrev pub share : ℕ → ClientRecord → ℤ
share t c = if c.reseller_tg_id == t then c.allocated_bytes else pos 0

pub active-append :
    (t : ℕ) (cs : List ClientRecord) (c : ClientRecord)
    → active t (cs ++ c ∷ []) ≡ active t cs +ℤ share t c
active-append t [] c = grind int_laws
active-append t (d ∷ cs) c = grind (int_laws, active-append t cs c)

-- Below every id of the table.
abbrev Fresh : ℕ → List ClientRecord → Type 0
Fresh k cs = All (λ d. (d.id == k) ≡ false) cs

Fresh-above : (k : ℕ) (cs : List ClientRecord) → max_key key cs < k → Fresh k cs
Fresh-above k [] h = tt
Fresh-above k (c ∷ cs) h = (ground arith, Fresh-above k cs (omega arith))

pub fresh_key-Fresh : (cs : List ClientRecord) → Fresh (fresh_key key cs) cs
fresh_key-Fresh cs = Fresh-above (fresh_key key cs) cs (omega arith)

pub remove-Fresh : (k : ℕ) (cs : List ClientRecord) → Fresh k cs → remove (has_id k) cs ≡ cs
remove-Fresh k [] h = refl
remove-Fresh k (c ∷ cs) h = rw h.0 (rw (remove-Fresh k cs h.1))

pub update-Fresh :
    (k : ℕ) (f : ClientRecord → ClientRecord) (cs : List ClientRecord)
    → Fresh k cs
    → update (has_id k) f cs ≡ cs
update-Fresh k f [] h = refl
update-Fresh k f (c ∷ cs) h = rw h.0 (rw (update-Fresh k f cs h.1))

-- Taking back the newest row.
pub remove-append :
    (cs : List ClientRecord) (c : ClientRecord)
    → Fresh c.id cs
    → remove (has_id c.id) (cs ++ c ∷ []) ≡ cs
remove-append [] c h = ground arith
remove-append (d ∷ cs) c h = rw h.0 (rw (remove-append cs c h.1))

pub update-append :
    (cs : List ClientRecord) (c d : ClientRecord)
    → Fresh c.id cs
    → update (has_id c.id) (λ _. d) (cs ++ c ∷ []) ≡ cs ++ d ∷ []
update-append [] c d h = ground arith
update-append (e ∷ cs) c d h = rw h.0 (rw (update-append cs c d h.1))

Fresh-append :
    (k : ℕ) (cs : List ClientRecord) (c : ClientRecord)
    → Fresh k cs
    → (c.id == k) ≡ false
    → Fresh k (cs ++ c ∷ [])
Fresh-append k cs c h e =
    All-append (λ (d : ClientRecord). (d.id == k) ≡ false) cs (c ∷ []) h (e, tt)

pub UniqueIds-append :
    (cs : List ClientRecord) (c : ClientRecord)
    → UniqueIds cs
    → Fresh c.id cs
    → UniqueIds (cs ++ c ∷ [])
UniqueIds-append [] c u h = (tt, tt)
UniqueIds-append (d ∷ cs) c u h =
    (Fresh-append d.id cs c u.0 (ground (arith, h.0)), UniqueIds-append cs c u.1 h.1)

Fresh-remove : (k j : ℕ) (cs : List ClientRecord) → Fresh k cs → Fresh k (remove (has_id j) cs)
Fresh-remove k j [] h = tt
Fresh-remove k j (c ∷ cs) h = elim (Bool-cases (c.id == j)) [
  | inl e ↦ rw e (Fresh-remove k j cs h.1)
  | inr e ↦ rw e (h.0, Fresh-remove k j cs h.1)
]

pub UniqueIds-remove :
    (j : ℕ) (cs : List ClientRecord) → UniqueIds cs → UniqueIds (remove (has_id j) cs)
UniqueIds-remove j [] u = tt
UniqueIds-remove j (c ∷ cs) u = elim (Bool-cases (c.id == j)) [
  | inl e ↦ rw e (UniqueIds-remove j cs u.1)
  | inr e ↦ rw e (Fresh-remove c.id j cs u.0, UniqueIds-remove j cs u.1)
]
