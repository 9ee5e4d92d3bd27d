-- ===== src/Repository/Panels/References.antt =====
-- The panel of an assignment, and the default panel of a reseller, stay in the table of panels.
use resellerbot.Prelude.{
  ℕ, ◌≡◌, ◌⊎◌, ◌∙◌, refl, ap, inl, inr, Bool, true, false, List, [], ◌∷◌, arith, ◌==◌, ltb, All,
  find, remove, count_where, is_some, Bool-cases, Option-cases,
}
use resellerbot.Models.{Db, Panel, Reseller, ResellerPanel}
use resellerbot.Repository.Assignments.{assignment_count_on_panel}
use resellerbot.Repository.Panels

-- No row passes a test that counts none.
All-none {ℓ} :
    {A : Type ℓ} (p : A → Bool) (xs : List A) → count_where p xs ≡ 0 → All (λ x. p x ≡ false) xs
All-none p [] h = tt
All-none p (x ∷ xs) h = elim (Bool-cases (p x)) [
  | inl e ↦ absurd (omega (arith, rw e at h))
  | inr e ↦ (e, All-none p xs (rw e at h))
]

find-remove_other :
    (i j : ℕ) (ps : List Panel)
    → (j == i) ≡ false
    → find (Panels.is_panel j) (remove (Panels.is_panel i) ps) ≡ find (Panels.is_panel j) ps
find-remove_other i j [] h = refl
find-remove_other i j (p ∷ ps) h = ground (arith, find-remove_other i j ps h)

module _ {A : Type 0} (panel_of : A → ℕ) where
  -- Every row's panel is in the table.
  abbrev pub IsPlaced : List Panel → List A → Type 0
  IsPlaced ps = All (λ x. is_some (find (Panels.is_panel (panel_of x)) ps) ≡ true)

  IsPlaced-remove :
      (i : ℕ) (ps : List Panel) (xs : List A)
      → All (λ x. (panel_of x == i) ≡ false) xs
      → IsPlaced ps xs
      → IsPlaced (remove (Panels.is_panel i) ps) xs
  IsPlaced-remove i ps [] h a = tt
  IsPlaced-remove i ps (x ∷ xs) h a =
      (ap is_some (find-remove_other i (panel_of x) ps h.0) ∙ a.0, IsPlaced-remove i ps xs h.1 a.1)

abbrev without : ℕ → Db → Db
without panel_id db = record db { panels = remove (Panels.is_panel panel_id) db.panels }

-- A deletion writes nothing, or it found no reference and removes the row.
delete-cases :
    (panel_id : ℕ) (db : Db)
    → ((Panels.delete panel_id db).1 ≡ db)
      ⊎ ((count_where (λ a. a.panel_id == panel_id) db.assignments ≡ 0)
          × (count_where (λ r. r.panel_id == panel_id) db.resellers ≡ 0)
          × ((Panels.delete panel_id db).1 ≡ without panel_id db))
unfolding Panels.delete Panels.reseller_count assignment_count_on_panel
delete-cases panel_id db = elim (Bool-cases (panel_id == 1)) [
  | inl e ↦ inl (ground arith)
  | inr e ↦ elim (Bool-cases (ltb 0 (assignment_count_on_panel panel_id db))) [
    | inl f ↦ inl (ground arith)
    | inr f ↦ elim (Bool-cases (ltb 0 (Panels.reseller_count panel_id db))) [
      | inl g ↦ inl (ground arith)
      | inr g ↦ elim (Option-cases (Panels.get panel_id db)) [
        | inl n ↦ inl (ground arith)
        | inr n ↦ inr (ground arith, ground arith, ground (arith, n.1))
      ]
    ]
  ]
]

-- The references to panels are whole.
abbrev pub IsReferenced : Db → Type 0
IsReferenced db =
    IsPlaced (λ (a : ResellerPanel). a.panel_id) db.panels db.assignments
    × IsPlaced (λ (r : Reseller). r.panel_id) db.panels db.resellers

-- Deleting a panel, whether it is refused or not, leaves no assignment and no reseller with a panel
-- that is not in the table.
pub delete-IsReferenced :
    (panel_id : ℕ) (db : Db) → IsReferenced db → IsReferenced (Panels.delete panel_id db).1
delete-IsReferenced panel_id db a = elim (delete-cases panel_id db) [
  | inl e ↦ rw e a
  | inr (h, k, e) ↦ rw e (
    IsPlaced-remove (λ (b : ResellerPanel). b.panel_id) panel_id db.panels db.assignments
        (All-none (λ (b : ResellerPanel). b.panel_id == panel_id) db.assignments h) a.0,
    IsPlaced-remove (λ (r : Reseller). r.panel_id) panel_id db.panels db.resellers
        (All-none (λ (r : Reseller). r.panel_id == panel_id) db.resellers k) a.1,
  )
]
