-- ===== src/Bot/Browse/Pages/Cover.antt =====
-- Turning over all pages of the list shows every service once, in order.
use resellerbot.Prelude.{
  ℕ, zero, suc, ◌+◌, ◌*◌, ◌≤◌, ◌<◌, ◌≡◌, ◌∙◌, refl, sym, ap, List, [], ◌∷◌, ◌++◌, arith, length,
}
use resellerbot.Prelude.Int.{ℤ}
use resellerbot.Bot.Browse.Pages.{services_page_size, total_pages, clamped, chunk, take, drop}

module _ {ℓ} {A : Type ℓ} where
  -- The pages from `page` on, `n` of them.
  abbrev pub pages_from : ℕ → ℕ → List A → List A
  pages_from page zero xs = []
  pages_from page (suc n) xs = chunk page xs ++ pages_from (suc page) n xs

  take-nil : (n : ℕ) → take {A = A} n [] ≡ []
  take-nil zero = refl
  take-nil (suc n) = refl

  drop-nil : (n : ℕ) → drop {A = A} n [] ≡ []
  drop-nil zero = refl
  drop-nil (suc n) = refl

  take-add : (m n : ℕ) (xs : List A) → take m xs ++ take n (drop m xs) ≡ take (m + n) xs
  take-add zero n xs = ap (λ m. take m xs) (omega arith)
  take-add (suc m) n [] = take-nil n ∙ sym (take-nil (suc m + n))
  take-add (suc m) n (x ∷ xs) =
      ap (λ (l : List A). x ∷ l) (take-add m n xs)
      ∙ ap (λ k. take k (x ∷ xs)) {x = suc (m + n)} {y = suc m + n} (omega arith)

  drop-add : (m n : ℕ) (xs : List A) → drop n (drop m xs) ≡ drop (m + n) xs
  drop-add zero n xs = ap (λ m. drop m xs) (omega arith)
  drop-add (suc m) n [] = drop-nil n ∙ sym (drop-nil (suc m + n))
  drop-add (suc m) n (x ∷ xs) =
      drop-add m n xs ∙ ap (λ k. drop k (x ∷ xs)) {x = suc (m + n)} {y = suc m + n} (omega arith)

  take-all : (n : ℕ) (xs : List A) → length xs ≤ n → take n xs ≡ xs
  take-all zero [] h = refl
  take-all zero (x ∷ xs) h = absurd (omega arith)
  take-all (suc n) [] h = refl
  take-all (suc n) (x ∷ xs) h = ap (λ (l : List A). x ∷ l) (take-all n xs (omega arith))

  pages_from-take :
      (page n : ℕ) (xs : List A)
      → pages_from page n xs ≡ take (n * services_page_size) (drop (page * services_page_size) xs)
  unfolding chunk
  pages_from-take page zero xs =
      ap (λ m. take m (drop (page * services_page_size) xs)) {x = 0} {y = 0 * services_page_size}
        (omega arith)
  pages_from-take page (suc n) xs =
      let rest : List A = drop (page * services_page_size) xs in
      let further : drop (suc page * services_page_size) xs ≡ drop services_page_size rest =
        ap (λ m. drop m xs) (omega arith)
        ∙ sym (drop-add (page * services_page_size) services_page_size xs) in
      ap (λ (l : List A). take services_page_size rest ++ l)
        (pages_from-take (suc page) n xs ∙ ap (take (n * services_page_size)) further)
      ∙ take-add services_page_size (n * services_page_size) rest
      ∙ ap (λ m. take m rest) (omega arith)

-- The page that is shown is one that there is, whatever page a button asks for.
pub clamped_within : (page : ℤ) (total : ℕ) → clamped page total < total_pages total
unfolding clamped
clamped_within page total = ground arith

-- All pages, one behind the other, are the whole list, in order and without a repetition.
pub pages_cover {ℓ} : {A : Type ℓ} (xs : List A) → pages_from 0 (total_pages (length xs)) xs ≡ xs
pages_cover xs =
    pages_from-take 0 (total_pages (length xs)) xs
    ∙ take-all (total_pages (length xs) * services_page_size) xs (ground arith)
