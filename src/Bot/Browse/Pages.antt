-- ===== src/Bot/Browse/Pages.antt =====
-- The pages of the service list: `service_list_kb` of bot/keyboards/common.py, up to the labels of
-- its buttons, and the numbers of `_format_service_list_text` of bot/handlers/reseller.py.
pub mod Cover
use resellerbot.Prelude.{
  ℕ, zero, suc, ◌+◌, ◌*◌, ◌-◌, ◌/◌, Bool, true, false, Option, none, some, List, [], ◌∷◌, ◌++◌,
  if◌then◌else◌, map, length, leb, ltb,
}
use resellerbot.Prelude.Int.{ℤ, pos, negsuc}
use resellerbot.Prelude.Text.{Text, codes}
use resellerbot.Labels.{decimal}

abbrev pub services_page_size : ℕ
services_page_size = 8

-- `max(1, (total + SERVICES_PAGE_SIZE - 1) // SERVICES_PAGE_SIZE)`
abbrev pub total_pages : ℕ → ℕ
total_pages total = let n = (total + 7) / services_page_size in if leb 1 n then n else 1

abbrev at_most : ℤ → ℕ → ℕ
at_most (pos p) last = if ltb p last then p else last
at_most (negsuc _) last = 0

-- `max(0, min(page, total_pages - 1))`
unfoldable pub clamped : ℤ → ℕ → ℕ
clamped page total = at_most page (total_pages total - 1)

module _ {ℓ} {A : Type ℓ} where
  abbrev pub drop : ℕ → List A → List A
  drop zero xs = xs
  drop (suc n) [] = []
  drop (suc n) (x ∷ xs) = drop n xs

  abbrev pub take : ℕ → List A → List A
  take zero xs = []
  take (suc n) [] = []
  take (suc n) (x ∷ xs) = x ∷ take n xs

  -- `emails[start : start + SERVICES_PAGE_SIZE]`
  unfoldable pub chunk : ℕ → List A → List A
  chunk page xs = take services_page_size (drop (page * services_page_size) xs)

-- The buttons that turn the page, by their callback data.
unfoldable pub nav : ℕ → ℕ → List Text
nav page pages =
    let page_button = λ (n : ℕ). codes "svc:pg:" ++ decimal n in
    let back = if ltb 0 page then page_button (page - 1) ∷ [] else [] in
    let forth = if ltb page (pages - 1) then page_button (page + 1) ∷ [] else [] in
    if ltb 1 pages then back ++ page_button page ∷ forth else []

abbrev search_row : Option Text → List Text
search_row none = codes "svc:search" ∷ []
search_row (some []) = codes "svc:search" ∷ []
search_row (some (c ∷ q)) = codes "svc:search" ∷ codes "svc:search:clear" ∷ []

-- `service_list_kb`, as the callback data of its buttons.
unfoldable pub service_list_kb : List Text → ℤ → Option Text → List Text
unfolding clamped chunk nav
service_list_kb emails page query =
    let shown = clamped page (length emails) in
    map (λ email. codes "svc:" ++ email) (chunk shown emails)
    ++ (nav shown (total_pages (length emails)) ++ search_row query)
