-- ===== src/Rules/Paging.antt =====
-- `normalizePage` of usecase/document.go: the bounds of what the lists ask of the database.
use superkb.Base.{ℕ, zero, suc, ◌≤◌, ◌≡◌, ap, arith}
use superkb.Base.Int.{ℤ, pos, negsuc}
use superkb.Usecase.Paging.{page_limit, page_offset, normalize_page}

page_limit-bounds : (z : ℤ) → (1 ≤ page_limit z) × (page_limit z ≤ 100)
unfolding page_limit
page_limit-bounds (negsuc n) = ground arith
page_limit-bounds (pos zero) = ground arith
page_limit-bounds (pos (suc n)) = ground arith

page_limit-kept : (n : ℕ) → 1 ≤ n → n ≤ 100 → page_limit (pos n) ≡ n
unfolding page_limit
page_limit-kept zero low high = ground arith
page_limit-kept (suc n) low high = ground arith

-- Whatever a client asks for, a page has from 1 to 100 rows, and asking for the limit and the
-- offset that were used gives them again.
pub normalize_page-bounds :
    (limit offset : ℤ)
    → let page = normalize_page limit offset in
      (1 ≤ page.0) × ((page.0 ≤ 100) × (normalize_page (pos page.0) (pos page.1) ≡ page))
unfolding normalize_page page_offset
normalize_page-bounds limit offset =
    let (low, high) = page_limit-bounds limit in
    (low, (high, ap (λ n. (n, page_offset offset)) (page_limit-kept (page_limit limit) low high)))
