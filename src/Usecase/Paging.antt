-- ===== src/Usecase/Paging.antt =====
-- `normalizePage` of usecase/document.go
use superkb.Base.{ℕ, zero, suc, leb, if◌then◌else◌}
use superkb.Base.Int.{ℤ, pos, negsuc}

-- `limit <= 0 || limit > 100` falls back to 20
unfoldable pub page_limit : ℤ → ℕ
page_limit (negsuc n) = 20
page_limit (pos zero) = 20
page_limit (pos (suc n)) = if leb (suc n) 100 then suc n else 20

unfoldable pub page_offset : ℤ → ℕ
page_offset (negsuc n) = 0
page_offset (pos n) = n

unfoldable pub normalize_page : ℤ → ℤ → ℕ × ℕ
unfolding page_limit page_offset
normalize_page limit offset = (page_limit limit, page_offset offset)
