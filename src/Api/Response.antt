-- ===== src/Api/Response.antt =====
-- `PaginateSlice` of internal/api/response/response.go. The total is the length of a slice.
use tinycloud_platform.Base.{ℕ, ◌+◌, ◌≤◌, arith, ltb, if◌then◌else◌, ℤ, pos, negsuc}

pub record Page : Type 0 where
  pub limit : ℕ
  pub offset : ℕ
  pub end : ℕ

-- if limit < 1 { limit = 1 }; if limit > 100 { limit = 100 }
unfoldable pub page_limit : ℤ → ℕ
page_limit (negsuc n) = 1
page_limit (pos n) = if ltb n 1 then 1 else if ltb 100 n then 100 else n

-- if offset < 0 { offset = 0 }; if offset > total { offset = total }
unfoldable pub page_offset : ℤ → ℕ → ℕ
page_offset (negsuc n) total = 0
page_offset (pos n) total = if ltb total n then total else n

unfoldable pub paginate_slice : ℤ → ℤ → ℕ → Page
unfolding page_limit page_offset
paginate_slice limit offset total =
    let l = page_limit limit in
    let o = page_offset offset total in
    let e = o + l in record { limit = l; offset = o; end = if ltb total e then total else e }

pub record IsInBounds (p : Page) (total : ℕ) : Type 0 where
  pub some_limit : 1 ≤ p.limit
  pub few : p.limit ≤ 100
  pub ordered : p.offset ≤ p.end
  pub within : p.end ≤ total
  pub short : p.end ≤ p.offset + p.limit

page_limit_bounds : (l : ℤ) → (1 ≤ page_limit l) × (page_limit l ≤ 100)
unfolding page_limit
page_limit_bounds (negsuc n) = (omega arith, omega arith)
page_limit_bounds (pos n) = ground arith

page_offset_bounds : (o : ℤ) (total : ℕ) → page_offset o total ≤ total
unfolding page_offset
page_offset_bounds (negsuc n) total = omega arith
page_offset_bounds (pos n) total = ground arith

-- Whatever the client asks for, the limit is from 1 to 100, and the slice is a part of the list that is
-- no longer than the limit.
pub paginate_slice-IsInBounds :
    (limit offset : ℤ) (total : ℕ) → IsInBounds (paginate_slice limit offset total) total
unfolding paginate_slice
paginate_slice-IsInBounds limit offset total =
    let (a, b) = page_limit_bounds limit in
    let c = page_offset_bounds offset total in
    record {
      some_limit = a;
      few = b;
      ordered = ground (arith, c);
      within = ground (arith, c);
      short = ground (arith, c);
    }
