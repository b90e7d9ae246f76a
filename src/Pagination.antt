-- ===== src/Pagination.antt =====
-- Pages of a list (src/utils/pagination.py, PaginationParams of src/schemas/common.py). A page size
-- of 0 raises ZeroDivisionError in the source if there are items; the schema and the callers give
-- at least 1.
pub mod Cover
use ai_detention.Prelude.{
  List, ℕ, length, take, ltb, ◌-◌, if◌then◌else◌, Bool, ◌*◌, ◌%◌, drop, ◌==◌, ◌/◌, ◌+◌,
}

pub record Page {ℓ} (A : Type ℓ) : Type ℓ where
  pub items : List A
  pub total : ℕ
  pub page : ℕ
  pub page_size : ℕ
  pub total_pages : ℕ
  pub has_next : Bool
  pub has_prev : Bool

-- math.ceil(a / b), exact where the source's quotient is a double.
unfoldable pub ceil_div : ℕ → ℕ → ℕ
ceil_div a b = if a % b == 0 then a / b else a / b + 1

unfoldable pub total_pages_of : ℕ → ℕ → ℕ
total_pages_of total page_size = if ltb 0 total then ceil_div total page_size else 0

unfoldable pub offset : ℕ → ℕ → ℕ
offset page page_size = (page - 1) * page_size

module _ {ℓ} {A : Type ℓ} where
  abbrev pub build_paginated_response : List A → ℕ → ℕ → ℕ → Page A
  build_paginated_response items total page page_size =
      let pages = total_pages_of total page_size in
      record {
        items = items;
        total = total;
        page = page;
        page_size = page_size;
        total_pages = pages;
        has_next = ltb page pages;
        has_prev = ltb 1 page;
      }

  -- items[start:end], for a page of at least 1.
  abbrev pub page_items : List A → ℕ → ℕ → List A
  page_items items page page_size = take page_size (drop ((page - 1) * page_size) items)

  unfoldable pub paginate_list : List A → ℕ → ℕ → Page A
  paginate_list items page page_size =
      build_paginated_response (page_items items page page_size) (length items) page page_size
