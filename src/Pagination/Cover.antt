-- ===== src/Pagination/Cover.antt =====
-- The pages of a list, one after the other, are the list.
use native.Mathlib.Nat.{div-add-mod}
use ai_detention.Prelude.{
  ℕ, List, [], length, ◌<◌, ◌≡◌, take, ◌+◌, true, ◌≤◌, ◌*◌, suc, ◌++◌, zero, ◌∷◌, arith, drop, ap,
  refl, ◌-◌, length-take, length-drop, ◌/◌, Bool-cases, ltb, inl, inr, ltb→lt,
}
use ai_detention.Pagination.{ceil_div, paginate_list, total_pages_of}
use ai_detention.Prelude.Rounding.{mul-le}

ceil_div-ge : (a b : ℕ) → 0 < b → a ≤ ceil_div a b * b
unfolding ceil_div
ceil_div-ge a b h = grind (arith, div-add-mod a b)

zero_add : (n : ℕ) → 0 + n ≡ n
zero_add n = omega arith

zero_mul : (n : ℕ) → 0 * n ≡ 0
zero_mul n = omega arith

suc_add : (m n : ℕ) → suc m + n ≡ suc (m + n)
suc_add m n = omega arith

suc_mul : (m n : ℕ) → suc m * n ≡ m * n + n
suc_mul m n = grind arith

suc_pred : (n : ℕ) → suc n - 1 ≡ n
suc_pred n = omega arith

ceil_div-before : (a b n : ℕ) → n < ceil_div a b → n ≤ a / b
unfolding ceil_div
ceil_div-before a b n p = ground arith

-- Fewer pages than the rounded quotient are full.
ceil_div-full : (a b n : ℕ) → 0 < b → n < ceil_div a b → n * b ≤ a
unfolding ceil_div
ceil_div-full a b n h p =
    let below = ceil_div-before a b n p in grind (arith, div-add-mod a b, mul-le n (a / b) b below)

module _ {ℓ} {A : Type ℓ} where
  -- The first `n` pages, as a client reads them.
  abbrev pub first_pages : ℕ → ℕ → List A → List A
  first_pages zero page_size xs = []
  first_pages (suc n) page_size xs =
      first_pages n page_size xs ++ (paginate_list xs (suc n) page_size).items

  abbrev nothing : List A
  nothing = []

  take-nil : (n : ℕ) → take n (nothing) ≡ nothing
  take-nil zero = refl
  take-nil (suc n) = refl

  take-add : (m n : ℕ) (xs : List A) → take (m + n) xs ≡ take m xs ++ take n (drop m xs)
  take-add zero n xs = rw (zero_add n) refl
  take-add (suc m) n [] = rw (suc_add m n, take-nil n) refl
  take-add (suc m) n (x ∷ xs) = rw (suc_add m n) (ap (◌∷◌ x) (take-add m n xs))

  first_pages-take :
      (n page_size : ℕ) (xs : List A) → first_pages n page_size xs ≡ take (n * page_size) xs
  unfolding paginate_list
  first_pages-take zero page_size xs = rw (zero_mul page_size) refl
  first_pages-take (suc n) page_size xs =
      rw
        (
          first_pages-take n page_size xs,
          suc_pred n,
          suc_mul n page_size,
          take-add (n * page_size) page_size xs,
        )
        refl

  take-all : (n : ℕ) (xs : List A) → length xs ≤ n → take n xs ≡ xs
  take-all zero [] h = refl
  take-all zero (x ∷ xs) h = absurd (omega arith)
  take-all (suc n) [] h = refl
  take-all (suc n) (x ∷ xs) h = ap (◌∷◌ x) (take-all n xs (omega arith))

  -- With pages of at least one item, the pages 1 to `total_pages` one after the other are exactly the
  -- list, and every page that has a next one is full.
  pub pages_cover :
      (xs : List A) (page_size : ℕ)
      → 0 < page_size
      → (first_pages (paginate_list xs 1 page_size).total_pages page_size xs ≡ xs)
        × ((page : ℕ)
            → 0 < page
            → (paginate_list xs page page_size).has_next ≡ true
            → length (paginate_list xs page page_size).items ≡ page_size)
  unfolding paginate_list total_pages_of
  pages_cover xs page_size h = (covers, full)
    where
      enough : length xs ≤ total_pages_of (length xs) page_size * page_size
      enough = elim (Bool-cases (ltb 0 (length xs))) [
        | inl some_item ↦ rw some_item (ceil_div-ge (length xs) page_size h)
        | inr empty ↦ ground arith
      ]

      below :
          (page : ℕ) → page < total_pages_of (length xs) page_size → page * page_size ≤ length xs
      below page p = elim (Bool-cases (ltb 0 (length xs))) [
        | inl some_item ↦ ceil_div-full (length xs) page_size page h (rw some_item at p)
        | inr empty ↦ absurd (ground arith)
      ]

      full :
          (page : ℕ)
          → 0 < page
          → (paginate_list xs page page_size).has_next ≡ true
          → length (paginate_list xs page page_size).items ≡ page_size
      full zero first next = absurd (omega arith)
      full (suc n) first next =
          rw
            (
              length-take page_size (drop ((suc n - 1) * page_size) xs),
              length-drop ((suc n - 1) * page_size) xs,
            )
            (grind (arith, suc_mul n page_size, suc_pred n, below (suc n) (ltb→lt _ _ next)))

      covers : first_pages (paginate_list xs 1 page_size).total_pages page_size xs ≡ xs
      covers =
          rw (first_pages-take (total_pages_of (length xs) page_size) page_size xs)
            (take-all (total_pages_of (length xs) page_size * page_size) xs enough)
