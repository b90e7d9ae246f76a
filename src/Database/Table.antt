-- ===== src/Database/Table.antt =====
-- What the statements of SQLAlchemy that the code builds do to a table, as a list of rows in the
-- order of their insertion: select, update and delete with a `where`, and the readers of a result.
use ai_detention.Prelude.{
  ℕ, suc, ◌+◌, ◌≤◌, ◌≡◌, refl, ap, Bool, true, false, Option, none, some, List, [], ◌∷◌, ◌++◌,
  arith, if◌then◌else◌, length, All, Bool-cases, inl, inr,
}
use ai_detention.Errors.{Result, ok, err, multiple_results_found, no_result_found}

module _ {ℓ} {A : Type ℓ} where
  -- select(…).where(p)
  unfoldable pub select : (A → Bool) → List A → List A
  select p [] = []
  select p (x ∷ xs) = let rest = select p xs in if p x then x ∷ rest else rest

  -- update(…).where(p).values(…)
  unfoldable pub update_where : (A → Bool) → (A → A) → List A → List A
  update_where p f [] = []
  update_where p f (x ∷ xs) = (if p x then f x else x) ∷ update_where p f xs

  -- delete(…).where(p)
  unfoldable pub delete_where : (A → Bool) → List A → List A
  delete_where p [] = []
  delete_where p (x ∷ xs) = let rest = delete_where p xs in if p x then rest else x ∷ rest

  -- select(func.count()).where(p)
  abbrev pub count : (A → Bool) → List A → ℕ
  count p xs = length (select p xs)

  abbrev pub scalar_one_or_none : List A → Result (Option A)
  scalar_one_or_none [] = ok none
  scalar_one_or_none (x ∷ []) = ok (some x)
  scalar_one_or_none (x ∷ y ∷ xs) = err multiple_results_found

  abbrev pub scalar_one : List A → Result A
  scalar_one [] = err no_result_found
  scalar_one (x ∷ []) = ok x
  scalar_one (x ∷ y ∷ xs) = err multiple_results_found

module _ {ℓ} {A : Type ℓ} where
  -- What is selected passes the test.
  pub All-select : (p : A → Bool) (xs : List A) → All (λ x. p x ≡ true) (select p xs)
  unfolding select
  All-select p [] = tt
  All-select p (x ∷ xs) = ground (arith, All-select p xs)

  -- A reader that finds a row has found one that passes the test, and the only one.
  pub found-select :
      (p : A → Bool) (xs : List A) {x : A}
      → scalar_one_or_none (select p xs) ≡ ok (some x)
      → select p xs ≡ x ∷ []
  found-select p xs {x} h = go (select p xs) h
    where
      go : (ys : List A) → scalar_one_or_none ys ≡ ok (some x) → ys ≡ x ∷ []
      go [] e = ground arith
      go (y ∷ []) e = ground arith
      go (y ∷ z ∷ ys) e = ground arith

  pub missed-select :
      (p : A → Bool) (xs : List A) → scalar_one_or_none (select p xs) ≡ ok none → select p xs ≡ []
  missed-select p xs h = go (select p xs) h
    where
      go : (ys : List A) → scalar_one_or_none ys ≡ ok none → ys ≡ []
      go [] e = refl
      go (y ∷ []) e = absurd (ground arith)
      go (y ∷ z ∷ ys) e = absurd (ground arith)

  pub select-append :
      (p : A → Bool) (xs ys : List A) → select p (xs ++ ys) ≡ select p xs ++ select p ys
  unfolding select
  select-append p [] ys = refl
  select-append p (x ∷ xs) ys = ground (arith, select-append p xs ys)

  -- The one row that is selected passes the test.
  pub selected-holds : (p : A → Bool) (xs : List A) {x : A} → select p xs ≡ x ∷ [] → p x ≡ true
  selected-holds p xs h = ground (arith, ap (All (λ y. p y ≡ true)) h, All-select p xs)

  pub found-holds :
      (p : A → Bool) (xs : List A) {x : A}
      → scalar_one_or_none (select p xs) ≡ ok (some x)
      → p x ≡ true
  found-holds p xs {x} h =
      ground (arith, ap (All (λ y. p y ≡ true)) (found-select p xs h), All-select p xs)

  -- Of rows that all fail the test none is selected.
  pub select-eq-nil : (p : A → Bool) (xs : List A) → count p xs ≡ 0 → select p xs ≡ []
  select-eq-nil p xs h = go (select p xs) h
    where
      go : (ys : List A) → length ys ≡ 0 → ys ≡ []
      go [] e = refl
      go (y ∷ ys) e = absurd (omega arith)

  -- Deleted rows and the rows that are left make up the table.
  pub count-delete_where :
      (p : A → Bool) (xs : List A) → length (delete_where p xs) + count p xs ≡ length xs
  unfolding select delete_where
  count-delete_where p [] = omega arith
  count-delete_where p (x ∷ xs) = ground (arith, count-delete_where p xs)

  -- A selection that holds only outside the deleted rows is left alone.
  pub select-delete_where :
      (p q : A → Bool) (xs : List A)
      → ((x : A) → q x ≡ true → p x ≡ false)
      → select p (delete_where q xs) ≡ select p xs
  unfolding select delete_where
  select-delete_where p q [] h = refl
  select-delete_where p q (x ∷ xs) h = ground (arith, h x, select-delete_where p q xs h)

  -- What an update changes is left out of a selection that sees only the other rows.
  pub select-update_where :
      (p q : A → Bool) (f : A → A) (xs : List A)
      → ((x : A) → q x ≡ true → p x ≡ false)
      → ((x : A) → q x ≡ true → p (f x) ≡ false)
      → select p (update_where q f xs) ≡ select p xs
  unfolding select update_where
  select-update_where p q f [] h k = refl
  select-update_where p q f (x ∷ xs) h k =
      ground (arith, h x, k x, select-update_where p q f xs h k)

  pub length-update_where :
      (q : A → Bool) (f : A → A) (xs : List A) → length (update_where q f xs) ≡ length xs
  unfolding update_where
  length-update_where q f [] = refl
  length-update_where q f (x ∷ xs) = ap suc (length-update_where q f xs)

  -- What is left after a delete fails its test.
  pub All-delete_where : (q : A → Bool) (xs : List A) → All (λ x. q x ≡ false) (delete_where q xs)
  unfolding delete_where
  All-delete_where q [] = tt
  All-delete_where q (x ∷ xs) = ground (arith, All-delete_where q xs)

  pub count-append : (p : A → Bool) (xs ys : List A) → count p (xs ++ ys) ≡ count p xs + count p ys
  unfolding select
  count-append p [] ys = omega arith
  count-append p (x ∷ xs) ys = ground (arith, count-append p xs ys)

  -- A count that an update of rows outside the counted ones leaves alone.
  pub count-update_where :
      (p q : A → Bool) (f : A → A) (xs : List A)
      → ((x : A) → q x ≡ true → p (f x) ≡ p x)
      → count p (update_where q f xs) ≡ count p xs
  unfolding select update_where
  count-update_where p q f [] h = refl
  count-update_where p q f (x ∷ xs) h = ground (arith, h x, count-update_where p q f xs h)

  pub count-select-le : (p : A → Bool) (xs : List A) → count p xs ≤ length xs
  unfolding select
  count-select-le p [] = omega arith
  count-select-le p (x ∷ xs) = ground (arith, count-select-le p xs)

  -- A selection after an update that changes no row's membership: the selected rows, updated.
  pub select-update_where_keep :
      (p q : A → Bool) (f : A → A) (xs : List A)
      → ((x : A) → p (f x) ≡ p x)
      → select p (update_where q f xs) ≡ update_where q f (select p xs)
  unfolding select update_where
  select-update_where_keep p q f [] h = refl
  select-update_where_keep p q f (x ∷ xs) h =
      ground (arith, h x, select-update_where_keep p q f xs h)

  -- A narrower selection can be made from the wider one.
  pub select-select :
      (p q : A → Bool) (xs : List A)
      → ((x : A) → q x ≡ true → p x ≡ true)
      → select q xs ≡ select q (select p xs)
  unfolding select
  select-select p q [] h = refl
  select-select p q (x ∷ xs) h = ground (arith, h x, select-select p q xs h)

  -- An update of rows outside a selection that is empty changes nothing.
  pub update_where-nil :
      (q : A → Bool) (f : A → A) (xs : List A) → select q xs ≡ [] → update_where q f xs ≡ xs
  unfolding select update_where
  update_where-nil q f [] h = refl
  update_where-nil q f (x ∷ xs) h = ground (arith, update_where-nil q f xs)

  -- What an update has set holds of every row that it reached.
  pub All-select-updated {κ} :
      (Q : A → Type κ) (p : A → Bool) (f : A → A) (xs : List A)
      → ((x : A) → p (f x) ≡ p x)
      → ((x : A) → Q (f x))
      → All Q (select p (update_where p f xs))
  unfolding select update_where
  All-select-updated Q p f [] keep set = tt
  All-select-updated Q p f (x ∷ xs) keep set = elim (Bool-cases (p x)) [
    | inl hit ↦ rw (hit, keep x, hit) (set x, All-select-updated Q p f xs keep set)
    | inr miss ↦ rw (miss, miss) (All-select-updated Q p f xs keep set)
  ]

  pub All-update_where {κ} :
      (Q : A → Type κ) (p : A → Bool) (f : A → A) (xs : List A)
      → ((x : A) → Q x → Q (f x))
      → All Q xs
      → All Q (update_where p f xs)
  unfolding update_where
  All-update_where Q p f [] set h = tt
  All-update_where Q p f (x ∷ xs) set h = elim (Bool-cases (p x)) [
    | inl hit ↦ rw hit (set x h.0, All-update_where Q p f xs set h.1)
    | inr miss ↦ rw miss (h.0, All-update_where Q p f xs set h.1)
  ]

  pub update_where-same : (p : A → Bool) (xs : List A) → update_where p (λ x. x) xs ≡ xs
  unfolding update_where
  update_where-same p [] = refl
  update_where-same p (x ∷ xs) = ground (arith, update_where-same p xs)

  pub select_comm : (p q : A → Bool) (xs : List A) → select p (select q xs) ≡ select q (select p xs)
  unfolding select
  select_comm p q [] = refl
  select_comm p q (x ∷ xs) = ground (arith, select_comm p q xs)

  -- Two tests that agree on every row select the same.
  pub select-same :
      (p q : A → Bool) (xs : List A) → All (λ x. p x ≡ q x) xs → select p xs ≡ select q xs
  unfolding select
  select-same p q [] h = refl
  select-same p q (x ∷ xs) (e, h) = ground (arith, e, select-same p q xs h)
