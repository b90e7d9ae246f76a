-- ===== src/Repositories/Groups.antt =====
-- What the counts of a GROUP BY add up to.
use ai_detention.Repositories.{group_counts, add_to_group}
use ai_detention.Database.Table.{select, count}
use ai_detention.Prelude.{
  String, List, ℕ, ◌≡◌, sum_by, str_eq, ◌+◌, length, ◌∷◌, if◌then◌else◌, arith, [], refl,
  str_eq_iff, ◌∙◌,
}

-- The number of a group, 0 if there is no row of it: dict.get(key, 0).
abbrev group_count : String → List (String × ℕ) → ℕ
group_count key [] = 0
group_count key ((k, n) ∷ groups) = if str_eq k key then n else group_count key groups

add_to_group-sum :
    (key : String) (groups : List (String × ℕ))
    → sum_by (λ (g : String × ℕ). g.1) (add_to_group key groups)
      ≡ sum_by (λ (g : String × ℕ). g.1) groups + 1
add_to_group-sum key [] = refl
add_to_group-sum key ((k, n) ∷ groups) = ground (arith, add_to_group-sum key groups)

add_to_group-count :
    (wanted key : String) (groups : List (String × ℕ))
    → group_count wanted (add_to_group key groups)
      ≡ group_count wanted groups + (if str_eq key wanted then 1 else 0)
add_to_group-count wanted key [] = ground arith
add_to_group-count wanted key ((k, n) ∷ groups) = ground (
  arith,
  str_eq_iff k key,
  str_eq_iff k wanted,
  str_eq_iff key wanted,
  add_to_group-count wanted key groups,
)

-- Each group's number is the number of the rows with its key, and the numbers add up to the number
-- of the rows.
group_counts_lem {ℓ} :
    {A : Type ℓ} (key : A → String) (xs : List A)
    → ((wanted : String)
        → group_count wanted (group_counts key xs) ≡ count (λ x. str_eq (key x) wanted) xs)
      × (sum_by (λ (g : String × ℕ). g.1) (group_counts key xs) ≡ length xs)
unfolding group_counts select
group_counts_lem key [] = ((λ wanted. refl), refl)
group_counts_lem key (x ∷ xs) =
    let (counts, total) = group_counts_lem key xs in
    (
      (λ wanted.
          add_to_group-count wanted (key x) (group_counts key xs) ∙ ground (arith, counts wanted)),
      omega (arith, add_to_group-sum (key x) (group_counts key xs), total),
    )
