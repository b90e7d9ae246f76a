-- ===== src/Pipeline/CrossCheck/Detect.antt =====
-- Which claims contradict each other, and how severely.
use ai_detention.Pipeline.CrossCheck.{
  detect_numbers, Decimal, differs, severity_of, detect_with, smaller, larger, or_else,
}
use ai_detention.Prelude.{
  List, ◌≡◌, none, ◌↔◌, any, false, ℕ, some, ◌≤◌, Option, ◌*◌, arith, leb, true, Bool, Bool-cases,
  ◌<◌, ◌∷◌, [], inl, refl, inr, ◌||◌,
}
use ai_detention.Prelude.Rounding.{round_div-ge, round_div-le}

near_above : (s l : ℕ) → leb (10 * s) l ≡ false → l < 10 * s
near_above s l h = ground arith

three_times : (s l : ℕ) → 3 * s < l → 30 * s ≤ 10 * l
three_times s l h = omega arith

differs-lt : (a b : Decimal) → differs a b ≡ true → 3 * smaller a b < larger a b
differs-lt a b h = ground arith

-- What a search says of whether it finds a number.
abbrev pub Exact : Option ℕ → Bool → Type 0
Exact found some_differ =
    ((found ≡ none) ↔ (some_differ ≡ false))
    × ((severity : ℕ) → found ≡ some severity → (3000 ≤ severity) × (severity ≤ 10000))

both : (x y : Option ℕ) (p q : Bool) → Exact x p → Exact y q → Exact (or_else x y) (p || q)
both none y p q (same, bounds) later = rw (same.0 refl) later
both (some n) y p q (same, bounds) later =
    ((λ h. absurd (ground arith), λ h. absurd (ground (arith, same.1))), λ m h. bounds m h)

severity-bounds :
    (a b : Decimal) → differs a b ≡ true → (3000 ≤ severity_of a b) × (severity_of a b ≤ 10000)
unfolding severity_of
severity-bounds a b h = elim (Bool-cases (leb (10 * smaller a b) (larger a b))) [
  | inl far ↦ rw far (omega arith, omega arith)
  | inr near ↦
      let above = near_above (smaller a b) (larger a b) near in
      let low =
        round_div-ge (10 * larger a b) (smaller a b) 30 (omega arith)
          (three_times (smaller a b) (larger a b) (differs-lt a b h)) in
      let high = round_div-le (10 * larger a b) (smaller a b) 100 (omega arith) (omega arith) in
      rw near (omega arith, omega arith)
]

detect_with_lem :
    (na : Decimal) (nums_b : List Decimal)
    → ((detect_with na nums_b ≡ none) ↔ (any (differs na) nums_b ≡ false))
      × ((severity : ℕ)
          → detect_with na nums_b ≡ some severity
          → (3000 ≤ severity) × (severity ≤ 10000))
detect_with_lem na [] = ((λ h. refl, λ h. refl), λ severity h. absurd (ground arith))
detect_with_lem na (nb ∷ nums_b) =
    let (same, bounds) = detect_with_lem na nums_b in
    elim (Bool-cases (differs na nb)) [
      | inl hit ↦ rw hit (
        (λ h. absurd (ground arith), λ h. absurd (ground arith)),
        λ severity h. ground (arith, severity-bounds na nb hit),
      )
      | inr miss ↦ rw miss (same, bounds)
    ]

-- Two lists of numbers have no contradiction exactly if no number of the one is positive and more
-- than three times, or less than a third of, a positive number of the other; and the severity of a
-- contradiction lies between 0.3 and 1.
pub detect_exact :
    (nums_a nums_b : List Decimal)
    → ((detect_numbers nums_a nums_b ≡ none) ↔ (any (λ a. any (differs a) nums_b) nums_a ≡ false))
      × ((severity : ℕ)
          → detect_numbers nums_a nums_b ≡ some severity
          → (3000 ≤ severity) × (severity ≤ 10000))
unfolding detect_numbers
detect_exact [] nums_b = ((λ h. refl, λ h. refl), λ severity h. absurd (ground arith))
detect_exact (na ∷ nums_a) nums_b =
    both (detect_with na nums_b) (detect_numbers nums_a nums_b) (any (differs na) nums_b)
      (any (λ a. any (differs a) nums_b) nums_a) (detect_with_lem na nums_b)
      (detect_exact nums_a nums_b)
