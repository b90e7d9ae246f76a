-- ===== src/Findings/Scores/Average.antt =====
-- Bounds of the weighted average of a run's scores.
use ai_detention.Prelude.{
  if◌then◌else◌, ℕ, List, All, ◌≤◌, ◌*◌, ◌≡◌, some, arith, ◌∷◌, ◌⊎◌, none, ◌<◌, [], ◌==◌,
  Bool-cases, inl, inr,
}
use ai_detention.Database.Session.{Db}
use ai_detention.Models.Findings.{Score}
use ai_detention.Database.Table.{select}
use ai_detention.Findings.Scores.{
  score_of_run, weighted_sum, compute_weighted_average, total_weight,
}
use ai_detention.Prelude.Rounding.{round_div, round_div-ge, round_div-le, mul-le}

weighted_sum-le :
    (k : ℕ) (scores : List Score)
    → All (λ s. s.value ≤ k) scores
    → weighted_sum scores ≤ k * total_weight scores
weighted_sum-le k [] h = omega arith
weighted_sum-le k (s ∷ scores) (h, hs) =
    grind (arith, weighted_sum-le k scores hs, mul-le s.value k s.weight h)

weighted_sum-ge :
    (k : ℕ) (scores : List Score)
    → All (λ s. k ≤ s.value) scores
    → k * total_weight scores ≤ weighted_sum scores
weighted_sum-ge k [] h = omega arith
weighted_sum-ge k (s ∷ scores) (h, hs) =
    grind (arith, weighted_sum-ge k scores hs, mul-le k s.value s.weight h)

-- The weighted average of a run is None exactly if the weights of its scores add up to 0; otherwise
-- it lies between each lower bound and each upper bound of the run's scores.
pub average_between :
    (run_id org_id low high : ℕ) (db : Db)
    → let scores = select (score_of_run run_id org_id) db.scores in
      All (λ s. low ≤ s.value) scores
      → All (λ s. s.value ≤ high) scores
      → ((compute_weighted_average run_id org_id db ≡ none) × (total_weight scores ≡ 0))
        ⊎ ((average : ℕ) × (compute_weighted_average run_id org_id db ≡ some average)
            × (0 < total_weight scores)
            × (low ≤ average)
            × (average ≤ high))
unfolding compute_weighted_average
average_between run_id org_id low high db lows highs =
    go (select (score_of_run run_id org_id) db.scores) lows highs
  where
    go :
        (scores : List Score)
        → All (λ s. low ≤ s.value) scores
        → All (λ s. s.value ≤ high) scores
        → let average =
            if total_weight scores == 0
            then none
            else some (round_div (weighted_sum scores) (total_weight scores)) in
          ((average ≡ none) × (total_weight scores ≡ 0))
          ⊎ ((a : ℕ) × (average ≡ some a) × (0 < total_weight scores) × (low ≤ a) × (a ≤ high))
    go scores lows highs = elim (Bool-cases (total_weight scores == 0)) [
      | inl empty ↦ inl (ground arith, ground arith)
      | inr some_weight ↦ inr (
        round_div (weighted_sum scores) (total_weight scores),
        ground arith,
        ground arith,
        round_div-ge (weighted_sum scores) (total_weight scores) low (ground arith)
            (weighted_sum-ge low scores lows),
        round_div-le (weighted_sum scores) (total_weight scores) high (ground arith)
            (weighted_sum-le high scores highs),
      )
    ]
