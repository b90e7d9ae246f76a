-- ===== src/Pipeline/Finalize/Penalty.antt =====
-- Bounds of the final score.
use ai_detention.Pipeline.Finalize.{clamp_score}
use ai_detention.Prelude.{ℕ, ◌≤◌, ◌≡◌, arith, min, ◌-◌, ◌+◌}

pub clamp-le : (base penalty : ℕ) → clamp_score base penalty ≤ 10000
unfolding clamp_score
clamp-le base penalty = ground arith

-- The final score is the base score less the penalty, not below 0 and not above 1. It never rises
-- when a penalty grows, and it is 1 or the base score, whichever is less, if there is no penalty.
clamp_score_lem :
    (base penalty more : ℕ)
    → (clamp_score base penalty ≡ min 10000 (base - penalty))
      × (clamp_score base (penalty + more) ≤ clamp_score base penalty)
unfolding clamp_score
clamp_score_lem base penalty more = (ground arith, ground arith)
