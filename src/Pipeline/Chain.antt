-- ===== src/Pipeline/Chain.antt =====
-- The sequential part of the pipeline (src/workers/tasks/orchestrator.py): the chain of the cross
-- check, the fabrication detection, the judge and the finalizing task, each of which gets the result
-- of the one before. What the four analyses returned is the argument `parallel_results`.
pub mod Completes
use ai_detention.Prelude.{String, ℕ, List}
use ai_detention.Pipeline.CrossCheck.{Decimal, TaskResult, cross_check}
use ai_detention.Pipeline.Fabrication.{TextTools, detect_fabrication}
use ai_detention.Database.Session.{Session, ◌>>=◌}
use ai_detention.Errors.{Result}
use ai_detention.Pipeline.Finalize.{FinalizeResult, finalize}
use ai_detention.Pipeline.LlmJudge.{LlmOutput, run_llm_judge}
use ai_detention.Prelude.Int.{ℤ}

-- What the chain takes from outside the program, as its tasks do.
pub record Externals : Type 0 where
  pub find_numbers : String → List Decimal
  pub claim_id : ℕ → ℕ
  pub contradiction_id : ℕ → ℕ → ℕ
  pub tools : TextTools
  pub show_risk : ℕ → String
  pub call_llm : String → Result LlmOutput
  pub variation : String → ℤ

module _ (externals : Externals) where
  open externals use {
    find_numbers, claim_id, contradiction_id, tools, show_risk, call_llm, variation,
  }

  unfoldable pub sequential_pipeline : ℕ → List TaskResult → Session FinalizeResult
  sequential_pipeline run_id parallel_results = do
    _ ← cross_check find_numbers claim_id contradiction_id run_id parallel_results
    fabrication_result ← detect_fabrication tools show_risk run_id
    _ ← run_llm_judge call_llm variation run_id fabrication_result.average_risk_score
    finalize run_id
