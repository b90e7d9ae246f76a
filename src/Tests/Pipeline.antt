-- ===== src/Tests/Pipeline.antt =====
-- The pipeline's tasks at a sample run.
use ai_detention.Database.Table.{select, update_where}
use ai_detention.Errors.{Error, Result, other_error, ok, retry}
use ai_detention.Models.Run.{RunStatus, WorkerStatus, EvaluationRun}
use ai_detention.Pipeline.Orchestrator.{
  Context, evaluate_submission, prepare_run, fail_run, Dispatched,
}
use ai_detention.Prelude.{
  String, ◌≡◌, ◌∷◌, [], ◌+◌, List, ◌≤◌, refl, map, some, All, ◌==◌, if◌then◌else◌, str_eq,
}
use ai_detention.Pipeline.Finalize.{
  clamp_score, finalize, base_score_of, FinalizeResult, penalty_of,
}
use ai_detention.Database.Session.{Session, raise, transaction}
use ai_detention.Prelude.Int.{ℤ, pos, negsuc}
use ai_detention.Tests.Samples.{world_with, sample_run}
use ai_detention.Pipeline.LlmJudge.{LlmOutput, dimension_weights, number, scored}
use ai_detention.Runs.{transition_status, update_with_optimistic_lock}
use ai_detention.Findings.Scores.{compute_weighted_average}
use ai_detention.Pipeline.Finalize.Outcome.{finalize_live}
use ai_detention.Findings.Contradictions.{count_by_severity_bucket}
use ai_detention.Findings.Workers.{count_with_status}
use ai_detention.Runs.Locking.{Holds}
use ai_detention.Models.Submission.{SubmissionStatus}
use ai_detention.Pipeline.Orchestrator.Outcome.{retry_skips}
use ai_detention.Pipeline.CrossCheck.{ClaimData, TaskResult, Decimal}

show_any : Error → String
show_any e = "error"

abbrev celery_down : Context → Session String
celery_down context = raise (other_error "broker")

retry_skips_example :
    let w = world_with RunStatus.pending in
    let w' = (evaluate_submission show_any celery_down 1 w).1 in
    ((cause : Error) × (retry (other_error "broker") ≡ retry cause))
    × ((row : EvaluationRun) × Holds 1 row w' × (row.status ≡ RunStatus.failed))
    × (evaluate_submission show_any celery_down 1 w' ≡ (ok Dispatched.skipped, w'))
unfolding select evaluate_submission prepare_run fail_run transaction transition_status
    update_with_optimistic_lock update_where
retry_skips_example =
    retry_skips show_any celery_down 1 (λ context v. refl) {run = sample_run RunStatus.pending}
      (world_with RunStatus.pending) refl refl refl {e = retry (other_error "broker")} refl

finalize_live_example :
    let w = world_with RunStatus.running in
    let base = base_score_of (compute_weighted_average 1 7 w.db) in
    let penalty = penalty_of (count_by_severity_bucket 1 7 w.db) in
    let score = clamp_score base penalty in
    let completed_workers = count_with_status WorkerStatus.completed 1 w.db in
    let failed_workers = count_with_status WorkerStatus.failed 1 w.db in
    let (result, w') = finalize 1 w in
    (result ≡ ok (FinalizeResult.completed score base penalty completed_workers failed_workers))
    × (score ≤ 10000)
    × ((row : EvaluationRun) × Holds 1 row w'
        × (row.status ≡ RunStatus.completed)
        × (row.version ≡ 3 + 1)
        × (row.overall_score ≡ some score)
        × (row.completed_workers ≡ completed_workers)
        × (row.failed_workers ≡ failed_workers))
    × All (λ s. s.status ≡ SubmissionStatus.evaluated) (select (λ s. s.id == 4) w'.db.submissions)
unfolding select
finalize_live_example =
    finalize_live 1 {run = sample_run RunStatus.running} (world_with RunStatus.running) refl refl
      refl

-- The models answer values below 0.
abbrev negative_answer : String → Result LlmOutput
negative_answer model =
    ok (LlmOutput.answer (map (λ d. (d.0, scored (number (negsuc 4999)) "poor")) dimension_weights))

abbrev no_variation : String → ℤ
no_variation dim = pos 0

abbrev two : List Decimal
two = record { digits = 2; places = 0 } ∷ []

abbrev twenty : List Decimal
twenty = record { digits = 20; places = 0 } ∷ []

-- The numbers of the two sample texts.
abbrev sample_numbers : String → List Decimal
sample_numbers text = if str_eq text "2 contributors" then two else twenty

abbrev team_claim : String → ClaimData
team_claim text = record {
  text = text;
  category = "team";
  confidence = 9000;
  source_reference = "";
}

abbrev sample_results : List TaskResult
sample_results =
    record { status = "github"; claims = team_claim "2 contributors" ∷ [] }
    ∷ record { status = "deck"; claims = team_claim "team of 20" ∷ [] }
    ∷ []
