-- ===== src/Results.antt =====
-- The result service (src/services/result_service.py): what a pipeline has stored for a run, its
-- summary and its export. The orders of the database are the parameter `Orders`; the encoding of an
-- export and its upload to S3 are the parameter `upload_bytes`.
pub mod Summary
use ai_detention.Evaluations.{visible_run}
use ai_detention.Prelude.{
  String, Option, List, ℕ, if◌then◌else◌, Bool, ◌==◌, str_eq, true, some, ◌&&◌, none, is_none, take,
  ◌||◌, drop, ◌-◌, ◌*◌,
}
use ai_detention.Models.Run.{EvaluationRun, WorkerResult, run_status_value, progress_pct}
use ai_detention.Datasets.{Storage, generate_export_key, get_export_download_url}
use ai_detention.Models.Findings.{Claim, Score, Contradiction}
use ai_detention.Database.Session.{Session, ◌>>=◌, gets, query, ◌>>◌, pure, found_or_raise}
use ai_detention.Database.Table.{count, select, scalar_one_or_none}
use ai_detention.Prelude.Text.{is_empty}
use ai_detention.Findings.Contradictions.{contradiction_of_run}
use ai_detention.Findings.Workers.{result_of_run}
use ai_detention.Findings.Scores.{score_of_run}
use ai_detention.Errors.{app, not_found}

pub record Orders : Type 0 where
  pub by_created_at : List WorkerResult → List WorkerResult
  pub claims_by_created_at : List Claim → List Claim
  pub by_severity_desc : List Contradiction → List Contradiction
  pub by_dimension : List Score → List Score

unfoldable pub verify_run : ℕ → ℕ → Session EvaluationRun
verify_run run_id org_id = do
  found ← query (λ db. scalar_one_or_none (select (visible_run run_id org_id) db.runs))
  found_or_raise (app (not_found "Evaluation run" run_id)) found

-- if category: none and an empty text do not filter
abbrev pub category_passes : Option String → String → Bool
category_passes none category = true
category_passes (some wanted) category = is_empty wanted || str_eq category wanted

abbrev pub listed_claim : ℕ → ℕ → Option String → Claim → Bool
listed_claim run_id org_id category c =
    c.evaluation_run_id == run_id
    && (c.organization_id == org_id
        && (is_none c.deleted_at && category_passes category c.category))

module _ (orders : Orders) where
  open orders use {by_created_at, claims_by_created_at, by_severity_desc, by_dimension}

  unfoldable pub get_worker_results_for_run : ℕ → ℕ → Session (List WorkerResult)
  unfolding verify_run
  get_worker_results_for_run run_id org_id = do
    _ ← verify_run run_id org_id
    gets λ w. by_created_at (select (result_of_run run_id) w.db.worker_results)

  unfoldable pub get_claims_for_run : ℕ → ℕ → Option String → ℕ → ℕ → Session (List Claim × ℕ)
  unfolding verify_run
  get_claims_for_run run_id org_id category page page_size = do
    _ ← verify_run run_id org_id
    gets λ w.
        let found = select (listed_claim run_id org_id category) w.db.claims in
        (
          take page_size (drop ((page - 1) * page_size) (claims_by_created_at found)),
          count (listed_claim run_id org_id category) w.db.claims,
        )

  unfoldable pub get_contradictions_for_run : ℕ → ℕ → Session (List Contradiction)
  unfolding verify_run
  get_contradictions_for_run run_id org_id = do
    _ ← verify_run run_id org_id
    gets λ w. by_severity_desc (select (contradiction_of_run run_id org_id) w.db.contradictions)

  unfoldable pub result_scores_for_run : ℕ → ℕ → Session (List Score)
  unfolding verify_run
  result_scores_for_run run_id org_id = do
    _ ← verify_run run_id org_id
    gets λ w. by_dimension (select (score_of_run run_id org_id) w.db.scores)

pub record ResultsSummary : Type 0 where
  pub run_id : ℕ
  pub status : String
  pub overall_score : Option ℕ
  pub total_workers : ℕ
  pub completed_workers : ℕ
  pub failed_workers : ℕ
  pub total_claims : ℕ
  pub total_contradictions : ℕ
  pub scores : List Score
  pub progress : ℕ

-- The counts of the summary do not ask for the organization.
abbrev pub any_claim_of_run : ℕ → Claim → Bool
any_claim_of_run run_id c = c.evaluation_run_id == run_id && is_none c.deleted_at

abbrev pub any_contradiction_of_run : ℕ → Contradiction → Bool
any_contradiction_of_run run_id c = c.evaluation_run_id == run_id && is_none c.deleted_at

module _ (orders : Orders) where
  unfoldable pub get_results_summary : ℕ → ℕ → Session ResultsSummary
  unfolding verify_run result_scores_for_run
  get_results_summary run_id org_id = do
    run ← verify_run run_id org_id
    claim_count ← gets λ w. count (any_claim_of_run run_id) w.db.claims
    contradiction_count ← gets λ w. count (any_contradiction_of_run run_id) w.db.contradictions
    scores ← result_scores_for_run orders run_id org_id
    pure (record {
      run_id = run_id;
      status = run_status_value run.status;
      overall_score = run.overall_score;
      total_workers = run.total_workers;
      completed_workers = run.completed_workers;
      failed_workers = run.failed_workers;
      total_claims = claim_count;
      total_contradictions = contradiction_count;
      scores = scores;
      progress = progress_pct run;
    })

-- The export's entries are the rows, of which the encoding writes some columns.
pub record ExportPayload : Type 0 where
  pub run : EvaluationRun
  pub workers : List WorkerResult
  pub claims : List Claim
  pub contradictions : List Contradiction
  pub scores : List Score

pub data ExportData : Type 0 where
  indented_json : ExportPayload → ExportData
  csv_scores : List Score → ExportData
  compact_json : ExportPayload → ExportData

unfoldable pub export_data : String → ExportPayload → ExportData
export_data fmt payload =
    if str_eq fmt "json"
    then indented_json payload
    else (if str_eq fmt "csv" then csv_scores payload.scores else compact_json payload)

unfoldable pub content_type : String → String
content_type fmt =
    if str_eq fmt "json"
    then "application/json"
    else (if str_eq fmt "csv" then "text/csv" else "application/octet-stream")

module _ (orders : Orders) (storage : Storage)
    (upload_bytes : String → ExportData → String → Session (Unit {0})) where
  unfoldable pub upload_export_data : ℕ → ℕ → ExportData → String → Session (Unit {0})
  upload_export_data org_id run_id contents fmt =
      upload_bytes (generate_export_key storage org_id run_id fmt) contents (content_type fmt)

  unfoldable pub export_results : ℕ → ℕ → String → Session String
  unfolding verify_run get_worker_results_for_run get_claims_for_run get_contradictions_for_run
      result_scores_for_run upload_export_data
  export_results run_id org_id fmt = do
    run ← verify_run run_id org_id
    workers ← get_worker_results_for_run orders run_id org_id
    (claims, _) ← get_claims_for_run orders run_id org_id none 1 10000
    contradictions ← get_contradictions_for_run orders run_id org_id
    scores ← result_scores_for_run orders run_id org_id
    let payload : ExportPayload = record {
      run = run;
      workers = workers;
      claims = claims;
      contradictions = contradictions;
      scores = scores;
    }
    upload_export_data org_id run_id (export_data fmt payload) fmt
    pure (get_export_download_url storage org_id run_id fmt)
