-- ===== src/Api/Router.antt =====
-- The routes that need a user (src/api/v1/router.py), as requests: one constructor for each, with
-- what its path, its query and its body give, and the ids of new rows.
pub mod Refusals
pub mod Readers
pub mod Tenancy
pub mod Broken
use ai_detention.Api.Route.{Env, Route, Response, PageQuery, respond}
use ai_detention.Submissions.{NewSubmission, SubmissionUpdate, NewRun}
use ai_detention.Evaluations.{NewConfig, ConfigUpdate}
use ai_detention.Datasets.{NewDataset}
use ai_detention.Metrics.{NewMetric}
use ai_detention.Auth.Service.{NewApiKey}
use ai_detention.Models.Dataset.{DatasetStatus}
use ai_detention.Auth.Deps.{Credentials}
use ai_detention.Database.Session.{World}
use ai_detention.Api.Submissions.{
  create_submission_route, list_submissions_route, get_submission_route, update_submission_route,
  delete_submission_route, trigger_evaluation_route,
}
use ai_detention.Prelude.{ℕ, Option, String, List}
use ai_detention.Api.Evaluations.{
  create_config_route, list_configs_route, get_config_route, update_config_route,
  delete_config_route, list_runs_route, get_run_route, cancel_run_route,
}
use ai_detention.Api.Datasets.{
  create_dataset_route, confirm_upload_route, list_datasets_route, get_dataset_route,
  delete_dataset_route,
}
use ai_detention.Api.Metrics.{list_metrics_route, get_metric_route, create_metric_route}
use ai_detention.Api.Results.{
  list_worker_results_route, list_claims_route, list_contradictions_route, list_scores_route,
  get_summary_route, export_results_route,
}
use ai_detention.Api.Accounts.{get_me_route, create_api_key_route, revoke_api_key_route}

pub data Request : Type 0 where
  post_submissions : ℕ → NewSubmission → Request
  get_submissions : PageQuery → Option String → Request
  get_submissions_id : ℕ → Request
  patch_submissions_id : ℕ → List SubmissionUpdate → Request
  delete_submissions_id : ℕ → Request
  post_submissions_id_evaluate : ℕ → NewRun → Request
  post_configs : ℕ → NewConfig → Request
  get_configs : PageQuery → Request
  get_configs_id : ℕ → Request
  put_configs_id : ℕ → List ConfigUpdate → Request
  delete_configs_id : ℕ → Request
  get_runs : PageQuery → Option ℕ → Option ℕ → Option String → Request
  get_runs_id : ℕ → Request
  post_runs_id_cancel : ℕ → Request
  post_datasets : NewDataset → Request
  post_datasets_id_confirm : ℕ → String → ℕ → Request
  get_datasets : PageQuery → Option DatasetStatus → Request
  get_datasets_id : ℕ → Request
  delete_datasets_id : ℕ → Request
  get_metrics : PageQuery → Request
  get_metrics_id : ℕ → Request
  post_metrics : NewMetric → Request
  get_run_workers : ℕ → Request
  get_run_claims : ℕ → PageQuery → Option String → Request
  get_run_contradictions : ℕ → Request
  get_run_scores : ℕ → Request
  get_run_summary : ℕ → Request
  post_run_export : ℕ → String → Request
  get_me : Request
  post_api_keys : NewApiKey → Request
  delete_api_keys_id : ℕ → Request

module _ (env : Env) where
  unfoldable pub route_of : Request → Route
  route_of (post_submissions new_id body) = create_submission_route new_id body
  route_of (get_submissions query status) = list_submissions_route env query status
  route_of (get_submissions_id id) = get_submission_route id
  route_of (patch_submissions_id id updates) = update_submission_route id updates
  route_of (delete_submissions_id id) = delete_submission_route id
  route_of (post_submissions_id_evaluate id new) = trigger_evaluation_route id new
  route_of (post_configs new_id body) = create_config_route new_id body
  route_of (get_configs query) = list_configs_route env query
  route_of (get_configs_id id) = get_config_route id
  route_of (put_configs_id id updates) = update_config_route id updates
  route_of (delete_configs_id id) = delete_config_route id
  route_of (get_runs query submission_id config_id status) =
      list_runs_route env query submission_id config_id status
  route_of (get_runs_id id) = get_run_route id
  route_of (post_runs_id_cancel id) = cancel_run_route id
  route_of (post_datasets body) = create_dataset_route env body
  route_of (post_datasets_id_confirm id checksum count) = confirm_upload_route env id checksum count
  route_of (get_datasets query status) = list_datasets_route env query status
  route_of (get_datasets_id id) = get_dataset_route id
  route_of (delete_datasets_id id) = delete_dataset_route id
  route_of (get_metrics query) = list_metrics_route env query
  route_of (get_metrics_id id) = get_metric_route id
  route_of (post_metrics body) = create_metric_route body
  route_of (get_run_workers id) = list_worker_results_route env id
  route_of (get_run_claims id query category) = list_claims_route env id query category
  route_of (get_run_contradictions id) = list_contradictions_route env id
  route_of (get_run_scores id) = list_scores_route env id
  route_of (get_run_summary id) = get_summary_route env id
  route_of (post_run_export id fmt) = export_results_route env id fmt
  route_of get_me = get_me_route
  route_of (post_api_keys new) = create_api_key_route new
  route_of (delete_api_keys_id id) = revoke_api_key_route id

  unfoldable pub serve : Request → Credentials → World → Response × World
  serve request credentials = respond env (route_of request) credentials
