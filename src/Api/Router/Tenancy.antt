-- ===== src/Api/Router/Tenancy.antt =====
-- Tenant isolation: what a request answers with belongs to the organization of its user.
pub mod Rows
pub mod Lists
pub mod Reports
pub mod Belonging
pub mod Handlers
use ai_detention.Api.Router.{
  Request, serve, route_of, post_submissions, get_submissions, get_submissions_id,
  patch_submissions_id, delete_submissions_id, post_submissions_id_evaluate, post_configs,
  get_configs, get_configs_id, put_configs_id, delete_configs_id, get_runs, get_runs_id,
  post_runs_id_cancel, post_datasets, post_datasets_id_confirm, get_datasets, get_datasets_id,
  delete_datasets_id, get_metrics, get_metrics_id, post_metrics, get_run_workers, get_run_claims,
  get_run_contradictions, get_run_scores, get_run_summary, post_run_export, get_me, post_api_keys,
  delete_api_keys_id,
}
use ai_detention.Api.Body.{
  Body, submission, submissions, config, configs, run, runs, dataset, created_dataset, datasets,
  metric, metrics, worker_results, claims, contradictions, scores, summary, export, user,
  created_key, tokens, message,
}
use ai_detention.Database.Returning.{Returns, bind-Returns, pure-Returns, gets-Returns}
use ai_detention.Database.Session.{Db, World, pure, transaction, settle, continue}
use ai_detention.Api.Route.{
  Env, paged, pagination, respond, error_response, current_user, success, answered, authorize,
  success_handled,
}
use ai_detention.Submissions.{list_submissions, listed_submission, delete_submission}
use ai_detention.Api.Router.Tenancy.Lists.{
  IsOrder, one-Returns, page-Returns, shown-Returns, page-All, all-Returns,
}
use ai_detention.Prelude.{ℕ, ◌≡◌, All, arith, String, refl, List, subst}
use ai_detention.Evaluations.{
  list_evaluation_configs, list_evaluation_runs, listed_config, listed_run,
  delete_evaluation_config,
}
use ai_detention.Datasets.{
  list_datasets, listed_dataset, confirm_dataset_upload, Storage, delete_dataset,
}
use ai_detention.Models.Submission.{Submission}
use ai_detention.Models.Run.{EvaluationConfig, EvaluationRun, WorkerResult}
use ai_detention.Metrics.{list_metrics, available_metric}
use ai_detention.Api.Evaluations.{
  cancel_run_route, create_config_route, delete_config_route, get_config_route, get_run_route,
  list_configs_route, list_runs_route, update_config_route, run_statuses,
}
use ai_detention.Models.Dataset.{Dataset}
use ai_detention.Api.Datasets.{
  confirm_upload_route, create_dataset_route, delete_dataset_route, get_dataset_route,
  list_datasets_route,
}
use ai_detention.Api.Router.Tenancy.Rows.{
  IsAvailable, HasRun, IsOf, create_submission-Returns, get_submission-Returns,
  update_submission-Returns, trigger-Returns, create_config-Returns, get_config-Returns,
  update_config-Returns, get_run-Returns, cancel-Returns, get_dataset-Returns, get_metric-Returns,
  create_metric-Returns, available_metric-IsAvailable, create_dataset-Returns,
}
use ai_detention.Api.Accounts.{create_api_key_route, get_me_route, revoke_api_key_route}
use ai_detention.Models.Findings.{Claim, Contradiction, Score}
use ai_detention.Api.Metrics.{create_metric_route, get_metric_route, list_metrics_route}
use ai_detention.Api.Submissions.{
  create_submission_route, delete_submission_route, get_submission_route, list_submissions_route,
  trigger_evaluation_route, update_submission_route, parsed_status, submission_statuses,
}
use ai_detention.Api.Results.{
  export_results_route, get_summary_route, list_claims_route, list_contradictions_route,
  list_scores_route, list_worker_results_route,
}
use ai_detention.Models.Account.{User}
use ai_detention.Auth.Service.{create_api_key_for_user, NewApiKey, revoke_api_key}
use ai_detention.Api.Router.Tenancy.Reports.{
  any-Returns, workers-Returns, claims-Returns, contradictions-Returns, scores-Returns,
  IsOwnSummary, summary-Returns, export-Returns,
}
use ai_detention.Auth.Deps.{Credentials}
use ai_detention.Errors.{ok, Result, err}
use ai_detention.Api.Router.Tenancy.Belonging.{Belongs, Ordering}
use ai_detention.Api.Router.Tenancy.Handlers.{handler-Returns}

module _ (env : Env) (orders : Ordering env) where
  -- What a request is answered with, if it succeeds, belongs to the organization of its user, where
  -- the orders of the lists only reorder: the rows are that organization's, a metric is that
  -- organization's or built in, and a run whose results are shown, summed up or exported is one
  -- that the organization has.
  pub answers_belong :
      (request : Request) (credentials : Credentials) (w : World) {w' : World} {caller : User}
      → current_user env credentials w ≡ (ok caller, w')
      → {code : ℕ} {body : Body} → (serve env request credentials w).0 ≡ success code body
      → Belongs w'.db caller.organization_id body
  unfolding serve Returns
  answers_belong request credentials w {w'} {caller} known {code} {body} succeeded =
      handler-Returns env orders request caller w' body
        (success_handled env (route_of env request) credentials w known succeeded)
