-- ===== src/Api/Router/Tenancy/Handlers.antt =====
-- What the functions of the routes return belongs to the organization of the user.
use ai_detention.Api.Router.{
  Request, route_of, post_submissions, get_submissions, get_submissions_id, patch_submissions_id,
  delete_submissions_id, post_submissions_id_evaluate, post_configs, get_configs, get_configs_id,
  put_configs_id, delete_configs_id, get_runs, get_runs_id, post_runs_id_cancel, post_datasets,
  post_datasets_id_confirm, get_datasets, get_datasets_id, delete_datasets_id, get_metrics,
  get_metrics_id, post_metrics, get_run_workers, get_run_claims, get_run_contradictions,
  get_run_scores, get_run_summary, post_run_export, get_me, post_api_keys, delete_api_keys_id,
}
use ai_detention.Api.Body.{
  submissions, configs, runs, created_dataset, datasets, metrics, claims, summary, user,
  created_key,
}
use ai_detention.Database.Returning.{Returns, bind-Returns, pure-Returns, gets-Returns}
use ai_detention.Database.Session.{World, pure}
use ai_detention.Api.Route.{Env, paged, pagination}
use ai_detention.Submissions.{list_submissions, listed_submission, delete_submission}
use ai_detention.Api.Router.Tenancy.Lists.{
  one-Returns, page-Returns, shown-Returns, page-All, all-Returns,
}
use ai_detention.Prelude.{ℕ, ◌≡◌, All, arith, String, refl, List}
use ai_detention.Evaluations.{
  list_evaluation_configs, list_evaluation_runs, listed_config, listed_run,
  delete_evaluation_config,
}
use ai_detention.Datasets.{
  list_datasets, listed_dataset, confirm_dataset_upload, Storage, delete_dataset,
}
use ai_detention.Models.Submission.{Submission}
use ai_detention.Models.Run.{EvaluationConfig, EvaluationRun, WorkerResult}
use ai_detention.Metrics.{list_metrics, available_metric}
use ai_detention.Api.Evaluations.{
  cancel_run_route, create_config_route, delete_config_route, get_config_route, get_run_route,
  list_configs_route, list_runs_route, update_config_route, run_statuses,
}
use ai_detention.Models.Dataset.{Dataset}
use ai_detention.Api.Datasets.{
  confirm_upload_route, create_dataset_route, delete_dataset_route, get_dataset_route,
  list_datasets_route,
}
use ai_detention.Api.Router.Tenancy.Rows.{
  IsAvailable, HasRun, IsOf, create_submission-Returns, get_submission-Returns,
  update_submission-Returns, trigger-Returns, create_config-Returns, get_config-Returns,
  update_config-Returns, get_run-Returns, cancel-Returns, get_dataset-Returns, get_metric-Returns,
  create_metric-Returns, available_metric-IsAvailable, create_dataset-Returns,
}
use ai_detention.Api.Accounts.{create_api_key_route, get_me_route, revoke_api_key_route}
use ai_detention.Models.Findings.{Claim, Contradiction, Score}
use ai_detention.Api.Metrics.{create_metric_route, get_metric_route, list_metrics_route}
use ai_detention.Api.Submissions.{
  create_submission_route, delete_submission_route, get_submission_route, list_submissions_route,
  trigger_evaluation_route, update_submission_route, parsed_status, submission_statuses,
}
use ai_detention.Api.Results.{
  export_results_route, get_summary_route, list_claims_route, list_contradictions_route,
  list_scores_route, list_worker_results_route,
}
use ai_detention.Models.Account.{User}
use ai_detention.Auth.Service.{create_api_key_for_user, NewApiKey, revoke_api_key}
use ai_detention.Api.Router.Tenancy.Reports.{
  any-Returns, workers-Returns, claims-Returns, contradictions-Returns, scores-Returns,
  IsOwnSummary, summary-Returns, export-Returns,
}
use ai_detention.Api.Router.Tenancy.Belonging.{Belongs, Ordering}

confirm-Returns :
    (storage : Storage) (id org : ℕ) (sum : String) (n : ℕ) (w : World)
    → Returns
        (IsOf (λ (d : Dataset). d.organization_id) org)
        (confirm_dataset_upload storage id org sum n)
        w
unfolding confirm_dataset_upload Returns
confirm-Returns storage id org sum n w d h = absurd (ground arith)

keys-Returns :
    (user_id org : ℕ) (new : NewApiKey) (w : World)
    → Returns (λ found. found.0.organization_id ≡ org) (create_api_key_for_user user_id org new) w
unfolding create_api_key_for_user Returns
keys-Returns user_id org new w found h = absurd (ground arith)

module _ (env : Env) (orders : Ordering env) where
  pub handler-Returns :
      (request : Request) (caller : User) (w : World)
      → Returns (Belongs w.db caller.organization_id) ((route_of env request).handler caller) w
  unfolding route_of list_submissions list_evaluation_configs list_evaluation_runs list_datasets
      list_metrics cancel_run_route confirm_upload_route create_api_key_route create_config_route
      create_dataset_route create_metric_route create_submission_route delete_config_route
      delete_dataset_route delete_submission_route export_results_route get_config_route
      get_dataset_route get_me_route get_metric_route get_run_route get_submission_route
      get_summary_route list_claims_route list_configs_route list_contradictions_route
      list_datasets_route list_metrics_route list_runs_route list_scores_route
      list_submissions_route list_worker_results_route revoke_api_key_route trigger_evaluation_route
      update_config_route update_submission_route
  handler-Returns (post_submissions n body) caller w =
      one-Returns (IsOf (λ (x : Submission). x.organization_id) caller.organization_id)
        (Belongs w.db caller.organization_id) _ _ _ w
        (create_submission-Returns n caller.organization_id caller.id body w) (λ a p. p)
  handler-Returns (get_submissions_id id) caller w =
      one-Returns (IsOf (λ (x : Submission). x.organization_id) caller.organization_id)
        (Belongs w.db caller.organization_id) _ _ _ w
        (get_submission-Returns id caller.organization_id w) (λ a p. p)
  handler-Returns (patch_submissions_id id us) caller w =
      one-Returns (IsOf (λ (x : Submission). x.organization_id) caller.organization_id)
        (Belongs w.db caller.organization_id) _ _ _ w
        (update_submission-Returns id caller.organization_id caller.id us w) (λ a p. p)
  handler-Returns (post_submissions_id_evaluate id new) caller w =
      one-Returns (IsOf (λ (x : EvaluationRun). x.organization_id) caller.organization_id)
        (Belongs w.db caller.organization_id) _ _ _ w
        (trigger-Returns id caller.organization_id caller.id new w) (λ a p. p)
  handler-Returns (post_configs n body) caller w =
      one-Returns (IsOf (λ (x : EvaluationConfig). x.organization_id) caller.organization_id)
        (Belongs w.db caller.organization_id) _ _ _ w
        (create_config-Returns n caller.organization_id caller.id body w) (λ a p. p)
  handler-Returns (get_configs_id id) caller w =
      one-Returns (IsOf (λ (x : EvaluationConfig). x.organization_id) caller.organization_id)
        (Belongs w.db caller.organization_id) _ _ _ w
        (get_config-Returns id caller.organization_id w) (λ a p. p)
  handler-Returns (put_configs_id id us) caller w =
      one-Returns (IsOf (λ (x : EvaluationConfig). x.organization_id) caller.organization_id)
        (Belongs w.db caller.organization_id) _ _ _ w
        (update_config-Returns id caller.organization_id caller.id us w) (λ a p. p)
  handler-Returns (get_runs_id id) caller w =
      one-Returns (IsOf (λ (x : EvaluationRun). x.organization_id) caller.organization_id)
        (Belongs w.db caller.organization_id) _ _ _ w (get_run-Returns id caller.organization_id w)
        (λ a p. p)
  handler-Returns (post_runs_id_cancel id) caller w =
      one-Returns (IsOf (λ (x : EvaluationRun). x.organization_id) caller.organization_id)
        (Belongs w.db caller.organization_id) _ _ _ w
        (cancel-Returns id caller.organization_id caller.id w) (λ a p. p)
  handler-Returns (get_datasets_id id) caller w =
      one-Returns (IsOf (λ (x : Dataset). x.organization_id) caller.organization_id)
        (Belongs w.db caller.organization_id) _ _ _ w
        (get_dataset-Returns id caller.organization_id w) (λ a p. p)
  handler-Returns (get_metrics_id id) caller w =
      one-Returns (IsAvailable caller.organization_id) (Belongs w.db caller.organization_id) _ _ _ w
        (get_metric-Returns id caller.organization_id w) (λ a p. p)
  handler-Returns (post_metrics body) caller w =
      one-Returns (IsAvailable caller.organization_id) (Belongs w.db caller.organization_id) _ _ _ w
        (create_metric-Returns caller.organization_id caller.id body w) (λ a p. p)
  handler-Returns (get_submissions q s) caller w =
      page-Returns (All (IsOf (λ (x : Submission). x.organization_id) caller.organization_id))
        (Belongs w.db caller.organization_id) _ w _ (paged submissions q)
        (gets-Returns _ _ w (
          page-All (IsOf (λ (x : Submission). x.organization_id) caller.organization_id)
            env.submissions_by_created_at
            (listed_submission caller.organization_id (parsed_status submission_statuses s))
            w.db.submissions _ _ orders.submissions (λ x h. ground arith)))
        (λ rows n p. p)
  handler-Returns (get_configs q) caller w =
      page-Returns (All (IsOf (λ (x : EvaluationConfig). x.organization_id) caller.organization_id))
        (Belongs w.db caller.organization_id) _ w _ (paged configs q)
        (gets-Returns _ _ w (
          page-All (IsOf (λ (x : EvaluationConfig). x.organization_id) caller.organization_id)
            env.configs_by_created_at (listed_config caller.organization_id) w.db.configs _ _
            orders.configs (λ x h. ground arith)))
        (λ rows n p. p)
  handler-Returns (get_datasets q s) caller w =
      page-Returns (All (IsOf (λ (x : Dataset). x.organization_id) caller.organization_id))
        (Belongs w.db caller.organization_id) _ w _ (paged datasets q)
        (gets-Returns _ _ w (
          page-All (IsOf (λ (x : Dataset). x.organization_id) caller.organization_id)
            env.datasets_by_created_at (listed_dataset caller.organization_id s) w.db.datasets _ _
            orders.datasets (λ x h. ground arith)))
        (λ rows n p. p)
  handler-Returns (get_runs q a b c) caller w =
      page-Returns (All (IsOf (λ (x : EvaluationRun). x.organization_id) caller.organization_id))
        (Belongs w.db caller.organization_id) _ w _ (paged runs q)
        (gets-Returns _ _ w (
          page-All (IsOf (λ (x : EvaluationRun). x.organization_id) caller.organization_id)
            env.runs_by_created_at
            (listed_run caller.organization_id (record {
              submission_id = a;
              config_id = b;
              status_filter = parsed_status run_statuses c;
            }))
            w.db.runs _ _ orders.runs (λ x h. ground arith)))
        (λ rows n p. p)
  handler-Returns (get_metrics q) caller w =
      page-Returns (All (IsAvailable caller.organization_id)) (Belongs w.db caller.organization_id)
        _ w _ (paged metrics q)
        (gets-Returns _ _ w (
          page-All (IsAvailable caller.organization_id) env.metrics_by_name
            (available_metric caller.organization_id) w.db.metrics _ _ orders.metrics
            (available_metric-IsAvailable caller.organization_id)))
        (λ rows n p. p)
  handler-Returns (post_datasets body) caller w =
      bind-Returns
        (IsOf (λ (found : Dataset × String). found.0.organization_id) caller.organization_id)
        (Belongs w.db caller.organization_id) _ _ w
        (create_dataset-Returns env.storage caller.organization_id caller.id body w)
        (λ found w' own.
          shown-Returns (Belongs w.db caller.organization_id) _
            (λ d. created_dataset d found.1 env.s3_presigned_url_expiry) found.0 w' own)
  handler-Returns (post_datasets_id_confirm id sum n) caller w =
      one-Returns (IsOf (λ (x : Dataset). x.organization_id) caller.organization_id)
        (Belongs w.db caller.organization_id) _ _ _ w
        (confirm-Returns env.storage id caller.organization_id sum n w) (λ a p. p)
  handler-Returns (delete_submissions_id id) caller w =
      bind-Returns (λ u. Unit {0}) (Belongs w.db caller.organization_id)
        (delete_submission id caller.organization_id caller.id) _ w (any-Returns _ w)
        (λ u w' p. pure-Returns (Belongs w.db caller.organization_id) _ w' tt)
  handler-Returns (delete_configs_id id) caller w =
      bind-Returns (λ u. Unit {0}) (Belongs w.db caller.organization_id)
        (delete_evaluation_config id caller.organization_id caller.id) _ w (any-Returns _ w)
        (λ u w' p. pure-Returns (Belongs w.db caller.organization_id) _ w' tt)
  handler-Returns (delete_datasets_id id) caller w =
      bind-Returns (λ u. Unit {0}) (Belongs w.db caller.organization_id)
        (delete_dataset id caller.organization_id caller.id) _ w (any-Returns _ w)
        (λ u w' p. pure-Returns (Belongs w.db caller.organization_id) _ w' tt)
  handler-Returns (get_run_workers id) caller w =
      all-Returns
        (All (λ (r : WorkerResult). HasRun w.db caller.organization_id r.evaluation_run_id))
        (Belongs w.db caller.organization_id) _ w _ _
        (workers-Returns env.result_orders id caller.organization_id w orders.workers) (λ rows p. p)
  handler-Returns (get_run_claims id q c) caller w =
      page-Returns (All (λ (x : Claim). x.organization_id ≡ caller.organization_id))
        (Belongs w.db caller.organization_id) _ w _ (paged claims q)
        (claims-Returns env.result_orders id caller.organization_id w c (pagination q).page
          (pagination q).page_size orders.claims)
        (λ rows n p. p)
  handler-Returns (get_run_contradictions id) caller w =
      all-Returns (All (λ (x : Contradiction). x.organization_id ≡ caller.organization_id))
        (Belongs w.db caller.organization_id) _ w _ _
        (contradictions-Returns env.result_orders id caller.organization_id w orders.contradictions)
        (λ rows p. p)
  handler-Returns (get_run_scores id) caller w =
      all-Returns (All (λ (x : Score). x.organization_id ≡ caller.organization_id))
        (Belongs w.db caller.organization_id) _ w _ _
        (scores-Returns env.result_orders id caller.organization_id w orders.scores) (λ rows p. p)
  handler-Returns (get_run_summary id) caller w =
      bind-Returns (IsOwnSummary env.result_orders id caller.organization_id w)
        (Belongs w.db caller.organization_id) _ _ w
        (summary-Returns env.result_orders id caller.organization_id w orders.scores)
        (λ found w' own.
          bind-Returns {A = List Score} (λ u. Unit {0}) (Belongs w.db caller.organization_id) _
            (λ v. pure (summary found)) w' (any-Returns _ w')
            (λ v w'' p. pure-Returns (Belongs w.db caller.organization_id) (summary found) w'' own))
  handler-Returns (post_run_export id fmt) caller w =
      bind-Returns (λ url. HasRun w.db caller.organization_id id)
        (Belongs w.db caller.organization_id) _ _ w
        (export-Returns env.result_orders id caller.organization_id w env.storage env.upload_bytes
          fmt)
        (λ url w' has. pure-Returns (Belongs w.db caller.organization_id) _ w' has)
  handler-Returns get_me caller w =
      shown-Returns (Belongs w.db caller.organization_id) _ user caller w refl
  handler-Returns (post_api_keys new) caller w =
      bind-Returns (λ found. found.0.organization_id ≡ caller.organization_id)
        (Belongs w.db caller.organization_id) _ _ w
        (keys-Returns caller.id caller.organization_id new w)
        (λ found w' own.
          shown-Returns (Belongs w.db caller.organization_id) _ (λ k. created_key k found.1) found.0
            w' own)
  handler-Returns (delete_api_keys_id id) caller w =
      bind-Returns (λ u. Unit {0}) (Belongs w.db caller.organization_id)
        (revoke_api_key id caller.organization_id caller.id) _ w (any-Returns _ w)
        (λ u w' p. pure-Returns (Belongs w.db caller.organization_id) _ w' tt)
