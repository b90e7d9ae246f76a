-- ===== src/Api/Router/Readers.antt =====
-- What a user who is no admin can do: a judge and a viewer pass no check for MEMBER.
pub mod Reading
use ai_detention.Prelude.{inl, inr, ◌≡◌, String, some, ◌⊎◌, ◌≢◌, arith, refl, List, ℕ, none}
use ai_detention.Api.Router.{
  Request, serve, route_of, post_submissions, get_submissions, get_submissions_id,
  patch_submissions_id, delete_submissions_id, post_submissions_id_evaluate, post_configs,
  get_configs, get_configs_id, put_configs_id, delete_configs_id, get_runs, get_runs_id,
  post_runs_id_cancel, post_datasets, post_datasets_id_confirm, get_datasets, get_datasets_id,
  delete_datasets_id, get_metrics, get_metrics_id, post_metrics, get_run_workers, get_run_claims,
  get_run_contradictions, get_run_scores, get_run_summary, post_run_export, get_me, post_api_keys,
  delete_api_keys_id,
}
use ai_detention.Auth.Roles.{Role, member, check_role, role_value, check_role_exact}
use ai_detention.Database.Session.{transaction, Session, World, settle}
use ai_detention.Api.Route.{
  Env, Route, pagination, current_user, respond, PageQuery, error_response, failure,
  respond_refused, authorize, respond_allowed, paged,
}
use ai_detention.Models.Account.{User, UserRole}
use ai_detention.Database.Reading.{KeepsDb, bind-KeepsDb, gets-KeepsDb, pure-KeepsDb}
use ai_detention.Results.{ExportData, ResultsSummary}
use ai_detention.Errors.{
  Result, ok, err, status_code, error_code, Result-cases, app, forbidden, requires_role,
}
use ai_detention.Api.Router.Readers.Reading.{
  page-KeepsDb, one-KeepsDb, get_submission-KeepsDb, get_config-KeepsDb, get_run-KeepsDb,
  get_dataset-KeepsDb, get_metric-KeepsDb, all-KeepsDb, workers-KeepsDb, claims-KeepsDb,
  contradictions-KeepsDb, scores-KeepsDb, summary-KeepsDb, validate_all-KeepsDb, export-KeepsDb,
  model_validate-KeepsDb,
}
use ai_detention.Api.Evaluations.{
  cancel_run_route, create_config_route, delete_config_route, get_config_route, get_run_route,
  list_configs_route, list_runs_route, update_config_route,
}
use ai_detention.Api.Datasets.{
  confirm_upload_route, create_dataset_route, delete_dataset_route, get_dataset_route,
  list_datasets_route,
}
use ai_detention.Api.Accounts.{create_api_key_route, get_me_route, revoke_api_key_route}
use ai_detention.Api.Metrics.{create_metric_route, get_metric_route, list_metrics_route}
use ai_detention.Api.Submissions.{
  create_submission_route, delete_submission_route, get_submission_route, list_submissions_route,
  trigger_evaluation_route, update_submission_route,
}
use ai_detention.Api.Results.{
  export_results_route, get_summary_route, list_claims_route, list_contradictions_route,
  list_scores_route, list_worker_results_route,
}
use ai_detention.Pagination.{Page, build_paginated_response}
use ai_detention.Auth.Service.{create_api_key_for_user, NewApiKey}
use ai_detention.Api.Body.{submissions, Body, configs, runs, datasets, metrics, claims}
use ai_detention.Auth.Deps.{Credentials}

-- A route that asks for MEMBER or ADMIN.
abbrev pub IsGuarded : Route → Type 0
IsGuarded route = (role : Role) × (route.requires ≡ some role) × (role ≢ Role.viewer)

-- Who is no admin fails every check above VIEWER.
low_refused :
    (role : Role) (user : User)
    → role ≢ Role.viewer
    → user.role ≢ UserRole.admin
    → check_role role user ≡ err (app (forbidden (requires_role (role_value role))))
low_refused role user above low = go user.role refl
  where
    go :
        (r : UserRole)
        → user.role ≡ r
        → check_role role user ≡ err (app (forbidden (requires_role (role_value role))))
    go UserRole.admin e = absurd (low e)
    go UserRole.judge e = (check_role_exact role user).1 (inl e)
    go UserRole.viewer e = (check_role_exact role user).1 (inr (e, above))

-- A route that asks for no role, whose request leaves the database as it is, for every user.
abbrev IsReading : Route → Type 0
IsReading route =
    (route.requires ≡ none) × ((user : User) → KeepsDb (transaction (route.handler user)))

for_members : (route : Route) → route.requires ≡ some member → IsReading route ⊎ IsGuarded route
for_members route h = inr (member, h, λ e. absurd (ground arith))

for_admins : (route : Route) → route.requires ≡ some Role.admin → IsReading route ⊎ IsGuarded route
for_admins route h = inr (Role.admin, h, λ e. absurd (ground arith))

settle-KeepsDb : {A : Type 0} (m : Session A) → KeepsDb m → KeepsDb (transaction m)
unfolding transaction KeepsDb
settle-KeepsDb {A} m keeps w = go (m w) (keeps w)
  where
    go : (p : Result A × World) → p.1.db ≡ w.db → (settle w.db p).1.db ≡ w.db
    go (ok a, w') h = h
    go (err e, w') h = refl

reads :
    (route : Route)
    → route.requires ≡ none
    → ((user : User) → KeepsDb (route.handler user))
    → IsReading route ⊎ IsGuarded route
reads route open_to_all keeps =
    inl (open_to_all, λ user. settle-KeepsDb (route.handler user) (keeps user))

keys_kept :
    (new : NewApiKey) (user : User)
    → KeepsDb (transaction ((create_api_key_route new).handler user))
unfolding KeepsDb transaction create_api_key_route create_api_key_for_user
keys_kept new user w = refl

module _ (env : Env)
    (upload-KeepsDb : (key : String) (contents : ExportData) (type : String)
      → KeepsDb (env.upload_bytes key contents type)) where
  abbrev Splits : Request → Type 0
  Splits request = IsReading (route_of env request) ⊎ IsGuarded (route_of env request)

  reads_or_guarded : (request : Request) → Splits request
  unfolding route_of cancel_run_route confirm_upload_route create_api_key_route create_config_route
      create_dataset_route create_metric_route create_submission_route delete_config_route
      delete_dataset_route delete_submission_route export_results_route get_config_route
      get_dataset_route get_me_route get_metric_route get_run_route get_submission_route
      get_summary_route list_claims_route list_configs_route list_contradictions_route
      list_datasets_route list_metrics_route list_runs_route list_scores_route
      list_submissions_route list_worker_results_route revoke_api_key_route trigger_evaluation_route
      update_config_route update_submission_route
  reads_or_guarded (post_submissions n b) = for_members (create_submission_route n b) refl
  reads_or_guarded (get_submissions q s) =
      reads (list_submissions_route env q s) refl
        (λ user. page-KeepsDb _ _ (paged submissions q) (gets-KeepsDb _))
  reads_or_guarded (get_submissions_id id) =
      reads (get_submission_route id) refl
        (λ user. one-KeepsDb _ _ _ (get_submission-KeepsDb id user.organization_id))
  reads_or_guarded (patch_submissions_id id u) = for_members (update_submission_route id u) refl
  reads_or_guarded (delete_submissions_id id) = for_members (delete_submission_route id) refl
  reads_or_guarded (post_submissions_id_evaluate id new) =
      for_members (trigger_evaluation_route id new) refl
  reads_or_guarded (post_configs n b) = for_members (create_config_route n b) refl
  reads_or_guarded (get_configs q) =
      reads (list_configs_route env q) refl
        (λ user. page-KeepsDb _ _ (paged configs q) (gets-KeepsDb _))
  reads_or_guarded (get_configs_id id) =
      reads (get_config_route id) refl
        (λ user. one-KeepsDb _ _ _ (get_config-KeepsDb id user.organization_id))
  reads_or_guarded (put_configs_id id u) = for_members (update_config_route id u) refl
  reads_or_guarded (delete_configs_id id) = for_admins (delete_config_route id) refl
  reads_or_guarded (get_runs q a b c) =
      reads (list_runs_route env q a b c) refl
        (λ user. page-KeepsDb _ _ (paged runs q) (gets-KeepsDb _))
  reads_or_guarded (get_runs_id id) =
      reads (get_run_route id) refl
        (λ user. one-KeepsDb _ _ _ (get_run-KeepsDb id user.organization_id))
  reads_or_guarded (post_runs_id_cancel id) = for_members (cancel_run_route id) refl
  reads_or_guarded (post_datasets b) = for_members (create_dataset_route env b) refl
  reads_or_guarded (post_datasets_id_confirm id a b) =
      for_members (confirm_upload_route env id a b) refl
  reads_or_guarded (get_datasets q s) =
      reads (list_datasets_route env q s) refl
        (λ user. page-KeepsDb _ _ (paged datasets q) (gets-KeepsDb _))
  reads_or_guarded (get_datasets_id id) =
      reads (get_dataset_route id) refl
        (λ user. one-KeepsDb _ _ _ (get_dataset-KeepsDb id user.organization_id))
  reads_or_guarded (delete_datasets_id id) = for_members (delete_dataset_route id) refl
  reads_or_guarded (get_metrics q) =
      reads (list_metrics_route env q) refl
        (λ user. page-KeepsDb _ _ (paged metrics q) (gets-KeepsDb _))
  reads_or_guarded (get_metrics_id id) =
      reads (get_metric_route id) refl
        (λ user. one-KeepsDb _ _ _ (get_metric-KeepsDb id user.organization_id))
  reads_or_guarded (post_metrics b) = for_members (create_metric_route b) refl
  reads_or_guarded (get_run_workers id) =
      reads (list_worker_results_route env id) refl
        (λ user. all-KeepsDb _ _ _ (workers-KeepsDb env.result_orders id user.organization_id))
  reads_or_guarded (get_run_claims id q c) = reads (list_claims_route env id q c) refl (λ user.
      page-KeepsDb _ _ (paged claims q) (
        claims-KeepsDb env.result_orders id user.organization_id c (pagination q).page
          (pagination q).page_size))
  reads_or_guarded (get_run_contradictions id) =
      reads (list_contradictions_route env id) refl (λ user.
        all-KeepsDb _ _ _ (contradictions-KeepsDb env.result_orders id user.organization_id))
  reads_or_guarded (get_run_scores id) =
      reads (list_scores_route env id) refl
        (λ user. all-KeepsDb _ _ _ (scores-KeepsDb env.result_orders id user.organization_id))
  reads_or_guarded (get_run_summary id) = reads (get_summary_route env id) refl (λ user.
      bind-KeepsDb _ _ (summary-KeepsDb env.result_orders id user.organization_id)
        (λ (found : ResultsSummary).
          bind-KeepsDb _ _ (validate_all-KeepsDb _ found.scores) (λ v. pure-KeepsDb _)))
  reads_or_guarded (post_run_export id fmt) = reads (export_results_route env id fmt) refl (λ user.
      bind-KeepsDb _ _
        (export-KeepsDb env.result_orders env.storage env.upload_bytes upload-KeepsDb id
          user.organization_id fmt)
        (λ url. pure-KeepsDb _))
  reads_or_guarded get_me =
      reads get_me_route refl
        (λ user. bind-KeepsDb _ _ (model_validate-KeepsDb _ user) (λ v. pure-KeepsDb _))
  reads_or_guarded (post_api_keys new) = inl (refl, keys_kept new)
  reads_or_guarded (delete_api_keys_id id) = for_admins (revoke_api_key_route id) refl

  module _ (request : Request) (credentials : Credentials) (w : World) {user : User}
      (known : current_user env credentials w ≡ (ok user, w)) where
    guarded_refused :
        IsGuarded (route_of env request)
        → user.role ≢ UserRole.admin
        → serve env request credentials w ≡ (failure 403 "forbidden", w)
    unfolding serve error_response status_code error_code
    guarded_refused (role, asks, above) low =
        respond_refused env (route_of env request) credentials w known
          {e = app (forbidden (requires_role (role_value role)))}
          (rw asks (low_refused role user above low))

    reading_kept : IsReading (route_of env request) → (serve env request credentials w).1.db ≡ w.db
    unfolding serve KeepsDb
    reading_kept (open_to_all, keeps) =
        rw
          (respond_allowed env (route_of env request) credentials w known {checked = user}
            (rw open_to_all refl))
          (keeps user w)

    -- The request of a user who is no admin, whatever it asks for, leaves the database as it is, if
    -- finding the user has changed nothing (the use of an API key is noted) and uploads leave the
    -- database alone; and if the route asks for a role, the answer is 403 and nothing else changes.
    pub low_changes_nothing :
        user.role ≢ UserRole.admin
        → ((serve env request credentials w).1.db ≡ w.db)
          × ((role : Role)
              → (route_of env request).requires ≡ some role
              → serve env request credentials w ≡ (failure 403 "forbidden", w))
    low_changes_nothing low = elim (reads_or_guarded request) [
      | inl (open_to_all, keeps) ↦
          (reading_kept (open_to_all, keeps), λ role asks. absurd (ground arith))
      | inr guarded ↦
          (rw (guarded_refused guarded low) refl, λ role asks. guarded_refused guarded low)
    ]
