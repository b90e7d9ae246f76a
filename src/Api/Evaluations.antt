-- ===== src/Api/Evaluations.antt =====
-- src/api/v1/evaluations.py.
use ai_detention.Models.Run.{RunStatus, pending, running, completed, failed, cancelled}
use ai_detention.Evaluations.{NewConfig, ConfigUpdate, RunFilter}
use ai_detention.Evaluations
use ai_detention.Api.Body.{config, configs, run, runs, message}
use ai_detention.Api.Route.{Env, Route, PageQuery, pagination}
use ai_detention.Api.Submissions.{parsed_status}
use ai_detention.Auth.Roles.{Role, member}
use ai_detention.Prelude.{List, ℕ, Option, none, String, some, ◌∷◌, []}
use ai_detention.Database.Session.{◌>>=◌, gets, ◌>>◌, pure}
use ai_detention.Schemas.{model_validate, fits, validate_all}
use ai_detention.Schemas.Responses.{evaluation_run_response, evaluation_config_response}
use ai_detention.Schemas.Rows.{run_attributes, config_attributes}
use ai_detention.Pagination.{build_paginated_response}

unfoldable pub create_config_route : ℕ → NewConfig → Route
create_config_route new_id body = record {
  requires = some member;
  status = 201;
  handler = λ user. do
    row ← Evaluations.create_evaluation_config new_id user.organization_id user.id body
    validated ← model_validate (fits evaluation_config_response config_attributes) row
    pure (config validated);
}

unfoldable pub list_configs_route : Env → PageQuery → Route
list_configs_route env query =
    let params = pagination query in
    record {
      requires = none;
      status = 200;
      handler = λ user. do
        (rows, total) ← gets λ w.
            Evaluations.list_evaluation_configs env.configs_by_created_at user.organization_id
              params.page params.page_size w.db
        items ← validate_all (fits evaluation_config_response config_attributes) rows
        pure (configs (build_paginated_response items total params.page params.page_size));
    }

unfoldable pub get_config_route : ℕ → Route
get_config_route config_id = record {
  requires = none;
  status = 200;
  handler = λ user. do
    row ← Evaluations.get_evaluation_config config_id user.organization_id
    validated ← model_validate (fits evaluation_config_response config_attributes) row
    pure (config validated);
}

unfoldable pub update_config_route : ℕ → List ConfigUpdate → Route
update_config_route config_id updates = record {
  requires = some member;
  status = 200;
  handler = λ user. do
    row ← Evaluations.update_evaluation_config config_id user.organization_id user.id updates
    validated ← model_validate (fits evaluation_config_response config_attributes) row
    pure (config validated);
}

unfoldable pub delete_config_route : ℕ → Route
delete_config_route config_id = record {
  requires = some Role.admin;
  status = 200;
  handler = λ user. do
    Evaluations.delete_evaluation_config config_id user.organization_id user.id
    pure (message "Configuration deleted successfully");
}

abbrev pub run_statuses : List (String × RunStatus)
run_statuses =
    ("pending", pending)
    ∷ ("running", running)
    ∷ ("completed", completed)
    ∷ ("failed", failed)
    ∷ ("cancelled", cancelled)
    ∷ []

unfoldable pub list_runs_route : Env → PageQuery → Option ℕ → Option ℕ → Option String → Route
list_runs_route env query submission_id config_id status_filter =
    let params = pagination query in
    let filter : RunFilter = record {
      submission_id = submission_id;
      config_id = config_id;
      status_filter = parsed_status run_statuses status_filter;
    } in
    record {
      requires = none;
      status = 200;
      handler = λ user. do
        (rows, total) ← gets λ w.
            Evaluations.list_evaluation_runs env.runs_by_created_at user.organization_id filter
              params.page params.page_size w.db
        items ← validate_all (fits evaluation_run_response run_attributes) rows
        pure (runs (build_paginated_response items total params.page params.page_size));
    }

unfoldable pub get_run_route : ℕ → Route
get_run_route run_id = record {
  requires = none;
  status = 200;
  handler = λ user. do
    row ← Evaluations.get_evaluation_run run_id user.organization_id
    validated ← model_validate (fits evaluation_run_response run_attributes) row
    pure (run validated);
}

unfoldable pub cancel_run_route : ℕ → Route
cancel_run_route run_id = record {
  requires = some member;
  status = 200;
  handler = λ user. do
    row ← Evaluations.cancel_evaluation_run run_id user.organization_id user.id
    validated ← model_validate (fits evaluation_run_response run_attributes) row
    pure (run validated);
}
