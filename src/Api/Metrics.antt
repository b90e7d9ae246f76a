-- ===== src/Api/Metrics.antt =====
-- src/api/v1/metrics.py.
use ai_detention.Metrics.{NewMetric}
use ai_detention.Metrics
use ai_detention.Api.Body.{metric, metrics}
use ai_detention.Api.Route.{Env, Route, PageQuery, pagination}
use ai_detention.Auth.Roles.{member}
use ai_detention.Prelude.{ℕ, none, some}
use ai_detention.Database.Session.{◌>>=◌, gets, pure}
use ai_detention.Schemas.{model_validate, fits, validate_all}
use ai_detention.Schemas.Responses.{metric_response}
use ai_detention.Schemas.Rows.{metric_attributes}
use ai_detention.Pagination.{build_paginated_response}

unfoldable pub list_metrics_route : Env → PageQuery → Route
list_metrics_route env query =
    let params = pagination query in
    record {
      requires = none;
      status = 200;
      handler = λ user. do
        (rows, total) ← gets λ w.
            Metrics.list_metrics env.metrics_by_name user.organization_id params.page
              params.page_size w.db
        items ← validate_all (fits metric_response metric_attributes) rows
        pure (metrics (build_paginated_response items total params.page params.page_size));
    }

unfoldable pub get_metric_route : ℕ → Route
get_metric_route metric_id = record {
  requires = none;
  status = 200;
  handler = λ user. do
    row ← Metrics.get_metric metric_id user.organization_id
    validated ← model_validate (fits metric_response metric_attributes) row
    pure (metric validated);
}

unfoldable pub create_metric_route : NewMetric → Route
create_metric_route body = record {
  requires = some member;
  status = 201;
  handler = λ user. do
    row ← Metrics.create_custom_metric user.organization_id user.id body
    validated ← model_validate (fits metric_response metric_attributes) row
    pure (metric validated);
}
