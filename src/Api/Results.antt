-- ===== src/Api/Results.antt =====
-- src/api/v1/results.py.
use ai_detention.Results
use ai_detention.Api.Body.{worker_results, claims, contradictions, scores, summary, export}
use ai_detention.Api.Route.{Env, Route, PageQuery, pagination}
use ai_detention.Prelude.{ℕ, Option, String, none}
use ai_detention.Database.Session.{◌>>=◌, pure}
use ai_detention.Schemas.{validate_all, fits}
use ai_detention.Schemas.Responses.{
  contradiction_response, claim_response, score_response, worker_result_response,
}
use ai_detention.Schemas.Rows.{
  worker_result_attributes, contradiction_attributes, score_attributes, claim_attributes,
}
use ai_detention.Pagination.{build_paginated_response}

unfoldable pub list_worker_results_route : Env → ℕ → Route
list_worker_results_route env run_id = record {
  requires = none;
  status = 200;
  handler = λ user. do
    rows ← Results.get_worker_results_for_run env.result_orders run_id user.organization_id
    items ← validate_all (fits worker_result_response worker_result_attributes) rows
    pure (worker_results items);
}

unfoldable pub list_claims_route : Env → ℕ → PageQuery → Option String → Route
list_claims_route env run_id query category =
    let params = pagination query in
    record {
      requires = none;
      status = 200;
      handler = λ user. do
        (rows, total) ←
            Results.get_claims_for_run env.result_orders run_id user.organization_id category
              params.page params.page_size
        items ← validate_all (fits claim_response claim_attributes) rows
        pure (claims (build_paginated_response items total params.page params.page_size));
    }

unfoldable pub list_contradictions_route : Env → ℕ → Route
list_contradictions_route env run_id = record {
  requires = none;
  status = 200;
  handler = λ user. do
    rows ← Results.get_contradictions_for_run env.result_orders run_id user.organization_id
    items ← validate_all (fits contradiction_response contradiction_attributes) rows
    pure (contradictions items);
}

unfoldable pub list_scores_route : Env → ℕ → Route
list_scores_route env run_id = record {
  requires = none;
  status = 200;
  handler = λ user. do
    rows ← Results.result_scores_for_run env.result_orders run_id user.organization_id
    items ← validate_all (fits score_response score_attributes) rows
    pure (scores items);
}

-- RunResultsSummary has the summary's fields; its scores are made from the rows.
unfoldable pub get_summary_route : Env → ℕ → Route
get_summary_route env run_id = record {
  requires = none;
  status = 200;
  handler = λ user. do
    found ← Results.get_results_summary env.result_orders run_id user.organization_id
    _ ← validate_all (fits score_response score_attributes) found.scores
    pure (summary found);
}

unfoldable pub export_results_route : Env → ℕ → String → Route
export_results_route env run_id fmt = record {
  requires = none;
  status = 202;
  handler = λ user. do
    download_url ←
        Results.export_results env.result_orders env.storage env.upload_bytes run_id
          user.organization_id fmt
    pure (export run_id "completed" download_url);
}
