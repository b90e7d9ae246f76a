-- ===== src/Api/Submissions.antt =====
-- src/api/v1/submissions.py.
use ai_detention.Prelude.{ℕ, String, Option, none, some, List, [], ◌∷◌, str_eq, if◌then◌else◌}
use ai_detention.Prelude.Text.{is_empty}
use ai_detention.Models.Submission.{
  SubmissionStatus, draft, submitted, under_review, evaluated, archived,
}
use ai_detention.Auth.Roles.{member}
use ai_detention.Database.Session.{◌>>=◌, ◌>>◌, pure, gets}
use ai_detention.Schemas.{fits, model_validate, validate_all}
use ai_detention.Schemas.Rows.{submission_attributes, run_attributes}
use ai_detention.Schemas.Responses.{submission_response, evaluation_run_response}
use ai_detention.Pagination.{build_paginated_response}
use ai_detention.Submissions.{NewSubmission, SubmissionUpdate, NewRun}
use ai_detention.Submissions
use ai_detention.Api.Body.{submission, submissions, run, message}
use ai_detention.Api.Route.{Env, Route, PageQuery, pagination}

-- One of the named values, as an enum's class finds it by its text.
abbrev pub named {ℓ} : {A : Type ℓ} → List (String × A) → String → Option A
named [] text = none
named ((name, value) ∷ rest) text = if str_eq name text then some value else named rest text

abbrev pub submission_statuses : List (String × SubmissionStatus)
submission_statuses =
    ("draft", draft)
    ∷ ("submitted", submitted)
    ∷ ("under_review", under_review)
    ∷ ("evaluated", evaluated)
    ∷ ("archived", archived)
    ∷ []

-- A filter that is absent, empty or no status is no filter.
abbrev pub parsed_status {ℓ} : {A : Type ℓ} → List (String × A) → Option String → Option A
parsed_status statuses none = none
parsed_status statuses (some text) = if is_empty text then none else named statuses text

unfoldable pub create_submission_route : ℕ → NewSubmission → Route
create_submission_route new_id body = record {
  requires = some member;
  status = 201;
  handler = λ user. do
    row ← Submissions.create_submission new_id user.organization_id user.id body
    validated ← model_validate (fits submission_response submission_attributes) row
    pure (submission validated);
}

unfoldable pub list_submissions_route : Env → PageQuery → Option String → Route
list_submissions_route env query status_filter =
    let params = pagination query in
    record {
      requires = none;
      status = 200;
      handler = λ user. do
        (rows, total) ← gets λ w.
            Submissions.list_submissions env.submissions_by_created_at user.organization_id
              (parsed_status submission_statuses status_filter) params.page params.page_size w.db
        items ← validate_all (fits submission_response submission_attributes) rows
        pure (submissions (build_paginated_response items total params.page params.page_size));
    }

unfoldable pub get_submission_route : ℕ → Route
get_submission_route submission_id = record {
  requires = none;
  status = 200;
  handler = λ user. do
    row ← Submissions.get_submission submission_id user.organization_id
    validated ← model_validate (fits submission_response submission_attributes) row
    pure (submission validated);
}

unfoldable pub update_submission_route : ℕ → List SubmissionUpdate → Route
update_submission_route submission_id updates = record {
  requires = some member;
  status = 200;
  handler = λ user. do
    row ← Submissions.update_submission submission_id user.organization_id user.id updates
    validated ← model_validate (fits submission_response submission_attributes) row
    pure (submission validated);
}

unfoldable pub delete_submission_route : ℕ → Route
delete_submission_route submission_id = record {
  requires = some member;
  status = 200;
  handler = λ user. do
    Submissions.delete_submission submission_id user.organization_id user.id
    pure (message "Submission deleted successfully");
}

unfoldable pub trigger_evaluation_route : ℕ → NewRun → Route
trigger_evaluation_route submission_id new = record {
  requires = some member;
  status = 202;
  handler = λ user. do
    row ← Submissions.trigger_evaluation submission_id user.organization_id user.id new
    validated ← model_validate (fits evaluation_run_response run_attributes) row
    pure (run validated);
}
