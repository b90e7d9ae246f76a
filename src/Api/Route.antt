-- ===== src/Api/Route.antt =====
-- A route, and what it answers to a request.
use ai_detention.Pagination.{Page, build_paginated_response}
use ai_detention.Prelude.{ℕ, String, Option, none, some, List, ◌≡◌, Bool, refl, arith, subst}
use ai_detention.Prelude.Int.{ℤ}
use ai_detention.Models.Account.{User}
use ai_detention.Models.Submission.{Submission}
use ai_detention.Models.Run.{EvaluationConfig, EvaluationRun}
use ai_detention.Models.Dataset.{Dataset}
use ai_detention.Models.Metric.{Metric}
use ai_detention.Auth.Service.{Passwords}
use ai_detention.Auth.Token.{Jwt, TokenSettings}
use ai_detention.Auth.Roles.{Role, check_role}
use ai_detention.Auth.Registration.{CharClasses}
use ai_detention.Auth.Deps.{Credentials, get_current_user, get_pagination, PaginationParams}
use ai_detention.Database.Session.{Session, World, ◌>>=◌, lift, transaction, Db, continue, settle}
use ai_detention.Datasets.{Storage}
use ai_detention.Results.{Orders, ExportData}
use ai_detention.Errors.{
  Error, app, status_code, error_code, Result, ok, err, value_error, attribute_error, retry,
  other_error, multiple_results_found, no_result_found, soft_time_limit_exceeded,
  max_retries_exceeded,
}
use ai_detention.Api.Body.{Body}

-- What the application is configured with, and the code of other packages that it calls.
pub record Env : Type 0 where
  pub passwords : Passwords
  pub jwt : Jwt
  pub settings : TokenSettings
  pub chars : CharClasses
  pub hash_api_key : String → String
  pub is_development : Bool
  pub s3_presigned_url_expiry : ℕ
  pub storage : Storage
  pub upload_bytes : String → ExportData → String → Session (Unit {0})
  -- the orders of the lists
  pub users_by_created_at : List User → List User
  pub submissions_by_created_at : List Submission → List Submission
  pub configs_by_created_at : List EvaluationConfig → List EvaluationConfig
  pub runs_by_created_at : List EvaluationRun → List EvaluationRun
  pub datasets_by_created_at : List Dataset → List Dataset
  pub metrics_by_name : List Metric → List Metric
  pub result_orders : Orders

-- `requires` is the role of `dependencies=[Depends(require_role(…))]`.
pub record Route : Type 0 where
  pub requires : Option Role
  pub status : ℕ
  pub handler : User → Session Body

pub data Response : Type 0 where
  success : ℕ → Body → Response
  failure : ℕ → String → Response

-- app_exception_handler and unhandled_exception_handler: the status and `error` of the answer.
unfoldable pub error_response : Error → Response
error_response (app e) = failure (status_code e) (error_code e)
error_response e = failure 500 "internal_error"

abbrev pub answer : ℕ → Result Body → Response
answer status (ok body) = success status body
answer status (err e) = error_response e

abbrev pub answered : ℕ → Result Body × World → Response × World
answered status (r, w) = (answer status r, w)

-- An error is answered with a failure.
pub error_response_lem :
    (e : Error) → (code : ℕ) × (error : String) × (error_response e ≡ failure code error)
unfolding error_response
error_response_lem (app e) = (status_code e, error_code e, refl)
error_response_lem multiple_results_found = (500, "internal_error", refl)
error_response_lem no_result_found = (500, "internal_error", refl)
error_response_lem (value_error t) = (500, "internal_error", refl)
error_response_lem (attribute_error t) = (500, "internal_error", refl)
error_response_lem soft_time_limit_exceeded = (500, "internal_error", refl)
error_response_lem max_retries_exceeded = (500, "internal_error", refl)
error_response_lem (retry e) = (500, "internal_error", refl)
error_response_lem (other_error t) = (500, "internal_error", refl)

success_settled :
    (before : Db) (status : ℕ) (p : Result Body × World) {code : ℕ} {body : Body}
    → (answered status (settle before p)).0 ≡ success code body
    → p.0 ≡ ok body
success_settled before status (ok found, w) h = ground arith
success_settled before status (err e, w) h =
    let (code, error, failed) = error_response_lem e in absurd (ground arith)

abbrev pub authorize : Option Role → User → Result User
authorize none user = ok user
authorize (some required) user = check_role required user

module _ (env : Env) where
  abbrev pub current_user : Credentials → Session User
  current_user =
      get_current_user env.passwords env.jwt env.settings env.hash_api_key env.users_by_created_at
        env.is_development

  -- The dependencies of the route, then its function.
  abbrev pub authenticated : Route → Credentials → Session Body
  authenticated route credentials = do
    user ← current_user credentials
    _ ← lift (authorize route.requires user)
    route.handler user

  unfoldable pub respond : Route → Credentials → World → Response × World
  respond route credentials w =
      answered route.status (transaction (authenticated route credentials) w)

  module _ (route : Route) (credentials : Credentials) (w : World) {user : User}
      (known : current_user credentials w ≡ (ok user, w)) where
    -- A user who fails the check of the route's role gets its error, and nothing changes.
    pub respond_refused :
        {e : Error}
        → authorize route.requires user ≡ err e
        → respond route credentials w ≡ (error_response e, w)
    unfolding respond transaction
    respond_refused refused = rw (known, refused) refl

    -- For a user who passes it, the route's function runs, in the request's transaction.
    pub respond_allowed :
        {checked : User}
        → authorize route.requires user ≡ ok checked
        → respond route credentials w ≡ answered route.status (transaction (route.handler user) w)
    unfolding respond transaction
    respond_allowed allowed = rw (known, allowed) refl

  -- An answer that is a success carries what the route's function returned to the user.
  pub success_handled :
      (route : Route) (credentials : Credentials) (w : World) {w' : World} {user : User}
      → current_user credentials w ≡ (ok user, w')
      → {code : ℕ} {body : Body} → (respond route credentials w).0 ≡ success code body
      → (route.handler user w').0 ≡ ok body
  unfolding respond transaction
  success_handled route credentials w {w'} {user} known {code} {body} succeeded =
      checked (authorize route.requires user) (
        subst
          (λ p.
            (continue p.0 (λ u. lift (authorize route.requires u) >>= λ x. route.handler u) p.1).0
            ≡ ok body)
          known (success_settled w.db route.status (authenticated route credentials w) succeeded))
    where
      checked :
          (r : Result User)
          → (continue r (λ x. route.handler user) w').0 ≡ ok body
          → (route.handler user w').0 ≡ ok body
      checked (ok x) h = h
      checked (err e) h = absurd (ground arith)

-- A route without credentials.
unfoldable pub respond_public : ℕ → Session Body → World → Response × World
respond_public status body w = answered status (transaction body w)

-- The query parameters of a page.
pub record PageQuery : Type 0 where
  pub page : ℤ
  pub page_size : ℤ

abbrev pub pagination : PageQuery → PaginationParams
pagination query = get_pagination query.page query.page_size

-- The body of a page, of its rows and their total.
abbrev pub paged : {A : Type 0} → (Page A → Body) → PageQuery → List A → ℕ → Body
paged body q items total =
    let params = pagination q in
    body (build_paginated_response items total params.page params.page_size)
