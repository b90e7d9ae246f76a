-- ===== src/Api/Router/Refusals.antt =====
-- Requests that fail.
use ai_detention.Api.Router.{Request, serve, route_of}
use ai_detention.Api.Route.{Env, respond, error_response, failure, answered, authenticated}
use ai_detention.Database.Session.{transaction, World, settle}
use ai_detention.Auth.Deps.{get_current_user, Credentials}
use ai_detention.Errors.{status_code, error_code, Result, ok, err}
use ai_detention.Prelude.{ℕ, String, ◌≡◌, false, none, refl}
use ai_detention.Api.Body.{Body}

module _ (env : Env) where
  -- A request that is answered with a failure, whatever raised it, leaves the database as it was.
  failure_changes_nothing :
      (request : Request) (credentials : Credentials) (w : World) {code : ℕ} {error : String}
      → (serve env request credentials w).0 ≡ failure code error
      → (serve env request credentials w).1.db ≡ w.db
  unfolding serve respond transaction
  failure_changes_nothing request credentials w h =
      go (authenticated env (route_of env request) credentials w) h
    where
      go :
          (r : Result Body × World) {code : ℕ} {error : String}
          → (answered (route_of env request).status (settle w.db r)).0 ≡ failure code error
          → (settle w.db r).1.db ≡ w.db
      go (ok body, w') h = cc
      go (err e, w') h = refl

  -- Outside development a request without credentials is answered with 401, by every route, and
  -- changes nothing.
  anonymous_refused :
      (request : Request) (w : World)
      → env.is_development ≡ false
      → serve env request (record { bearer = none; x_api_key = none }) w
        ≡ (failure 401 "unauthorized", w)
  unfolding serve respond transaction get_current_user error_response status_code error_code
  anonymous_refused request w production = rw production refl
