-- ===== src/Api/Accounts.antt =====
-- src/api/v1/auth.py: the routes of a user, and those that need no user. The id of a key to revoke
-- is a UUID here; the route raises ValueError for another text.
use ai_detention.Auth.Service.{
  NewApiKey, authenticate_user, refresh_access_token, create_api_key_for_user, revoke_api_key,
}
use ai_detention.Auth.Registration.{Registration, register_user}
use ai_detention.Api.Body.{user, created_key, tokens, message}
use ai_detention.Api.Route.{Env, Route, Response, respond_public}
use ai_detention.Auth.Roles.{Role}
use ai_detention.Prelude.{ℕ, String, none, ◌*◌, some}
use ai_detention.Database.Session.{World, ◌>>=◌, pure, ◌>>◌}
use ai_detention.Schemas.{model_validate, fits}
use ai_detention.Schemas.Responses.{user_response, api_key_created}
use ai_detention.Schemas.Rows.{user_attributes, api_key_attributes}

unfoldable pub get_me_route : Route
get_me_route = record {
  requires = none;
  status = 200;
  handler = λ current. do
    validated ← model_validate (fits user_response user_attributes) current
    pure (user validated);
}

unfoldable pub create_api_key_route : NewApiKey → Route
create_api_key_route new = record {
  requires = none;
  status = 201;
  handler = λ current. do
    (row, raw_key) ← create_api_key_for_user current.id current.organization_id new
    validated ← model_validate (fits api_key_created api_key_attributes) row
    pure (created_key validated raw_key);
}

unfoldable pub revoke_api_key_route : ℕ → Route
revoke_api_key_route key_id = record {
  requires = some Role.admin;
  status = 200;
  handler = λ current. do
    revoke_api_key key_id current.organization_id current.id
    pure (message "API key revoked successfully");
}

module _ (env : Env) where
  unfoldable pub register : Registration → World → Response × World
  register body = respond_public 201 (do
    (row, org) ← register_user env.chars env.passwords body
    validated ← model_validate (fits user_response user_attributes) row
    pure (user validated))

  -- The lifetime of an access token in seconds.
  abbrev pub expires_in : ℕ
  expires_in = env.settings.jwt_access_token_expire_minutes * 60

  unfoldable pub login_request : String → String → String → World → Response × World
  login_request jti email password = respond_public 200 (do
    (pair, _) ← authenticate_user env.passwords env.jwt env.settings jti email password
    pure (tokens pair expires_in))

  unfoldable pub refresh_token : String → String → World → Response × World
  refresh_token jti token = respond_public 200 (do
    pair ← refresh_access_token env.passwords env.jwt env.settings jti token
    pure (tokens pair expires_in))
