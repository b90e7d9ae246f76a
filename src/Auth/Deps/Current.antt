-- ===== src/Auth/Deps/Current.antt =====
-- `get_current_user`: the two types of tokens are kept apart, and a login's token is accepted.
use ai_detention.Auth.Service.{Passwords, TokenPair, authenticate_user, active_user}
use ai_detention.Auth.Token.{
  Jwt, TokenSettings, create_refresh_token, refresh_claims, access_claims,
}
use ai_detention.Prelude.{
  String, List, Bool, Option, ℕ, ◌≤◌, ◌+◌, ◌*◌, str_eq, ◌≡◌, false, some, arith, none, ◌∷◌, [],
}
use ai_detention.Models.Account.{User}
use ai_detention.Auth.Deps.{get_current_user}
use ai_detention.Database.Session.{World}
use ai_detention.Errors.{err, app, unauthorized, invalid_token_type, ok}
use ai_detention.Database.Table.{select}

module _ (passwords : Passwords) (jwt : Jwt) (settings : TokenSettings)
    (hash_api_key : String → String) (order_by : List User → List User) where
  -- A refresh token, while it lives, is no access token: a request with it is refused and changes
  -- nothing, in development too, whatever API key comes with it.
  pub refresh_token_refused :
      (is_development : Bool) (x_api_key : Option String) (user_id org_id issued : ℕ) (w : World)
      → let token = create_refresh_token jwt settings user_id org_id issued in
        w.now ≤ issued + settings.jwt_refresh_token_expire_days * 86400
        → str_eq token "" ≡ false
        → get_current_user passwords jwt settings hash_api_key order_by is_development
            (record { bearer = some token; x_api_key = x_api_key })
            w
          ≡ (err (app (unauthorized invalid_token_type)), w)
  unfolding get_current_user
  refresh_token_refused is_development x_api_key user_id org_id issued w lives not_empty =
      rw not_empty (
        ground (
          arith,
          jwt.decode-encode (refresh_claims jwt settings user_id org_id issued) w.now lives,
        ))

  token_of_login :
      (jti email password : String) (w : World) {pair : TokenPair} {user : User}
      → (authenticate_user passwords jwt settings jti email password w).0 ≡ ok (pair, user)
      → pair.access_token
        ≡ jwt.encode
            (access_claims jwt settings jti user.id user.organization_id user.role none w.now)
  unfolding authenticate_user
  token_of_login jti email password w h = ground arith

  -- The access token of a login, while it lives, makes later requests those of that user: as long
  -- as the database has one active row with the user's id, the request gets that row and changes
  -- nothing.
  pub login_token_accepted :
      (jti email password : String) (w : World) {pair : TokenPair} {user : User}
      → (authenticate_user passwords jwt settings jti email password w).0 ≡ ok (pair, user)
      → str_eq pair.access_token "" ≡ false
      → (is_development : Bool) (x_api_key : Option String) (later : World) (row : User)
      → later.now ≤ w.now + settings.jwt_access_token_expire_minutes * 60
      → select (active_user passwords jwt settings user.id) later.db.users ≡ row ∷ []
      → get_current_user passwords jwt settings hash_api_key order_by is_development
          (record { bearer = some pair.access_token; x_api_key = x_api_key })
          later
        ≡ (ok row, later)
  unfolding get_current_user
  login_token_accepted jti email password w {pair} {user} h not_empty is_development x_api_key later
        row lives found =
      let token = token_of_login jti email password w h in
      let claims =
        access_claims jwt settings jti user.id user.organization_id user.role none w.now in
      rw not_empty (rw token (ground (arith, jwt.decode-encode claims later.now lives)))
