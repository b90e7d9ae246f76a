-- ===== src/Tests/Auth.antt =====
-- Authentication at a sample user.
use ai_detention.Auth.Token.{create_refresh_token, create_access_token}
use ai_detention.Prelude.{ℕ, some, arith, ◌≡◌, none, refl, true, ◌≤◌, false, ◌∷◌, []}
use ai_detention.Auth.Service.{authenticate_api_key, authenticate_user, TokenPair}
use ai_detention.Models.Account.{UserRole, User, is_valid}
use ai_detention.Errors.{ok, err, app, unauthorized, invalid_token_type}
use ai_detention.Database.Session.{Session}
use ai_detention.Auth.Service.Login.{IsUnlocked, serve_logins, lockout_never_reached}
use ai_detention.Database.Table.{select, update_where}
use ai_detention.Auth.Deps.{get_current_user}
use ai_detention.Tests.Samples.{sample_user, sample_key}
use ai_detention.Auth.Deps.Current.{login_token_accepted, refresh_token_refused}
use ai_detention.Auth.Service.Keys.{api_key_sound}
use ai_detention.Tests.Tokens.{plain_passwords, unary_jwt, token_settings, auth_world}

abbrev ada : User
ada = sample_user UserRole.viewer

abbrev login_ada : Session (TokenPair × User)
login_ada = authenticate_user plain_passwords unary_jwt token_settings "j" "ada" "secret"

lockout_never_reached_example :
    IsUnlocked
      (serve_logins plain_passwords unary_jwt token_settings
        (record { jti = "j"; email = "ada"; password = "wrong" }
          ∷ record { jti = "k"; email = "ada"; password = "secret" }
          ∷ [])
        auth_world).db
lockout_never_reached_example =
    lockout_never_reached plain_passwords unary_jwt token_settings
      (record { jti = "j"; email = "ada"; password = "wrong" }
        ∷ record { jti = "k"; email = "ada"; password = "secret" }
        ∷ [])
      auth_world (omega arith, tt)

api_key_sound_example :
    let key = record sample_key { last_used_at = some 100 } in
    (key.key_hash ≡ "raw")
    × (key.is_revoked ≡ false)
    × (key.deleted_at ≡ none)
    × ((t : ℕ) → key.expires_at ≡ some t → 100 ≤ t)
    × (key.last_used_at ≡ some 100)
    × (ada.id ≡ key.user_id)
    × (ada.is_active ≡ true)
unfolding authenticate_api_key is_valid select update_where
api_key_sound_example =
    api_key_sound (λ s. s) "raw" auth_world {user = ada}
      {key = record sample_key { last_used_at = some 100 }} refl

refresh_token_refused_example :
    get_current_user plain_passwords unary_jwt token_settings
      (λ s. s)
      (λ us. us)
      false
      (record {
        bearer = some (create_refresh_token unary_jwt token_settings 9 7 100);
        x_api_key = none;
      })
      auth_world
    ≡ (err (app (unauthorized invalid_token_type)), auth_world)
refresh_token_refused_example =
    refresh_token_refused plain_passwords unary_jwt token_settings (λ s. s) (λ us. us) false none 9
      7 100 auth_world (omega arith) refl

login_token_accepted_example :
    get_current_user plain_passwords unary_jwt token_settings
      (λ s. s)
      (λ us. us)
      false
      (record {
        bearer =
            some (create_access_token unary_jwt token_settings "j" 9 7 UserRole.viewer none 100);
        x_api_key = none;
      })
      auth_world
    ≡ (ok ada, auth_world)
unfolding authenticate_user select update_where
login_token_accepted_example =
    login_token_accepted plain_passwords unary_jwt token_settings (λ s. s) (λ us. us) "j" "ada"
      "secret" auth_world
      {pair = record {
        access_token =
            create_access_token unary_jwt token_settings "j" 9 7 UserRole.viewer none 100;
        refresh_token = create_refresh_token unary_jwt token_settings 9 7 100;
      }}
      {user = record ada { failed_login_attempts = 0; last_login_at = some 100 }} refl refl false
      none auth_world ada (omega arith) refl
