-- ===== src/Auth/Service.antt =====
-- The auth service (src/services/auth_service.py). Hashing of passwords (passlib) and of API keys
-- (hashlib) are parameters. An attribute of AuditAction that the enum lacks raises where the code
-- evaluates it.
pub mod Login
pub mod Keys
use ai_detention.Prelude.{
  String, Option, ℕ, some, List, Bool, ◌==◌, str_eq, none, ◌≡◌, ◌+◌, true, ◌&&◌, suc, false, not,
  ◌*◌, is_none, ◌++◌, zero, if◌then◌else◌, ◌∷◌, [],
}
use ai_detention.Auth.Token.{
  Jwt, TokenSettings, Claims, is_refresh, create_access_token, create_refresh_token,
}
use ai_detention.Models.Account.{ApiKey, User, login_failed, is_locked, is_valid, login}
use ai_detention.Database.Session.{
  Session, pure, raise, modify_db, ◌>>=◌, ◌>>◌, gets, query, raise_if, found_or_raise,
}
use ai_detention.Errors.{
  Reason, invalid_refresh_token, app, ok, unauthorized, invalid_credentials, err, invalid_api_key,
  account_deactivated, invalid_token_type, user_not_found_or_deactivated, not_found,
  api_key_owner_not_found, account_locked, attribute_error,
}
use ai_detention.Database.Table.{update_where, scalar_one_or_none, select}
use ai_detention.Database.Audit.{create_audit_log}

-- passlib's CryptContext
pub record Passwords : Type 0 where
  pub verify : String → String → Bool
  pub hash : String → String
  pub verify-hash : (p : String) → verify p (hash p) ≡ true

abbrev pub has_email : String → User → Bool
has_email email u = str_eq u.email email && is_none u.deleted_at

abbrev pub save_user : ℕ → (User → User) → Session (Unit {0})
save_user user_id f =
    modify_db λ db. record db { users = update_where (λ u. u.id == user_id) f db.users }

pub record TokenPair : Type 0 where
  pub access_token : String
  pub refresh_token : String

module _ (passwords : Passwords) (jwt : Jwt) (settings : TokenSettings) where
  -- The branch of a user that was not found.
  abbrev unknown_user : Session User
  unknown_user = do
    create_audit_log login_failed "user" none none none "failure"
    raise (app (unauthorized invalid_credentials))

  abbrev or_unknown : Option User → Session User
  or_unknown none = unknown_user
  or_unknown (some user) = pure user

  -- The branch of a wrong password.
  abbrev reject_password : User → Session (Unit {0})
  reject_password user = do
    save_user user.id (λ u. record u { failed_login_attempts = user.failed_login_attempts + 1 })
    create_audit_log login_failed "user" (some user.id) (some user.organization_id) (some user.id)
        "failure"
    raise (app (unauthorized invalid_credentials))

  abbrev check_password : Bool → User → Session (Unit {0})
  check_password true user = pure tt
  check_password false user = reject_password user

  -- `jti` is the text of the uuid4 of the access token.
  unfoldable pub authenticate_user : String → String → String → Session (TokenPair × User)
  authenticate_user jti email password = do
    found ← query (λ db. scalar_one_or_none (select (has_email email) db.users))
    user ← or_unknown found
    raise_if (not user.is_active) (app (unauthorized account_deactivated))
    raise_if (is_locked user) (app (unauthorized account_locked))
    check_password (passwords.verify password user.hashed_password) user
    now ← gets (λ w. w.now)
    let logged_in = λ (u : User). record u { failed_login_attempts = 0; last_login_at = some now }
    save_user user.id logged_in
    create_audit_log login "user" (some user.id) (some user.organization_id) (some user.id)
        "success"
    pure (
      record {
        access_token =
            create_access_token jwt settings jti user.id user.organization_id user.role none now;
        refresh_token = create_refresh_token jwt settings user.id user.organization_id now;
      },
      logged_in user,
    )

  abbrev pub active_user : ℕ → User → Bool
  active_user user_id u = u.id == user_id && (u.is_active && is_none u.deleted_at)

  -- try: decode_token(…) except Exception: raise UnauthorizedError
  abbrev pub decode_or : Reason → String → Session Claims
  decode_or reason token w = elim (jwt.decode w.now token) [
    | ok claims ↦ (ok claims, w)
    | err e ↦ (err (app (unauthorized reason)), w)
  ]

  -- AuditAction.TOKEN_REFRESH, the action of the last call's log entry, is no member of the enum.
  unfoldable pub refresh_access_token : String → String → Session TokenPair
  refresh_access_token jti refresh_token = do
    payload ← decode_or invalid_refresh_token refresh_token
    raise_if (not (is_refresh payload)) (app (unauthorized invalid_token_type))
    found ← query (λ db. scalar_one_or_none (select (active_user payload.sub) db.users))
    user ← found_or_raise (app (unauthorized user_not_found_or_deactivated)) found
    now ← gets (λ w. w.now)
    let pair : TokenPair = record {
      access_token =
          create_access_token jwt settings jti user.id user.organization_id user.role none now;
      refresh_token = create_refresh_token jwt settings user.id user.organization_id now;
    }
    raise (attribute_error "TOKEN_REFRESH")

module _ (hash_api_key : String → String) where
  abbrev pub has_key_hash : String → ApiKey → Bool
  has_key_hash hash k = str_eq k.key_hash hash && (not k.is_revoked && is_none k.deleted_at)

  abbrev pub save_api_key : ℕ → (ApiKey → ApiKey) → Session (Unit {0})
  save_api_key key_id f =
      modify_db λ db. record db { api_keys = update_where (λ k. k.id == key_id) f db.api_keys }

  abbrev valid_or_raise : ℕ → Option ApiKey → Session ApiKey
  valid_or_raise now none = raise (app (unauthorized invalid_api_key))
  valid_or_raise now (some key) =
      if is_valid key now then pure key else raise (app (unauthorized invalid_api_key))

  -- The key's owner: active, and perhaps deleted.
  abbrev pub key_owner : ℕ → User → Bool
  key_owner user_id u = u.id == user_id && u.is_active

  unfoldable pub authenticate_api_key : String → Session (User × ApiKey)
  authenticate_api_key raw_key = do
    found ←
        query (λ db. scalar_one_or_none (select (has_key_hash (hash_api_key raw_key)) db.api_keys))
    now ← gets (λ w. w.now)
    key ← valid_or_raise now found
    let used = λ (k : ApiKey). record k { last_used_at = some now }
    save_api_key key.id used
    owner ← query (λ db. scalar_one_or_none (select (key_owner key.user_id) db.users))
    user ← found_or_raise (app (unauthorized api_key_owner_not_found)) owner
    pure (user, used key)

pub record NewApiKey : Type 0 where
  pub new_id : ℕ
  pub name : String
  pub scopes : List String
  pub expires_in_days : Option ℕ
  -- what generate_api_key returned
  pub raw_key : String
  pub key_hash : String
  pub key_prefix : String

-- if expires_in_days: none and 0 days give no time of expiry
abbrev pub expiry : Option ℕ → ℕ → Option ℕ
expiry none now = none
expiry (some zero) now = none
expiry (some (suc days)) now = some (now + suc days * 86400)

-- AuditAction.API_KEY_CREATED is no member of the enum.
unfoldable pub create_api_key_for_user : ℕ → ℕ → NewApiKey → Session (ApiKey × String)
create_api_key_for_user user_id org_id new = do
  now ← gets (λ w. w.now)
  let key : ApiKey = record {
    id = new.new_id;
    name = new.name;
    key_hash = new.key_hash;
    key_prefix = new.key_prefix;
    user_id = user_id;
    organization_id = org_id;
    scopes = new.scopes;
    expires_at = expiry new.expires_in_days now;
    last_used_at = none;
    is_revoked = false;
    deleted_at = none;
  }
  modify_db λ db. record db { api_keys = db.api_keys ++ key ∷ [] }
  raise (attribute_error "API_KEY_CREATED")

abbrev pub visible_key : ℕ → ℕ → ApiKey → Bool
visible_key key_id org_id k =
    k.id == key_id && (k.organization_id == org_id && is_none k.deleted_at)

-- AuditAction.API_KEY_REVOKED is no member of the enum.
unfoldable pub revoke_api_key : ℕ → ℕ → ℕ → Session (Unit {0})
revoke_api_key key_id org_id user_id = do
  found ← query (λ db. scalar_one_or_none (select (visible_key key_id org_id) db.api_keys))
  key ← found_or_raise (app (not_found "API key" key_id)) found
  modify_db λ db. record db {
    api_keys = update_where (λ k. k.id == key.id) (λ k. record k { is_revoked = true }) db.api_keys;
  }
  raise (attribute_error "API_KEY_REVOKED")
