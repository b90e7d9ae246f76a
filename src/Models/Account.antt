-- ===== src/Models/Account.antt =====
-- Organizations, users, API keys and the audit log (src/models/organization.py, user.py,
-- api_key.py, audit_log.py).
use ai_detention.Prelude.{
  ℕ, String, Bool, true, false, Option, none, some, List, leb, ltb, if◌then◌else◌,
}

pub record Organization : Type 0 where
  pub id : ℕ
  pub name : String
  pub slug : String
  pub max_concurrent_evaluations : ℕ
  pub deleted_at : Option ℕ

-- The `UserRole` of a user's row.
pub data UserRole : Type 0 where
  admin judge viewer : UserRole

pub record User : Type 0 where
  pub id : ℕ
  pub email : String
  pub hashed_password : String
  pub full_name : String
  pub role : UserRole
  pub organization_id : ℕ
  pub is_active : Bool
  pub last_login_at : Option ℕ
  pub failed_login_attempts : ℕ
  pub created_at : ℕ
  pub deleted_at : Option ℕ

abbrev pub max_failed_attempts : ℕ
max_failed_attempts = 5

abbrev pub is_locked : User → Bool
is_locked user = leb max_failed_attempts user.failed_login_attempts

pub record ApiKey : Type 0 where
  pub id : ℕ
  pub name : String
  pub key_hash : String
  pub key_prefix : String
  pub user_id : ℕ
  pub organization_id : ℕ
  pub scopes : List String
  pub expires_at : Option ℕ
  pub last_used_at : Option ℕ
  pub is_revoked : Bool
  pub deleted_at : Option ℕ

abbrev expired : Option ℕ → ℕ → Bool
expired none now = false
expired (some t) now = ltb t now

-- `is_valid`, at the time `now`.
unfoldable pub is_valid : ApiKey → ℕ → Bool
is_valid key now =
    if key.is_revoked then false else (if expired key.expires_at now then false else true)

-- The members of `AuditAction` that the modelled code names; the enum has no TOKEN_REFRESH,
-- API_KEY_CREATED, API_KEY_REVOKED, DATASET_UPLOADED or DATASET_DELETED.
pub data AuditAction : Type 0 where
  create update delete login login_failed : AuditAction
  evaluation_started evaluation_completed evaluation_cancelled score_recorded : AuditAction

pub record AuditLog : Type 0 where
  pub timestamp : ℕ
  pub action : AuditAction
  pub resource_type : String
  pub resource_id : Option ℕ
  pub organization_id : Option ℕ
  pub user_id : Option ℕ
  pub status : String
