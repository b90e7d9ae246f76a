-- ===== src/Repositories.antt =====
-- The repositories of users, organizations, claims and log entries (src/repositories/
-- user_repository.py, organization_repository.py, claim_repository.py, audit_log_repository.py).
-- `lower` is str.lower; the orders of the database are arguments.
pub mod Groups
use ai_detention.Prelude.{
  List, String, Option, ℕ, ◌∷◌, Bool, true, ◌==◌, if◌then◌else◌, take, [], drop, str_eq, some, ◌&&◌,
  ◌+◌, leb, ◌-◌, not, is_none, ◌*◌, none, ◌||◌, false,
}
use ai_detention.Database.Repository.{Model, list_by_org, create_many}
use ai_detention.Models.Account.{AuditLog, User, AuditAction, Organization}
use ai_detention.Database.Session.{Db, Session, modify_db, ◌>>=◌, ◌>>◌, gets, pure}
use ai_detention.Models.Findings.{Claim}
use ai_detention.Database.Table.{select, scalar_one_or_none, update_where, count}
use ai_detention.Errors.{Result, ok, err}
use ai_detention.Metrics.{of_org}
use ai_detention.Prelude.Text.{is_empty}

abbrev pub user_model : Model User
user_model = record {
  id = λ u. u.id;
  organization_id = λ u. u.organization_id;
  deleted_at = λ u. u.deleted_at;
  set_deleted_at = λ t u. record u { deleted_at = t };
}

abbrev pub claim_model : Model Claim
claim_model = record {
  id = λ c. c.id;
  organization_id = λ c. c.organization_id;
  deleted_at = λ c. c.deleted_at;
  set_deleted_at = λ t c. record c { deleted_at = t };
}

module _ (lower : String → String) where
  unfoldable pub get_by_email : String → Db → Result (Option User)
  get_by_email email db =
      scalar_one_or_none
        (select (λ u. str_eq u.email (lower email) && is_none u.deleted_at) db.users)

  unfoldable pub email_exists : String → Db → Result Bool
  email_exists email db = elim (get_by_email email db) [
    | ok found ↦ ok (not (is_none found))
    | err e ↦ err e
  ]

unfoldable pub list_users : (List User → List User) → Bool → ℕ → ℕ → ℕ → Db → List User × ℕ
list_users order_by include_deleted org_id page page_size db =
    list_by_org user_model order_by include_deleted (λ u. true) org_id page page_size db.users

unfoldable pub increment_failed_login : ℕ → Session (Unit {0})
increment_failed_login user_id = modify_db λ db. record db {
  users =
      update_where (λ u. u.id == user_id)
        (λ u. record u { failed_login_attempts = u.failed_login_attempts + 1 }) db.users;
}

unfoldable pub reset_failed_login : ℕ → Session (Unit {0})
reset_failed_login user_id = do
  now ← gets (λ w. w.now)
  modify_db λ db. record db {
    users =
        update_where (λ u. u.id == user_id)
          (λ u. record u { failed_login_attempts = 0; last_login_at = some now }) db.users;
  }

unfoldable pub get_by_slug : String → Db → Result (Option Organization)
get_by_slug slug db =
    scalar_one_or_none (select (λ o. str_eq o.slug slug && is_none o.deleted_at) db.organizations)

unfoldable pub slug_exists : String → Db → Result Bool
slug_exists slug db = elim (get_by_slug slug db) [
  | ok found ↦ ok (not (is_none found))
  | err e ↦ err e
]

unfoldable pub bulk_create_claims : List Claim → Session (List Claim)
bulk_create_claims claims = do
  modify_db λ db. record db { claims = create_many claim_model claims db.claims }
  pure claims

-- if category: a text that is not empty filters.
abbrev pub category_filter : ℕ → Option String → Claim → Bool
category_filter run_id none c = c.evaluation_run_id == run_id
category_filter run_id (some category) c =
    c.evaluation_run_id == run_id && (is_empty category || str_eq c.category category)

unfoldable pub get_claims_by_run :
    (List Claim → List Claim) → ℕ → ℕ → ℕ → ℕ → Option String → Db → List Claim × ℕ
get_claims_by_run order_by run_id org_id page page_size category db =
    list_by_org claim_model order_by false (category_filter run_id category) org_id page page_size
      db.claims

-- GROUP BY: each key once, with the number of its rows.
abbrev pub add_to_group : String → List (String × ℕ) → List (String × ℕ)
add_to_group key [] = (key, 1) ∷ []
add_to_group key ((k, n) ∷ groups) =
    let rest = add_to_group key groups in
    if str_eq k key then (k, n + 1) ∷ groups else (k, n) ∷ rest

module _ {ℓ} {A : Type ℓ} where
  unfoldable pub group_counts : (A → String) → List A → List (String × ℕ)
  group_counts key [] = []
  group_counts key (x ∷ xs) = add_to_group (key x) (group_counts key xs)

abbrev pub claim_in_run : ℕ → ℕ → Claim → Bool
claim_in_run run_id org_id c =
    c.evaluation_run_id == run_id && (c.organization_id == org_id && is_none c.deleted_at)

unfoldable pub count_by_category : ℕ → ℕ → Db → List (String × ℕ)
count_by_category run_id org_id db =
    group_counts (λ (c : Claim). c.category) (select (claim_in_run run_id org_id) db.claims)

unfoldable pub count_by_verification_status : ℕ → ℕ → Db → List (String × ℕ)
count_by_verification_status run_id org_id db =
    group_counts (λ (c : Claim). c.verification_status)
      (select (claim_in_run run_id org_id) db.claims)

unfoldable pub get_high_confidence_claims : (List Claim → List Claim) → ℕ → ℕ → ℕ → Db → List Claim
get_high_confidence_claims order_by run_id org_id threshold db =
    order_by
      (select (λ c. claim_in_run run_id org_id c && leb threshold c.confidence_score) db.claims)

-- The filters of a time range that are given.
abbrev pub time_at_least : Option ℕ → ℕ → Bool
time_at_least none t = true
time_at_least (some start_time) t = leb start_time t

abbrev pub time_at_most : Option ℕ → ℕ → Bool
time_at_most none t = true
time_at_most (some end_time) t = leb t end_time

abbrev pub entry_of_org : ℕ → (AuditAction → Bool) → Option ℕ → Option ℕ → AuditLog → Bool
entry_of_org org_id action_passes start_time end_time entry =
    of_org org_id entry.organization_id
    && (action_passes entry.action
        && (time_at_least start_time entry.timestamp && time_at_most end_time entry.timestamp))

-- `action_passes` is the equality with the action asked for, or always true.
unfoldable pub list_audit_logs :
    (List AuditLog → List AuditLog)
    → ℕ
    → ℕ
    → ℕ
    → (AuditAction → Bool)
    → Option ℕ
    → Option ℕ
    → Db
    → List AuditLog × ℕ
list_audit_logs order_by org_id page page_size action_passes start_time end_time db =
    let conditions = entry_of_org org_id action_passes start_time end_time in
    (
      take page_size (drop ((page - 1) * page_size) (order_by (select conditions db.audit_logs))),
      count conditions db.audit_logs,
    )
