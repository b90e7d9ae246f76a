-- ===== src/Errors.antt =====
-- The exceptions that services and repositories raise (src/middleware/error_handler.py), and those
-- of the libraries that pass through them. A message is a value of `Reason`, one constructor for
-- each text that the code composes.
use ai_detention.Prelude.{ℕ, String, Bool, true, false, ◌≡◌, ◌⊎◌, inl, inr, refl, ap}

pub data Reason : Type 0 where
  -- "Cannot cancel run in '…' state" and the like carry the state's text.
  cannot_cancel_run : String → Reason
  archived_submission : Reason
  max_concurrent_evaluations : ℕ → Reason
  concurrent_modification : ℕ → ℕ → Reason
  user_exists : Reason
  organization_exists : Reason
  invalid_credentials : Reason
  account_deactivated : Reason
  account_locked : Reason
  invalid_refresh_token : Reason
  invalid_access_token : Reason
  invalid_token_type : Reason
  user_not_found_or_deactivated : Reason
  invalid_api_key : Reason
  api_key_owner_not_found : Reason
  authentication_required : Reason
  development_bypass_failed : Reason
  requires_role : String → Reason
  dataset_state : String → Reason
  checksum_failed : Reason
  score_exists : String → Reason
  duplicate_dimensions : Reason
  scores_immutable : Reason
  metric_exists : String → Reason

-- AppException and its subclasses; `not_found` carries the resource and its id.
pub data AppException : Type 0 where
  not_found : String → ℕ → AppException
  conflict : Reason → AppException
  forbidden : Reason → AppException
  unauthorized : Reason → AppException
  rate_limit : ℕ → AppException

-- What may be raised: the program's own exceptions, SQLAlchemy's for `scalar_one` and
-- `scalar_one_or_none`, Python's ValueError and AttributeError, Celery's for the soft time limit, the
-- last retry and a retry, and any other, by its text.
pub data Error : Type 0 where
  app : AppException → Error
  multiple_results_found : Error
  no_result_found : Error
  value_error : String → Error
  attribute_error : String → Error
  soft_time_limit_exceeded : Error
  max_retries_exceeded : Error
  retry : Error → Error
  other_error : String → Error

unfoldable pub status_code : AppException → ℕ
status_code (not_found _ _) = 404
status_code (conflict _) = 409
status_code (forbidden _) = 403
status_code (unauthorized _) = 401
status_code (rate_limit _) = 429

unfoldable pub error_code : AppException → String
error_code (not_found _ _) = "not_found"
error_code (conflict _) = "conflict"
error_code (forbidden _) = "forbidden"
error_code (unauthorized _) = "unauthorized"
error_code (rate_limit _) = "rate_limit_exceeded"

pub data Result {ℓ} (A : Type ℓ) : Type ℓ where
  ok : A → Result A
  err : Error → Result A

abbrev pub is_ok {ℓ} : {A : Type ℓ} → Result A → Bool
is_ok (ok a) = true
is_ok (err e) = false

pub Result-cases {ℓ} :
    {A : Type ℓ} (r : Result A) → ((a : A) × (r ≡ ok a)) ⊎ ((e : Error) × (r ≡ err e))
Result-cases (ok a) = inl (a, refl)
Result-cases (err e) = inr (e, refl)

pub ok_injective {ℓ} : {A : Type ℓ} {a b : A} → ok a ≡ ok b → a ≡ b
ok_injective {a = a} h = ap (λ r. elim r [ ok x ↦ x | err e ↦ a ]) h
