-- ===== src/Tests/Samples.antt =====
-- Rows and states that the tests share.
use ai_detention.Models.Account.{Organization, ApiKey, UserRole, User}
use ai_detention.Models.Run.{EvaluationRun, RunStatus}
use ai_detention.Prelude.{String, ℕ, some, none, refl, [], false, true, ◌∷◌}
use ai_detention.Runs.Locking.{KeepsCore}
use ai_detention.Models.Submission.{Submission, submitted}
use ai_detention.Models.Findings.{Score, Contradiction}
use ai_detention.Database.Session.{World, empty_db}

abbrev pub sample_run : RunStatus → EvaluationRun
sample_run status = record {
  id = 1;
  submission_id = 4;
  config_id = none;
  organization_id = 7;
  triggered_by_id = some 9;
  status = status;
  version = 3;
  started_at = none;
  completed_at = none;
  total_workers = 4;
  completed_workers = 0;
  failed_workers = 0;
  overall_score = none;
  error_message = none;
  celery_task_id = some "task";
  config_snapshot = [];
  run_metadata = [];
  created_at = 10;
  updated_at = 10;
  deleted_at = none;
}

abbrev pub sample_user : UserRole → User
sample_user role = record {
  id = 9;
  email = "ada";
  hashed_password = "secret";
  full_name = "Ada";
  role = role;
  organization_id = 7;
  is_active = true;
  last_login_at = none;
  failed_login_attempts = 2;
  created_at = 1;
  deleted_at = none;
}

abbrev pub sample_key : ApiKey
sample_key = record {
  id = 5;
  name = "key";
  key_hash = "raw";
  key_prefix = "r";
  user_id = 9;
  organization_id = 7;
  scopes = [];
  expires_at = some 200;
  last_used_at = none;
  is_revoked = false;
  deleted_at = none;
}

abbrev pub sample_submission : Submission
sample_submission = record {
  id = 4;
  organization_id = 7;
  submitted_by_id = some 9;
  startup_name = "Acme";
  description = none;
  website_url = none;
  pitch_deck_url = none;
  status = submitted;
  raw_content = [];
  metadata = [];
  created_at = 5;
  deleted_at = none;
}

abbrev pub sample_organization : Organization
sample_organization = record {
  id = 7;
  name = "Org";
  slug = "org";
  max_concurrent_evaluations = 2;
  deleted_at = none;
}

abbrev pub score_of : String → ℕ → ℕ → Score
score_of dimension value weight = record {
  evaluation_run_id = 1;
  organization_id = 7;
  dimension = dimension;
  value = value;
  weight = weight;
  rationale = "";
  deleted_at = none;
}

abbrev pub contradiction_with : ℕ → ℕ → Contradiction
contradiction_with id severity = record {
  id = id;
  evaluation_run_id = 1;
  organization_id = 7;
  claim_a_id = 1;
  claim_b_id = 2;
  contradiction_type = "numeric";
  severity = severity;
  explanation = "";
  deleted_at = none;
}

abbrev pub world_with : RunStatus → World
world_with status = record {
  db = record empty_db {
    organizations = sample_organization ∷ [];
    users = sample_user UserRole.viewer ∷ [];
    api_keys = sample_key ∷ [];
    submissions = sample_submission ∷ [];
    runs = sample_run status ∷ [];
    contradictions = contradiction_with 1 9000 ∷ contradiction_with 2 4500 ∷ [];
  };
  sent = [];
  now = 100;
}

abbrev pub set_score : EvaluationRun → EvaluationRun
set_score r = record r { overall_score = some 5000 }

pub set_score-KeepsCore : KeepsCore set_score
set_score-KeepsCore = record { id = λ r. refl; status = λ r. refl; deleted_at = λ r. refl }
