-- ===== src/Models/Run.antt =====
-- Evaluation configs and runs (src/models/evaluation.py) and the results of single workers
-- (src/models/worker_result.py).
use ai_detention.Prelude.{ℕ, ◌*◌, String, Bool, true, false, Option, List, ◌==◌, if◌then◌else◌}
use ai_detention.Prelude.Rounding.{round_div}

-- A JSON object.
abbrev pub Json : Type 0
Json = List (String × String)

pub record EvaluationConfig : Type 0 where
  pub id : ℕ
  pub name : String
  pub description : Option String
  pub organization_id : ℕ
  pub created_by_id : Option ℕ
  pub pipeline_config : Json
  pub webhook_url : Option String
  pub is_template : Bool
  pub version : ℕ
  pub created_at : ℕ
  pub deleted_at : Option ℕ

pub data RunStatus : Type 0 where
  pending running completed failed cancelled : RunStatus

unfoldable pub run_status_value : RunStatus → String
run_status_value pending = "pending"
run_status_value running = "running"
run_status_value completed = "completed"
run_status_value failed = "failed"
run_status_value cancelled = "cancelled"

abbrev pub run_status_eq : RunStatus → RunStatus → Bool
run_status_eq RunStatus.pending RunStatus.pending = true
run_status_eq RunStatus.running RunStatus.running = true
run_status_eq RunStatus.completed RunStatus.completed = true
run_status_eq RunStatus.failed RunStatus.failed = true
run_status_eq RunStatus.cancelled RunStatus.cancelled = true
run_status_eq _ _ = false

pub record EvaluationRun : Type 0 where
  pub id : ℕ
  pub submission_id : ℕ
  pub config_id : Option ℕ
  pub organization_id : ℕ
  pub triggered_by_id : Option ℕ
  pub status : RunStatus
  pub version : ℕ
  pub started_at : Option ℕ
  pub completed_at : Option ℕ
  pub total_workers : ℕ
  pub completed_workers : ℕ
  pub failed_workers : ℕ
  -- in ten-thousandths
  pub overall_score : Option ℕ
  pub error_message : Option String
  pub celery_task_id : Option String
  pub config_snapshot : Json
  pub run_metadata : Json
  pub created_at : ℕ
  pub updated_at : ℕ
  pub deleted_at : Option ℕ

-- Membership of a status in (COMPLETED, FAILED, CANCELLED).
abbrev pub status_is_terminal : RunStatus → Bool
status_is_terminal pending = false
status_is_terminal running = false
status_is_terminal completed = true
status_is_terminal failed = true
status_is_terminal cancelled = true

abbrev pub is_terminal : EvaluationRun → Bool
is_terminal run = status_is_terminal run.status

-- Membership of a status in [PENDING, RUNNING].
abbrev pub is_active : RunStatus → Bool
is_active pending = true
is_active running = true
is_active completed = false
is_active failed = false
is_active cancelled = false

-- The percentage, in hundredths of a percent.
unfoldable pub progress_pct : EvaluationRun → ℕ
progress_pct run =
    if run.total_workers == 0
    then 0
    else round_div (run.completed_workers * 10000) run.total_workers

pub data WorkerStatus : Type 0 where
  pending running completed failed : WorkerStatus

pub record WorkerResult : Type 0 where
  pub id : ℕ
  pub evaluation_run_id : ℕ
  pub organization_id : ℕ
  pub worker_type : String
  pub worker_id : Option String
  pub celery_task_id : Option String
  pub status : WorkerStatus
  pub processing_time_ms : ℕ
  pub output_data : Json
  pub error_message : Option String
  pub deleted_at : Option ℕ

-- `wr.status == status`
abbrev pub worker_status_eq : WorkerStatus → WorkerStatus → Bool
worker_status_eq WorkerStatus.pending WorkerStatus.pending = true
worker_status_eq WorkerStatus.running WorkerStatus.running = true
worker_status_eq WorkerStatus.completed WorkerStatus.completed = true
worker_status_eq WorkerStatus.failed WorkerStatus.failed = true
worker_status_eq _ _ = false
