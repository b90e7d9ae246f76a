-- ===== src/Pipeline/Orchestrator.antt =====
-- The orchestrator (src/workers/tasks/orchestrator.py): it moves a run to RUNNING, starts the
-- pipeline of tasks, and marks the run as failed if either raises. What Celery does to start the
-- chord of the four analyses with the chain that follows is the parameter `dispatch`.
pub mod Outcome
use ai_detention.Models.Run.{EvaluationRun, Json, is_terminal, RunStatus}
use ai_detention.Prelude.{ℕ, String, some, Option, none, if◌then◌else◌, ◌==◌}
use ai_detention.Errors.{Error, value_error, retry}
use ai_detention.Models.Submission.{Submission}
use ai_detention.Database.Session.{Session, raise, ◌>>◌, attempt, ◌>>=◌, pure, transaction, query}
use ai_detention.Runs.{select_run, transition_status}
use ai_detention.Database.Table.{scalar_one, select}

-- What the workers are given.
pub record Context : Type 0 where
  pub run_id : ℕ
  pub org_id : ℕ
  pub submission_id : ℕ
  pub startup_name : String
  pub website_url : Option String
  pub pitch_deck_url : Option String
  pub raw_content : Json
  pub metadata : Json
  pub config_snapshot : Json

-- total_workers=4
abbrev pub four_workers : EvaluationRun → EvaluationRun
four_workers r = record r { total_workers = 4 }

abbrev pub context_of : ℕ → EvaluationRun → Submission → Context
context_of run_id run submission = record {
  run_id = run_id;
  org_id = run.organization_id;
  submission_id = submission.id;
  startup_name = submission.startup_name;
  website_url = submission.website_url;
  pitch_deck_url = submission.pitch_deck_url;
  raw_content = submission.raw_content;
  metadata = submission.metadata;
  config_snapshot = run.config_snapshot;
}

-- What follows the lookup of the run; none stands for the empty dict.
abbrev pub prepare_live : ℕ → EvaluationRun → Session (Option Context)
prepare_live run_id run = do
  _ ← transition_status run_id run.version RunStatus.running four_workers
  submission ← query (λ db. scalar_one (select (λ s. s.id == run.submission_id) db.submissions))
  pure (some (context_of run_id run submission))

abbrev pub prepare_found : ℕ → Option EvaluationRun → Session (Option Context)
prepare_found run_id none = raise (value_error "Evaluation run not found")
prepare_found run_id (some run) = if is_terminal run then pure none else prepare_live run_id run

unfoldable pub prepare_run : ℕ → Session (Option Context)
prepare_run run_id = transaction (select_run run_id >>= prepare_found run_id)

abbrev pub set_error_message : String → EvaluationRun → EvaluationRun
set_error_message error r = record r { error_message = some error }

abbrev pub fail_found : ℕ → String → Option EvaluationRun → Session (Unit {0})
fail_found run_id error none = pure tt
fail_found run_id error (some run) = if is_terminal run then pure tt else (do
  _ ← transition_status run_id run.version RunStatus.failed (set_error_message error)
  pure tt)

-- The except clause swallows what the session raised.
unfoldable pub fail_run : ℕ → String → Session (Unit {0})
fail_run run_id error =
    attempt (transaction (select_run run_id >>= fail_found run_id error)) (λ e. pure tt)

-- The dict that the task returns.
pub data Dispatched : Type 0 where
  skipped : Dispatched
  dispatched : ℕ → String → Dispatched

module _ (show_error : Error → String) (dispatch : Context → Session String) (run_id : ℕ) where
  -- if not context: return {"status": "skipped", …}
  abbrev pub start_pipeline : Option Context → Session Dispatched
  start_pipeline none = pure skipped
  start_pipeline (some context) = do
    pipeline_id ← dispatch context
    pure (dispatched run_id pipeline_id)

  -- The except clause: raise self.retry(exc=exc)
  abbrev pub fail_and_retry : Error → Session Dispatched
  fail_and_retry e = fail_run run_id (show_error e) >> raise (retry e)

  unfoldable pub evaluate_submission : Session Dispatched
  evaluate_submission = attempt (prepare_run run_id >>= start_pipeline) fail_and_retry
