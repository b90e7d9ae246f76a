-- ===== src/Pipeline/BaseTask.antt =====
-- BaseEvalTask (src/workers/tasks/base_task.py): the method `run` around a task's `execute`, with
-- the worker results that it keeps. Each of its database steps is a session of its own. Progress
-- reports to Redis are best effort and not modelled, nor is the processing time. The tasks of
-- src/workers/tasks are functions under `@celery_app.task(base=BaseEvalTask)`; Celery puts the function
-- in the place of `run`, so that none of them goes through this `run`.
mod Rows
pub mod Idempotent
use ai_detention.Errors.{Error, soft_time_limit_exceeded, max_retries_exceeded}
use ai_detention.Prelude.{
  String, ℕ, Option, List, some, Bool, ◌==◌, non_empty, [], ◌++◌, none, take_chars, ◌&&◌, ◌+◌,
  str_eq, ◌∷◌, is_none,
}
use ai_detention.Models.Run.{WorkerResult, Json, EvaluationRun, WorkerStatus, worker_status_eq}
use ai_detention.Database.Session.{
  Session, modify_db, attempt, ◌>>=◌, ◌>>◌, transaction, pure, query, raise, send, dead_letter,
}
use ai_detention.Database.Table.{update_where, scalar_one, scalar_one_or_none, select}

-- str(exc) is Python's, and `execute` is the task's own.
module _ (show_error : Error → String) (worker_type : String) (run_id : ℕ) where
  -- The rows of this task in this run.
  abbrev pub own_result : WorkerResult → Bool
  own_result wr =
      wr.evaluation_run_id == run_id && (str_eq wr.worker_type worker_type && is_none wr.deleted_at)

  abbrev pub completed_result : WorkerResult → Bool
  completed_result wr =
      wr.evaluation_run_id == run_id
      && (str_eq wr.worker_type worker_type
          && (worker_status_eq wr.status WorkerStatus.completed && is_none wr.deleted_at))

  -- if existing and existing.output_data: an empty output counts as none.
  abbrev pub output_of : Option WorkerResult → Option Json
  output_of none = none
  output_of (some wr) = non_empty wr.output_data

  unfoldable pub check_idempotent : Session (Option Json)
  check_idempotent = do
    existing ← query (λ db. scalar_one_or_none (select completed_result db.worker_results))
    pure (output_of existing)

  abbrev pub running_result : String → String → WorkerResult → WorkerResult
  running_result task_id hostname wr = record wr {
    status = WorkerStatus.running;
    celery_task_id = some task_id;
    worker_id = some hostname;
  }

  abbrev pub new_result : ℕ → ℕ → String → String → WorkerResult
  new_result new_id org_id task_id hostname = record {
    id = new_id;
    evaluation_run_id = run_id;
    organization_id = org_id;
    worker_type = worker_type;
    worker_id = some hostname;
    celery_task_id = some task_id;
    status = WorkerStatus.running;
    processing_time_ms = 0;
    output_data = [];
    error_message = none;
    deleted_at = none;
  }

  abbrev pub save_results : (List WorkerResult → List WorkerResult) → Session (Unit {0})
  save_results f = modify_db λ db. record db { worker_results = f db.worker_results }

  abbrev pub create_or_update : Option WorkerResult → ℕ → ℕ → String → String → Session (Unit {0})
  create_or_update (some wr) new_id org_id task_id hostname =
      save_results (update_where (λ x. x.id == wr.id) (running_result task_id hostname))
  create_or_update none new_id org_id task_id hostname =
      save_results (λ rows. rows ++ new_result new_id org_id task_id hostname ∷ [])

  unfoldable pub create_worker_result : ℕ → String → String → Session (Unit {0})
  create_worker_result new_id task_id hostname = do
    run ← query (λ db. scalar_one (select (λ r. r.id == run_id) db.runs))
    existing ← query (λ db. scalar_one_or_none (select own_result db.worker_results))
    create_or_update existing new_id run.organization_id task_id hostname

  abbrev pub save_run : (EvaluationRun → EvaluationRun) → Session (Unit {0})
  save_run f = modify_db λ db. record db { runs = update_where (λ r. r.id == run_id) f db.runs }

  unfoldable pub mark_completed : Json → Session (Unit {0})
  mark_completed output = do
    save_results (
        update_where own_result
          (λ wr. record wr { status = WorkerStatus.completed; output_data = output }))
    save_run (λ r. record r { completed_workers = r.completed_workers + 1 })

  -- The except clause, which swallows a failure of the two updates, has no counterpart.
  unfoldable pub mark_failed : String → Session (Unit {0})
  mark_failed error = do
    save_results (
        update_where own_result (λ wr. record wr {
          status = WorkerStatus.failed;
          error_message = some (take_chars 2000 error);
        }))
    save_run (λ r. record r { failed_workers = r.failed_workers + 1 })

  -- The except clauses of `run`: the result is marked as failed and the exception raised again;
  -- after the last retry the task also goes to the dead letter queue.
  unfoldable pub on_error : Error → Session Json
  on_error soft_time_limit_exceeded = do
    transaction (mark_failed "Task exceeded soft time limit")
    raise soft_time_limit_exceeded
  on_error max_retries_exceeded = do
    transaction (mark_failed "Max retries exhausted")
    send (dead_letter run_id worker_type)
    raise max_retries_exceeded
  on_error e = do transaction (mark_failed (show_error e)); raise e

  module _ (execute : Session Json) (new_id : ℕ) (task_id hostname : String) where
    abbrev pub run_uncached : Session Json
    run_uncached = do
      transaction (create_worker_result new_id task_id hostname)
      result ← execute
      transaction (mark_completed result)
      pure result

    abbrev pub use_cached : Option Json → Session Json
    use_cached (some cached) = pure cached
    use_cached none = run_uncached

    unfoldable pub run_task : Session Json
    run_task = attempt (do cached ← transaction check_idempotent; use_cached cached) on_error
