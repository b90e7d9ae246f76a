-- ===== src/Findings/Workers.antt =====
-- WorkerResultRepository (src/repositories/worker_result_repository.py): a run's workers by status.
use ai_detention.Prelude.{ℕ, List, Bool, true, ◌==◌, ◌&&◌, false, is_none}
use ai_detention.Models.Run.{WorkerStatus, WorkerResult, worker_status_eq}
use ai_detention.Database.Session.{Db}
use ai_detention.Database.Table.{select, count}

abbrev pub result_of_run : ℕ → WorkerResult → Bool
result_of_run run_id wr = wr.evaluation_run_id == run_id && is_none wr.deleted_at

-- `order_by` is the database's order of creation.
unfoldable pub get_results_by_run :
    (List WorkerResult → List WorkerResult) → ℕ → ℕ → Db → List WorkerResult
get_results_by_run order_by run_id org_id db = order_by (
    select
      (λ wr.
        wr.evaluation_run_id == run_id && (wr.organization_id == org_id && is_none wr.deleted_at))
      db.worker_results)

-- count_by_status(…).get(status, 0): a status with no row has no entry.
unfoldable pub count_with_status : WorkerStatus → ℕ → Db → ℕ
count_with_status status run_id db =
    count (λ wr. worker_status_eq wr.status status)
      (select (result_of_run run_id) db.worker_results)

abbrev pub in_progress : WorkerStatus → Bool
in_progress WorkerStatus.pending = true
in_progress WorkerStatus.running = true
in_progress WorkerStatus.completed = false
in_progress WorkerStatus.failed = false

unfoldable pub all_workers_completed : ℕ → Db → Bool
all_workers_completed run_id db =
    count (λ wr. wr.evaluation_run_id == run_id && (in_progress wr.status && is_none wr.deleted_at))
      db.worker_results
    == 0
