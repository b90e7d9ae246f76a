-- ===== src/Cleanup.antt =====
-- The maintenance task (src/workers/cleanup_worker.py). `_hard_delete_expired_records` imports
-- EvaluationResult from src.models.evaluation, a name that module does not have, so that it raises
-- ImportError before its first statement; the deletions that would follow are not modelled.
pub mod Stale
use ai_detention.Database.Session.{
  Session, transaction, ◌>>=◌, raise, gets, attempt, pure, ◌>>◌, modify_db,
}
use ai_detention.Prelude.{ℕ, ◌*◌, List, Bool, String, some, ◌&&◌, ltb, ◌+◌}
use ai_detention.Models.Run.{EvaluationRun, RunStatus, is_active}
use ai_detention.Errors.{other_error, retry}
use ai_detention.Database.Table.{count, update_where}

-- STALE_RUN_HOURS, in seconds, as the times of rows.
abbrev pub stale_seconds : ℕ
stale_seconds = 24 * 3600

unfoldable pub hard_delete_expired_records : Session (List (String × ℕ))
hard_delete_expired_records = raise (other_error "ImportError")

-- A deleted run counts as well.
abbrev pub is_stale : ℕ → EvaluationRun → Bool
is_stale now r = is_active r.status && ltb (r.created_at + stale_seconds) now

-- `updated_at` is the column's onupdate.
abbrev pub timed_out : ℕ → EvaluationRun → EvaluationRun
timed_out now r = record r {
  status = RunStatus.failed;
  error_message = some "Run exceeded 24h timeout — marked as failed by cleanup worker";
  completed_at = some now;
  updated_at = now;
}

unfoldable pub cleanup_stale_runs : Session ℕ
cleanup_stale_runs = transaction (do
  now ← gets λ w. w.now
  rowcount ← gets λ w. count (is_stale now) w.db.runs
  modify_db λ db. record db { runs = update_where (is_stale now) (timed_out now) db.runs }
  pure rowcount)

-- What the task returns: the counts of the deletions and of the stale runs.
unfoldable pub run_maintenance : Session (List (String × ℕ) × ℕ)
run_maintenance =
    attempt
      (do deleted ← hard_delete_expired_records; stale ← cleanup_stale_runs; pure (deleted, stale))
      (λ e. raise (retry e))
