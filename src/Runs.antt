-- ===== src/Runs.antt =====
-- EvaluationRunRepository (src/repositories/evaluation_run_repository.py): lookups, the update
-- under an optimistic lock, and the transitions of a run's status.
pub mod Locking
pub mod Protocol
use ai_detention.Prelude.{
  ℕ, suc, ◌+◌, Bool, true, false, ◌&&◌, Option, none, some, List, is_none, ◌==◌, length, map,
  if◌then◌else◌, take,
}
use ai_detention.Errors.{Error, app, not_found, conflict, concurrent_modification, Result, ok, err}
use ai_detention.Models.Run.{
  EvaluationRun, RunStatus, pending, running, completed, failed, cancelled, is_active,
  status_is_terminal, run_status_eq,
}
use ai_detention.Database.Table.{select, update_where, count, scalar_one_or_none}
use ai_detention.Database.Repository.{Model, IsModel}
use ai_detention.Database.Repository
use ai_detention.Database.Session.{World, Session, pure, raise, lift, gets, ◌>>=◌, ◌>>◌, modify_db}

abbrev pub run_model : Model EvaluationRun
run_model = record {
  id = λ r. r.id;
  organization_id = λ r. r.organization_id;
  deleted_at = λ r. r.deleted_at;
  set_deleted_at = λ t r. record r { deleted_at = t };
}

-- select(EvaluationRun).where(id == run_id)
abbrev pub select_run : ℕ → Session (Option EvaluationRun)
select_run run_id w = (scalar_one_or_none (select (λ r. r.id == run_id) w.db.runs), w)

-- The rows that an update at `expected_version` matches.
abbrev pub lock_matches : ℕ → ℕ → EvaluationRun → Bool
lock_matches run_id expected_version r =
    r.id == run_id && (r.version == expected_version && is_none r.deleted_at)

-- The columns that it sets; `values` are the caller's.
abbrev pub locked_values : ℕ → ℕ → (EvaluationRun → EvaluationRun) → EvaluationRun → EvaluationRun
locked_values now expected_version values r = record (values r) {
  version = expected_version + 1;
  updated_at = now;
}

-- What follows the update, by the rows that it returned.
abbrev locked_row : ℕ → ℕ → Option EvaluationRun → Session EvaluationRun
locked_row run_id expected_version (some row) w = (ok row, w)
locked_row run_id expected_version none w =
    if Repository.exists run_model run_id none w.db.runs
    then (err (app (conflict (concurrent_modification run_id expected_version))), w)
    else (err (app (not_found "Evaluation run" run_id)), w)

unfoldable pub update_with_optimistic_lock :
    ℕ → ℕ → (EvaluationRun → EvaluationRun) → Session EvaluationRun
update_with_optimistic_lock run_id expected_version values = do
  now ← gets (λ w. w.now)
  rows ← gets (λ w.
      map (locked_values now expected_version values)
        (select (lock_matches run_id expected_version) w.db.runs))
  modify_db λ db. record db {
    runs =
        update_where (lock_matches run_id expected_version)
          (locked_values now expected_version values) db.runs;
  }
  row ← lift (scalar_one_or_none rows)
  locked_row run_id expected_version row

-- started_at or completed_at, by the new status.
abbrev pub stamp : RunStatus → ℕ → EvaluationRun → EvaluationRun
stamp pending now r = r
stamp running now r = record r { started_at = some now }
stamp completed now r = record r { completed_at = some now }
stamp failed now r = record r { completed_at = some now }
stamp cancelled now r = record r { completed_at = some now }

-- `extra_values` are the caller's further columns.
unfoldable pub transition_status :
    ℕ → ℕ → RunStatus → (EvaluationRun → EvaluationRun) → Session EvaluationRun
unfolding update_with_optimistic_lock
transition_status run_id expected_version new_status extra_values = do
  now ← gets (λ w. w.now)
  update_with_optimistic_lock run_id expected_version
      λ r. stamp new_status now (extra_values (record r { status = new_status }))

-- The filter of list_active_by_org and count_active_by_org.
abbrev pub active_in_org : ℕ → EvaluationRun → Bool
active_in_org org_id r = r.organization_id == org_id && (is_active r.status && is_none r.deleted_at)

unfoldable pub count_active_by_org : ℕ → List EvaluationRun → ℕ
count_active_by_org org_id runs = count (active_in_org org_id) runs

unfoldable pub list_active_by_org :
    (List EvaluationRun → List EvaluationRun) → ℕ → List EvaluationRun → List EvaluationRun
list_active_by_org order_by org_id runs = order_by (select (active_in_org org_id) runs)

unfoldable pub get_runs_for_submission :
    (List EvaluationRun → List EvaluationRun)
    → ℕ
    → ℕ
    → ℕ
    → ℕ
    → List EvaluationRun
    → List EvaluationRun × ℕ
get_runs_for_submission order_by submission_id org_id page page_size runs =
    Repository.list_by_org run_model order_by false (λ r. r.submission_id == submission_id) org_id
      page page_size runs

abbrev pub completed_of_submission : ℕ → ℕ → EvaluationRun → Bool
completed_of_submission submission_id org_id r =
    r.submission_id == submission_id
    && (r.organization_id == org_id && (run_status_eq r.status completed && is_none r.deleted_at))

-- `order_by` is the database's order by descending time of completion.
unfoldable pub get_latest_completed_run :
    (List EvaluationRun → List EvaluationRun)
    → ℕ
    → ℕ
    → List EvaluationRun
    → Result (Option EvaluationRun)
get_latest_completed_run order_by submission_id org_id runs =
    scalar_one_or_none
      (take 1 (order_by (select (completed_of_submission submission_id org_id) runs)))
