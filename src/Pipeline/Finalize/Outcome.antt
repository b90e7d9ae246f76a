-- ===== src/Pipeline/Finalize/Outcome.antt =====
-- What finalizing does to the run.
use ai_detention.Pipeline.Finalize.{FinalizeResult, finish, config_get}
use ai_detention.Prelude.{
  ℕ, refl, ◌≡◌, true, none, false, ◌≤◌, ◌+◌, some, All, ◌==◌, Option, String,
}
use ai_detention.Pipeline.Finalize.{
  finalize, final_values, skipped, base_score_of, penalty_of, clamp_score,
}
use ai_detention.Runs.Locking.{KeepsCore, Holds, transition_fresh}
use ai_detention.Database.Session.{transaction, World}
use ai_detention.Models.Run.{EvaluationRun, is_terminal, WorkerStatus, RunStatus}
use ai_detention.Errors.{ok, Result}
use ai_detention.Findings.Scores.{compute_weighted_average}
use ai_detention.Findings.Contradictions.{count_by_severity_bucket}
use ai_detention.Findings.Workers.{count_with_status}
use ai_detention.Models.Submission.{SubmissionStatus}
use ai_detention.Database.Table.{select, update_where, All-select-updated}
use ai_detention.Pipeline.Finalize.Penalty.{clamp-le}
use ai_detention.Runs.{transition_status, locked_values, stamp}

final_values-KeepsCore : (score done broken : ℕ) → KeepsCore (final_values score done broken)
final_values-KeepsCore score done broken = record {
  id = λ r. refl;
  status = λ r. refl;
  deleted_at = λ r. refl;
}

-- On a run that has ended the task returns `skipped`, changes nothing and sends nothing.
finalize_ended :
    (run_id : ℕ) {run : EvaluationRun} (w : World)
    → Holds run_id run w
    → is_terminal run ≡ true
    → finalize run_id w ≡ (ok skipped, w)
unfolding finalize transaction
finalize_ended run_id w held ended = rw (held, ended) refl

module _ (run_id : ℕ) (run : EvaluationRun) (v : World) where
  abbrev Notified : FinalizeResult → Result FinalizeResult × World → Type 0
  Notified result (r, w') =
      (r ≡ ok result)
      × (w'.db.runs ≡ v.db.runs)
      × All (λ s. s.status ≡ SubmissionStatus.evaluated)
          (select (λ s. s.id == run.submission_id) w'.db.submissions)

  finish-Notified :
      (base penalty done broken : ℕ)
      → Notified
          (FinalizeResult.completed (clamp_score base penalty) base penalty done broken)
          (finish run_id base penalty done broken (some run) v)
  unfolding transaction
  finish-Notified base penalty done broken = go (config_get "webhook_url" run.config_snapshot) refl
    where
      all_evaluated :
          All
            (λ s. s.status ≡ SubmissionStatus.evaluated)
            (select
              (λ s. s.id == run.submission_id)
              (update_where
                (λ s. s.id == run.submission_id)
                (λ s. record s { status = SubmissionStatus.evaluated })
                v.db.submissions))
      all_evaluated =
          All-select-updated (λ s. s.status ≡ SubmissionStatus.evaluated)
            (λ s. s.id == run.submission_id) (λ s. record s { status = SubmissionStatus.evaluated })
            v.db.submissions (λ s. refl) (λ s. refl)

      go :
          (url : Option String)
          → config_get "webhook_url" run.config_snapshot ≡ url
          → Notified
              (FinalizeResult.completed (clamp_score base penalty) base penalty done broken)
              (finish run_id base penalty done broken (some run) v)
      go none e = rw e (refl, refl, all_evaluated)
      go (some String.[]) e = rw e (refl, refl, all_evaluated)
      go (some (String.◌∷◌ c s)) e = rw e (refl, refl, all_evaluated)

-- On a run that is in the table once, not deleted and not ended, the task succeeds. The score that it
-- returns, between 0 and 1, is the base score less 0.05 for each critical contradiction of the run,
-- 0.03 for each high one and 0.01 for each medium one; the run is then completed, at the next
-- version, with this score and with the numbers of its workers that completed and failed; and every
-- submission with the run's submission id is marked as evaluated.
pub finalize_live :
    (run_id : ℕ) {run : EvaluationRun} (w : World)
    → Holds run_id run w
    → run.deleted_at ≡ none
    → is_terminal run ≡ false
    → let base = base_score_of (compute_weighted_average run_id run.organization_id w.db) in
      let penalty = penalty_of (count_by_severity_bucket run_id run.organization_id w.db) in
      let score = clamp_score base penalty in
      let completed_workers = count_with_status WorkerStatus.completed run_id w.db in
      let failed_workers = count_with_status WorkerStatus.failed run_id w.db in
      let (result, w') = finalize run_id w in
      (result ≡ ok (FinalizeResult.completed score base penalty completed_workers failed_workers))
      × (score ≤ 10000)
      × ((row : EvaluationRun) × Holds run_id row w'
          × (row.status ≡ RunStatus.completed)
          × (row.version ≡ run.version + 1)
          × (row.overall_score ≡ some score)
          × (row.completed_workers ≡ completed_workers)
          × (row.failed_workers ≡ failed_workers))
      × All
          (λ s. s.status ≡ SubmissionStatus.evaluated)
          (select (λ s. s.id == run.submission_id) w'.db.submissions)
unfolding finalize transaction
finalize_live run_id {run} w held alive live =
    let base = base_score_of (compute_weighted_average run_id run.organization_id w.db) in
    let penalty = penalty_of (count_by_severity_bucket run_id run.organization_id w.db) in
    let score = clamp_score base penalty in
    let completed_workers = count_with_status WorkerStatus.completed run_id w.db in
    let failed_workers = count_with_status WorkerStatus.failed run_id w.db in
    let extra = final_values score completed_workers failed_workers in
    let (returned, held', status, deleted, next, started, ended) =
      transition_fresh run_id run.version RunStatus.completed extra
        (final_values-KeepsCore score completed_workers failed_workers) w held alive refl in
    let (result, runs, submissions) =
      finish-Notified run_id run
        (transition_status run_id run.version RunStatus.completed extra w).1 base penalty
        completed_workers failed_workers in
    rw (held, live, held, live, returned)
      (
        result,
        clamp-le base penalty,
        (
          locked_values w.now run.version
              (λ r.
                stamp RunStatus.completed w.now (extra (record r { status = RunStatus.completed })))
              run,
          rw runs held',
          status,
          next,
          refl,
          refl,
          refl,
        ),
        submissions,
      )
