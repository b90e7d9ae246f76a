-- ===== src/Pipeline/Finalize.antt =====
-- The last task (src/workers/tasks/finalize.py): the final score, the run's completion, the audit
-- entry, the webhook and the submission's status. Scores count ten-thousandths, which the source's
-- round(…, 4) keeps. Each database step is a session of its own. The except clauses around the
-- webhook, the submission's update and the refresh have no counterpart: what they guard is a message
-- or an update that does not fail here. Progress reports to Redis are best effort and not modelled.
pub mod Penalty
pub mod Outcome
use ai_detention.Models.Submission.{SubmissionStatus}
use ai_detention.Models.Account.{AuditAction}
use ai_detention.Prelude.{
  ◌∷◌, String, Option, ℕ, List, some, none, if◌then◌else◌, ◌==◌, ◌*◌, ◌+◌, str_eq, [],
}
use ai_detention.Findings.Contradictions.{
  Bucket, get_count, critical, count_by_severity_bucket, high, medium,
}
use ai_detention.Models.Run.{EvaluationRun, Json, is_terminal, WorkerStatus, RunStatus}
use ai_detention.Prelude.Int.{pos_part, max_ℤ, pos, min_ℤ, sub_ℕ}
use ai_detention.Database.Session.{
  Session, ◌>>=◌, query, pure, modify_db, ◌>>◌, transaction, gets, send, deliver_webhook,
  refresh_org_stats, World,
}
use ai_detention.Errors.{ok}
use ai_detention.Database.Table.{scalar_one, update_where, select}
use ai_detention.Database.Audit.{create_audit_log}
use ai_detention.Findings.Workers.{count_with_status}
use ai_detention.Runs.{transition_status}
use ai_detention.Findings.Scores.{compute_weighted_average}

abbrev pub penalty_of : List (Bucket × ℕ) → ℕ
penalty_of buckets =
    get_count critical buckets * 500 + get_count high buckets * 300 + get_count medium buckets * 100

-- weighted_avg if weighted_avg is not None else 0.5
abbrev pub base_score_of : Option ℕ → ℕ
base_score_of (some average) = average
base_score_of none = 5000

-- max(0.0, min(1.0, base_score - penalty))
unfoldable pub clamp_score : ℕ → ℕ → ℕ
clamp_score base_score penalty =
    pos_part (max_ℤ (pos 0) (min_ℤ (pos 10000) (sub_ℕ base_score penalty)))

-- config.get(key); a Json has at most one entry of each key.
abbrev pub config_get : String → Json → Option String
config_get key [] = none
config_get key ((k, v) ∷ rest) =
    let later = config_get key rest in if str_eq k key then some v else later

-- The dict that the task returns.
pub data FinalizeResult : Type 0 where
  skipped : FinalizeResult
  completed : (final_score base_score penalty completed_workers failed_workers : ℕ) → FinalizeResult

abbrev pub final_values : ℕ → ℕ → ℕ → EvaluationRun → EvaluationRun
final_values final_score completed_workers failed_workers r = record r {
  overall_score = some final_score;
  completed_workers = completed_workers;
  failed_workers = failed_workers;
}

-- if webhook_url: an empty URL counts as none.
abbrev pub send_webhook : Option String → ℕ → Session (Unit {0})
send_webhook none run_id = pure tt
send_webhook (some String.[]) run_id = pure tt
send_webhook (some url) run_id = send (deliver_webhook url run_id)

abbrev pub set_evaluated : ℕ → Session (Unit {0})
set_evaluated submission_id = modify_db λ db. record db {
  submissions =
      update_where (λ s. s.id == submission_id)
        (λ s. record s { status = SubmissionStatus.evaluated }) db.submissions;
}

module _ (run_id : ℕ) where
  abbrev pub the_run : Session EvaluationRun
  the_run = query λ db. scalar_one (select (λ r. r.id == run_id) db.runs)

  -- Steps 5 to 8, after the transition.
  abbrev pub notify : EvaluationRun → Session (Unit {0})
  notify run = do
    transaction (
        create_audit_log AuditAction.evaluation_completed "evaluation_run" (some run_id)
          (some run.organization_id) none "success")
    send_webhook (config_get "webhook_url" run.config_snapshot) run_id
    transaction (set_evaluated run.submission_id)
    send refresh_org_stats

  -- The session of step 4; none if the run has ended meanwhile.
  abbrev pub complete_found : ℕ → ℕ → ℕ → EvaluationRun → Session (Option EvaluationRun)
  complete_found final_score completed_workers failed_workers run =
      if is_terminal run then pure none else (do
        _ ←
            transition_status run_id run.version RunStatus.completed
              (final_values final_score completed_workers failed_workers)
        pure (some run))

  abbrev pub finish : ℕ → ℕ → ℕ → ℕ → Option EvaluationRun → Session FinalizeResult
  finish base_score penalty completed_workers failed_workers none = pure skipped
  finish base_score penalty completed_workers failed_workers (some run) = do
    notify run
    pure (
        completed (clamp_score base_score penalty) base_score penalty completed_workers
          failed_workers)

  -- The two entries of count_by_status that are read.
  abbrev pub worker_stats : World → ℕ × ℕ
  worker_stats w = (
    count_with_status WorkerStatus.completed run_id w.db,
    count_with_status WorkerStatus.failed run_id w.db,
  )

  -- Steps 2 to 8.
  abbrev pub score_and_finish : ℕ → List (Bucket × ℕ) → Session FinalizeResult
  score_and_finish base_score buckets = do
    let penalty = penalty_of buckets
    stats ← transaction (gets worker_stats)
    let (completed_workers, failed_workers) = stats
    run ← transaction (
        the_run
        >>= complete_found (clamp_score base_score penalty) completed_workers failed_workers)
    finish base_score penalty completed_workers failed_workers run

  -- Step 1: what the first session reads; none if the run has ended.
  abbrev pub read_found : EvaluationRun → Session (Option (ℕ × List (Bucket × ℕ)))
  read_found run w = (
    ok (
        if is_terminal run
        then none
        else some (
          base_score_of (compute_weighted_average run_id run.organization_id w.db),
          count_by_severity_bucket run_id run.organization_id w.db,
        )),
    w,
  )

  abbrev pub finalize_read : Option (ℕ × List (Bucket × ℕ)) → Session FinalizeResult
  finalize_read none = pure skipped
  finalize_read (some (base_score, buckets)) = score_and_finish base_score buckets

  unfoldable pub finalize : Session FinalizeResult
  finalize = transaction (the_run >>= read_found) >>= finalize_read
