-- ===== src/Tests/Submissions.antt =====
-- Triggering an evaluation at a sample submission.
use ai_detention.Database.Session.{evaluate_submission_task}
use ai_detention.Submissions.{
  NewRun, trigger_evaluation, get_submission, snapshot_config, pending_run, counts_as_active,
}
use ai_detention.Prelude.{none, [], ◌≡◌, refl, ◌∷◌, ◌+◌, ◌≤◌, some}
use ai_detention.Tests.Samples.{world_with, sample_organization}
use ai_detention.Database.Table.{select, count}
use ai_detention.Submissions.Trigger.{trigger_limits}
use ai_detention.Errors.{ok, err, other_error}
use ai_detention.Models.Run.{RunStatus, EvaluationRun}

abbrev new_run : NewRun
new_run = record { new_id = 2; delay = ok "t2"; config_id = none; run_metadata = [] }

-- The queue is down.
abbrev refused_run : NewRun
refused_run = record new_run { delay = err (other_error "OperationalError") }

abbrev triggered_run : EvaluationRun
unfolding pending_run
triggered_run = record (pending_run 4 7 9 new_run [] 100) { celery_task_id = some "t2" }

trigger_limits_example :
    let w = world_with RunStatus.running in
    let w' = (trigger_evaluation 4 7 9 new_run w).1 in
    let active = count (counts_as_active 7) in
    (active w'.db.runs ≡ active w.db.runs + 1)
    × (active w'.db.runs ≤ 2)
    × (triggered_run.status ≡ RunStatus.pending)
    × (triggered_run.id ≡ 2)
    × (triggered_run.organization_id ≡ 7)
    × (triggered_run.submission_id ≡ 4)
    × (w'.sent ≡ evaluate_submission_task 2 ∷ [])
unfolding trigger_evaluation get_submission select snapshot_config pending_run
trigger_limits_example =
    trigger_limits 4 7 9 new_run (world_with RunStatus.running) {o = sample_organization} refl
      {run = triggered_run} refl
