-- ===== src/Evaluations/Cancel.antt =====
-- `cancel_evaluation_run`: what it does to a run, and how it meets the writers of Runs/Protocol,
-- whose lock it does not take part in.
use ai_detention.Evaluations.{
  cancel_evaluation_run, get_evaluation_run, visible_run, cancelled_run, revoke_task,
}
use ai_detention.Prelude.{ℕ, ◌≡◌, [], none, ◌∷◌, false, true, refl, arith, ◌==◌}
use ai_detention.Models.Run.{EvaluationRun, is_terminal, completed, run_status_value}
use ai_detention.Database.Session.{World}
use ai_detention.Runs.Locking.{Holds, KeepsCore, has_id, Holds-id, transition_fresh}
use ai_detention.Database.Table.{select, select-select, update_where, select-update_where_keep}
use ai_detention.Errors.{err, app, ok, conflict, not_found, cannot_cancel_run}
use ai_detention.Runs.{transition_status}

module _ (run_id org_id user_id : ℕ) {run : EvaluationRun} (w : World) (held : Holds run_id run w)
    (alive : run.deleted_at ≡ none) (own : run.organization_id ≡ org_id) where
  selected : select (visible_run run_id org_id) w.db.runs ≡ run ∷ []
  unfolding select
  selected =
      rw
        (
          select-select (has_id run_id) (visible_run run_id org_id) w.db.runs (λ x h. ground arith),
          held,
        )
        (ground (arith, Holds-id run_id w held))

  parts_after :
      is_terminal run ≡ false
      → let (r, w') = cancel_evaluation_run run_id org_id user_id w in
        (r ≡ ok (cancelled_run w.now run))
        × (w'.db.runs ≡ update_where (λ r. r.id == run.id) (cancelled_run w.now) w.db.runs)
        × (w'.sent ≡ (revoke_task run.celery_task_id w).1.sent)
  unfolding cancel_evaluation_run get_evaluation_run
  parts_after live = rw selected (ground arith)

  -- A run that has not ended is cancelled: it gets the status and the time of its end, its Celery
  -- task is revoked if it has one, its version stays, and the table holds it in the place of the
  -- old row.
  cancel_live :
      is_terminal run ≡ false
      → let (r, w') = cancel_evaluation_run run_id org_id user_id w in
        (r ≡ ok (cancelled_run w.now run))
        × Holds run_id (cancelled_run w.now run) w'
        × (w'.sent ≡ (revoke_task run.celery_task_id w).1.sent)
  unfolding update_where
  cancel_live live =
      let (returned, runs, sent) = parts_after live in
      (
        returned,
        rw
            (
              runs,
              select-update_where_keep (has_id run_id) (λ r. r.id == run.id) (cancelled_run w.now)
                  w.db.runs (λ x. refl),
              held,
            )
            (ground arith),
        sent,
      )

  -- A run that has ended is left as it was, and the caller gets a conflict.
  cancel_ended :
      is_terminal run ≡ true
      → cancel_evaluation_run run_id org_id user_id w
        ≡ (err (app (conflict (cannot_cancel_run (run_status_value run.status)))), w)
  unfolding cancel_evaluation_run get_evaluation_run
  cancel_ended ended = rw selected (ground arith)

  -- Cancelling does not stop a worker that has read the run before: its write of a completion at
  -- the version that it read goes through, and the cancelled run is completed.
  pub cancel_overwritten :
      (extra : EvaluationRun → EvaluationRun)
      → KeepsCore extra
      → is_terminal run ≡ false
      → let w' = (cancel_evaluation_run run_id org_id user_id w).1 in
        (row : EvaluationRun) × ((transition_status run_id run.version completed extra w').0
          ≡ ok row)
        × (row.status ≡ completed)
  cancel_overwritten extra keeps live =
      let w' = (cancel_evaluation_run run_id org_id user_id w).1 in
      let (_, held', _) = cancel_live live in
      let (returned, _, status, _, _, _, _) =
        transition_fresh run_id run.version completed extra keeps w' held' alive refl in
      (_, returned, status)

-- Another organization's run, or none, cannot be cancelled: the caller gets not found, and nothing
-- changes.
cancel_foreign :
    (run_id org_id user_id : ℕ) (w : World)
    → select (visible_run run_id org_id) w.db.runs ≡ []
    → cancel_evaluation_run run_id org_id user_id w
      ≡ (err (app (not_found "Evaluation run" run_id)), w)
unfolding cancel_evaluation_run get_evaluation_run
cancel_foreign run_id org_id user_id w missing = rw missing refl
