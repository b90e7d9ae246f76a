-- ===== src/Submissions/Trigger.antt =====
-- `trigger_evaluation`: the limit on concurrent runs, the run that it makes and the submission's
-- status, and that a refusal leaves everything as it was.
use ai_detention.Submissions.{
  get_submission, snapshot_config, trigger_evaluation, NewRun, pending_run, counts_as_active,
  transition_submission, visible_submission,
}
use ai_detention.Prelude.{
  ℕ, Option, ◌≡◌, arith, some, none, refl, ◌==◌, ◌∷◌, List, [], ◌+◌, ◌++◌, ◌≤◌, All, String, ◌<◌,
}
use ai_detention.Database.Session.{World, evaluate_submission_task}
use ai_detention.Errors.{err, ok, Result}
use ai_detention.Models.Account.{Organization}
use ai_detention.Database.Table.{
  select, count, update_where, count-update_where, count-append, found-holds, All-select-updated,
}
use ai_detention.Models.Run.{EvaluationRun, pending}
use ai_detention.Models.Submission.{Submission, under_review}

get_submission-world : (sid org : ℕ) (w : World) → (get_submission sid org w).1 ≡ w
unfolding get_submission
get_submission-world sid org w = ground arith

snapshot_config-world : (org : ℕ) (c : Option ℕ) (w : World) → (snapshot_config org c w).1 ≡ w
unfolding snapshot_config
snapshot_config-world org none w = refl
snapshot_config-world org (some c) w = ground arith

-- The run that a trigger adds counts as active, and nothing else changes the count.
count-triggered :
    (org_id : ℕ) (new : NewRun) (task_id : String) (run : EvaluationRun) (runs : List EvaluationRun)
    → run.organization_id ≡ org_id
    → run.status ≡ pending
    → count (counts_as_active org_id) (
        update_where
          (λ r. r.id == new.new_id)
          (λ r. record r { celery_task_id = some task_id })
          (runs ++ run ∷ []))
      ≡ count (counts_as_active org_id) runs + 1
unfolding select
count-triggered org_id new task_id run runs o p =
    rw
      (
        count-update_where (counts_as_active org_id) (λ r. r.id == new.new_id)
            (λ r. record r { celery_task_id = some task_id }) (runs ++ run ∷ []) (λ r e. refl),
        count-append (counts_as_active org_id) runs (run ∷ []),
      )
      (ground arith)

module _ (submission_id org_id user_id : ℕ) (new : NewRun) (w : World) {o : Organization}
    (has_org : select (λ x. x.id == org_id) w.db.organizations ≡ o ∷ []) {run : EvaluationRun}
    (triggered : (trigger_evaluation submission_id org_id user_id new w).0 ≡ ok run) where
  -- The queue took the message.
  queue_took : (task_id : String) × (new.delay ≡ ok task_id)
  unfolding trigger_evaluation
  queue_took = go new.delay refl
    where
      go : (d : Result String) → new.delay ≡ d → (task_id : String) × (new.delay ≡ ok task_id)
      go (ok task_id) e = (task_id, e)
      go (err x) e = absurd (
          ground (
            arith,
            get_submission-world submission_id org_id w,
            snapshot_config-world org_id new.config_id w,
          ))

  below_limit : count (counts_as_active org_id) w.db.runs < o.max_concurrent_evaluations
  unfolding trigger_evaluation
  below_limit = ground (
    arith,
    get_submission-world submission_id org_id w,
    snapshot_config-world org_id new.config_id w,
    has_org,
  )

  run_status : run.status ≡ pending
  unfolding trigger_evaluation pending_run
  run_status = ground (
    arith,
    get_submission-world submission_id org_id w,
    snapshot_config-world org_id new.config_id w,
  )

  run_id : run.id ≡ new.new_id
  unfolding trigger_evaluation pending_run
  run_id = ground (
    arith,
    get_submission-world submission_id org_id w,
    snapshot_config-world org_id new.config_id w,
  )

  run_organization : run.organization_id ≡ org_id
  unfolding trigger_evaluation pending_run
  run_organization = ground (
    arith,
    get_submission-world submission_id org_id w,
    snapshot_config-world org_id new.config_id w,
  )

  run_submission : run.submission_id ≡ submission_id
  unfolding trigger_evaluation pending_run
  run_submission = ground (
    arith,
    get_submission-world submission_id org_id w,
    snapshot_config-world org_id new.config_id w,
  )

  one_sent :
      (trigger_evaluation submission_id org_id user_id new w).1.sent
      ≡ w.sent ++ evaluate_submission_task new.new_id ∷ []
  unfolding trigger_evaluation
  one_sent = ground (
    arith,
    get_submission-world submission_id org_id w,
    snapshot_config-world org_id new.config_id w,
  )

  one_more_active :
      {task_id : String}
      → new.delay ≡ ok task_id
      → count
          (counts_as_active org_id)
          (trigger_evaluation submission_id org_id user_id new w).1.db.runs
        ≡ count (counts_as_active org_id) w.db.runs + 1
  unfolding trigger_evaluation pending_run
  one_more_active {task_id} took = grind (
    arith,
    get_submission-world submission_id org_id w,
    snapshot_config-world org_id new.config_id w,
    count-triggered org_id new task_id,
    has_org,
    took,
  )

  -- A trigger that succeeds found fewer active runs than the organization may have, and leaves one
  -- more, so that at most as many as allowed are active. It adds one pending run of the
  -- organization and the submission, and sends one message, which carries that run's id.
  pub trigger_limits :
      let w' = (trigger_evaluation submission_id org_id user_id new w).1 in
      let active = count (counts_as_active org_id) in
      (active w'.db.runs ≡ active w.db.runs + 1)
      × (active w'.db.runs ≤ o.max_concurrent_evaluations)
      × (run.status ≡ pending)
      × (run.id ≡ new.new_id)
      × (run.organization_id ≡ org_id)
      × (run.submission_id ≡ submission_id)
      × (w'.sent ≡ w.sent ++ evaluate_submission_task new.new_id ∷ [])
  trigger_limits =
      let (task_id, took) = queue_took in
      let more = one_more_active took in
      (
        more,
        omega (arith, more, below_limit),
        run_status,
        run_id,
        run_organization,
        run_submission,
        one_sent,
      )

module _ (submission_id org_id user_id : ℕ) (new : NewRun) (w : World) {run : EvaluationRun}
    (triggered : (trigger_evaluation submission_id org_id user_id new w).0 ≡ ok run) where
  submissions_after :
      {s : Submission}
      → get_submission submission_id org_id w ≡ (ok s, w)
      → (trigger_evaluation submission_id org_id user_id new w).1.db.submissions
        ≡ update_where
            (λ x. x.id == s.id)
            (λ x. record x { status = transition_submission s.status })
            w.db.submissions
  unfolding trigger_evaluation
  submissions_after loaded = ground (arith, snapshot_config-world org_id new.config_id w)

  status_when_loaded :
      {s : Submission}
      → get_submission submission_id org_id w ≡ (ok s, w)
      → transition_submission s.status ≡ under_review
  unfolding trigger_evaluation transition_submission
  status_when_loaded {s} loaded = ground (arith, snapshot_config-world org_id new.config_id w)

  id_when_loaded :
      {s : Submission} → get_submission submission_id org_id w ≡ (ok s, w) → s.id ≡ submission_id
  unfolding get_submission
  id_when_loaded {s} loaded =
      ground (arith, found-holds (visible_submission submission_id org_id) w.db.submissions {x = s})

  reviewed_when_loaded :
      (r : Result Submission)
      → get_submission submission_id org_id w ≡ (r, w)
      → All
          (λ (s : Submission). s.status ≡ under_review)
          (select
            (λ s. s.id == submission_id)
            (trigger_evaluation submission_id org_id user_id new w).1.db.submissions)
  unfolding trigger_evaluation
  reviewed_when_loaded (err e) loaded = absurd (ground arith)
  reviewed_when_loaded (ok s) loaded =
      rw (submissions_after loaded, id_when_loaded loaded)
        (All-select-updated (λ x. x.status ≡ under_review) (λ x. x.id == submission_id)
          (λ x. record x { status = transition_submission s.status }) w.db.submissions (λ x. refl)
          (λ x. status_when_loaded loaded))

  -- After a trigger that succeeds the submission is under review, whatever state it was in.
  trigger_reviews :
      All
        (λ (s : Submission). s.status ≡ under_review)
        (select
          (λ s. s.id == submission_id)
          (trigger_evaluation submission_id org_id user_id new w).1.db.submissions)
  trigger_reviews =
      reviewed_when_loaded (get_submission submission_id org_id w).0
        (ground (arith, get_submission-world submission_id org_id w))
