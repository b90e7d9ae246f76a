-- ===== src/Submissions.antt =====
-- The submission service (src/services/submission_service.py): submissions of an organization, and
-- the trigger of an evaluation run. A new row's id and the Celery task's id come as arguments, from
-- uuid7 and from Celery.
pub mod Trigger
use ai_detention.Models.Submission.{
  Submission, SubmissionStatus, submission_status_eq, submitted, under_review, draft, evaluated,
  archived,
}
use ai_detention.Prelude.{
  Option, String, List, ℕ, Bool, some, ◌∷◌, true, ◌==◌, ◌&&◌, take, is_none, drop, ◌-◌, ◌*◌, none,
  [], ◌++◌, leb,
}
use ai_detention.Models.Run.{Json, EvaluationRun, EvaluationConfig, pending, is_active}
use ai_detention.Database.Session.{
  Session, modify_db, Db, pure, ◌>>=◌, query, ◌>>◌, gets, raise_if, found_or_raise, send,
  evaluate_submission_task, lift,
}
use ai_detention.Database.Table.{update_where, select, count, scalar_one_or_none, scalar_one}
use ai_detention.Models.Account.{AuditAction}
use ai_detention.Database.Audit.{create_audit_log}
use ai_detention.Errors.{
  app, not_found, conflict, archived_submission, max_concurrent_evaluations, Result,
}

pub record NewSubmission : Type 0 where
  pub startup_name : String
  pub description : Option String
  pub website_url : Option String
  pub pitch_deck_url : Option String
  pub metadata : Json

unfoldable pub create_submission : ℕ → ℕ → ℕ → NewSubmission → Session Submission
create_submission new_id org_id user_id fields = do
  now ← gets (λ w. w.now)
  let submission : Submission = record {
    id = new_id;
    organization_id = org_id;
    submitted_by_id = some user_id;
    startup_name = fields.startup_name;
    description = fields.description;
    website_url = fields.website_url;
    pitch_deck_url = fields.pitch_deck_url;
    status = draft;
    raw_content = [];
    metadata = fields.metadata;
    created_at = now;
    deleted_at = none;
  }
  modify_db λ db. record db { submissions = db.submissions ++ submission ∷ [] }
  create_audit_log AuditAction.create "submission" (some new_id) (some org_id) (some user_id)
      "success"
  pure submission

-- The filter of the lookups by id.
abbrev pub visible_submission : ℕ → ℕ → Submission → Bool
visible_submission submission_id org_id s =
    s.id == submission_id && (s.organization_id == org_id && is_none s.deleted_at)

unfoldable pub get_submission : ℕ → ℕ → Session Submission
get_submission submission_id org_id = do
  found ←
      query
        (λ db. scalar_one_or_none (select (visible_submission submission_id org_id) db.submissions))
  found_or_raise (app (not_found "Submission" submission_id)) found

abbrev pub status_filter_passes : Option SubmissionStatus → SubmissionStatus → Bool
status_filter_passes none status = true
status_filter_passes (some wanted) status = submission_status_eq status wanted

abbrev pub listed_submission : ℕ → Option SubmissionStatus → Submission → Bool
listed_submission org_id status_filter s =
    s.organization_id == org_id
    && (is_none s.deleted_at && status_filter_passes status_filter s.status)

-- The page and the total; `order_by` is the database's order.
unfoldable pub list_submissions :
    (List Submission → List Submission)
    → ℕ
    → Option SubmissionStatus
    → ℕ
    → ℕ
    → Db
    → List Submission × ℕ
list_submissions order_by org_id status_filter page page_size db =
    let base_where = listed_submission org_id status_filter in
    (
      take page_size (drop ((page - 1) * page_size) (order_by (select base_where db.submissions))),
      count base_where db.submissions,
    )

-- One entry of `updates`: a field with its new value, which may be None.
pub data SubmissionUpdate : Type 0 where
  set_startup_name : Option String → SubmissionUpdate
  set_description : Option String → SubmissionUpdate
  set_website_url : Option String → SubmissionUpdate
  set_pitch_deck_url : Option String → SubmissionUpdate
  set_status : Option SubmissionStatus → SubmissionUpdate
  -- `metadata` is an attribute of the class and no column (the column is `metadata_`)
  set_metadata : Option Json → SubmissionUpdate
  -- a key that is no attribute of the row
  unknown_field : SubmissionUpdate

-- if value is not None and hasattr(submission, field): setattr(submission, field, value)
abbrev pub apply_update : SubmissionUpdate → Submission → Submission
apply_update (set_startup_name (some v)) s = record s { startup_name = v }
apply_update (set_description (some v)) s = record s { description = some v }
apply_update (set_website_url (some v)) s = record s { website_url = some v }
apply_update (set_pitch_deck_url (some v)) s = record s { pitch_deck_url = some v }
apply_update (set_status (some v)) s = record s { status = v }
apply_update _ s = s

unfoldable pub apply_updates : List SubmissionUpdate → Submission → Submission
apply_updates [] s = s
apply_updates (u ∷ us) s = apply_updates us (apply_update u s)

-- A change of the row that the session has loaded, written by the flush.
abbrev pub save_submission : ℕ → (Submission → Submission) → Session (Unit {0})
save_submission submission_id f =
    modify_db
      λ db. record db { submissions = update_where (λ s. s.id == submission_id) f db.submissions }

unfoldable pub update_submission : ℕ → ℕ → ℕ → List SubmissionUpdate → Session Submission
update_submission submission_id org_id user_id updates = do
  submission ← get_submission submission_id org_id
  save_submission submission.id (apply_updates updates)
  create_audit_log AuditAction.update "submission" (some submission.id) (some org_id) (some user_id)
      "success"
  pure (apply_updates updates submission)

unfoldable pub delete_submission : ℕ → ℕ → ℕ → Session (Unit {0})
delete_submission submission_id org_id user_id = do
  submission ← get_submission submission_id org_id
  now ← gets (λ w. w.now)
  save_submission submission.id (λ s. record s { deleted_at = some now })
  create_audit_log AuditAction.delete "submission" (some submission.id) (some org_id) (some user_id)
      "success"

-- What `trigger_evaluation` finds of the config that it is given, if any: its pipeline.
abbrev pub visible_config : ℕ → ℕ → EvaluationConfig → Bool
visible_config config_id org_id c =
    c.id == config_id && (c.organization_id == org_id && is_none c.deleted_at)

unfoldable pub snapshot_config : ℕ → Option ℕ → Session Json
snapshot_config org_id none = pure []
snapshot_config org_id (some config_id) = do
  found ← query (λ db. scalar_one_or_none (select (visible_config config_id org_id) db.configs))
  config ← found_or_raise (app (not_found "Evaluation config" config_id)) found
  pure config.pipeline_config

-- The filter of the count of active runs; runs that are deleted count too.
abbrev pub counts_as_active : ℕ → EvaluationRun → Bool
counts_as_active org_id r = r.organization_id == org_id && is_active r.status

-- The two tests on the status, one after the other.
abbrev pub after_draft : SubmissionStatus → SubmissionStatus
after_draft draft = submitted
after_draft status = status

abbrev pub after_review : SubmissionStatus → SubmissionStatus
after_review submitted = under_review
after_review evaluated = under_review
after_review status = status

unfoldable pub transition_submission : SubmissionStatus → SubmissionStatus
transition_submission status = after_review (after_draft status)

-- `delay` is what evaluate_submission.delay does: it takes the message and returns the task's id, or
-- the queue refuses the message and it raises.
pub record NewRun : Type 0 where
  pub new_id : ℕ
  pub delay : Result String
  pub config_id : Option ℕ
  pub run_metadata : Json

unfoldable pub pending_run : ℕ → ℕ → ℕ → NewRun → Json → ℕ → EvaluationRun
pending_run submission_id org_id user_id new config_snapshot now = record {
  id = new.new_id;
  submission_id = submission_id;
  config_id = new.config_id;
  organization_id = org_id;
  triggered_by_id = some user_id;
  status = pending;
  version = 1;
  started_at = none;
  completed_at = none;
  total_workers = 0;
  completed_workers = 0;
  failed_workers = 0;
  overall_score = none;
  error_message = none;
  celery_task_id = none;
  config_snapshot = config_snapshot;
  run_metadata = new.run_metadata;
  created_at = now;
  updated_at = now;
  deleted_at = none;
}

unfoldable pub trigger_evaluation : ℕ → ℕ → ℕ → NewRun → Session EvaluationRun
trigger_evaluation submission_id org_id user_id new = do
  submission ← get_submission submission_id org_id
  raise_if (submission_status_eq submission.status archived) (app (conflict archived_submission))
  config_snapshot ← snapshot_config org_id new.config_id
  active_count ← gets (λ w. count (counts_as_active org_id) w.db.runs)
  org ← query (λ db. scalar_one (select (λ o. o.id == org_id) db.organizations))
  raise_if (leb org.max_concurrent_evaluations active_count)
      (app (conflict (max_concurrent_evaluations org.max_concurrent_evaluations)))
  save_submission submission.id (λ s. record s { status = transition_submission submission.status })
  now ← gets (λ w. w.now)
  let run = pending_run submission_id org_id user_id new config_snapshot now
  modify_db λ db. record db { runs = db.runs ++ run ∷ [] }
  task_id ← lift new.delay
  send (evaluate_submission_task new.new_id)
  modify_db λ db. record db {
    runs =
        update_where (λ r. r.id == new.new_id) (λ r. record r { celery_task_id = some task_id })
          db.runs;
  }
  create_audit_log AuditAction.evaluation_started "evaluation_run" (some new.new_id) (some org_id)
      (some user_id) "success"
  pure (record run { celery_task_id = some task_id })
