-- ===== src/Models/Submission.antt =====
-- Submissions (src/models/submission.py).
use ai_detention.Prelude.{ℕ, String, Bool, true, false, Option}
use ai_detention.Models.Run.{Json}

pub data SubmissionStatus : Type 0 where
  draft submitted under_review evaluated archived : SubmissionStatus

abbrev pub submission_status_eq : SubmissionStatus → SubmissionStatus → Bool
submission_status_eq draft draft = true
submission_status_eq submitted submitted = true
submission_status_eq under_review under_review = true
submission_status_eq evaluated evaluated = true
submission_status_eq archived archived = true
submission_status_eq _ _ = false

pub record Submission : Type 0 where
  pub id : ℕ
  pub organization_id : ℕ
  pub submitted_by_id : Option ℕ
  pub startup_name : String
  pub description : Option String
  pub website_url : Option String
  pub pitch_deck_url : Option String
  pub status : SubmissionStatus
  pub raw_content : Json
  pub metadata : Json
  pub created_at : ℕ
  pub deleted_at : Option ℕ
