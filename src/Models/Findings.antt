-- ===== src/Models/Findings.antt =====
-- What an evaluation finds: claims, contradictions and scores (src/models/claim.py,
-- contradiction.py, score.py). A fraction between 0 and 1 is a number of ten-thousandths.
use ai_detention.Prelude.{ℕ, String, Option}
use ai_detention.Models.Run.{Json}

pub record Claim : Type 0 where
  pub id : ℕ
  pub evaluation_run_id : ℕ
  pub submission_id : ℕ
  pub organization_id : ℕ
  pub claim_text : String
  pub category : String
  pub confidence_score : ℕ
  pub source_reference : String
  pub evidence : Json
  pub verification_status : String
  pub deleted_at : Option ℕ

pub record Contradiction : Type 0 where
  pub id : ℕ
  pub evaluation_run_id : ℕ
  pub organization_id : ℕ
  pub claim_a_id : ℕ
  pub claim_b_id : ℕ
  pub contradiction_type : String
  pub severity : ℕ
  pub explanation : String
  pub deleted_at : Option ℕ

pub record Score : Type 0 where
  pub evaluation_run_id : ℕ
  pub organization_id : ℕ
  pub dimension : String
  pub value : ℕ
  pub weight : ℕ
  pub rationale : String
  pub deleted_at : Option ℕ
