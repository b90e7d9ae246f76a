-- ===== src/Models/Dataset.antt =====
-- Datasets (src/models/dataset.py).
use ai_detention.Prelude.{ℕ, String, Option}
use ai_detention.Models.Run.{Json}

pub data DatasetStatus : Type 0 where
  uploading validating ready failed archived : DatasetStatus

pub record Dataset : Type 0 where
  pub id : ℕ
  pub name : String
  pub description : Option String
  pub organization_id : ℕ
  pub created_by_id : Option ℕ
  pub storage_path : String
  pub size_bytes : ℕ
  pub checksum : String
  pub sample_count : ℕ
  pub status : DatasetStatus
  pub metadata : Json
  pub created_at : ℕ
  pub deleted_at : Option ℕ
