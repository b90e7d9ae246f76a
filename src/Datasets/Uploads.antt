-- ===== src/Datasets/Uploads.antt =====
-- What calls of the dataset service, each in its own transaction, come to. A route adds its response
-- to the transaction (Api/Datasets).
use ai_detention.Prelude.{
  ℕ, List, String, All, ◌∷◌, ◌≡◌, arith, [], length, ◌+◌, none, All-append, sum_by, length-append,
  refl,
}
use ai_detention.Datasets.{
  Storage, NewDataset, delete_dataset, initiate_dataset_upload, confirm_dataset_upload, get_dataset,
}
use ai_detention.Database.Session.{transaction, World}
use ai_detention.Models.Dataset.{Dataset, uploading}

pub data DatasetCall : Type 0 where
  initiate : (org_id user_id : ℕ) → NewDataset → DatasetCall
  confirm : (dataset_id org_id : ℕ) → String → ℕ → DatasetCall
  remove : (dataset_id org_id user_id : ℕ) → DatasetCall

module _ (storage : Storage) where
  unfoldable pub run_call : DatasetCall → World → World
  run_call (initiate org_id user_id fields) w =
      (transaction (initiate_dataset_upload storage org_id user_id fields) w).1
  run_call (confirm dataset_id org_id checksum sample_count) w =
      (transaction (confirm_dataset_upload storage dataset_id org_id checksum sample_count) w).1
  run_call (remove dataset_id org_id user_id) w =
      (transaction (delete_dataset dataset_id org_id user_id) w).1

  unfoldable pub run_calls : List DatasetCall → World → World
  run_calls [] w = w
  run_calls (q ∷ qs) w = run_calls qs (run_call q w)

  abbrev pub initiated : DatasetCall → ℕ
  initiated (initiate org_id user_id fields) = 1
  initiated (confirm dataset_id org_id checksum sample_count) = 0
  initiated (remove dataset_id org_id user_id) = 0

  abbrev IsUploading : Dataset → Type 0
  IsUploading d = (d.status ≡ uploading) × (d.deleted_at ≡ none)

  confirm_fails :
      (dataset_id org_id sample_count : ℕ) (checksum : String) (w : World)
      → run_call (confirm dataset_id org_id checksum sample_count) w ≡ w
  unfolding run_call transaction confirm_dataset_upload
  confirm_fails dataset_id org_id sample_count checksum w = ground arith

  delete_fails :
      (dataset_id org_id user_id : ℕ) (w : World)
      → run_call (remove dataset_id org_id user_id) w ≡ w
  unfolding run_call transaction delete_dataset get_dataset
  delete_fails dataset_id org_id user_id w = ground arith

  initiate-IsUploading :
      (org_id user_id : ℕ) (fields : NewDataset) (w : World)
      → All IsUploading w.db.datasets
      → let after = (run_call (initiate org_id user_id fields) w).db.datasets in
        All IsUploading after × (length after ≡ length w.db.datasets + 1)
  unfolding run_call transaction initiate_dataset_upload
  initiate-IsUploading org_id user_id fields w h =
      (All-append IsUploading w.db.datasets _ h ((refl, refl), tt), length-append w.db.datasets _)

  step-IsUploading :
      (q : DatasetCall) (w : World)
      → All IsUploading w.db.datasets
      → All IsUploading (run_call q w).db.datasets
        × (length (run_call q w).db.datasets ≡ length w.db.datasets + initiated q)
  step-IsUploading (initiate org_id user_id fields) w h =
      initiate-IsUploading org_id user_id fields w h
  step-IsUploading (confirm dataset_id org_id checksum sample_count) w h =
      rw (confirm_fails dataset_id org_id sample_count checksum w) (h, omega arith)
  step-IsUploading (remove dataset_id org_id user_id) w h =
      rw (delete_fails dataset_id org_id user_id w) (h, omega arith)

  -- From a state in which every dataset is uploading and not deleted, whatever calls of the service's
  -- initiate_dataset_upload, confirm_dataset_upload and delete_dataset follow, each alone in a
  -- transaction: every dataset is still uploading and not deleted, and there are as many more as calls
  -- that initiate one. No call confirms an upload or deletes a dataset.
  pub uploads_never_end :
      (calls : List DatasetCall) (w : World)
      → All (λ (d : Dataset). (d.status ≡ uploading) × (d.deleted_at ≡ none)) w.db.datasets
      → let after = (run_calls calls w).db.datasets in
        All (λ (d : Dataset). (d.status ≡ uploading) × (d.deleted_at ≡ none)) after
        × (length after ≡ length w.db.datasets + sum_by initiated calls)
  unfolding run_calls
  uploads_never_end [] w h = (h, omega arith)
  uploads_never_end (q ∷ qs) w h =
      let (kept, counted) = step-IsUploading q w h in
      let (all_kept, all_counted) = uploads_never_end qs (run_call q w) kept in
      (all_kept, omega (arith, counted, all_counted))
