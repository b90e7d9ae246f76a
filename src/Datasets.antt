-- ===== src/Datasets.antt =====
-- The dataset service (src/services/dataset_service.py) and the keys and checks of storage
-- (src/services/storage_service.py). S3 and hashing are the parameters of `Storage`; the text of an
-- id is `show_id`.
pub mod Uploads
use ai_detention.Prelude.{
  List, String, ℕ, Option, Bool, true, ◌==◌, str_eq, take, ◌&&◌, some, false, none, drop, is_none,
  ◌++◌, ◌-◌, ◌*◌, ◌∷◌, [], not, if◌then◌else◌,
}
use ai_detention.Models.Dataset.{DatasetStatus, Dataset, uploading, validating, ready}
use ai_detention.Errors.{
  Result, ok, attribute_error, err, app, conflict, checksum_failed, not_found, dataset_state,
}
use ai_detention.Models.Run.{Json}
use ai_detention.Database.Session.{
  Session, Db, ◌>>=◌, modify_db, ◌>>◌, query, raise, gets, found_or_raise, raise_if, pure,
}
use ai_detention.Database.Table.{update_where, scalar_one_or_none, select, count}
use ai_detention.Database.Audit.{create_audit_log}
use ai_detention.Models.Account.{AuditAction}
use ai_detention.Prelude.Text.{append_text}

pub record Storage : Type 0 where
  -- generate_presigned_upload_url, generate_presigned_download_url
  pub presigned_upload_url : String → String
  pub presigned_download_url : String → String
  -- download_bytes, or what it raises, and the SHA-256 of its result in hexadecimal
  pub download_sha256 : String → Result String
  pub show_id : ℕ → String

abbrev pub dataset_status_eq : DatasetStatus → DatasetStatus → Bool
dataset_status_eq uploading uploading = true
dataset_status_eq validating validating = true
dataset_status_eq ready ready = true
dataset_status_eq DatasetStatus.failed DatasetStatus.failed = true
dataset_status_eq DatasetStatus.archived DatasetStatus.archived = true
dataset_status_eq _ _ = false

unfoldable pub dataset_status_value : DatasetStatus → String
dataset_status_value uploading = "uploading"
dataset_status_value validating = "validating"
dataset_status_value ready = "ready"
dataset_status_value DatasetStatus.failed = "failed"
dataset_status_value DatasetStatus.archived = "archived"

abbrev pub visible_dataset : ℕ → ℕ → Dataset → Bool
visible_dataset dataset_id org_id d =
    d.id == dataset_id && (d.organization_id == org_id && is_none d.deleted_at)

abbrev pub save_dataset : ℕ → (Dataset → Dataset) → Session (Unit {0})
save_dataset dataset_id f =
    modify_db λ db. record db { datasets = update_where (λ d. d.id == dataset_id) f db.datasets }

abbrev pub set_status : DatasetStatus → Dataset → Dataset
set_status status d = record d { status = status }

pub record NewDataset : Type 0 where
  pub new_id : ℕ
  pub name : String
  pub description : Option String
  pub size_bytes : ℕ
  pub metadata : Json

module _ (storage : Storage) where
  open storage use {presigned_upload_url, download_sha256, show_id}

  unfoldable pub generate_dataset_key : ℕ → ℕ → String
  generate_dataset_key org_id dataset_id = append_text "datasets/" (
      append_text (show_id org_id)
        (append_text "/" (append_text (show_id dataset_id) "/data.json")))

  unfoldable pub generate_export_key : ℕ → ℕ → String → String
  generate_export_key org_id run_id fmt = append_text "exports/" (
      append_text (show_id org_id)
        (append_text "/" (append_text (show_id run_id) (append_text "/results." fmt))))

  -- The URL and the storage path.
  unfoldable pub get_dataset_upload_url : ℕ → ℕ → String × String
  get_dataset_upload_url org_id dataset_id =
      let key = generate_dataset_key org_id dataset_id in (presigned_upload_url key, key)

  unfoldable pub get_export_download_url : ℕ → ℕ → String → String
  get_export_download_url org_id run_id fmt =
      storage.presigned_download_url (generate_export_key org_id run_id fmt)

  -- An exception counts as a mismatch.
  abbrev pub hash_matches : String → Result String → Bool
  hash_matches expected (ok actual) = str_eq actual expected
  hash_matches expected (err e) = false

  unfoldable pub verify_dataset_integrity : String → String → Bool
  verify_dataset_integrity storage_path expected_checksum =
      hash_matches expected_checksum (download_sha256 storage_path)

  -- metadata or {}
  unfoldable pub initiate_dataset_upload : ℕ → ℕ → NewDataset → Session (Dataset × String)
  unfolding get_dataset_upload_url
  initiate_dataset_upload org_id user_id fields = do
    now ← gets (λ w. w.now)
    let (upload_url, storage_path) = get_dataset_upload_url org_id fields.new_id
    let dataset : Dataset = record {
      id = fields.new_id;
      name = fields.name;
      description = fields.description;
      organization_id = org_id;
      created_by_id = some user_id;
      storage_path = storage_path;
      size_bytes = fields.size_bytes;
      checksum = "pending";
      sample_count = 0;
      status = uploading;
      metadata = fields.metadata;
      created_at = now;
      deleted_at = none;
    }
    modify_db λ db. record db { datasets = db.datasets ++ dataset ∷ [] }
    create_audit_log AuditAction.create "dataset" (some fields.new_id) (some org_id) (some user_id)
        "success"
    pure (dataset, upload_url)

  abbrev pub fail_checksum : ℕ → Session (Unit {0})
  fail_checksum dataset_id =
      save_dataset dataset_id (set_status DatasetStatus.failed)
      >> raise (app (conflict checksum_failed))

  -- AuditAction.DATASET_UPLOADED, the action of the last call's log entry, is no member of the enum.
  unfoldable pub confirm_dataset_upload : ℕ → ℕ → String → ℕ → Session Dataset
  confirm_dataset_upload dataset_id org_id checksum sample_count = do
    found ←
        query (λ db. scalar_one_or_none (select (visible_dataset dataset_id org_id) db.datasets))
    dataset ← found_or_raise (app (not_found "Dataset" dataset_id)) found
    raise_if (not (dataset_status_eq dataset.status uploading))
        (app (conflict (dataset_state (dataset_status_value dataset.status))))
    save_dataset dataset.id (set_status validating)
    (if verify_dataset_integrity dataset.storage_path checksum
        then pure tt
        else fail_checksum dataset.id)
    save_dataset dataset.id
        (λ d. record d { checksum = checksum; sample_count = sample_count; status = ready })
    raise (attribute_error "DATASET_UPLOADED")

unfoldable pub get_dataset : ℕ → ℕ → Session Dataset
get_dataset dataset_id org_id = do
  found ← query (λ db. scalar_one_or_none (select (visible_dataset dataset_id org_id) db.datasets))
  found_or_raise (app (not_found "Dataset" dataset_id)) found

abbrev pub dataset_status_passes : Option DatasetStatus → DatasetStatus → Bool
dataset_status_passes none status = true
dataset_status_passes (some wanted) status = dataset_status_eq status wanted

abbrev pub listed_dataset : ℕ → Option DatasetStatus → Dataset → Bool
listed_dataset org_id status_filter d =
    d.organization_id == org_id
    && (is_none d.deleted_at && dataset_status_passes status_filter d.status)

unfoldable pub list_datasets :
    (List Dataset → List Dataset) → ℕ → Option DatasetStatus → ℕ → ℕ → Db → List Dataset × ℕ
list_datasets order_by org_id status_filter page page_size db =
    let base_where = listed_dataset org_id status_filter in
    (
      take page_size (drop ((page - 1) * page_size) (order_by (select base_where db.datasets))),
      count base_where db.datasets,
    )

-- AuditAction.DATASET_DELETED is no member of the enum.
unfoldable pub delete_dataset : ℕ → ℕ → ℕ → Session (Unit {0})
delete_dataset dataset_id org_id user_id = do
  dataset ← get_dataset dataset_id org_id
  now ← gets (λ w. w.now)
  save_dataset dataset.id (λ d. record d { deleted_at = some now })
  raise (attribute_error "DATASET_DELETED")
