-- ===== src/Schemas/Rows.antt =====
-- The attributes of rows (the columns and properties of src/models), by name and type.
use ai_detention.Prelude.{◌∷◌, []}
use ai_detention.Schemas.{
  Attributes, uuid, text, int, float, bool, datetime, dict, list, meta_data, enum, optional,
}

-- BaseModel: the id, the timestamps and the soft delete.
abbrev pub base_attributes : Attributes
base_attributes =
    ("id", uuid)
    ∷ ("created_at", datetime)
    ∷ ("updated_at", datetime)
    ∷ ("deleted_at", optional datetime)
    ∷ ("metadata", meta_data)
    ∷ []

abbrev pub user_attributes : Attributes
user_attributes =
    ("email", text)
    ∷ ("hashed_password", text)
    ∷ ("full_name", text)
    ∷ ("role", enum "UserRole")
    ∷ ("organization_id", uuid)
    ∷ ("is_active", bool)
    ∷ ("last_login_at", optional datetime)
    ∷ ("failed_login_attempts", int)
    ∷ base_attributes

abbrev pub api_key_attributes : Attributes
api_key_attributes =
    ("name", text)
    ∷ ("key_hash", text)
    ∷ ("key_prefix", text)
    ∷ ("user_id", uuid)
    ∷ ("organization_id", uuid)
    ∷ ("scopes", list)
    ∷ ("expires_at", optional datetime)
    ∷ ("last_used_at", optional datetime)
    ∷ ("is_revoked", bool)
    ∷ base_attributes

abbrev pub submission_attributes : Attributes
submission_attributes =
    ("organization_id", uuid)
    ∷ ("submitted_by_id", optional uuid)
    ∷ ("startup_name", text)
    ∷ ("description", optional text)
    ∷ ("website_url", optional text)
    ∷ ("pitch_deck_url", optional text)
    ∷ ("status", enum "SubmissionStatus")
    ∷ ("metadata_", dict)
    ∷ ("raw_content", dict)
    ∷ base_attributes

abbrev pub config_attributes : Attributes
config_attributes =
    ("name", text)
    ∷ ("description", optional text)
    ∷ ("organization_id", uuid)
    ∷ ("created_by_id", optional uuid)
    ∷ ("pipeline_config", dict)
    ∷ ("webhook_url", optional text)
    ∷ ("is_template", bool)
    ∷ ("version", int)
    ∷ base_attributes

abbrev pub run_attributes : Attributes
run_attributes =
    ("submission_id", uuid)
    ∷ ("config_id", optional uuid)
    ∷ ("organization_id", uuid)
    ∷ ("triggered_by_id", optional uuid)
    ∷ ("status", enum "RunStatus")
    ∷ ("started_at", optional datetime)
    ∷ ("completed_at", optional datetime)
    ∷ ("total_workers", int)
    ∷ ("completed_workers", int)
    ∷ ("failed_workers", int)
    ∷ ("overall_score", optional float)
    ∷ ("error_message", optional text)
    ∷ ("celery_task_id", optional text)
    ∷ ("config_snapshot", dict)
    ∷ ("run_metadata", dict)
    ∷ ("progress_pct", float)
    ∷ ("is_terminal", bool)
    ∷ ("version", int)
    ∷ base_attributes

abbrev pub dataset_attributes : Attributes
dataset_attributes =
    ("name", text)
    ∷ ("description", optional text)
    ∷ ("organization_id", uuid)
    ∷ ("created_by_id", optional uuid)
    ∷ ("storage_path", text)
    ∷ ("sample_count", int)
    ∷ ("schema_version", text)
    ∷ ("checksum", text)
    ∷ ("size_bytes", int)
    ∷ ("status", enum "DatasetStatus")
    ∷ ("metadata_", dict)
    ∷ base_attributes

abbrev pub metric_attributes : Attributes
metric_attributes =
    ("name", text)
    ∷ ("display_name", text)
    ∷ ("description", optional text)
    ∷ ("organization_id", optional uuid)
    ∷ ("metric_type", enum "MetricType")
    ∷ ("computation_config", dict)
    ∷ ("higher_is_better", bool)
    ∷ ("min_value", float)
    ∷ ("max_value", float)
    ∷ ("is_builtin", bool)
    ∷ base_attributes

abbrev pub worker_result_attributes : Attributes
worker_result_attributes =
    ("evaluation_run_id", uuid)
    ∷ ("organization_id", uuid)
    ∷ ("worker_type", text)
    ∷ ("worker_id", optional text)
    ∷ ("celery_task_id", optional text)
    ∷ ("status", enum "WorkerStatus")
    ∷ ("processing_time_ms", int)
    ∷ ("output_data", dict)
    ∷ ("error_message", optional text)
    ∷ base_attributes

abbrev pub claim_attributes : Attributes
claim_attributes =
    ("evaluation_run_id", uuid)
    ∷ ("submission_id", uuid)
    ∷ ("organization_id", uuid)
    ∷ ("claim_text", text)
    ∷ ("category", text)
    ∷ ("source_reference", optional text)
    ∷ ("confidence_score", float)
    ∷ ("verification_status", text)
    ∷ ("evidence", dict)
    ∷ ("claim_metadata", dict)
    ∷ base_attributes

abbrev pub contradiction_attributes : Attributes
contradiction_attributes =
    ("evaluation_run_id", uuid)
    ∷ ("organization_id", uuid)
    ∷ ("claim_a_id", uuid)
    ∷ ("claim_b_id", uuid)
    ∷ ("contradiction_type", text)
    ∷ ("severity", float)
    ∷ ("explanation", text)
    ∷ ("evidence", dict)
    ∷ base_attributes

abbrev pub score_attributes : Attributes
score_attributes =
    ("evaluation_run_id", uuid)
    ∷ ("organization_id", uuid)
    ∷ ("dimension", text)
    ∷ ("value", float)
    ∷ ("weight", float)
    ∷ ("rationale", optional text)
    ∷ ("breakdown", dict)
    ∷ base_attributes
