-- ===== src/Schemas/Responses.antt =====
-- The response schemas of src/schemas: the attribute that each field reads, with its type, and
-- which schemas fit the rows that the routes make them from.
use ai_detention.Prelude.{◌∷◌, [], ◌++◌, ◌≡◌, true, false, refl}
use ai_detention.Schemas.{
  Attributes, uuid, text, int, float, bool, datetime, dict, list, enum, optional, fits, reads,
  takes,
}
use ai_detention.Schemas.Rows.{
  user_attributes, api_key_attributes, submission_attributes, config_attributes, run_attributes,
  dataset_attributes, metric_attributes, worker_result_attributes, claim_attributes,
  contradiction_attributes, score_attributes,
}

-- TimestampSchema
abbrev pub timestamp_schema : Attributes
timestamp_schema = ("created_at", datetime) ∷ ("updated_at", datetime) ∷ []

abbrev pub user_response : Attributes
user_response =
    timestamp_schema
    ++ ("id", uuid)
      ∷ ("email", text)
      ∷ ("full_name", text)
      ∷ ("role", enum "Role")
      ∷ ("organization_id", uuid)
      ∷ ("is_active", bool)
      ∷ ("mfa_enabled", bool)
      ∷ ("last_login_at", optional datetime)
      ∷ []

abbrev pub api_key_response : Attributes
api_key_response =
    timestamp_schema
    ++ ("id", uuid)
      ∷ ("name", text)
      ∷ ("key_prefix", text)
      ∷ ("scopes", list)
      ∷ ("expires_at", optional datetime)
      ∷ ("last_used_at", optional datetime)
      ∷ ("is_revoked", bool)
      ∷ []

abbrev pub api_key_created : Attributes
api_key_created = api_key_response ++ ("raw_key", text) ∷ []

-- The field `metadata` reads the attribute of its alias.
abbrev pub submission_response : Attributes
submission_response =
    timestamp_schema
    ++ ("id", uuid)
      ∷ ("organization_id", uuid)
      ∷ ("submitted_by_id", optional uuid)
      ∷ ("startup_name", text)
      ∷ ("description", optional text)
      ∷ ("website_url", optional text)
      ∷ ("pitch_deck_url", optional text)
      ∷ ("status", enum "SubmissionStatus")
      ∷ ("metadata_", dict)
      ∷ []

abbrev pub evaluation_config_response : Attributes
evaluation_config_response =
    timestamp_schema
    ++ ("id", uuid)
      ∷ ("name", text)
      ∷ ("description", optional text)
      ∷ ("organization_id", uuid)
      ∷ ("created_by_id", optional uuid)
      ∷ ("pipeline_config", dict)
      ∷ ("webhook_url", optional text)
      ∷ ("is_template", bool)
      ∷ ("version", int)
      ∷ []

abbrev pub evaluation_run_response : Attributes
evaluation_run_response =
    timestamp_schema
    ++ ("id", uuid)
      ∷ ("submission_id", uuid)
      ∷ ("config_id", optional uuid)
      ∷ ("organization_id", uuid)
      ∷ ("triggered_by_id", optional uuid)
      ∷ ("status", enum "RunStatus")
      ∷ ("started_at", optional datetime)
      ∷ ("completed_at", optional datetime)
      ∷ ("total_workers", int)
      ∷ ("completed_workers", int)
      ∷ ("failed_workers", int)
      ∷ ("overall_score", optional float)
      ∷ ("error_message", optional text)
      ∷ ("celery_task_id", optional text)
      ∷ ("config_snapshot", dict)
      ∷ ("run_metadata", dict)
      ∷ ("progress_pct", float)
      ∷ []

abbrev pub dataset_create_response : Attributes
dataset_create_response =
    timestamp_schema
    ++ ("id", uuid)
      ∷ ("name", text)
      ∷ ("status", enum "DatasetStatus")
      ∷ ("upload_url", text)
      ∷ ("upload_expires_in", int)
      ∷ []

abbrev pub dataset_response : Attributes
dataset_response =
    timestamp_schema
    ++ ("id", uuid)
      ∷ ("name", text)
      ∷ ("description", optional text)
      ∷ ("organization_id", uuid)
      ∷ ("created_by_id", optional uuid)
      ∷ ("sample_count", int)
      ∷ ("schema_version", text)
      ∷ ("checksum", text)
      ∷ ("size_bytes", int)
      ∷ ("status", enum "DatasetStatus")
      ∷ ("metadata", dict)
      ∷ []

abbrev pub metric_response : Attributes
metric_response =
    timestamp_schema
    ++ ("id", uuid)
      ∷ ("name", text)
      ∷ ("display_name", text)
      ∷ ("description", optional text)
      ∷ ("organization_id", optional uuid)
      ∷ ("metric_type", enum "MetricType")
      ∷ ("computation_config", dict)
      ∷ ("higher_is_better", bool)
      ∷ ("min_value", float)
      ∷ ("max_value", float)
      ∷ ("is_builtin", bool)
      ∷ []

abbrev pub worker_result_response : Attributes
worker_result_response =
    timestamp_schema
    ++ ("id", uuid)
      ∷ ("evaluation_run_id", uuid)
      ∷ ("worker_type", text)
      ∷ ("status", text)
      ∷ ("processing_time_ms", int)
      ∷ ("output_data", dict)
      ∷ ("error_message", optional text)
      ∷ []

abbrev pub claim_response : Attributes
claim_response =
    timestamp_schema
    ++ ("id", uuid)
      ∷ ("evaluation_run_id", uuid)
      ∷ ("claim_text", text)
      ∷ ("category", text)
      ∷ ("source_reference", optional text)
      ∷ ("confidence_score", float)
      ∷ ("verification_status", text)
      ∷ ("evidence", dict)
      ∷ []

abbrev pub contradiction_response : Attributes
contradiction_response =
    timestamp_schema
    ++ ("id", uuid)
      ∷ ("evaluation_run_id", uuid)
      ∷ ("claim_a_id", uuid)
      ∷ ("claim_b_id", uuid)
      ∷ ("contradiction_type", text)
      ∷ ("severity", float)
      ∷ ("explanation", text)
      ∷ []

abbrev pub score_response : Attributes
score_response =
    timestamp_schema
    ++ ("id", uuid)
      ∷ ("evaluation_run_id", uuid)
      ∷ ("dimension", text)
      ∷ ("value", float)
      ∷ ("weight", float)
      ∷ ("rationale", optional text)
      ∷ ("breakdown", dict)
      ∷ []

-- The schemas of submissions, configs, runs, metrics, worker results, claims, contradictions and
-- scores fit every row of their models. Those of users, of created API keys, of datasets and of
-- created datasets fit no row: a user has no attribute mfa_enabled, a key no raw_key and a dataset
-- no upload_url, and a dataset's attribute metadata is no dict.
pub responses_fit :
    (fits submission_response submission_attributes ≡ true)
    × (fits evaluation_config_response config_attributes ≡ true)
    × (fits evaluation_run_response run_attributes ≡ true)
    × (fits metric_response metric_attributes ≡ true)
    × (fits worker_result_response worker_result_attributes ≡ true)
    × (fits claim_response claim_attributes ≡ true)
    × (fits contradiction_response contradiction_attributes ≡ true)
    × (fits score_response score_attributes ≡ true)
    × (fits user_response user_attributes ≡ false)
    × (fits api_key_created api_key_attributes ≡ false)
    × (fits dataset_response dataset_attributes ≡ false)
    × (fits dataset_create_response dataset_attributes ≡ false)
unfolding fits reads takes
responses_fit = (refl, refl, refl, refl, refl, refl, refl, refl, refl, refl, refl, refl)
