-- ===== src/Api/Datasets.antt =====
-- src/api/v1/datasets.py.
use ai_detention.Models.Dataset.{DatasetStatus}
use ai_detention.Datasets.{NewDataset}
use ai_detention.Datasets
use ai_detention.Api.Body.{dataset, created_dataset, datasets, message}
use ai_detention.Api.Route.{Env, Route, PageQuery, pagination}
use ai_detention.Auth.Roles.{member}
use ai_detention.Prelude.{ℕ, Option, some, none, String}
use ai_detention.Database.Session.{◌>>=◌, ◌>>◌, pure, gets}
use ai_detention.Schemas.{model_validate, fits, validate_all}
use ai_detention.Schemas.Responses.{dataset_response, dataset_create_response}
use ai_detention.Schemas.Rows.{dataset_attributes}
use ai_detention.Pagination.{build_paginated_response}

unfoldable pub create_dataset_route : Env → NewDataset → Route
create_dataset_route env body = record {
  requires = some member;
  status = 201;
  handler = λ user. do
    (row, upload_url) ←
        Datasets.initiate_dataset_upload env.storage user.organization_id user.id body
    validated ← model_validate (fits dataset_create_response dataset_attributes) row
    pure (created_dataset validated upload_url env.s3_presigned_url_expiry);
}

unfoldable pub confirm_upload_route : Env → ℕ → String → ℕ → Route
confirm_upload_route env dataset_id checksum sample_count = record {
  requires = some member;
  status = 200;
  handler = λ user. do
    row ←
        Datasets.confirm_dataset_upload env.storage dataset_id user.organization_id checksum
          sample_count
    validated ← model_validate (fits dataset_response dataset_attributes) row
    pure (dataset validated);
}

unfoldable pub list_datasets_route : Env → PageQuery → Option DatasetStatus → Route
list_datasets_route env query status_filter =
    let params = pagination query in
    record {
      requires = none;
      status = 200;
      handler = λ user. do
        (rows, total) ← gets λ w.
            Datasets.list_datasets env.datasets_by_created_at user.organization_id status_filter
              params.page params.page_size w.db
        items ← validate_all (fits dataset_response dataset_attributes) rows
        pure (datasets (build_paginated_response items total params.page params.page_size));
    }

unfoldable pub get_dataset_route : ℕ → Route
get_dataset_route dataset_id = record {
  requires = none;
  status = 200;
  handler = λ user. do
    row ← Datasets.get_dataset dataset_id user.organization_id
    validated ← model_validate (fits dataset_response dataset_attributes) row
    pure (dataset validated);
}

unfoldable pub delete_dataset_route : ℕ → Route
delete_dataset_route dataset_id = record {
  requires = some member;
  status = 200;
  handler = λ user. do
    Datasets.delete_dataset dataset_id user.organization_id user.id
    pure (message "Dataset deleted successfully");
}
