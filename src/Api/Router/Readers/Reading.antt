-- ===== src/Api/Router/Readers/Reading.antt =====
-- The services that only read, and the shapes of the routes that call them.
use ai_detention.Database.Reading.{KeepsDb, bind-KeepsDb, pure-KeepsDb}
use ai_detention.Schemas.{model_validate, validate_all}
use ai_detention.Results.{
  get_worker_results_for_run, get_claims_for_run, get_contradictions_for_run, result_scores_for_run,
  get_results_summary, export_results, verify_run, Orders, ExportData, upload_export_data,
}
use ai_detention.Submissions.{get_submission}
use ai_detention.Evaluations.{get_evaluation_config, get_evaluation_run}
use ai_detention.Datasets.{get_dataset, Storage}
use ai_detention.Metrics.{get_metric}
use ai_detention.Prelude.{ℕ, Bool, List, true, Option, arith, ◌∷◌, String, false, refl, [], none}
use ai_detention.Database.Session.{Session, ◌>>=◌, pure}
use ai_detention.Api.Body.{Body}

module _ {ℓ} {A : Type ℓ} where
  pub model_validate-KeepsDb : (fit : Bool) (row : A) → KeepsDb (model_validate fit row)
  unfolding KeepsDb
  model_validate-KeepsDb true row w = refl
  model_validate-KeepsDb false row w = refl

  pub validate_all-KeepsDb : (fit : Bool) (rows : List A) → KeepsDb (validate_all fit rows)
  unfolding validate_all KeepsDb
  validate_all-KeepsDb fit [] w = refl
  validate_all-KeepsDb true (row ∷ rows) w =
      bind-KeepsDb (validate_all true rows) (λ items. pure (row ∷ items))
        (validate_all-KeepsDb true rows) (λ items. pure-KeepsDb (row ∷ items)) w
  validate_all-KeepsDb false (row ∷ rows) w = refl

  -- A route that reads one row, and one that reads a list.
  pub one-KeepsDb :
      (m : Session A) (fit : Bool) (k : A → Body)
      → KeepsDb m
      → KeepsDb (do row ← m; validated ← model_validate fit row; pure (k validated))
  unfolding KeepsDb
  one-KeepsDb m fit k hm =
      bind-KeepsDb m (λ row. model_validate fit row >>= λ v. pure (k v)) hm
        (λ row.
          bind-KeepsDb (model_validate fit row) (λ v. pure (k v)) (model_validate-KeepsDb fit row)
            (λ v. pure-KeepsDb (k v)))

  pub all-KeepsDb :
      (m : Session (List A)) (fit : Bool) (k : List A → Body)
      → KeepsDb m
      → KeepsDb (do rows ← m; items ← validate_all fit rows; pure (k items))
  unfolding KeepsDb
  all-KeepsDb m fit k hm =
      bind-KeepsDb m (λ rows. validate_all fit rows >>= λ v. pure (k v)) hm
        (λ rows.
          bind-KeepsDb (validate_all fit rows) (λ v. pure (k v)) (validate_all-KeepsDb fit rows)
            (λ v. pure-KeepsDb (k v)))

  pub page-KeepsDb :
      (m : Session (List A × ℕ)) (fit : Bool) (k : List A → ℕ → Body)
      → KeepsDb m
      → KeepsDb (do found ← m; items ← validate_all fit found.0; pure (k items found.1))
  unfolding KeepsDb
  page-KeepsDb m fit k hm =
      bind-KeepsDb m (λ found. validate_all fit found.0 >>= λ v. pure (k v found.1)) hm
        (λ found.
          bind-KeepsDb (validate_all fit found.0) (λ v. pure (k v found.1))
            (validate_all-KeepsDb fit found.0) (λ v. pure-KeepsDb (k v found.1)))

pub get_submission-KeepsDb : (id org : ℕ) → KeepsDb (get_submission id org)
unfolding get_submission KeepsDb
get_submission-KeepsDb id org w = ground arith

pub get_config-KeepsDb : (id org : ℕ) → KeepsDb (get_evaluation_config id org)
unfolding get_evaluation_config KeepsDb
get_config-KeepsDb id org w = ground arith

pub get_run-KeepsDb : (id org : ℕ) → KeepsDb (get_evaluation_run id org)
unfolding get_evaluation_run KeepsDb
get_run-KeepsDb id org w = ground arith

pub get_dataset-KeepsDb : (id org : ℕ) → KeepsDb (get_dataset id org)
unfolding get_dataset KeepsDb
get_dataset-KeepsDb id org w = ground arith

pub get_metric-KeepsDb : (id org : ℕ) → KeepsDb (get_metric id org)
unfolding get_metric KeepsDb
get_metric-KeepsDb id org w = ground arith

pub verify_run-KeepsDb : (id org : ℕ) → KeepsDb (verify_run id org)
unfolding verify_run KeepsDb
verify_run-KeepsDb id org w = ground arith

module _ (orders : Orders) (id org : ℕ) where
  pub workers-KeepsDb : KeepsDb (get_worker_results_for_run orders id org)
  unfolding get_worker_results_for_run KeepsDb
  workers-KeepsDb w = ground (arith, verify_run-KeepsDb id org w)

  pub claims-KeepsDb :
      (category : Option String) (page page_size : ℕ)
      → KeepsDb (get_claims_for_run orders id org category page page_size)
  unfolding get_claims_for_run KeepsDb
  claims-KeepsDb category page page_size w = ground (arith, verify_run-KeepsDb id org w)

  pub contradictions-KeepsDb : KeepsDb (get_contradictions_for_run orders id org)
  unfolding get_contradictions_for_run KeepsDb
  contradictions-KeepsDb w = ground (arith, verify_run-KeepsDb id org w)

  pub scores-KeepsDb : KeepsDb (result_scores_for_run orders id org)
  unfolding result_scores_for_run KeepsDb
  scores-KeepsDb w = ground (arith, verify_run-KeepsDb id org w)

  pub summary-KeepsDb : KeepsDb (get_results_summary orders id org)
  unfolding get_results_summary KeepsDb
  summary-KeepsDb w = ground (arith, verify_run-KeepsDb id org w)

module _ (orders : Orders) (storage : Storage)
    (upload_bytes : String → ExportData → String → Session (Unit {0}))
    (upload-KeepsDb : (key : String) (d : ExportData) (t : String)
      → KeepsDb (upload_bytes key d t)) where
  upload_export-KeepsDb :
      (org id : ℕ) (d : ExportData) (fmt : String)
      → KeepsDb (upload_export_data orders storage upload_bytes org id d fmt)
  unfolding upload_export_data KeepsDb
  upload_export-KeepsDb org id d fmt = upload-KeepsDb _ _ _

  pub export-KeepsDb :
      (id org : ℕ) (fmt : String) → KeepsDb (export_results orders storage upload_bytes id org fmt)
  unfolding export_results KeepsDb
  export-KeepsDb id org fmt = bind-KeepsDb (verify_run id org) _ (verify_run-KeepsDb id org) (λ run.
      bind-KeepsDb (get_worker_results_for_run orders id org) _ (workers-KeepsDb orders id org)
        (λ workers.
          bind-KeepsDb (get_claims_for_run orders id org none 1 10000) _
            (claims-KeepsDb orders id org none 1 10000)
            (λ found.
              bind-KeepsDb (get_contradictions_for_run orders id org) _
                (contradictions-KeepsDb orders id org)
                (λ contradictions.
                  bind-KeepsDb (result_scores_for_run orders id org) _
                    (scores-KeepsDb orders id org)
                    (λ scores.
                      bind-KeepsDb (upload_export_data orders storage upload_bytes org id _ fmt) _
                        (upload_export-KeepsDb org id _ fmt) (λ u. λ w. refl))))))
