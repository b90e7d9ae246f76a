-- ===== src/Api/Router/Tenancy/Rows.antt =====
-- What the services return to a member of an organization.
use ai_detention.Database.Returning.{Returns, bind-Returns}
use ai_detention.Submissions.{
  create_submission, get_submission, update_submission, trigger_evaluation, visible_submission,
  apply_update, apply_updates, SubmissionUpdate, pending_run, NewSubmission, NewRun, visible_config,
}
use ai_detention.Evaluations.{
  create_evaluation_config, get_evaluation_config, update_evaluation_config, get_evaluation_run,
  cancel_evaluation_run, visible_run, ConfigUpdate, apply_config_update, apply_config_updates,
  NewConfig,
}
use ai_detention.Metrics.{get_metric, create_custom_metric, available_metric, NewMetric}
use ai_detention.Results.{verify_run}
use ai_detention.Database.Table.{found-holds, found-select, select}
use ai_detention.Prelude.{
  List, ℕ, ◌≡◌, arith, ◌∷◌, ◌∙◌, [], refl, ◌==◌, some, true, ◌&&◌, inl, Option, ◌⊎◌, Bool, inr, ap,
  none, false,
}
use ai_detention.Database.Session.{World, Db}
use ai_detention.Models.Submission.{Submission}
use ai_detention.Models.Metric.{Metric}
use ai_detention.Models.Run.{EvaluationConfig, EvaluationRun}
use ai_detention.Datasets.{
  initiate_dataset_upload, get_dataset, visible_dataset, Storage, NewDataset,
}

-- A row and its organization.
abbrev pub IsOf {ℓ} : {A : Type ℓ} → (A → ℕ) → ℕ → A → Type 0
IsOf organization org row = organization row ≡ org

pub create_submission-Returns :
    (new_id org user_id : ℕ) (body : NewSubmission) (w : World)
    → Returns (IsOf (λ s. s.organization_id) org) (create_submission new_id org user_id body) w
unfolding create_submission Returns
create_submission-Returns new_id org user_id body w s h = ground arith

pub get_submission-Returns :
    (id org : ℕ) (w : World) → Returns (IsOf (λ s. s.organization_id) org) (get_submission id org) w
unfolding get_submission Returns
get_submission-Returns id org w s h =
    ground (arith, found-holds (visible_submission id org) w.db.submissions {x = s})

apply_updates-organization :
    (us : List SubmissionUpdate) (s : Submission)
    → (apply_updates us s).organization_id ≡ s.organization_id
unfolding apply_updates
apply_updates-organization [] s = refl
apply_updates-organization (u ∷ us) s =
    apply_updates-organization us (apply_update u s) ∙ ground arith

pub update_submission-Returns :
    (id org user_id : ℕ) (us : List SubmissionUpdate) (w : World)
    → Returns (IsOf (λ s. s.organization_id) org) (update_submission id org user_id us) w
unfolding update_submission Returns
update_submission-Returns id org user_id us w =
    bind-Returns (IsOf (λ s. s.organization_id) org) (IsOf (λ s. s.organization_id) org)
      (get_submission id org) _ w (get_submission-Returns id org w)
      (λ s w' own r h. ground (arith, apply_updates-organization us s))

pub trigger-Returns :
    (id org user_id : ℕ) (new : NewRun) (w : World)
    → Returns (IsOf (λ r. r.organization_id) org) (trigger_evaluation id org user_id new) w
unfolding trigger_evaluation pending_run Returns
trigger-Returns id org user_id new w r h = ground arith

pub create_config-Returns :
    (new_id org user_id : ℕ) (body : NewConfig) (w : World)
    → Returns
        (IsOf (λ c. c.organization_id) org)
        (create_evaluation_config new_id org user_id body)
        w
unfolding create_evaluation_config Returns
create_config-Returns new_id org user_id body w c h = ground arith

pub get_config-Returns :
    (id org : ℕ) (w : World)
    → Returns (IsOf (λ c. c.organization_id) org) (get_evaluation_config id org) w
unfolding get_evaluation_config Returns
get_config-Returns id org w c h =
    ground (arith, found-holds (visible_config id org) w.db.configs {x = c})

apply_config_updates-organization :
    (us : List ConfigUpdate) (c : EvaluationConfig)
    → (apply_config_updates us c).organization_id ≡ c.organization_id
unfolding apply_config_updates
apply_config_updates-organization [] c = refl
apply_config_updates-organization (u ∷ us) c =
    apply_config_updates-organization us (apply_config_update u c) ∙ ground arith

pub update_config-Returns :
    (id org user_id : ℕ) (us : List ConfigUpdate) (w : World)
    → Returns (IsOf (λ c. c.organization_id) org) (update_evaluation_config id org user_id us) w
unfolding update_evaluation_config Returns
update_config-Returns id org user_id us w =
    bind-Returns (IsOf (λ c. c.organization_id) org) (IsOf (λ c. c.organization_id) org)
      (get_evaluation_config id org) _ w (get_config-Returns id org w)
      (λ c w' own r h. ground (arith, apply_config_updates-organization us c))

pub get_run-Returns :
    (id org : ℕ) (w : World)
    → Returns (IsOf (λ r. r.organization_id) org) (get_evaluation_run id org) w
unfolding get_evaluation_run Returns
get_run-Returns id org w r h = ground (arith, found-holds (visible_run id org) w.db.runs {x = r})

pub cancel-Returns :
    (id org user_id : ℕ) (w : World)
    → Returns (IsOf (λ r. r.organization_id) org) (cancel_evaluation_run id org user_id) w
unfolding cancel_evaluation_run Returns
cancel-Returns id org user_id w =
    bind-Returns (IsOf (λ r. r.organization_id) org) (IsOf (λ r. r.organization_id) org)
      (get_evaluation_run id org) _ w (get_run-Returns id org w) (λ r w' own r' h. ground arith)

-- A metric of the organization, or a built-in one.
abbrev pub IsAvailable : ℕ → Metric → Type 0
IsAvailable org m = (m.organization_id ≡ some org) ⊎ (m.is_builtin ≡ true)

pub available_metric-IsAvailable :
    (org : ℕ) (m : Metric) → available_metric org m ≡ true → IsAvailable org m
available_metric-IsAvailable org m h = go m.organization_id m.is_builtin refl refl
  where
    go : (o : Option ℕ) (b : Bool) → m.organization_id ≡ o → m.is_builtin ≡ b → IsAvailable org m
    go o true eo eb = inr eb
    go none false eo eb = absurd (ground arith)
    go (some o) false eo eb = inl (eo ∙ ap some (ground arith))

pub get_metric-Returns : (id org : ℕ) (w : World) → Returns (IsAvailable org) (get_metric id org) w
unfolding get_metric Returns
get_metric-Returns id org w m h =
    available_metric-IsAvailable org m
      (ground (arith, found-holds (λ x. x.id == id && available_metric org x) w.db.metrics {x = m}))

pub create_metric-Returns :
    (org user_id : ℕ) (body : NewMetric) (w : World)
    → Returns (IsAvailable org) (create_custom_metric org user_id body) w
unfolding create_custom_metric Returns
create_metric-Returns org user_id body w m h = inl (ground arith)

-- A run that the organization has.
abbrev pub HasRun : Db → ℕ → ℕ → Type 0
HasRun db org id = (run : EvaluationRun) × (select (visible_run id org) db.runs ≡ run ∷ [])

pub verify_run-Returns :
    (id org : ℕ) (w : World) → Returns (λ r. HasRun w.db org id) (verify_run id org) w
unfolding verify_run Returns
verify_run-Returns id org w r h = (r, found-select (visible_run id org) w.db.runs (ground arith))

pub create_dataset-Returns :
    (storage : Storage) (org user_id : ℕ) (body : NewDataset) (w : World)
    → Returns
        (IsOf (λ found. found.0.organization_id) org)
        (initiate_dataset_upload storage org user_id body)
        w
unfolding initiate_dataset_upload Returns
create_dataset-Returns storage org user_id body w found h = ground arith

pub get_dataset-Returns :
    (id org : ℕ) (w : World) → Returns (IsOf (λ d. d.organization_id) org) (get_dataset id org) w
unfolding get_dataset Returns
get_dataset-Returns id org w d h =
    ground (arith, found-holds (visible_dataset id org) w.db.datasets {x = d})
