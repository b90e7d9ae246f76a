-- ===== src/Evaluations.antt =====
-- The evaluation service (src/services/evaluation_service.py): pipeline configs, and the reading
-- and cancelling of runs.
pub mod Cancel
use ai_detention.Prelude.{
  String, Option, ℕ, List, some, ◌∷◌, Bool, [], true, ◌==◌, take, false, ◌+◌, if◌then◌else◌, none,
  drop, ◌&&◌, ◌++◌, str_eq, ◌-◌, is_none, ◌*◌,
}
use ai_detention.Models.Run.{
  EvaluationConfig, RunStatus, Json, EvaluationRun, cancelled, is_terminal, run_status_value,
  run_status_eq,
}
use ai_detention.Database.Session.{
  Session, Db, modify_db, ◌>>=◌, pure, ◌>>◌, gets, query, raise_if, send, found_or_raise, revoke,
}
use ai_detention.Database.Table.{update_where, scalar_one_or_none, select, count}
use ai_detention.Database.Audit.{create_audit_log}
use ai_detention.Submissions.{visible_config}
use ai_detention.Errors.{app, conflict, not_found, cannot_cancel_run}
use ai_detention.Models.Account.{evaluation_cancelled, AuditAction}

pub record NewConfig : Type 0 where
  pub name : String
  pub description : Option String
  pub pipeline_config : Json
  pub webhook_url : Option String
  pub is_template : Bool

unfoldable pub create_evaluation_config : ℕ → ℕ → ℕ → NewConfig → Session EvaluationConfig
create_evaluation_config new_id org_id user_id fields = do
  now ← gets (λ w. w.now)
  let config : EvaluationConfig = record {
    id = new_id;
    name = fields.name;
    description = fields.description;
    organization_id = org_id;
    created_by_id = some user_id;
    pipeline_config = fields.pipeline_config;
    webhook_url = fields.webhook_url;
    is_template = fields.is_template;
    version = 1;
    created_at = now;
    deleted_at = none;
  }
  modify_db λ db. record db { configs = db.configs ++ config ∷ [] }
  create_audit_log AuditAction.create "evaluation_config" (some new_id) (some org_id) (some user_id)
      "success"
  pure config

unfoldable pub get_evaluation_config : ℕ → ℕ → Session EvaluationConfig
get_evaluation_config config_id org_id = do
  found ← query (λ db. scalar_one_or_none (select (visible_config config_id org_id) db.configs))
  found_or_raise (app (not_found "Evaluation config" config_id)) found

abbrev pub listed_config : ℕ → EvaluationConfig → Bool
listed_config org_id c = c.organization_id == org_id && is_none c.deleted_at

unfoldable pub list_evaluation_configs :
    (List EvaluationConfig → List EvaluationConfig) → ℕ → ℕ → ℕ → Db → List EvaluationConfig × ℕ
list_evaluation_configs order_by org_id page page_size db = (
  take page_size
      (drop ((page - 1) * page_size) (order_by (select (listed_config org_id) db.configs))),
  count (listed_config org_id) db.configs,
)

-- One entry of `updates`, as its schema allows them.
pub data ConfigUpdate : Type 0 where
  set_name : Option String → ConfigUpdate
  set_description : Option String → ConfigUpdate
  set_pipeline_config : Option Json → ConfigUpdate
  set_webhook_url : Option String → ConfigUpdate
  set_is_template : Option Bool → ConfigUpdate

abbrev pub apply_config_update : ConfigUpdate → EvaluationConfig → EvaluationConfig
apply_config_update (set_name (some v)) c = record c { name = v }
apply_config_update (set_description (some v)) c = record c { description = some v }
apply_config_update (set_pipeline_config (some v)) c = record c { pipeline_config = v }
apply_config_update (set_webhook_url (some v)) c = record c { webhook_url = some v }
apply_config_update (set_is_template (some v)) c = record c { is_template = v }
apply_config_update _ c = c

unfoldable pub apply_config_updates : List ConfigUpdate → EvaluationConfig → EvaluationConfig
apply_config_updates [] c = c
apply_config_updates (u ∷ us) c = apply_config_updates us (apply_config_update u c)

abbrev save_config : ℕ → (EvaluationConfig → EvaluationConfig) → Session (Unit {0})
save_config config_id f =
    modify_db λ db. record db { configs = update_where (λ c. c.id == config_id) f db.configs }

-- The fields of `updates`, and the next version. `cache_delete` is best effort and not modelled.
unfoldable pub update_evaluation_config : ℕ → ℕ → ℕ → List ConfigUpdate → Session EvaluationConfig
update_evaluation_config config_id org_id user_id updates = do
  config ← get_evaluation_config config_id org_id
  let updated = λ (c : EvaluationConfig).
      (let c' = apply_config_updates updates c in record c' { version = c'.version + 1 })
  save_config config.id updated
  create_audit_log AuditAction.update "evaluation_config" (some config.id) (some org_id)
      (some user_id) "success"
  pure (updated config)

unfoldable pub delete_evaluation_config : ℕ → ℕ → ℕ → Session (Unit {0})
delete_evaluation_config config_id org_id user_id = do
  config ← get_evaluation_config config_id org_id
  now ← gets (λ w. w.now)
  save_config config.id (λ c. record c { deleted_at = some now })
  create_audit_log AuditAction.delete "evaluation_config" (some config.id) (some org_id)
      (some user_id) "success"

abbrev pub visible_run : ℕ → ℕ → EvaluationRun → Bool
visible_run run_id org_id r =
    r.id == run_id && (r.organization_id == org_id && is_none r.deleted_at)

unfoldable pub get_evaluation_run : ℕ → ℕ → Session EvaluationRun
get_evaluation_run run_id org_id = do
  found ← query (λ db. scalar_one_or_none (select (visible_run run_id org_id) db.runs))
  found_or_raise (app (not_found "Evaluation run" run_id)) found

-- The optional filters of list_evaluation_runs; one that is not given passes every run.
pub record RunFilter : Type 0 where
  pub submission_id : Option ℕ
  pub config_id : Option ℕ
  pub status_filter : Option RunStatus

abbrev pub id_passes : Option ℕ → Option ℕ → Bool
id_passes none column = true
id_passes (some wanted) none = false
id_passes (some wanted) (some column) = column == wanted

abbrev pub run_status_passes : Option RunStatus → RunStatus → Bool
run_status_passes none status = true
run_status_passes (some wanted) status = run_status_eq status wanted

abbrev pub listed_run : ℕ → RunFilter → EvaluationRun → Bool
listed_run org_id filter r =
    r.organization_id == org_id
    && (is_none r.deleted_at
        && (id_passes filter.submission_id (some r.submission_id)
            && (id_passes filter.config_id r.config_id
                && run_status_passes filter.status_filter r.status)))

unfoldable pub list_evaluation_runs :
    (List EvaluationRun → List EvaluationRun) → ℕ → RunFilter → ℕ → ℕ → Db → List EvaluationRun × ℕ
list_evaluation_runs order_by org_id filter page page_size db = (
  take page_size
      (drop ((page - 1) * page_size) (order_by (select (listed_run org_id filter) db.runs))),
  count (listed_run org_id filter) db.runs,
)

-- if run.celery_task_id: celery_app.control.revoke(…)
abbrev pub revoke_task : Option String → Session (Unit {0})
revoke_task none = pure tt
revoke_task (some task_id) = if str_eq task_id "" then pure tt else send (revoke task_id)

-- The attributes that it sets on the loaded row, which the flush writes by the row's id.
-- `updated_at` is the column's onupdate, at the flush.
abbrev pub cancelled_run : ℕ → EvaluationRun → EvaluationRun
cancelled_run now r = record r { status = cancelled; completed_at = some now; updated_at = now }

unfoldable pub cancel_evaluation_run : ℕ → ℕ → ℕ → Session EvaluationRun
cancel_evaluation_run run_id org_id user_id = do
  run ← get_evaluation_run run_id org_id
  raise_if (is_terminal run) (app (conflict (cannot_cancel_run (run_status_value run.status))))
  revoke_task run.celery_task_id
  now ← gets (λ w. w.now)
  modify_db
      λ db. record db { runs = update_where (λ r. r.id == run.id) (cancelled_run now) db.runs }
  create_audit_log evaluation_cancelled "evaluation_run" (some run.id) (some org_id) (some user_id)
      "success"
  pure (cancelled_run now run)
