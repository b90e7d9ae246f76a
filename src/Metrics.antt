-- ===== src/Metrics.antt =====
-- The metric service (src/services/metric_service.py). The id of a new row is `new_id` of its name.
pub mod Seed
use ai_detention.Prelude.{
  List, String, ℕ, Option, some, Bool, true, take, ◌∷◌, str_eq, false, none, ◌||◌, [], ◌&&◌, ◌==◌,
  drop, ◌-◌, is_none, ◌*◌, ◌++◌, not, length,
}
use ai_detention.Models.Metric.{
  Metric, accuracy, MetricType, f1, bleu, rouge, toxicity, latency, coherence, relevance,
}
use ai_detention.Database.Session.{
  Session, ◌>>=◌, Db, query, ◌>>◌, modify_db, raise_if, found_or_raise, pure,
}
use ai_detention.Errors.{Result, err, ok, app, not_found, conflict, metric_exists}
use ai_detention.Models.Run.{Json}
use ai_detention.Database.Table.{scalar_one_or_none, select, count}
use ai_detention.Database.Audit.{create_audit_log}
use ai_detention.Models.Account.{AuditAction}

pub record MetricDef : Type 0 where
  pub name : String
  pub display_name : String
  pub description : String
  pub metric_type : MetricType
  pub higher_is_better : Bool
  pub min_value : ℕ
  pub max_value : ℕ

abbrev unit_metric : String → String → String → MetricType → Bool → MetricDef
unit_metric name display_name description metric_type higher_is_better = record {
  name = name;
  display_name = display_name;
  description = description;
  metric_type = metric_type;
  higher_is_better = higher_is_better;
  min_value = 0;
  max_value = 10000;
}

abbrev pub builtin_metrics : List MetricDef
builtin_metrics =
    unit_metric "accuracy_exact_match" "Exact Match Accuracy"
      "Proportion of outputs that exactly match the expected output" accuracy true
    ∷ unit_metric "f1_token" "Token-level F1 Score"
        "Harmonic mean of precision and recall at the token level" f1 true
    ∷ unit_metric "bleu_4" "BLEU-4 Score" "BiLingual Evaluation Understudy with 4-gram precision"
        bleu true
    ∷ unit_metric "rouge_l" "ROUGE-L Score" "Longest common subsequence based recall metric" rouge
        true
    ∷ unit_metric "toxicity_score" "Toxicity Score"
        "Probability that the output contains toxic content (lower is better)" toxicity false
    ∷ record (unit_metric "response_latency" "Response Latency (ms)"
        "Time taken for the model to generate a response" latency false) { max_value = 600000000 }
    ∷ unit_metric "coherence_score" "Coherence Score"
        "Semantic coherence and logical consistency of the output" coherence true
    ∷ unit_metric "relevance_score" "Relevance Score"
        "How relevant the output is to the input prompt" relevance true
    ∷ []

abbrev pub builtin_named : String → Metric → Bool
builtin_named name m = str_eq m.name name && (m.is_builtin && is_none m.deleted_at)

module _ (new_id : String → ℕ) where
  abbrev pub builtin_row : MetricDef → Metric
  builtin_row def = record {
    id = new_id def.name;
    name = def.name;
    display_name = def.display_name;
    description = some def.description;
    organization_id = none;
    metric_type = def.metric_type;
    computation_config = [];
    higher_is_better = def.higher_is_better;
    min_value = def.min_value;
    max_value = def.max_value;
    is_builtin = true;
    deleted_at = none;
  }

  abbrev pub add_missing :
      Result (Option Metric) → MetricDef → Result (List Metric) → Result (List Metric)
  add_missing (err e) def rest = err e
  add_missing (ok (some existing)) def rest = rest
  add_missing (ok none) def (err e) = err e
  add_missing (ok none) def (ok rows) = ok (builtin_row def ∷ rows)

  -- The rows that the loop adds to the session. The session does not flush by itself, so that each
  -- lookup reads the table as it was.
  unfoldable pub missing_metrics : List MetricDef → List Metric → Result (List Metric)
  missing_metrics [] table = ok []
  missing_metrics (def ∷ defs) table =
      add_missing (scalar_one_or_none (select (builtin_named def.name) table)) def
        (missing_metrics defs table)

  unfoldable pub seed_builtin_metrics : Session ℕ
  seed_builtin_metrics = do
    rows ← query (λ db. missing_metrics builtin_metrics db.metrics)
    modify_db λ db. record db { metrics = db.metrics ++ rows }
    pure (length rows)

pub record NewMetric : Type 0 where
  pub new_id : ℕ
  pub name : String
  pub display_name : String
  pub description : Option String
  pub metric_type : MetricType
  pub computation_config : Json
  pub higher_is_better : Bool
  pub min_value : ℕ
  pub max_value : ℕ

abbrev pub of_org : ℕ → Option ℕ → Bool
of_org org_id none = false
of_org org_id (some org) = org == org_id

abbrev pub custom_named : String → ℕ → Metric → Bool
custom_named name org_id m =
    str_eq m.name name && (of_org org_id m.organization_id && is_none m.deleted_at)

unfoldable pub create_custom_metric : ℕ → ℕ → NewMetric → Session Metric
create_custom_metric org_id user_id fields = do
  existing ← query (λ db. scalar_one_or_none (select (custom_named fields.name org_id) db.metrics))
  raise_if (not (is_none existing)) (app (conflict (metric_exists fields.name)))
  let metric : Metric = record {
    id = fields.new_id;
    name = fields.name;
    display_name = fields.display_name;
    description = fields.description;
    organization_id = some org_id;
    metric_type = fields.metric_type;
    computation_config = fields.computation_config;
    higher_is_better = fields.higher_is_better;
    min_value = fields.min_value;
    max_value = fields.max_value;
    is_builtin = false;
    deleted_at = none;
  }
  modify_db λ db. record db { metrics = db.metrics ++ metric ∷ [] }
  create_audit_log AuditAction.create "metric" (some metric.id) (some org_id) (some user_id)
      "success"
  pure metric

-- Metrics of the organization, and the built-in ones.
abbrev pub available_metric : ℕ → Metric → Bool
available_metric org_id m =
    (of_org org_id m.organization_id || m.is_builtin) && is_none m.deleted_at

-- `order_by` is the database's order.
unfoldable pub list_metrics : (List Metric → List Metric) → ℕ → ℕ → ℕ → Db → List Metric × ℕ
list_metrics order_by org_id page page_size db = (
  take page_size
      (drop ((page - 1) * page_size) (order_by (select (available_metric org_id) db.metrics))),
  count (available_metric org_id) db.metrics,
)

unfoldable pub get_metric : ℕ → ℕ → Session Metric
get_metric metric_id org_id = do
  found ← query (λ db.
      scalar_one_or_none (select (λ m. m.id == metric_id && available_metric org_id m) db.metrics))
  found_or_raise (app (not_found "Metric" metric_id)) found
