-- ===== src/Models/Metric.antt =====
-- Metrics (src/models/metric.py). A bound of a score counts ten-thousandths.
use ai_detention.Models.Run.{Json}
use ai_detention.Prelude.{ℕ, String, Option, Bool}

pub data MetricType : Type 0 where
  accuracy f1 bleu rouge toxicity latency coherence relevance custom : MetricType

pub record Metric : Type 0 where
  pub id : ℕ
  pub name : String
  pub display_name : String
  pub description : Option String
  -- none for a metric of all organizations
  pub organization_id : Option ℕ
  pub metric_type : MetricType
  pub computation_config : Json
  pub higher_is_better : Bool
  pub min_value : ℕ
  pub max_value : ℕ
  pub is_builtin : Bool
  pub deleted_at : Option ℕ
