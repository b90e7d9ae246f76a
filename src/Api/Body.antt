-- ===== src/Api/Body.antt =====
-- What a route answers with: the rows that its response schema was made from.
use ai_detention.Prelude.{ℕ, String, List}
use ai_detention.Models.Submission.{Submission}
use ai_detention.Models.Run.{EvaluationConfig, EvaluationRun, WorkerResult}
use ai_detention.Models.Dataset.{Dataset}
use ai_detention.Models.Metric.{Metric}
use ai_detention.Models.Findings.{Claim, Contradiction, Score}
use ai_detention.Models.Account.{User, ApiKey}
use ai_detention.Auth.Service.{TokenPair}
use ai_detention.Results.{ResultsSummary}
use ai_detention.Pagination.{Page}

pub data Body : Type 0 where
  submission : Submission → Body
  submissions : Page Submission → Body
  config : EvaluationConfig → Body
  configs : Page EvaluationConfig → Body
  run : EvaluationRun → Body
  runs : Page EvaluationRun → Body
  dataset : Dataset → Body
  -- with upload_url and upload_expires_in
  created_dataset : Dataset → String → ℕ → Body
  datasets : Page Dataset → Body
  metric : Metric → Body
  metrics : Page Metric → Body
  worker_results : List WorkerResult → Body
  claims : Page Claim → Body
  contradictions : List Contradiction → Body
  scores : List Score → Body
  summary : ResultsSummary → Body
  -- export_id, status, download_url
  export : ℕ → String → String → Body
  user : User → Body
  -- with raw_key
  created_key : ApiKey → String → Body
  -- with expires_in
  tokens : TokenPair → ℕ → Body
  message : String → Body
