-- ===== src/Api/Router/Tenancy/Belonging.antt =====
-- What it means for an answer to belong to an organization.
use ai_detention.Api.Body.{
  Body, submission, submissions, config, configs, run, runs, dataset, created_dataset, datasets,
  metric, metrics, worker_results, claims, contradictions, scores, summary, export, user,
  created_key, tokens, message,
}
use ai_detention.Database.Session.{Db}
use ai_detention.Api.Route.{Env}
use ai_detention.Api.Router.Tenancy.Lists.{IsOrder}
use ai_detention.Prelude.{ℕ, ◌≡◌, All}
use ai_detention.Models.Submission.{Submission}
use ai_detention.Models.Run.{EvaluationConfig, EvaluationRun, WorkerResult}
use ai_detention.Models.Dataset.{Dataset}
use ai_detention.Api.Router.Tenancy.Rows.{IsAvailable, HasRun}
use ai_detention.Models.Findings.{Claim, Contradiction, Score}

-- What a body shows belongs to the organization: its rows are the organization's (a metric may be
-- a built-in one), and the run of a worker's result, of a summary or of an export is one that the
-- organization has.
abbrev pub Belongs : Db → ℕ → Body → Type 0
Belongs db org (submission s) = s.organization_id ≡ org
Belongs db org (submissions page) = All (λ (s : Submission). s.organization_id ≡ org) page.items
Belongs db org (config c) = c.organization_id ≡ org
Belongs db org (configs page) = All (λ (c : EvaluationConfig). c.organization_id ≡ org) page.items
Belongs db org (run r) = r.organization_id ≡ org
Belongs db org (runs page) = All (λ (r : EvaluationRun). r.organization_id ≡ org) page.items
Belongs db org (dataset d) = d.organization_id ≡ org
Belongs db org (created_dataset d url expiry) = d.organization_id ≡ org
Belongs db org (datasets page) = All (λ (d : Dataset). d.organization_id ≡ org) page.items
Belongs db org (metric m) = IsAvailable org m
Belongs db org (metrics page) = All (IsAvailable org) page.items
Belongs db org (worker_results rows) =
    All (λ (r : WorkerResult). HasRun db org r.evaluation_run_id) rows
Belongs db org (claims page) = All (λ (c : Claim). c.organization_id ≡ org) page.items
Belongs db org (contradictions rows) = All (λ (c : Contradiction). c.organization_id ≡ org) rows
Belongs db org (scores rows) = All (λ (s : Score). s.organization_id ≡ org) rows
Belongs db org (summary found) =
    HasRun db org found.run_id × All (λ (s : Score). s.organization_id ≡ org) found.scores
Belongs db org (export run_id status url) = HasRun db org run_id
Belongs db org (user u) = u.organization_id ≡ org
Belongs db org (created_key key raw) = key.organization_id ≡ org
Belongs db org (tokens pair expires_in) = Unit
Belongs db org (message text) = Unit

-- The orders of the lists only reorder.
pub record Ordering (env : Env) : Type 0 where
  pub submissions : IsOrder env.submissions_by_created_at
  pub configs : IsOrder env.configs_by_created_at
  pub runs : IsOrder env.runs_by_created_at
  pub datasets : IsOrder env.datasets_by_created_at
  pub metrics : IsOrder env.metrics_by_name
  pub workers : IsOrder env.result_orders.by_created_at
  pub claims : IsOrder env.result_orders.claims_by_created_at
  pub contradictions : IsOrder env.result_orders.by_severity_desc
  pub scores : IsOrder env.result_orders.by_dimension
