-- ===== src/Api/Router/Tenancy/Reports.antt =====
-- What the result service returns to a member of an organization.
use ai_detention.Database.Returning.{Returns, bind-Returns, pure-Returns, gets-Returns}
use ai_detention.Api.Router.Tenancy.Rows.{HasRun, verify_run-Returns}
use ai_detention.Api.Router.Tenancy.Lists.{IsOrder, ordered-All, page-All}
use ai_detention.Results.{
  Orders, get_worker_results_for_run, get_claims_for_run, get_contradictions_for_run,
  result_scores_for_run, get_results_summary, export_results, verify_run, listed_claim,
  ResultsSummary, ExportData, any_claim_of_run, any_contradiction_of_run,
}
use ai_detention.Database.Session.{Session, World, gets, pure}
use ai_detention.Prelude.{ℕ, All, Option, String, ◌≡◌, subst, ◌-◌, arith, ◌*◌, List}
use ai_detention.Datasets.{Storage}
use ai_detention.Models.Findings.{Contradiction, Score, Claim}
use ai_detention.Models.Run.{WorkerResult, EvaluationRun, run_status_value, progress_pct}
use ai_detention.Findings.Workers.{result_of_run}
use ai_detention.Findings.Scores.{score_of_run}
use ai_detention.Findings.Contradictions.{contradiction_of_run}
use ai_detention.Database.Table.{count}

pub any-Returns : {A : Type 0} (m : Session A) (w : World) → Returns (λ a. Unit {0}) m w
unfolding Returns
any-Returns m w a h = tt

-- What is known anyway is known when a session returns.
known-Returns : {A P : Type 0} → P → (m : Session A) (w : World) → Returns (λ a. P) m w
unfolding Returns
known-Returns p m w a h = p

module _ (orders : Orders) (id org : ℕ) (w : World) where
  pub workers-Returns :
      IsOrder orders.by_created_at
      → Returns
          (All (λ (r : WorkerResult). HasRun w.db org r.evaluation_run_id))
          (get_worker_results_for_run orders id org)
          w
  unfolding get_worker_results_for_run
  workers-Returns is_order =
      bind-Returns (λ r. HasRun w.db org id)
        (All (λ (r : WorkerResult). HasRun w.db org r.evaluation_run_id)) (verify_run id org) _ w
        (verify_run-Returns id org w)
        (λ run w' has. gets-Returns _ _ w' (
          ordered-All (λ (r : WorkerResult). HasRun w.db org r.evaluation_run_id)
            orders.by_created_at (result_of_run id) w'.db.worker_results is_order
            (λ x h. subst (HasRun w.db org) {x = id} (ground arith) has)))

  pub claims-Returns :
      (category : Option String) (page page_size : ℕ)
      → IsOrder orders.claims_by_created_at
      → Returns
          (λ found. All (λ (c : Claim). c.organization_id ≡ org) found.0)
          (get_claims_for_run orders id org category page page_size)
          w
  unfolding get_claims_for_run
  claims-Returns category page page_size is_order =
      bind-Returns (λ r. HasRun w.db org id)
        (λ found. All (λ (c : Claim). c.organization_id ≡ org) found.0) (verify_run id org) _ w
        (verify_run-Returns id org w)
        (λ run w' has. gets-Returns _ _ w' (
          page-All (λ (c : Claim). c.organization_id ≡ org) orders.claims_by_created_at
            (listed_claim id org category) w'.db.claims page_size ((page - 1) * page_size) is_order
            (λ x h. ground arith)))

  pub contradictions-Returns :
      IsOrder orders.by_severity_desc
      → Returns
          (All (λ (c : Contradiction). c.organization_id ≡ org))
          (get_contradictions_for_run orders id org)
          w
  unfolding get_contradictions_for_run
  contradictions-Returns is_order =
      bind-Returns (λ r. HasRun w.db org id) (All (λ (c : Contradiction). c.organization_id ≡ org))
        (verify_run id org) _ w (verify_run-Returns id org w)
        (λ run w' has. gets-Returns _ _ w' (
          ordered-All (λ (c : Contradiction). c.organization_id ≡ org) orders.by_severity_desc
            (contradiction_of_run id org) w'.db.contradictions is_order (λ x h. ground arith)))

  pub scores-Returns :
      IsOrder orders.by_dimension
      → Returns
          (All (λ (s : Score). s.organization_id ≡ org))
          (result_scores_for_run orders id org)
          w
  unfolding result_scores_for_run
  scores-Returns is_order =
      bind-Returns (λ r. HasRun w.db org id) (All (λ (s : Score). s.organization_id ≡ org))
        (verify_run id org) _ w (verify_run-Returns id org w)
        (λ run w' has. gets-Returns _ _ w' (
          ordered-All (λ (s : Score). s.organization_id ≡ org) orders.by_dimension
            (score_of_run id org) w'.db.scores is_order (λ x h. ground arith)))

module _ (orders : Orders) (id org : ℕ) (w : World) where
  abbrev pub IsOwnSummary : ResultsSummary → Type 0
  IsOwnSummary found =
      HasRun w.db org found.run_id × All (λ (s : Score). s.organization_id ≡ org) found.scores

  abbrev summary_with : EvaluationRun → ℕ → ℕ → List Score → ResultsSummary
  summary_with run claims contradictions scores = record {
    run_id = id;
    status = run_status_value run.status;
    overall_score = run.overall_score;
    total_workers = run.total_workers;
    completed_workers = run.completed_workers;
    failed_workers = run.failed_workers;
    total_claims = claims;
    total_contradictions = contradictions;
    scores = scores;
    progress = progress_pct run;
  }

  pub summary-Returns :
      IsOrder orders.by_dimension → Returns IsOwnSummary (get_results_summary orders id org) w
  unfolding get_results_summary
  summary-Returns is_order =
      bind-Returns (λ r. HasRun w.db org id) IsOwnSummary (verify_run id org) _ w
        (verify_run-Returns id org w)
        (λ run w1 has.
          bind-Returns {A = ℕ} (λ n. Unit {0}) IsOwnSummary
            (gets (λ v. count (any_claim_of_run id) v.db.claims)) _ w1
            (any-Returns (gets (λ v. count (any_claim_of_run id) v.db.claims)) w1)
            (λ claims w2 p.
              bind-Returns {A = ℕ} (λ n. Unit {0}) IsOwnSummary
                (gets (λ v. count (any_contradiction_of_run id) v.db.contradictions)) _ w2
                (any-Returns (gets (λ v. count (any_contradiction_of_run id) v.db.contradictions))
                  w2)
                (λ contradictions w3 p.
                  bind-Returns (All (λ (s : Score). s.organization_id ≡ org)) IsOwnSummary
                    (result_scores_for_run orders id org)
                    (λ scores. pure (summary_with run claims contradictions scores)) w3
                    (scores-Returns orders id org w3 is_order)
                    (λ scores w4 own.
                      pure-Returns IsOwnSummary (summary_with run claims contradictions scores) w4
                        (has, own)))))

  module _ (storage : Storage)
      (upload_bytes : String → ExportData → String → Session (Unit {0})) where
    pub export-Returns :
        (fmt : String)
        → Returns
            (λ url. HasRun w.db org id)
            (export_results orders storage upload_bytes id org fmt)
            w
    unfolding export_results
    export-Returns fmt =
        bind-Returns (λ r. HasRun w.db org id) (λ url. HasRun w.db org id) (verify_run id org) _ w
          (verify_run-Returns id org w) (λ run w' has. known-Returns has _ w')
