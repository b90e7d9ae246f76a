-- ===== src/Results/Summary.antt =====
-- The summary, the lists and the export of a run's results agree.
use ai_detention.Results.{
  verify_run, Orders, get_claims_for_run, get_worker_results_for_run, get_contradictions_for_run,
  any_contradiction_of_run, any_claim_of_run, result_scores_for_run, get_results_summary,
  export_results, listed_claim, ExportData, ResultsSummary,
}
use ai_detention.Prelude.{
  ℕ, All, ◌≡◌, none, All-map, String, ◌∷◌, [], List, Option, length, refl, ◌∙◌, arith, take, drop,
  ap, ◌-◌, ◌*◌, sym,
}
use ai_detention.Database.Session.{World, Session}
use ai_detention.Database.Table.{select, select-same, count}
use ai_detention.Models.Findings.{Contradiction, Claim}
use ai_detention.Findings.Contradictions.{contradiction_of_run}
use ai_detention.Models.Run.{EvaluationRun, run_status_value, progress_pct}
use ai_detention.Datasets.{Storage}
use ai_detention.Evaluations.{visible_run}
use ai_detention.Errors.{app, not_found, ok, err}
use ai_detention.Findings.Scores.{score_of_run}

module _ (orders : Orders) (run_id org_id : ℕ) where
  -- An organization that has no such run gets none of its results, and nothing is uploaded.
  results_isolated :
      (storage : Storage) (upload_bytes : String → ExportData → String → Session (Unit {0}))
      (category : Option String) (page page_size : ℕ) (fmt : String) (w : World)
      → select (visible_run run_id org_id) w.db.runs ≡ []
      → let missing = app (not_found "Evaluation run" run_id) in
        (get_worker_results_for_run orders run_id org_id w ≡ (err missing, w))
        × (get_claims_for_run orders run_id org_id category page page_size w ≡ (err missing, w))
        × (get_contradictions_for_run orders run_id org_id w ≡ (err missing, w))
        × (result_scores_for_run orders run_id org_id w ≡ (err missing, w))
        × (get_results_summary orders run_id org_id w ≡ (err missing, w))
        × (export_results orders storage upload_bytes run_id org_id fmt w ≡ (err missing, w))
  unfolding verify_run get_worker_results_for_run get_claims_for_run get_contradictions_for_run
      result_scores_for_run get_results_summary export_results
  results_isolated storage upload_bytes category page page_size fmt w none_found =
      rw none_found (refl, refl, refl, refl, refl, refl)

  -- The rows of the run belong to the organization.
  abbrev ClaimsOwned : World → Type 0
  ClaimsOwned w =
      All (λ (c : Claim). c.evaluation_run_id ≡ run_id → c.organization_id ≡ org_id) w.db.claims

  abbrev ContradictionsOwned : World → Type 0
  ContradictionsOwned w =
      All (λ (c : Contradiction). c.evaluation_run_id ≡ run_id → c.organization_id ≡ org_id)
        w.db.contradictions

  claims_same :
      (w : World)
      → ClaimsOwned w
      → select (any_claim_of_run run_id) w.db.claims
        ≡ select (listed_claim run_id org_id none) w.db.claims
  claims_same w own =
      select-same (any_claim_of_run run_id) (listed_claim run_id org_id none) w.db.claims
        (All-map _ _ (λ c owned. ground arith) w.db.claims own)

  contradictions_same :
      (w : World)
      → ContradictionsOwned w
      → select (any_contradiction_of_run run_id) w.db.contradictions
        ≡ select (contradiction_of_run run_id org_id) w.db.contradictions
  contradictions_same w own =
      select-same (any_contradiction_of_run run_id) (contradiction_of_run run_id org_id)
        w.db.contradictions (All-map _ _ (λ c owned. ground arith) w.db.contradictions own)

  module _ (w : World) {run : EvaluationRun}
      (found : select (visible_run run_id org_id) w.db.runs ≡ run ∷ []) where
    abbrev summary_at : ResultsSummary
    summary_at = record {
      run_id = run_id;
      status = run_status_value run.status;
      overall_score = run.overall_score;
      total_workers = run.total_workers;
      completed_workers = run.completed_workers;
      failed_workers = run.failed_workers;
      total_claims = count (any_claim_of_run run_id) w.db.claims;
      total_contradictions = count (any_contradiction_of_run run_id) w.db.contradictions;
      scores = orders.by_dimension (select (score_of_run run_id org_id) w.db.scores);
      progress = progress_pct run;
    }

    summary_found : get_results_summary orders run_id org_id w ≡ (ok summary_at, w)
    unfolding verify_run result_scores_for_run get_results_summary
    summary_found = rw (found, found) refl

    claims_found :
        (page page_size : ℕ)
        → let listed = select (listed_claim run_id org_id none) w.db.claims in
          get_claims_for_run orders run_id org_id none page page_size w ≡ (
            ok (
              take page_size (drop ((page - 1) * page_size) (orders.claims_by_created_at listed)),
              length listed,
            ),
            w,
          )
    unfolding verify_run get_claims_for_run
    claims_found page page_size = rw found refl

    contradictions_found : get_contradictions_for_run orders run_id org_id w ≡ (
      ok (
          orders.by_severity_desc
            (select (contradiction_of_run run_id org_id) w.db.contradictions)),
      w,
    )
    unfolding verify_run get_contradictions_for_run
    contradictions_found = rw found refl

    scores_found : result_scores_for_run orders run_id org_id w ≡ (ok summary_at.scores, w)
    unfolding verify_run result_scores_for_run
    scores_found = rw found refl

  -- Let the organization have the run once, and let the run's claims and contradictions be the
  -- organization's. Then the summary succeeds and changes nothing; its totals are the total of the
  -- list of claims, on every page, and the length of the list of contradictions, if the database's
  -- order drops none; and its scores are the list of scores.
  pub summary_agrees :
      (page page_size : ℕ) (w : World) {run : EvaluationRun}
      → select (visible_run run_id org_id) w.db.runs ≡ run ∷ []
      → ((c : List Contradiction) → length (orders.by_severity_desc c) ≡ length c)
      → All (λ (c : Claim). c.evaluation_run_id ≡ run_id → c.organization_id ≡ org_id) w.db.claims
      → All
          (λ (c : Contradiction). c.evaluation_run_id ≡ run_id → c.organization_id ≡ org_id)
          w.db.contradictions
      → (summary : ResultsSummary) × (get_results_summary orders run_id org_id w ≡ (ok summary, w))
        × ((claims : List Claim) × (get_claims_for_run orders run_id org_id none page page_size w
              ≡ (ok (claims, summary.total_claims), w)))
        × ((contradictions : List Contradiction) × (get_contradictions_for_run orders run_id org_id
                w
              ≡ (ok contradictions, w))
            × (length contradictions ≡ summary.total_contradictions))
        × (result_scores_for_run orders run_id org_id w ≡ (ok summary.scores, w))
  summary_agrees page page_size w {run} found keeps claims contradictions = (
    summary_at w found,
    summary_found w found,
    (
      _,
      claims_found w found page page_size
          ∙ ap
              (λ (l : List Claim). (
                ok (
                  take page_size (
                      drop ((page - 1) * page_size) (
                        orders.claims_by_created_at
                          (select (listed_claim run_id org_id none) w.db.claims))),
                  length l,
                ),
                w,
              ))
              (sym (claims_same w claims)),
    ),
    (
      _,
      contradictions_found w found,
      keeps _ ∙ ap length (sym (contradictions_same w contradictions)),
    ),
    scores_found w found,
  )
