-- ===== src/Pipeline/LlmJudge/Valid.antt =====
-- The scores that the judge stores.
use ai_detention.Prelude.{
  ℕ, Option, String, List, ◌≤◌, ◌≡◌, true, ◌<◌, ◌*◌, arith, some, ◌∷◌, [], none, refl, any, false,
  Bool, subst,
}
use ai_detention.Pipeline.LlmJudge.{
  valid_scores, DimData, generate_synthetic_scores, synthetic_value, valid_entry, dimension_weights,
  value_of, confidence_count, scored, get_dim, not_a_dict, no_value, not_a_number, synthetic_parts,
  synthetic_varied, LlmOutput, validate_llm_output, judged, with_fallback, answer, after_primary,
  no_scores, synthetic_scores, claim_of_run, conflict_of_run, satisfies_check, storable, number,
  after_backup, nan,
}
use ai_detention.Prelude.Int.{ℤ, pos_part, max_ℤ, pos, min_ℤ, negsuc}
use ai_detention.Models.Findings.{Claim}
use ai_detention.Prelude.Rounding.{round_div-le}
use ai_detention.Errors.{Result, ok, err}
use ai_detention.Database.Session.{World}
use ai_detention.Database.Table.{select, count}

satisfies-in_range : (n : ℕ) → n ≤ 10000 → satisfies_check (number (pos n)) ≡ true
satisfies-in_range n h = ground arith

abbrev pub is_nan : Option DimData → Bool
is_nan (some (scored nan rationale)) = true
is_nan _ = false

-- Whether an answer has NaN as the value of one of the six dimensions.
unfoldable pub answers_nan : Result LlmOutput → Bool
answers_nan (ok (answer scores)) = any (λ d. is_nan (get_dim d.0 scores)) dimension_weights
answers_nan _ = false

entry-storable :
    (entry : Option DimData)
    → valid_entry entry ≡ true
    → is_nan entry ≡ false
    → satisfies_check (value_of entry) ≡ true
entry-storable none h free = absurd (ground arith)
entry-storable (some not_a_dict) h free = absurd (ground arith)
entry-storable (some no_value) h free = absurd (ground arith)
entry-storable (some not_a_number) h free = absurd (ground arith)
entry-storable (some (scored (number (pos n)) r)) h free = ground arith
entry-storable (some (scored (number (negsuc n)) r)) h free = absurd (ground arith)
entry-storable (some (scored nan r)) h free = absurd (ground arith)

valid-storable :
    (dims : List (String × ℕ)) (scores : List (String × DimData))
    → valid_scores dims scores ≡ true
    → any (λ d. is_nan (get_dim d.0 scores)) dims ≡ false
    → storable dims scores ≡ true
unfolding valid_scores storable
valid-storable [] scores h free = refl
valid-storable ((dim, weight) ∷ dims) scores h free =
    rw
      (
        entry-storable (get_dim dim scores) (ground arith) (ground arith),
        valid-storable dims scores (ground arith) (ground arith),
      )
      refl

module _ (variation : String → ℤ) where
  confidence_count-pos : (claims : List Claim) → 0 < confidence_count claims
  confidence_count-pos [] = omega arith
  confidence_count-pos (c ∷ cs) = omega arith

  clamped-le : (top : ℕ) (x : ℤ) → pos_part (max_ℤ (pos 0) (min_ℤ (pos top) x)) ≤ top
  clamped-le top (pos n) = ground arith
  clamped-le top (negsuc n) = ground arith

  synthetic_value-le :
      (claims : List Claim) (contradictions risk : ℕ) (dim : String)
      → synthetic_value variation claims contradictions risk dim ≤ 10000
  unfolding synthetic_value
  synthetic_value-le claims contradictions risk dim =
      round_div-le _ (synthetic_parts claims) 10000 (grind (arith, confidence_count-pos claims)) (
        clamped-le (10000 * synthetic_parts claims)
          (synthetic_varied variation claims contradictions risk dim))

  synthetic-storable :
      (claims : List Claim) (contradictions risk : ℕ)
      → storable dimension_weights (generate_synthetic_scores variation claims contradictions risk)
        ≡ true
  unfolding storable generate_synthetic_scores
  synthetic-storable claims contradictions risk =
      rw
        (
          entry "market_opportunity",
          entry "team_strength",
          entry "product_viability",
          entry "financial_health",
          entry "traction",
          entry "overall",
        )
        refl
    where
      entry :
          (dim : String)
          → satisfies_check
              (number (pos (synthetic_value variation claims contradictions risk dim)))
            ≡ true
      entry dim = satisfies-in_range _ (synthetic_value-le claims contradictions risk dim)

  synthetic_numeric :
      (claims : List Claim) (contradictions risk : ℕ)
      → answers_nan (ok (answer (generate_synthetic_scores variation claims contradictions risk)))
        ≡ false
  unfolding answers_nan generate_synthetic_scores
  synthetic_numeric claims contradictions risk = refl

  module _ (call_llm : String → Result LlmOutput)
      (numeric : (model : String) → answers_nan (call_llm model) ≡ false) where
    validated-storable :
        (output : LlmOutput) (scores : List (String × DimData))
        → answers_nan (ok output) ≡ false
        → validate_llm_output output ≡ some scores
        → storable dimension_weights scores ≡ true
    unfolding validate_llm_output answers_nan
    validated-storable not_a_dict scores free h = absurd (ground arith)
    validated-storable no_scores scores free h = absurd (ground arith)
    validated-storable (answer given) scores free h =
        let same : given ≡ scores = ground arith in
        subst (λ x. storable dimension_weights x ≡ true) same
          (valid-storable dimension_weights given (ground arith) free)

    after_backup-numeric :
        (synthetic : List (String × DimData)) (r : Result LlmOutput)
        → answers_nan r ≡ false
        → answers_nan (ok (answer synthetic)) ≡ false
        → answers_nan (ok (after_backup call_llm variation synthetic r).0) ≡ false
    after_backup-numeric synthetic (ok output) h free = h
    after_backup-numeric synthetic (err e) h free = free

    after_primary-numeric :
        (synthetic : List (String × DimData)) (r : Result LlmOutput)
        → answers_nan r ≡ false
        → answers_nan (ok (answer synthetic)) ≡ false
        → answers_nan (ok (after_primary call_llm variation synthetic r).0) ≡ false
    after_primary-numeric synthetic (ok output) h free = h
    after_primary-numeric synthetic (err e) h free =
        after_backup-numeric synthetic (call_llm "gpt-3.5-turbo") (numeric "gpt-3.5-turbo") free

    judged-storable :
        (synthetic : List (String × DimData))
        → storable dimension_weights synthetic ≡ true
        → answers_nan (ok (answer synthetic)) ≡ false
        → storable dimension_weights (judged call_llm variation synthetic).0 ≡ true
    unfolding judged
    judged-storable synthetic h free =
        go (after_primary call_llm variation synthetic (call_llm "gpt-4-turbo"))
          (after_primary-numeric synthetic (call_llm "gpt-4-turbo") (numeric "gpt-4-turbo") free)
      where
        pick :
            (model_used : String) (v : Option (List (String × DimData)))
            → ((scores : List (String × DimData))
                → v ≡ some scores
                → storable dimension_weights scores ≡ true)
            → storable dimension_weights (with_fallback call_llm variation synthetic model_used v).0
              ≡ true
        pick model_used none valid = h
        pick model_used (some scores) valid = valid scores refl

        go :
            (r : LlmOutput × String)
            → answers_nan (ok r.0) ≡ false
            → storable dimension_weights
                (with_fallback call_llm variation synthetic r.1 (validate_llm_output r.0)).0
              ≡ true
        go (output, model_used) fine =
            pick model_used (validate_llm_output output)
              (λ scores. validated-storable output scores fine)

    pub chosen-storable :
        (run_id risk : ℕ) (w : World)
        → storable dimension_weights
            (judged call_llm variation (synthetic_scores call_llm variation run_id risk w.db)).0
          ≡ true
    chosen-storable run_id risk w =
        judged-storable (synthetic_scores call_llm variation run_id risk w.db)
          (synthetic-storable (select (claim_of_run run_id) w.db.claims)
            (count (conflict_of_run run_id) w.db.contradictions) risk)
          (synthetic_numeric (select (claim_of_run run_id) w.db.claims)
            (count (conflict_of_run run_id) w.db.contradictions) risk)
