-- ===== src/Pipeline/LlmJudge.antt =====
-- The judge (src/workers/tasks/llm_judge.py): it asks a language model for six scores, a second
-- model if the first fails, and makes the scores up from the run's claims if both fail or the answer
-- is not valid. A value is a whole number of ten-thousandths, where the source's is a double that is
-- not rounded, or NaN. What `_call_llm` answers through its
-- cache is the parameter `call_llm`; what `random.uniform` draws for a dimension, `variation`. The
-- prompt, the token usage and the metrics are not modelled.
pub mod Valid
use ai_detention.Models.Account.{AuditAction}
use ai_detention.Prelude.{
  List, Option, String, ℕ, if◌then◌else◌, some, none, Bool, ◌∷◌, true, map, ◌++◌, not, sum_by, ◌*◌,
  ◌==◌, [], str_eq, length, false, ◌&&◌, min, is_none, ◌||◌, ◌+◌, any, leb,
}
use ai_detention.Prelude.Int.{ℤ, pos_part, pos, negsuc, ltb_ℤ, max_ℤ, sub_ℕ, ◌+ℤ◌, neg_part, min_ℤ}
use ai_detention.Models.Findings.{Contradiction, Score, Claim}
use ai_detention.Errors.{Result, ok, err, other_error}
use ai_detention.Database.Session.{
  Db, Session, ◌>>=◌, gets, query, ◌>>◌, transaction, modify_db, pure, raise_if,
}
use ai_detention.Database.Table.{select, count, scalar_one}
use ai_detention.Prelude.Rounding.{round_div}
use ai_detention.Database.Audit.{create_audit_log}
use ai_detention.Prelude.Text.{append_text}

-- A number of the answer, in ten-thousandths; Python's json also reads NaN.
pub data Value : Type 0 where
  number : ℤ → Value
  nan : Value

-- What a dimension's entry of the answer holds.
pub data DimData : Type 0 where
  not_a_dict no_value not_a_number : DimData
  scored : Value → String → DimData

-- The answer; `no_scores` stands for each answer in which `scores` is missing or cannot be searched.
pub data LlmOutput : Type 0 where
  not_a_dict no_scores : LlmOutput
  answer : List (String × DimData) → LlmOutput

abbrev pub dimension_weights : List (String × ℕ)
dimension_weights =
    ("market_opportunity", 2000)
    ∷ ("team_strength", 2000)
    ∷ ("product_viability", 2000)
    ∷ ("financial_health", 1500)
    ∷ ("traction", 1500)
    ∷ ("overall", 1000)
    ∷ []

-- scores[dim], where `dim in scores`.
abbrev pub get_dim : String → List (String × DimData) → Option DimData
get_dim dim [] = none
get_dim dim ((k, v) ∷ rest) = let later = get_dim dim rest in if str_eq k dim then some v else later

-- The comparisons of doubles: each one with NaN is false.
abbrev pub less_than : Value → Value → Bool
less_than (number a) (number b) = ltb_ℤ a b
less_than (number a) nan = false
less_than nan b = false

-- value < 0 or value > 1, negated.
abbrev pub in_range : Value → Bool
in_range value = not (less_than value (number (pos 0)) || less_than (number (pos 10000)) value)

abbrev pub valid_entry : Option DimData → Bool
valid_entry none = false
valid_entry (some (scored value rationale)) = in_range value
valid_entry (some _) = false

unfoldable pub valid_scores : List (String × ℕ) → List (String × DimData) → Bool
valid_scores [] scores = true
valid_scores ((dim, _) ∷ dims) scores =
    let rest = valid_scores dims scores in valid_entry (get_dim dim scores) && rest

unfoldable pub validate_llm_output : LlmOutput → Option (List (String × DimData))
validate_llm_output (answer scores) =
    if valid_scores dimension_weights scores then some scores else none
validate_llm_output _ = none

-- 0.5 for no claims, over 1; the sum of the confidences over their number otherwise.
abbrev pub confidence_total : List Claim → ℕ
confidence_total [] = 5000
confidence_total (c ∷ cs) = sum_by (λ c. c.confidence_score) (c ∷ cs)

abbrev pub confidence_count : List Claim → ℕ
confidence_count [] = 1
confidence_count (c ∷ cs) = length (c ∷ cs)

-- A fraction counts parts of a ten-thousandth, of which one ten-thousandth has five for each
-- claim: the average of the confidences and a fifth of the risk are then exact. The value is
-- rounded at the end.
abbrev pub synthetic_parts : List Claim → ℕ
synthetic_parts claims = 5 * confidence_count claims

abbrev pub synthetic_base : List Claim → ℕ → ℕ → ℤ
synthetic_base claims contradictions average_risk_score =
    let contradiction_penalty = min 3000 (contradictions * 500) * synthetic_parts claims in
    let fab_penalty = average_risk_score * confidence_count claims in
    max_ℤ (pos (1000 * synthetic_parts claims))
      (sub_ℕ (5 * confidence_total claims) (contradiction_penalty + fab_penalty))

module _ (variation : String → ℤ) where
  -- base_score + variation
  abbrev pub synthetic_varied : List Claim → ℕ → ℕ → String → ℤ
  synthetic_varied claims contradictions average_risk_score dim =
      let parts = synthetic_parts claims in
      synthetic_base claims contradictions average_risk_score
      +ℤ sub_ℕ (pos_part (variation dim) * parts) (neg_part (variation dim) * parts)

  unfoldable pub synthetic_value : List Claim → ℕ → ℕ → String → ℕ
  synthetic_value claims contradictions average_risk_score dim =
      let parts = synthetic_parts claims in
      let varied = synthetic_varied claims contradictions average_risk_score dim in
      round_div (pos_part (max_ℤ (pos 0) (min_ℤ (pos (10000 * parts)) varied))) parts

  abbrev pub synthetic_entry : List Claim → ℕ → ℕ → String × ℕ → String × DimData
  synthetic_entry claims contradictions average_risk_score (dim, weight) = (
    dim,
    scored (number (pos (synthetic_value claims contradictions average_risk_score dim)))
        "Synthetic score based on the claims",
  )

  unfoldable pub generate_synthetic_scores : List Claim → ℕ → ℕ → List (String × DimData)
  generate_synthetic_scores claims contradictions average_risk_score =
      map (synthetic_entry claims contradictions average_risk_score) dimension_weights

-- dim_data.get("value", 0.5), of a validated answer.
abbrev pub value_of : Option DimData → Value
value_of (some (scored value rationale)) = value
value_of _ = number (pos 5000)

abbrev pub rationale_of : Option DimData → String
rationale_of (some (scored value rationale)) = rationale
rationale_of _ = ""

-- The column's constraint, value >= 0.0 AND value <= 1.0 (src/models/score.py); PostgreSQL puts NaN
-- above all numbers.
abbrev pub satisfies_check : Value → Bool
satisfies_check (number (pos n)) = leb n 10000
satisfies_check (number (negsuc n)) = false
satisfies_check nan = false

-- Whether the rows of the dimensions satisfy it.
unfoldable pub storable : List (String × ℕ) → List (String × DimData) → Bool
storable [] scores = true
storable ((dim, _) ∷ dims) scores =
    let rest = storable dims scores in satisfies_check (value_of (get_dim dim scores)) && rest

-- The value of a row; one that the constraint refuses is never stored.
abbrev pub column_value : Value → ℕ
column_value (number value) = pos_part value
column_value nan = 0

abbrev pub score_row : ℕ → ℕ → List (String × DimData) → String × ℕ → Score
score_row run_id org_id scores (dim, weight) = record {
  evaluation_run_id = run_id;
  organization_id = org_id;
  dimension = dim;
  value = column_value (value_of (get_dim dim scores));
  weight = weight;
  rationale = rationale_of (get_dim dim scores);
  deleted_at = none;
}

abbrev pub claim_of_run : ℕ → Claim → Bool
claim_of_run run_id c = c.evaluation_run_id == run_id && is_none c.deleted_at

abbrev pub conflict_of_run : ℕ → Contradiction → Bool
conflict_of_run run_id c = c.evaluation_run_id == run_id && is_none c.deleted_at

-- A row that the table's unique index on run and dimension (src/models/score.py) holds against the
-- new ones.
abbrev pub clashes : ℕ → Score → Bool
clashes run_id s =
    s.evaluation_run_id == run_id
    && (is_none s.deleted_at && any (λ d. str_eq s.dimension d.0) dimension_weights)

abbrev pub store_scores : ℕ → ℕ → List (String × DimData) → Session (Unit {0})
store_scores run_id org_id scores = do
  clash ← gets λ w. any (clashes run_id) w.db.scores
  raise_if (clash || not (storable dimension_weights scores)) (other_error "IntegrityError")
  modify_db λ db. record db {
    scores = db.scores ++ map (score_row run_id org_id scores) dimension_weights;
  }

module _ (call_llm : String → Result LlmOutput) (variation : String → ℤ) where
  -- The two calls with their except clauses.
  abbrev pub after_backup : List (String × DimData) → Result LlmOutput → LlmOutput × String
  after_backup synthetic (ok output) = (output, "gpt-3.5-turbo")
  after_backup synthetic (err e) = (answer synthetic, "synthetic")

  abbrev pub after_primary : List (String × DimData) → Result LlmOutput → LlmOutput × String
  after_primary synthetic (ok output) = (output, "gpt-4-turbo")
  after_primary synthetic (err e) = after_backup synthetic (call_llm "gpt-3.5-turbo")

  abbrev pub with_fallback :
      List (String × DimData)
      → String
      → Option (List (String × DimData))
      → List (String × DimData) × String
  with_fallback synthetic model_used (some scores) = (scores, model_used)
  with_fallback synthetic model_used none = (synthetic, append_text model_used "_fallback")

  -- The validated scores and the name of the model that is recorded.
  unfoldable pub judged : List (String × DimData) → List (String × DimData) × String
  judged synthetic =
      let (llm_output, model_used) = after_primary synthetic (call_llm "gpt-4-turbo") in
      with_fallback synthetic model_used (validate_llm_output llm_output)

  abbrev pub synthetic_scores : ℕ → ℕ → Db → List (String × DimData)
  synthetic_scores run_id average_risk_score db =
      generate_synthetic_scores variation (select (claim_of_run run_id) db.claims)
        (count (conflict_of_run run_id) db.contradictions) average_risk_score

  unfoldable pub run_llm_judge : ℕ → ℕ → Session (List (String × DimData) × String)
  run_llm_judge run_id average_risk_score = do
    synthetic ← gets λ w. synthetic_scores run_id average_risk_score w.db
    run ← query λ db. scalar_one (select (λ r. r.id == run_id) db.runs)
    let validated = judged synthetic
    transaction (store_scores run_id run.organization_id validated.0)
    transaction (
        create_audit_log AuditAction.score_recorded "evaluation_run" (some run_id)
          (some run.organization_id) none "success")
    pure validated

-- The rates of a model for a prompt's and an answer's token, in tenths of a millionth of a dollar.
abbrev pub rates_of : String → ℕ × ℕ
rates_of model =
    if str_eq model "gpt-4-turbo"
    then (100, 300)
    else (if str_eq model "synthetic" then (0, 0) else (5, 15))

-- The cost in millionths of a dollar, of the usage's prompt_tokens and completion_tokens.
unfoldable pub estimate_cost : ℕ → ℕ → String → ℕ
estimate_cost prompt_tokens completion_tokens model =
    let (prompt_rate, completion_rate) = rates_of model in
    round_div (prompt_tokens * prompt_rate + completion_tokens * completion_rate) 10
