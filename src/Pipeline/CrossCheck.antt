-- ===== src/Pipeline/CrossCheck.antt =====
-- The cross check (src/workers/tasks/cross_check.py): every two claims of one category are compared
-- by the numbers in their texts. What the regular expression finds in a text is the parameter
-- `find_numbers`: for each number its digits, with how many of them stand after the point. The ids of
-- the stored claims, which the database's default makes, are the parameter `claim_id`, by the place
-- of the claim. A severity counts ten-thousandths.
pub mod Detect
pub mod Store
use ai_detention.Prelude.{
  Option, ℕ, Bool, List, ◌*◌, max, some, if◌then◌else◌, none, ltb, min, ◌∷◌, ◌^◌, leb, ◌&&◌, [],
  String, map, ◌++◌, length, suc, str_eq, ◌==◌,
}
use ai_detention.Prelude.Rounding.{round_div}
use ai_detention.Models.Run.{EvaluationRun}
use ai_detention.Database.Session.{Session, ◌>>◌, modify_db, pure, transaction, ◌>>=◌, query}
use ai_detention.Models.Findings.{Claim, Contradiction}
use ai_detention.Database.Table.{scalar_one, select}

-- `digits` over 10 to the power `places`.
pub record Decimal : Type 0 where
  pub digits : ℕ
  pub places : ℕ

-- Two decimals over their common denominator.
abbrev pub scaled : Decimal → Decimal → ℕ
scaled a b = a.digits * 10 ^ b.places

abbrev pub larger : Decimal → Decimal → ℕ
larger a b = max (scaled a b) (scaled b a)

abbrev pub smaller : Decimal → Decimal → ℕ
smaller a b = min (scaled a b) (scaled b a)

-- va > 0 and vb > 0 and ratio > 3, of the exact ratio; the source's is the nearest double, which can
-- lie above 3 where the exact one is 3 (2.1 and 0.7).
abbrev pub differs : Decimal → Decimal → Bool
differs a b = ltb 0 a.digits && (ltb 0 b.digits && ltb (3 * smaller a b) (larger a b))

-- round(min(1.0, ratio / 10), 2), of the exact ratio
unfoldable pub severity_of : Decimal → Decimal → ℕ
severity_of a b =
    if leb (10 * smaller a b) (larger a b)
    then 10000
    else round_div (10 * larger a b) (smaller a b) * 100

-- The inner loop: the severity of the first number that differs.
abbrev pub detect_with : Decimal → List Decimal → Option ℕ
detect_with na [] = none
detect_with na (nb ∷ nums_b) =
    let rest = detect_with na nums_b in if differs na nb then some (severity_of na nb) else rest

abbrev pub or_else : Option ℕ → Option ℕ → Option ℕ
or_else none later = later
or_else (some severity) later = some severity

unfoldable pub detect_numbers : List Decimal → List Decimal → Option ℕ
detect_numbers [] nums_b = none
detect_numbers (na ∷ nums_a) nums_b =
    let rest = detect_numbers nums_a nums_b in or_else (detect_with na nums_b) rest

-- One claim of a task's result, where `get` has put in the defaults.
pub record ClaimData : Type 0 where
  pub text : String
  pub category : String
  pub confidence : ℕ
  pub source_reference : String

-- A result that is a dict; the others are passed over before.
pub record TaskResult : Type 0 where
  pub status : String
  pub claims : List ClaimData

abbrev pub with_source : String → List ClaimData → List (String × ClaimData)
with_source source claims = map (λ c. (source, c)) claims

-- Each claim with the status of the result that it comes from.
unfoldable pub collect_claims : List TaskResult → List (String × ClaimData)
collect_claims [] = []
collect_claims (r ∷ results) = with_source r.status r.claims ++ collect_claims results

pub data CrossChecked : Type 0 where
  too_few : (claims_analyzed : ℕ) → CrossChecked
  checked : (claims_stored contradictions_found : ℕ) → CrossChecked

module _ (find_numbers : String → List Decimal) (claim_id : ℕ → ℕ)
    (contradiction_id : ℕ → ℕ → ℕ) where
  abbrev pub claim_row : EvaluationRun → ℕ → String × ClaimData → Claim
  claim_row run place (source, claim_data) = record {
    id = claim_id place;
    evaluation_run_id = run.id;
    submission_id = run.submission_id;
    organization_id = run.organization_id;
    claim_text = claim_data.text;
    category = claim_data.category;
    confidence_score = claim_data.confidence;
    source_reference = claim_data.source_reference;
    evidence = ("source_task", source) ∷ [];
    verification_status = "unverified";
    deleted_at = none;
  }

  abbrev pub claim_rows : EvaluationRun → ℕ → List (String × ClaimData) → List Claim
  claim_rows run place [] = []
  claim_rows run place (c ∷ cs) = claim_row run place c ∷ claim_rows run (suc place) cs

  unfoldable pub detect_contradiction : String → String → Option ℕ
  detect_contradiction text_a text_b = detect_numbers (find_numbers text_a) (find_numbers text_b)

  abbrev pub contradiction_row : EvaluationRun → Claim → Claim → ℕ → Contradiction
  contradiction_row run a b severity = record {
    id = contradiction_id a.id b.id;
    evaluation_run_id = run.id;
    organization_id = run.organization_id;
    claim_a_id = a.id;
    claim_b_id = b.id;
    contradiction_type = "numerical";
    severity = severity;
    explanation = "Numerical inconsistency";
    deleted_at = none;
  }

  abbrev pub add_found :
      EvaluationRun → Claim → Claim → Option ℕ → List Contradiction → List Contradiction
  add_found run a b none rest = rest
  add_found run a b (some severity) rest = contradiction_row run a b severity ∷ rest

  -- One claim against those after it; claims of different categories are passed over.
  unfoldable pub against : EvaluationRun → Claim → List Claim → List Contradiction
  against run a [] = []
  against run a (b ∷ later) =
      let rest = against run a later in
      let found = detect_contradiction a.claim_text b.claim_text in
      if str_eq a.category b.category then add_found run a b found rest else rest

  unfoldable pub contradictions_of : EvaluationRun → List Claim → List Contradiction
  contradictions_of run [] = []
  contradictions_of run (a ∷ later) = against run a later ++ contradictions_of run later

  abbrev pub store_checked : EvaluationRun → List (String × ClaimData) → Session CrossChecked
  store_checked run all_claims = do
    let stored_claims = claim_rows run 0 all_claims
    let found = contradictions_of run stored_claims
    modify_db λ db. record db {
      claims = db.claims ++ stored_claims;
      contradictions = db.contradictions ++ found;
    }
    pure (checked (length stored_claims) (length found))

  unfoldable pub cross_check : ℕ → List TaskResult → Session CrossChecked
  cross_check run_id parallel_results =
      let all_claims = collect_claims parallel_results in
      if ltb (length all_claims) 2
      then pure (too_few (length all_claims))
      else transaction (do
        run ← query λ db. scalar_one (select (λ r. r.id == run_id) db.runs)
        store_checked run all_claims)
