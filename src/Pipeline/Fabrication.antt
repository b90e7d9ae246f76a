-- ===== src/Pipeline/Fabrication.antt =====
-- Fabrication detection (src/workers/tasks/fabrication.py): a risk for each claim of a run, a mark on
-- the risky ones, and a summary. Lowering a text, the search for a word in it and the regular
-- expressions are the parameters of `TextTools`. A risk counts ten-thousandths, which the source's
-- round(…, 4) keeps.
pub mod Marks
use ai_detention.Models.Findings.{Claim}
use ai_detention.Prelude.{
  List, ℕ, Bool, String, if◌then◌else◌, min, ◌∷◌, [], ltb, any, leb, sum_by, ◌*◌, ◌+◌, length, ◌&&◌,
  ◌++◌, ◌%◌, ◌==◌, str_eq,
}
use ai_detention.Models.Run.{Json}
use ai_detention.Database.Session.{Session, ◌>>=◌, transaction, pure, ◌>>◌, gets, modify_db}
use ai_detention.Prelude.Rounding.{round_div}
use ai_detention.Database.Table.{select, update_where, count}
use ai_detention.Pipeline.LlmJudge.{claim_of_run}

pub record TextTools : Type 0 where
  pub lower : String → String
  -- needle in haystack
  pub contains : String → String → Bool
  -- re.findall(r"\b(\d+)\b", text), as numbers
  pub find_integers : String → List ℕ
  -- the three searches of growth_patterns
  pub growth_multiplier : String → Bool
  pub growth_percentage : String → Bool
  pub million_users : String → Bool

abbrev pub superlatives : List String
superlatives = "first" ∷ "only" ∷ "best" ∷ "largest" ∷ "fastest" ∷ "revolutionary" ∷ []

-- n >= 1000 and n % 1000 == 0, else n >= 100 and n % 100 == 0
unfoldable pub round_number_risk : ℕ → ℕ
round_number_risk n =
    if leb 1000 n && n % 1000 == 0 then 1500 else (if leb 100 n && n % 100 == 0 then 1000 else 0)

-- {**entries, key: value}
unfoldable pub set_key : String → String → Json → Json
set_key key value [] = (key, value) ∷ []
set_key key value ((k, v) ∷ rest) =
    let later = set_key key value rest in
    if str_eq k key then (key, value) ∷ rest else (k, v) ∷ later

abbrev pub risk_if : Bool → ℕ → ℕ
risk_if hit score = if hit then score else 0

module _ (tools : TextTools) where
  open tools use {
    lower, contains, find_integers, growth_multiplier, growth_percentage, million_users,
  }

  -- min(1.0, round(risk, 4))
  unfoldable pub assess_claim_risk : String → ℕ → ℕ
  assess_claim_risk text confidence =
      let text_lower = lower text in
      min 10000 (
        risk_if (any (λ word. contains word text_lower) superlatives) 2000
        + sum_by round_number_risk (find_integers text)
        + risk_if (growth_multiplier text_lower) 2000
        + risk_if (growth_percentage text_lower) 1000
        + risk_if (million_users text_lower) 3000
        + risk_if (ltb confidence 5000) 1500)

  abbrev pub risk_of : Claim → ℕ
  risk_of claim = assess_claim_risk claim.claim_text claim.confidence_score

  -- The update of a flagged claim; `score` becomes an entry of the evidence.
  abbrev pub flagged_values : (ℕ → String) → ℕ → Json → Claim → Claim
  flagged_values show_risk score evidence c = record c {
    verification_status = if ltb 7000 score then "disputed" else "unverified";
    evidence = set_key "fabrication_risk" (show_risk score) evidence;
  }

  abbrev pub flag_claim : (ℕ → String) → Claim → Session (Unit {0})
  flag_claim show_risk claim = transaction (
      modify_db λ db. record db {
        claims =
            update_where (λ c. c.id == claim.id)
              (flagged_values show_risk (risk_of claim) claim.evidence) db.claims;
      })

  -- The loop, over the claims as they were read.
  unfoldable pub flag_claims : (ℕ → String) → List Claim → Session (Unit {0})
  flag_claims show_risk [] = pure tt
  flag_claims show_risk (claim ∷ claims) =
      (if ltb 5000 (risk_of claim) then flag_claim show_risk claim else pure tt)
      >> flag_claims show_risk claims

pub data RiskLevel : Type 0 where
  low medium high : RiskLevel

pub record Detected : Type 0 where
  pub fabrication_risk : RiskLevel
  pub average_risk_score : ℕ
  pub total_claims_analyzed : ℕ
  pub flagged_claims : ℕ

-- avg_risk > 0.6, avg_risk > 0.3, of a sum over a positive number of claims
unfoldable pub risk_level : ℕ → ℕ → RiskLevel
risk_level total n =
    if ltb (6000 * n) total then high else (if ltb (3000 * n) total then medium else low)

module _ (tools : TextTools) (show_risk : ℕ → String) where
  -- What is read of the result when there is no claim: no average risk, for which the judge takes 0.
  abbrev pub summary : List Claim → Detected
  summary [] = record {
    fabrication_risk = low;
    average_risk_score = 0;
    total_claims_analyzed = 0;
    flagged_claims = 0;
  }
  summary (c ∷ cs) =
      let claims = c ∷ cs in
      let total = sum_by (risk_of tools) claims in
      record {
        fabrication_risk = risk_level total (length claims);
        average_risk_score = round_div total (length claims);
        total_claims_analyzed = length claims;
        flagged_claims = count (λ c. ltb 5000 (risk_of tools c)) claims;
      }

  unfoldable pub detect_fabrication : ℕ → Session Detected
  detect_fabrication run_id = do
    claims ← transaction (gets λ w. select (claim_of_run run_id) w.db.claims)
    flag_claims tools show_risk claims
    pure (summary claims)
