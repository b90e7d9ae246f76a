-- ===== src/Tests/Chain.antt =====
-- The fabrication detection and the whole chain at a sample run with one claim.
use ai_detention.Pipeline.Fabrication.Marks.{detection_exact}
use ai_detention.Prelude.{ℕ, str_eq, [], String, ◌∷◌, none, ◌≡◌, true, false, ◌≤◌, ◌==◌, refl}
use ai_detention.Database.Table.{select}
use ai_detention.Models.Findings.{Claim}
use ai_detention.Database.Session.{World}
use ai_detention.Pipeline.Fabrication.{
  TextTools, assess_claim_risk, round_number_risk, set_key, detect_fabrication, Detected,
}
use ai_detention.Pipeline.Chain.{Externals}
use ai_detention.Tests.Samples.{world_with}
use ai_detention.Models.Run.{RunStatus}
use ai_detention.Errors.{err, other_error, ok}
use ai_detention.Prelude.Int.{pos}

abbrev sample_tools : TextTools
sample_tools = record {
  lower = λ s. s;
  contains = λ needle s. str_eq needle s;
  find_integers = λ s. 5000 ∷ [];
  growth_multiplier = λ s. true;
  growth_percentage = λ s. false;
  million_users = λ s. true;
}

abbrev show_sample_risk : ℕ → String
show_sample_risk score = "risk"

abbrev sample_claim : Claim
sample_claim = record {
  id = 3;
  evaluation_run_id = 1;
  submission_id = 4;
  organization_id = 7;
  claim_text = "best";
  category = "market";
  confidence_score = 4000;
  source_reference = "";
  evidence = [];
  verification_status = "unverified";
  deleted_at = none;
}

abbrev claim_world : World
claim_world =
    let w = world_with RunStatus.running in
    record w { db = record w.db { claims = sample_claim ∷ [] } }

detection_exact_example :
    let (r, w') = detect_fabrication sample_tools show_sample_risk 1 claim_world in
    (detected : Detected) × (r ≡ ok detected)
    × (select (λ (c : Claim). c.id == 3) w'.db.claims
        ≡ record sample_claim {
          verification_status = "disputed";
          evidence = ("fabrication_risk", "risk") ∷ [];
        }
          ∷ [])
    × (detected.average_risk_score ≤ 10000)
    × (detected.flagged_claims ≤ detected.total_claims_analyzed)
    × (w'.db.runs ≡ claim_world.db.runs)
unfolding select assess_claim_risk round_number_risk set_key
detection_exact_example =
    detection_exact sample_tools show_sample_risk 1 claim_world {c = sample_claim} refl refl

abbrev sample_externals : Externals
sample_externals = record {
  find_numbers = λ s. [];
  claim_id = λ n. n;
  contradiction_id = λ a b. b;
  tools = sample_tools;
  show_risk = show_sample_risk;
  call_llm = λ model. err (other_error "timeout");
  variation = λ dim. pos 0;
}
