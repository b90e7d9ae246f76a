-- ===== src/Pipeline/CrossCheck/Store.antt =====
-- What the cross check stores.
use ai_detention.Prelude.{
  String, List, ℕ, ◌≤◌, All, ◌∷◌, ◌≡◌, Bool, [], ◌++◌, str_eq, map, ◌&&◌, any,
}
use ai_detention.Pipeline.CrossCheck.{Decimal, ClaimData, differs}
use ai_detention.Models.Run.{EvaluationRun, Json}
use ai_detention.Models.Findings.{Contradiction, Claim}
use ai_detention.Database.Table.{select}

-- Each two items of a list, in its order.
unfoldable pub pairs {ℓ} : {A : Type ℓ} → List A → List (A × A)
pairs [] = []
pairs (a ∷ later) = map (λ b. (a, b)) later ++ pairs later

unfoldable pub joined {ℓ} : {A : Type ℓ} → List (List A) → List A
joined [] = []
joined (xs ∷ rest) = xs ++ joined rest

-- What a claim says, and the status of the result that it was found in.
abbrev pub content_of : Claim → Json × ClaimData
content_of c = (
  c.evidence,
  record {
    text = c.claim_text;
    category = c.category;
    confidence = c.confidence_score;
    source_reference = c.source_reference;
  },
)

-- The ids of the two claims, in the row of a contradiction and of a pair.
abbrev pub row_pair : Contradiction → ℕ × ℕ
row_pair c = (c.claim_a_id, c.claim_b_id)

abbrev pub id_pair : Claim × Claim → ℕ × ℕ
id_pair (a, b) = (a.id, b.id)

module _ (find_numbers : String → List Decimal) where
  -- Two claims of one category with numbers that differ.
  abbrev pub disagree : Claim × Claim → Bool
  disagree (a, b) =
      str_eq a.category b.category
      && any (λ x. any (differs x) (find_numbers b.claim_text)) (find_numbers a.claim_text)

module _ (find_numbers : String → List Decimal) (claim_id : ℕ → ℕ)
    (contradiction_id : ℕ → ℕ → ℕ) where
  abbrev IsOfRun : EvaluationRun → Claim → Type 0
  IsOfRun run c =
      (c.evaluation_run_id ≡ run.id)
      × (c.submission_id ≡ run.submission_id)
      × (c.organization_id ≡ run.organization_id)

  abbrev IsFound : EvaluationRun → Contradiction → Type 0
  IsFound run c =
      (3000 ≤ c.severity)
      × (c.severity ≤ 10000)
      × (c.evaluation_run_id ≡ run.id)
      × (c.organization_id ≡ run.organization_id)

  -- The contradictions that a list of pairs should give.
  abbrev IsComparison : EvaluationRun → List (Claim × Claim) → List Contradiction → Type 0
  IsComparison run compared found =
      All (IsFound run) found
      × (map row_pair found ≡ map id_pair (select (disagree find_numbers) compared))
