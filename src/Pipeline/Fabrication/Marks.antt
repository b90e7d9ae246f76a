-- ===== src/Pipeline/Fabrication/Marks.antt =====
-- Which claims a detection marks, and the bounds of its summary.
use ai_detention.Pipeline.Fabrication.{
  TextTools, assess_claim_risk, flag_claims, summary, risk_of, flag_claim, flagged_values,
  detect_fabrication, Detected,
}
use ai_detention.Prelude.{
  ℕ, String, List, Bool, sum_by, ◌==◌, ◌≤◌, ◌*◌, ◌≡◌, arith, ◌∷◌, length, Bool-cases, [], ltb, inl,
  inr, refl, if◌then◌else◌, false, sym, true, ◌∙◌,
}
use ai_detention.Models.Findings.{Claim}
use ai_detention.Database.Session.{Session, transaction, World, pure}
use ai_detention.Errors.{ok}
use ai_detention.Prelude.Rounding.{round_div-le}
use ai_detention.Database.Table.{
  count-select-le, update_where, update_where-same, select, select-update_where,
  select-update_where_keep, select_comm,
}
use ai_detention.Pipeline.LlmJudge.{claim_of_run}

module _ (tools : TextTools) (show_risk : ℕ → String) where
  risk_of-le : (c : Claim) → risk_of tools c ≤ 10000
  unfolding assess_claim_risk
  risk_of-le c = omega arith

  sum-le : (cs : List Claim) → sum_by (risk_of tools) cs ≤ 10000 * length cs
  sum-le [] = omega arith
  sum-le (c ∷ cs) = omega (arith, sum-le cs, risk_of-le c)

  average-le : (cs : List Claim) → (summary tools show_risk cs).average_risk_score ≤ 10000
  average-le [] = omega arith
  average-le (c ∷ cs) =
      round_div-le (sum_by (risk_of tools) (c ∷ cs)) (length (c ∷ cs)) 10000 (omega arith)
        (sum-le (c ∷ cs))

  flagged-le :
      (cs : List Claim)
      → (summary tools show_risk cs).flagged_claims
        ≤ (summary tools show_risk cs).total_claims_analyzed
  flagged-le [] = omega arith
  flagged-le (c ∷ cs) = count-select-le (λ x. ltb 5000 (risk_of tools x)) (c ∷ cs)

  -- A claim as a detection leaves it.
  abbrev pub marked_claim : Claim → Claim
  marked_claim c =
      if ltb 5000 (risk_of tools c)
      then flagged_values tools show_risk (risk_of tools c) c.evidence c
      else c

  abbrev pub has_claim_id : ℕ → Claim → Bool
  has_claim_id id c = c.id == id

  abbrev flag_one : Claim → Session (Unit {0})
  flag_one c = if ltb 5000 (risk_of tools c) then flag_claim tools show_risk c else pure tt

  -- The loop does not fail, and touches no other table.
  pub flag_claims_lem :
      (cs : List Claim) (w : World)
      → let (r, w') = flag_claims tools show_risk cs w in
        (r ≡ ok tt) × (w'.db.runs ≡ w.db.runs) × (w'.db.scores ≡ w.db.scores)
  unfolding flag_claims transaction
  flag_claims_lem [] w = (refl, refl, refl)
  flag_claims_lem (c ∷ cs) w = elim (Bool-cases (ltb 5000 (risk_of tools c))) [
    | inl risky ↦ rw risky (flag_claims_lem cs _)
    | inr safe ↦ rw safe (flag_claims_lem cs w)
  ]

  -- What `c` makes of a row, if it is risky.
  abbrev flag_as : Bool → Claim → Claim → Claim
  flag_as risky c x =
      if risky then flagged_values tools show_risk (risk_of tools c) c.evidence x else x

  abbrev flag_with : Claim → Claim → Claim
  flag_with c = flag_as (ltb 5000 (risk_of tools c)) c

  flag_with-id : (c x : Claim) → (flag_with c x).id ≡ x.id
  flag_with-id c x = ground arith

  after_one :
      (c : Claim) (w : World)
      → (flag_one c w).1.db.claims ≡ update_where (has_claim_id c.id) (flag_with c) w.db.claims
  unfolding transaction
  after_one c w = go (ltb 5000 (risk_of tools c))
    where
      go :
          (risky : Bool)
          → ((if risky then flag_claim tools show_risk c else pure tt) w).1.db.claims
            ≡ update_where (has_claim_id c.id) (flag_as risky c) w.db.claims
      go true = refl
      go false = sym (update_where-same (has_claim_id c.id) w.db.claims)

  one-ok : (c : Claim) (w : World) → (flag_one c w).0 ≡ ok tt
  unfolding transaction
  one-ok c w = ground arith

  after_cons :
      (c : Claim) (cs : List Claim) (w : World)
      → flag_claims tools show_risk (c ∷ cs) w ≡ flag_claims tools show_risk cs (flag_one c w).1
  unfolding flag_claims transaction
  after_cons c cs w = ground arith

  select-cons_nil :
      (id : ℕ) (c : Claim) (cs : List Claim)
      → select (has_claim_id id) (c ∷ cs) ≡ []
      → (has_claim_id id c ≡ false) × (select (has_claim_id id) cs ≡ [])
  unfolding select
  select-cons_nil id c cs h = ground arith

  select-cons_hit :
      (c x : Claim) (cs : List Claim)
      → (x.id == c.id) ≡ true
      → select (has_claim_id c.id) (x ∷ cs) ≡ c ∷ []
      → (x ≡ c) × (select (has_claim_id c.id) cs ≡ [])
  unfolding select
  select-cons_hit c x cs same h = ground arith

  own_selected :
      (run_id : ℕ) (w : World) {c : Claim}
      → select (has_claim_id c.id) w.db.claims ≡ c ∷ []
      → claim_of_run run_id c ≡ true
      → select (has_claim_id c.id) (select (claim_of_run run_id) w.db.claims) ≡ c ∷ []
  own_selected run_id w {c} held own =
      rw (select_comm (has_claim_id c.id) (claim_of_run run_id) w.db.claims, held)
        (unfold select in ground arith)

  -- A claim that is not in the list keeps its row.
  flag_claims-other :
      (id : ℕ) (cs : List Claim) (w : World)
      → select (has_claim_id id) cs ≡ []
      → select (has_claim_id id) (flag_claims tools show_risk cs w).1.db.claims
        ≡ select (has_claim_id id) w.db.claims
  unfolding flag_claims
  flag_claims-other id [] w h = refl
  flag_claims-other id (c ∷ cs) w h =
      rw
        (
          after_cons c cs w,
          flag_claims-other id cs (flag_one c w).1 (select-cons_nil id c cs h).1,
          after_one c w,
        )
        (select-update_where (has_claim_id id) (has_claim_id c.id) (flag_with c) w.db.claims
          (λ x e. ground (arith, (select-cons_nil id c cs h).0))
          (λ x e. ground (arith, (select-cons_nil id c cs h).0, flag_with-id c x)))

  flag_claims-own :
      (cs : List Claim) (w : World) {c : Claim}
      → select (has_claim_id c.id) cs ≡ c ∷ []
      → select (has_claim_id c.id) w.db.claims ≡ c ∷ []
      → select (has_claim_id c.id) (flag_claims tools show_risk cs w).1.db.claims
        ≡ flag_with c c ∷ []
  unfolding select
  flag_claims-own [] w h held = absurd (ground arith)
  flag_claims-own (x ∷ cs) w {c} h held = elim (Bool-cases (x.id == c.id)) [
    | inl same ↦
        let (first, rest) = select-cons_hit c x cs same h in
        rw
          (
            after_cons x cs w,
            flag_claims-other c.id cs (flag_one x w).1 rest,
            after_one x w,
            first,
            select-update_where_keep (has_claim_id c.id) (has_claim_id c.id) (flag_with c)
                w.db.claims (λ y. ground (arith, flag_with-id c y)),
            held,
          )
          (unfold update_where in ground arith)
    | inr other ↦ rw (after_cons x cs w) (
        flag_claims-own cs (flag_one x w).1 (rw other at h) (
          rw (after_one x w) (
            select-update_where (has_claim_id c.id) (has_claim_id x.id) (flag_with x) w.db.claims
              (λ y e. ground arith) (λ y e. ground (arith, flag_with-id x y))
            ∙ held)))
  ]

  -- Let a claim of the run be in the table once. Then a detection succeeds and leaves one row of it:
  -- with a risk of at most 0.5 the row as it was, with a higher one the row with the risk as evidence,
  -- disputed above 0.7 and unverified up to it. The average risk is at most 1, no more claims are
  -- flagged than analyzed, and the runs stay as they are.
  pub detection_exact :
      (run_id : ℕ) (w : World) {c : Claim}
      → select (has_claim_id c.id) w.db.claims ≡ c ∷ []
      → claim_of_run run_id c ≡ true
      → let (r, w') = detect_fabrication tools show_risk run_id w in
        (detected : Detected) × (r ≡ ok detected)
        × (select (has_claim_id c.id) w'.db.claims ≡ marked_claim c ∷ [])
        × (detected.average_risk_score ≤ 10000)
        × (detected.flagged_claims ≤ detected.total_claims_analyzed)
        × (w'.db.runs ≡ w.db.runs)
  unfolding detect_fabrication transaction
  detection_exact run_id w {c} held own =
      let cs = select (claim_of_run run_id) w.db.claims in
      let (fine, runs, scores) = flag_claims_lem cs w in
      rw fine (
        summary tools show_risk cs,
        refl,
        flag_claims-own cs w (own_selected run_id w held own) held,
        average-le cs,
        flagged-le cs,
        runs,
      )
