-- ===== src/Pipeline/Chain/Completes.antt =====
-- The chain ends with the run completed.
use ai_detention.Pipeline.Chain.{Externals}
use ai_detention.Prelude.{ℕ, ◌≡◌}
use ai_detention.Database.Session.{Session, World}
use ai_detention.Errors.{ok}

module _ (externals : Externals) (run_id : ℕ) where
  open externals use {
    find_numbers, claim_id, contradiction_id, tools, show_risk, call_llm, variation,
  }

  -- A step that succeeds and leaves the runs and the scores as they are.
  abbrev IsQuiet {ℓ} : {A : Type ℓ} → Session A → World → Type ℓ
  IsQuiet {A} step w =
      (a : A) × ((step w).0 ≡ ok a)
      × ((step w).1.db.runs ≡ w.db.runs)
      × ((step w).1.db.scores ≡ w.db.scores)
