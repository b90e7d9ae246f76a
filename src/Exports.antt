-- ===== src/Exports.antt =====
-- The export of a run as CSV by a worker (src/workers/tasks/export.py). The writing of the rows is
-- Python's; their text's length is the parameter `csv_length`. The upload is simulated by the
-- source. Progress messages are left out.
use ai_detention.Database.Session.{Session, transaction, pure, ◌>>=◌, query, gets}
use ai_detention.Models.Findings.{Score, Claim}
use ai_detention.Models.Run.{EvaluationRun, RunStatus}
use ai_detention.Prelude.{List, String, ℕ, ◌∷◌, Option, map, some, ◌++◌, ◌==◌, none}
use ai_detention.Prelude.Text.{append_text}
use ai_detention.Database.Table.{scalar_one_or_none, select}

-- The cells of a row, by what it is.
pub data CsvRow : Type 0 where
  summary_row : ℕ → RunStatus → CsvRow
  overall_row : Option ℕ → CsvRow
  blank_row : CsvRow
  score_header : CsvRow
  dimension_row : String → ℕ → ℕ → String → CsvRow
  claim_header : CsvRow
  claim_cells : String → String → ℕ → String → String → CsvRow

abbrev pub dimension_of : Score → CsvRow
dimension_of s = dimension_row s.dimension s.value s.weight s.rationale

abbrev pub cells_of : Claim → CsvRow
cells_of c =
    claim_cells c.claim_text c.category c.confidence_score c.source_reference c.verification_status

unfoldable pub csv_rows : EvaluationRun → List Score → List Claim → List CsvRow
csv_rows run scores claims =
    summary_row run.id run.status
    ∷ overall_row run.overall_score
    ∷ blank_row
    ∷ score_header
    ∷ (map dimension_of scores ++ blank_row ∷ claim_header ∷ map cells_of claims)

pub data ExportOutcome : Type 0 where
  run_not_found : ExportOutcome
  -- the format, the size, the key in the bucket, and the rows of the text
  exported : String → ℕ → String → List CsvRow → ExportOutcome

module _ (csv_length : List CsvRow → ℕ) (show_id : ℕ → String) where
  abbrev pub export_key : EvaluationRun → ℕ → String
  export_key run run_id = append_text "exports/" (
      append_text (show_id run.organization_id)
        (append_text "/" (append_text (show_id run_id) ".csv")))

  abbrev written : ℕ → String → List Claim → List Score → EvaluationRun → ExportOutcome
  written run_id format claims scores run =
      let rows = csv_rows run scores claims in
      exported format (csv_length rows) (export_key run run_id) rows

  abbrev export_found : ℕ → String → Option EvaluationRun → Session ExportOutcome
  export_found run_id format none = pure run_not_found
  export_found run_id format (some run) = do
    claims ← gets (λ w. select (λ c. c.evaluation_run_id == run_id) w.db.claims)
    scores ← gets (λ w. select (λ s. s.evaluation_run_id == run_id) w.db.scores)
    pure (written run_id format claims scores run)

  unfoldable pub export_results_csv : ℕ → String → Session ExportOutcome
  export_results_csv run_id format = transaction do
    found ← query (λ db. scalar_one_or_none (select (λ r. r.id == run_id) db.runs))
    export_found run_id format found
