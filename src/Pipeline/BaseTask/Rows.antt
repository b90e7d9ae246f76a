-- ===== src/Pipeline/BaseTask/Rows.antt =====
-- The row of a task in its run, from its creation to its completion.
use ai_detention.Errors.{Error, ok, Result, err}
use ai_detention.Prelude.{
  String, ℕ, Bool, ◌≡◌, ◌∷◌, [], arith, refl, List, Option, ◌==◌, some, none, ◌++◌, str_eq_refl,
}
use ai_detention.Database.Session.{World}
use ai_detention.Models.Run.{WorkerResult, Json, WorkerStatus, EvaluationRun}
use ai_detention.Pipeline.BaseTask.{
  own_result, create_worker_result, mark_completed, completed_result, new_result, running_result,
}
use ai_detention.Database.Table.{
  select, select-select, update_where, select-update_where_keep, selected-holds, scalar_one,
  scalar_one_or_none, found-select, select-append, missed-select,
}

module _ (show_error : Error → String) (worker_type : String) (run_id : ℕ) where
  abbrev pub own : WorkerResult → Bool
  own = own_result show_error worker_type run_id

  module _ (new_id : ℕ) (task_id hostname : String) (v : World) where
    abbrev pub after : List WorkerResult
    after =
        (create_worker_result show_error worker_type run_id new_id task_id hostname
          v).1.db.worker_results

    abbrev pub OneRow : Type 0
    OneRow = (row : WorkerResult) × (select own after ≡ row ∷ [])

    after_updated :
        {run : EvaluationRun} {wr : WorkerResult}
        → scalar_one (select (λ r. r.id == run_id) v.db.runs) ≡ ok run
        → scalar_one_or_none (select own v.db.worker_results) ≡ ok (some wr)
        → after
          ≡ update_where
              (λ x. x.id == wr.id)
              (running_result show_error worker_type run_id task_id hostname)
              v.db.worker_results
    unfolding create_worker_result
    after_updated run_found found = ground arith

    after_inserted :
        {run : EvaluationRun}
        → scalar_one (select (λ r. r.id == run_id) v.db.runs) ≡ ok run
        → scalar_one_or_none (select own v.db.worker_results) ≡ ok none
        → after
          ≡ v.db.worker_results
            ++ new_result show_error worker_type run_id new_id run.organization_id task_id hostname
              ∷ []
    unfolding create_worker_result
    after_inserted run_found missed = ground arith

    updated :
        {run : EvaluationRun} {wr : WorkerResult}
        → scalar_one (select (λ r. r.id == run_id) v.db.runs) ≡ ok run
        → scalar_one_or_none (select own v.db.worker_results) ≡ ok (some wr)
        → OneRow
    updated {wr} run_found found = (
      running_result show_error worker_type run_id task_id hostname wr,
      rw
          (
            after_updated run_found found,
            select-update_where_keep own (λ x. x.id == wr.id)
                (running_result show_error worker_type run_id task_id hostname) v.db.worker_results
                (λ x. refl),
            found-select own v.db.worker_results found,
          )
          (unfold update_where in ground arith),
    )

    inserted :
        {run : EvaluationRun}
        → scalar_one (select (λ r. r.id == run_id) v.db.runs) ≡ ok run
        → scalar_one_or_none (select own v.db.worker_results) ≡ ok none
        → OneRow
    inserted {run} run_found missed =
        let row =
          new_result show_error worker_type run_id new_id run.organization_id task_id hostname in
        (
          row,
          rw
              (
                after_inserted run_found missed,
                select-append own v.db.worker_results (row ∷ []),
                missed-select own v.db.worker_results missed,
              )
              (unfold select in ground (arith, str_eq_refl worker_type)),
        )

    -- Creating the record of a task leaves exactly one row of the task in the run.
    pub created :
        (create_worker_result show_error worker_type run_id new_id task_id hostname v).0 ≡ ok tt
        → OneRow
    unfolding create_worker_result
    created h =
        go (scalar_one (select (λ r. r.id == run_id) v.db.runs))
          (scalar_one_or_none (select own v.db.worker_results)) refl refl h
      where
        go :
            (r : Result EvaluationRun) (x : Result (Option WorkerResult))
            → scalar_one (select (λ r. r.id == run_id) v.db.runs) ≡ r
            → scalar_one_or_none (select own v.db.worker_results) ≡ x
            → (create_worker_result show_error worker_type run_id new_id task_id hostname v).0
              ≡ ok tt
            → OneRow
        go (ok run) (ok (some wr)) e f h = updated e f
        go (ok run) (ok none) e f h = inserted e f
        go (ok run) (err x) e f h = absurd (ground arith)
        go (err x) y e f h = absurd (ground arith)

  -- Marking it as completed leaves that row completed, with the output.
  pub marked :
      (output : Json) (v : World) {row : WorkerResult}
      → select own v.db.worker_results ≡ row ∷ []
      → select
          (completed_result show_error worker_type run_id)
          (mark_completed show_error worker_type run_id output v).1.db.worker_results
        ≡ record row { status = WorkerStatus.completed; output_data = output } ∷ []
  unfolding mark_completed
  marked output v {row} one =
      rw
        (
          select-select own (completed_result show_error worker_type run_id)
              (update_where own
                (λ wr. record wr { status = WorkerStatus.completed; output_data = output })
                v.db.worker_results)
              (λ x h. ground arith),
          select-update_where_keep own own
              (λ wr. record wr { status = WorkerStatus.completed; output_data = output })
              v.db.worker_results (λ x. refl),
          one,
        )
        (unfold select update_where in ground (arith, selected-holds own v.db.worker_results one))
