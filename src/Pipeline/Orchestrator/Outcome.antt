-- ===== src/Pipeline/Orchestrator/Outcome.antt =====
-- What the orchestrator does to the run that it is given.
use ai_detention.Runs.Locking.{KeepsCore, Holds, transition_fresh}
use ai_detention.Errors.{Error, ok, retry, Result, err}
use ai_detention.Prelude.{String, refl, ℕ, ◌≡◌, true, none, false, arith, ap, some, Option, ◌==◌}
use ai_detention.Pipeline.Orchestrator.{
  set_error_message, four_workers, Context, fail_run, prepare_run, evaluate_submission, skipped,
  fail_and_retry, dispatched, context_of, start_pipeline, fail_found,
}
use ai_detention.Database.Session.{
  Session, transaction, World, handle, pure, settle, continue, ◌>>=◌,
}
use ai_detention.Models.Run.{EvaluationRun, is_terminal, RunStatus, status_is_terminal}
use ai_detention.Models.Submission.{Submission}
use ai_detention.Runs.{select_run}
use ai_detention.Database.Table.{scalar_one, select}

four_workers-KeepsCore : KeepsCore four_workers
four_workers-KeepsCore = record { id = λ r. refl; status = λ r. refl; deleted_at = λ r. refl }

set_error_message-KeepsCore : (error : String) → KeepsCore (set_error_message error)
set_error_message-KeepsCore error = record {
  id = λ r. refl;
  status = λ r. refl;
  deleted_at = λ r. refl;
}

module _ (show_error : Error → String) (dispatch : Context → Session String) (run_id : ℕ) where
  -- On a run that has ended the task returns `skipped` and changes nothing.
  evaluate_ended :
      {run : EvaluationRun} (w : World)
      → Holds run_id run w
      → is_terminal run ≡ true
      → evaluate_submission show_error dispatch run_id w ≡ (ok skipped, w)
  unfolding evaluate_submission prepare_run transaction
  evaluate_ended w held ended = rw (held, ended) refl

  -- A run that has ended stays as it is when an error is recorded; another is marked as failed.
  fail_run_ended :
      (error : String) {run : EvaluationRun} (w : World)
      → Holds run_id run w
      → is_terminal run ≡ true
      → fail_run run_id error w ≡ (ok tt, w)
  unfolding fail_run transaction
  fail_run_ended error w held ended = rw (held, ended) refl

  -- The run is in the table, once and not deleted, and has not ended.
  abbrev pub Live : World → Type 0
  Live w =
      (row : EvaluationRun) × Holds run_id row w
      × (row.deleted_at ≡ none)
      × (is_terminal row ≡ false)

  abbrev pub Failed : World → Type 0
  Failed w = (row : EvaluationRun) × Holds run_id row w × (row.status ≡ RunStatus.failed)

  fail_run-Failed : (error : String) (w : World) → Live w → Failed (fail_run run_id error w).1
  unfolding fail_run transaction
  fail_run-Failed error w (run, held, alive, live) =
      let (returned, held', status, deleted, next, started, ended) =
        transition_fresh run_id run.version RunStatus.failed (set_error_message error)
          (set_error_message-KeepsCore error) w held alive refl in
      rw (held, live, returned) (_, held', status)

  prepare_run-Live : (w : World) → Live w → Live (prepare_run run_id w).1
  unfolding prepare_run transaction
  prepare_run-Live w (run, held, alive, live) =
      let (returned, held', status, deleted, next, started, ended) =
        transition_fresh run_id run.version RunStatus.running four_workers four_workers-KeepsCore w
          held alive refl in
      rw (held, live, returned)
        (settled _ (scalar_one (select (λ s. s.id == run.submission_id) _))
          (_, held', deleted, refl))
    where
      settled :
          (v : World) (r : Result Submission)
          → Live v
          → Live (settle w.db (continue r (λ s. pure (some (context_of run_id run s))) v)).1
      settled v (ok s) live_v = live_v
      settled v (err e) live_v = (run, held, alive, live)

  fail_run-ok : (error : String) (w : World) → (fail_run run_id error w).0 ≡ ok tt
  unfolding fail_run
  fail_run-ok error w = go (transaction (select_run run_id >>= fail_found run_id error) w)
    where
      go : (r : Result (Unit {0}) × World) → (handle r.0 (λ e. pure tt) r.1).0 ≡ ok tt
      go (ok u, v) = refl
      go (err e, v) = refl

  abbrev Retried : Error → World → Type 0
  Retried e w =
      ((cause : Error) × (e ≡ retry cause))
      × Failed w
      × (evaluate_submission show_error dispatch run_id w ≡ (ok skipped, w))

  after_failure :
      (cause e : Error) (v : World)
      → Live v
      → (fail_and_retry show_error dispatch run_id cause v).0 ≡ err e
      → Retried e (fail_and_retry show_error dispatch run_id cause v).1
  after_failure cause e v live h =
      let (row, held, status) = fail_run-Failed (show_error cause) v live in
      rw (fail_run-ok (show_error cause) v) (
        (cause, ground (arith, fail_run-ok (show_error cause) v)),
        (row, held, status),
        evaluate_ended (fail_run run_id (show_error cause) v).1 held (ap status_is_terminal status),
      )

  -- Let the run be in the table, once and not deleted, and not ended, and let Celery's dispatch leave
  -- the database alone. If the task raises, what it raises is a request to retry, the run is then
  -- marked as failed, and each further call of the task, as the retry makes it, returns `skipped` and
  -- changes nothing.
  pub retry_skips :
      ((context : Context) (v : World) → (dispatch context v).1.db ≡ v.db)
      → {run : EvaluationRun} (w : World) → Holds run_id run w
      → run.deleted_at ≡ none
      → is_terminal run ≡ false
      → {e : Error} → (evaluate_submission show_error dispatch run_id w).0 ≡ err e
      → let w' = (evaluate_submission show_error dispatch run_id w).1 in
        ((cause : Error) × (e ≡ retry cause))
        × ((row : EvaluationRun) × Holds run_id row w' × (row.status ≡ RunStatus.failed))
        × (evaluate_submission show_error dispatch run_id w' ≡ (ok skipped, w'))
  unfolding evaluate_submission
  retry_skips keeps_db {run} w held alive live {e} h =
      go (prepare_run run_id w) (prepare_run-Live w (run, held, alive, live)) h
    where
      dispatched_as :
          (r : Result String × World)
          → Live r.1
          → (handle
              (continue r.0 (λ id. pure (dispatched run_id id)) r.1).0
              (fail_and_retry show_error dispatch run_id)
              (continue r.0 (λ id. pure (dispatched run_id id)) r.1).1).0
            ≡ err e
          → Retried e
              (handle
                (continue r.0 (λ id. pure (dispatched run_id id)) r.1).0
                (fail_and_retry show_error dispatch run_id)
                (continue r.0 (λ id. pure (dispatched run_id id)) r.1).1).1
      dispatched_as (ok id, v) live_v h = absurd (ground arith)
      dispatched_as (err x, v) live_v h = after_failure x e v live_v h

      go :
          (r : Result (Option Context) × World)
          → Live r.1
          → (handle
              (continue r.0 (start_pipeline show_error dispatch run_id) r.1).0
              (fail_and_retry show_error dispatch run_id)
              (continue r.0 (start_pipeline show_error dispatch run_id) r.1).1).0
            ≡ err e
          → Retried e
              (handle
                (continue r.0 (start_pipeline show_error dispatch run_id) r.1).0
                (fail_and_retry show_error dispatch run_id)
                (continue r.0 (start_pipeline show_error dispatch run_id) r.1).1).1
      go (err x, v) live_v h = after_failure x e v live_v h
      go (ok none, v) live_v h = absurd (ground arith)
      go (ok (some c), v) (row, held_v, alive_v, unended) h =
          dispatched_as (dispatch c v) (row, rw (keeps_db c v) held_v, alive_v, unended) h
