-- ===== src/Pipeline/BaseTask/Idempotent.antt =====
-- A task that has completed is not executed again.
use ai_detention.Errors.{
  Error, ok, Result, err, is_ok, soft_time_limit_exceeded, max_retries_exceeded,
}
use ai_detention.Prelude.{
  String, ℕ, ◌≡◌, ◌∷◌, [], arith, refl, Option, some, none, ap, sym, ◌∙◌, false, non_empty,
}
use ai_detention.Database.Session.{
  World, Session, transaction, continue, ◌>>◌, pure, attempt, handle,
}
use ai_detention.Models.Run.{WorkerResult, Json, WorkerStatus}
use ai_detention.Pipeline.BaseTask.{
  create_worker_result, mark_completed, completed_result, run_uncached, on_error, run_task,
  check_idempotent, mark_failed, use_cached, output_of,
}
use ai_detention.Database.Table.{select, scalar_one_or_none}
use ai_detention.Pipeline.BaseTask.Rows.{own, marked, OneRow, created}

module _ (show_error : Error → String) (worker_type : String) (run_id : ℕ) where
  abbrev Cached : Json → World → Type 0
  Cached output v =
      (row : WorkerResult) × (scalar_one_or_none
          (select (completed_result show_error worker_type run_id) v.db.worker_results)
        ≡ ok (some row))
      × (row.output_data ≡ output)

  module _ (execute : Session Json) (new_id : ℕ) (task_id hostname : String)
      (keeps : (v : World) → (execute v).1.db.worker_results ≡ v.db.worker_results) where
    abbrev creating : Session (Unit {0})
    creating = create_worker_result show_error worker_type run_id new_id task_id hostname

    abbrev uncached : Session Json
    uncached = run_uncached show_error worker_type run_id execute new_id task_id hostname

    -- An execution that succeeds leaves its output in the cache.
    uncached-Cached :
        (w : World) {output : Json} → (uncached w).0 ≡ ok output → Cached output (uncached w).1
    unfolding transaction mark_completed
    uncached-Cached w {output} h = go (creating w) refl h
      where
        finish :
            (x : Result Json × World) {v : World}
            → execute v ≡ x
            → (row : WorkerResult) × (select (own show_error worker_type run_id) v.db.worker_results
                ≡ row ∷ [])
            → (continue x.0
                (λ result.
                  transaction (mark_completed show_error worker_type run_id result) >> pure result)
                x.1).0
              ≡ ok output
            → Cached output
                (continue x.0
                  (λ result.
                    transaction (mark_completed show_error worker_type run_id result)
                    >> pure result)
                  x.1).1
        finish (err e, v2) ran one h = cc
        finish (ok out, v2) {v} ran (row, one) h =
            let same = ap (λ r. r.1.db.worker_results) (sym ran) ∙ keeps v in
            (
              record row { status = WorkerStatus.completed; output_data = out },
              rw (marked show_error worker_type run_id out v2 {row = row} (rw same one)) refl,
              cc,
            )

        one_row :
            OneRow show_error worker_type run_id new_id task_id hostname w
            → {x : Result (Unit {0})} {v : World} → creating w ≡ (x, v)
            → (row : WorkerResult) × (select (own show_error worker_type run_id) v.db.worker_results
                ≡ row ∷ [])
        one_row (row, one) made = (
          row,
          sym (ap (λ r. select (own show_error worker_type run_id) r.1.db.worker_results) made)
              ∙ one,
        )

        go :
            (r : Result (Unit {0}) × World)
            → creating w ≡ r
            → (uncached w).0 ≡ ok output
            → Cached output (uncached w).1
        go (err e, v1) made h = absurd (ground arith)
        go (ok unit, v1) made h = rw made (
            finish (execute v1) refl
              (one_row
                (created show_error worker_type run_id new_id task_id hostname w
                  (ap (λ r. r.0) made))
                made)
              (rw made at h))

    abbrev task : Session Json
    task = run_task show_error worker_type run_id execute new_id task_id hostname

    on_error-err :
        (e : Error) (v : World) → is_ok (on_error show_error worker_type run_id e v).0 ≡ false
    unfolding on_error transaction mark_failed
    on_error-err soft_time_limit_exceeded v = refl
    on_error-err max_retries_exceeded v = refl
    on_error-err e v = refl

    abbrev tried : Session Json
    tried = attempt uncached (on_error show_error worker_type run_id)

    tried-Cached : (w : World) {output : Json} → (tried w).0 ≡ ok output → Cached output (tried w).1
    tried-Cached w {output} h = go (uncached w) (uncached-Cached w) h
      where
        go :
            (r : Result Json × World)
            → (r.0 ≡ ok output → Cached output r.1)
            → (handle r.0 (on_error show_error worker_type run_id) r.1).0 ≡ ok output
            → Cached output (handle r.0 (on_error show_error worker_type run_id) r.1).1
        go (ok out, v) kept h = kept h
        go (err e, v) kept h = absurd (ground (arith, on_error-err e v))

    abbrev looked_up : World → Result (Option WorkerResult)
    looked_up v =
        scalar_one_or_none
          (select (completed_result show_error worker_type run_id) v.db.worker_results)

    -- What `run` does once the cache has been read.
    task_of_lookup :
        (w : World) (r : Result (Option WorkerResult))
        → looked_up w ≡ r
        → task w
          ≡ attempt
              (λ v.
                continue r
                  (λ row.
                    use_cached show_error worker_type run_id execute new_id task_id hostname
                      (output_of show_error worker_type run_id row))
                  v)
              (on_error show_error worker_type run_id)
              w
    unfolding run_task transaction check_idempotent
    task_of_lookup w (err e) found = rw found refl
    task_of_lookup w (ok none) found = rw found refl
    task_of_lookup w (ok (some row)) found = rw found refl

    abbrev served : Json → Session Json
    served stored =
        attempt
          (use_cached show_error worker_type run_id execute new_id task_id hostname
            (non_empty stored))
          (on_error show_error worker_type run_id)

    served-Cached :
        (w : World) (row : WorkerResult) {output : Json}
        → looked_up w ≡ ok (some row)
        → (stored : Json) → row.output_data ≡ stored
        → (served stored w).0 ≡ ok output
        → Cached output (served stored w).1
    served-Cached w row found [] same h = tried-Cached w h
    served-Cached w row found (x ∷ xs) same h = (row, found, ground arith)

    task-Cached : (w : World) {output : Json} → (task w).0 ≡ ok output → Cached output (task w).1
    task-Cached w {output} h = go (looked_up w) refl (rw (task_of_lookup w (looked_up w) refl) at h)
      where
        go :
            (r : Result (Option WorkerResult))
            → looked_up w ≡ r
            → (attempt
                (λ v.
                  continue r
                    (λ row.
                      use_cached show_error worker_type run_id execute new_id task_id hostname
                        (output_of show_error worker_type run_id row))
                    v)
                (on_error show_error worker_type run_id)
                w).0
              ≡ ok output
            → Cached output (task w).1
        go (err e) found h = absurd (ground (arith, on_error-err e w))
        go (ok none) found h = rw (task_of_lookup w (ok none) found) (tried-Cached w h)
        go (ok (some row)) found h =
            rw (task_of_lookup w (ok (some row)) found)
              (served-Cached w row found row.output_data refl h)

  -- For a task that goes through `run`: let it return an output that is not empty, where its `execute` leaves the worker
  -- results alone. Then each later run of the same task, whatever its `execute` would do, returns the
  -- same output and changes neither the database nor what has been sent.
  rerun_cached :
      (execute : Session Json) (new_id : ℕ) (task_id hostname : String)
      → ((v : World) → (execute v).1.db.worker_results ≡ v.db.worker_results)
      → (w : World) {output : Json}
      → (run_task show_error worker_type run_id execute new_id task_id hostname w).0 ≡ ok output
      → non_empty output ≡ some output
      → (again : Session Json) (id' : ℕ) (task_id' hostname' : String)
      → let v = (run_task show_error worker_type run_id execute new_id task_id hostname w).1 in
        run_task show_error worker_type run_id again id' task_id' hostname' v ≡ (ok output, v)
  unfolding run_task transaction check_idempotent
  rerun_cached execute new_id task_id hostname keeps w {output} h full again id' task_id'
        hostname' =
      go (task-Cached execute new_id task_id hostname keeps w h)
    where
      go :
          {v : World}
          → Cached output v
          → run_task show_error worker_type run_id again id' task_id' hostname' v ≡ (ok output, v)
      go (row, found, same) = rw (found, same, full) refl
