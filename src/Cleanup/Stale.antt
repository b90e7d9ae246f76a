-- ===== src/Cleanup/Stale.antt =====
-- What maintenance does to runs.
use ai_detention.Cleanup.{cleanup_stale_runs, is_stale, timed_out}
use ai_detention.Database.Session.{transaction, World}
use ai_detention.Prelude.{ℕ, ◌≡◌, none, refl, true, List, arith, ◌∷◌, []}
use ai_detention.Models.Run.{EvaluationRun, RunStatus}
use ai_detention.Runs.Locking.{Holds, KeepsCore, has_id, transition_fresh}
use ai_detention.Errors.{ok}
use ai_detention.Database.Table.{count, update_where, select-update_where_keep, select}
use ai_detention.Runs.{transition_status}

none_stale :
    (now : ℕ) (runs : List EvaluationRun)
    → count (is_stale now) (update_where (is_stale now) (timed_out now) runs) ≡ 0
unfolding select update_where
none_stale now [] = refl
none_stale now (r ∷ runs) = ground (arith, none_stale now runs)

-- `_cleanup_stale_runs` succeeds with the number of stale runs, and leaves no stale run. A
-- stale run that the table holds once is failed afterwards, but at the version that it had, so that a
-- worker's write of a completion at that version still goes through.
pub stale_overwritten :
    (run_id : ℕ) (extra : EvaluationRun → EvaluationRun) {run : EvaluationRun} (w : World)
    → Holds run_id run w
    → run.deleted_at ≡ none
    → is_stale w.now run ≡ true
    → KeepsCore extra
    → let (r, w') = cleanup_stale_runs w in
      (r ≡ ok (count (is_stale w.now) w.db.runs))
      × (count (is_stale w.now) w'.db.runs ≡ 0)
      × Holds run_id (timed_out w.now run) w'
      × ((row : EvaluationRun) × ((transition_status run_id run.version RunStatus.completed extra
              w').0
            ≡ ok row)
          × (row.status ≡ RunStatus.completed))
unfolding cleanup_stale_runs transaction
stale_overwritten run_id extra {run} w held alive stale keeps =
    let w' = (cleanup_stale_runs w).1 in
    let held' = still_held in
    let (returned, _, status, _, _, _, _) =
      transition_fresh run_id run.version RunStatus.completed extra keeps w' held' alive refl in
    (refl, none_stale w.now w.db.runs, held', (_, returned, status))
  where
    still_held : Holds run_id (timed_out w.now run) (cleanup_stale_runs w).1
    still_held =
        rw
          (
            select-update_where_keep (has_id run_id) (is_stale w.now) (timed_out w.now) w.db.runs
                (λ x. refl),
            held,
          )
          (unfold update_where in ground arith)
