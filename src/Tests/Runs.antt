-- ===== src/Tests/Runs.antt =====
-- The optimistic lock, the shared run and cancelling at a sample run.
use ai_detention.Database.Table.{select, count}
use ai_detention.Tests.Samples.{world_with, set_score, sample_run, set_score-KeepsCore}
use ai_detention.Runs.{transition_status, update_with_optimistic_lock, locked_values}
use ai_detention.Models.Run.{EvaluationRun, RunStatus, is_terminal}
use ai_detention.Evaluations.{cancel_evaluation_run}
use ai_detention.Runs.Locking.{Holds, no_lost_update}
use ai_detention.Prelude.{◌≡◌, none, true, [], refl}
use ai_detention.Errors.{ok, err, app, conflict, concurrent_modification}
use ai_detention.Evaluations.Cancel.{cancel_overwritten}
use ai_detention.Runs.Protocol.{here, next, read, terminal_absorbs}
use ai_detention.Database.Session.{World}
use ai_detention.Cleanup.{cleanup_stale_runs, is_stale, timed_out}
use ai_detention.Cleanup.Stale.{stale_overwritten}

terminal_absorbs_example :
    (now : EvaluationRun) × Holds 1 now (world_with RunStatus.running)
    × (now.deleted_at ≡ none)
    × (is_terminal now ≡ true → Holds 1 now (world_with RunStatus.running))
unfolding select
terminal_absorbs_example =
    terminal_absorbs 1 {start = record { world = world_with RunStatus.running; held = [] }}
      (sample_run RunStatus.running) refl refl refl here
      (next here (
        read (record { world = world_with RunStatus.running; held = [] })
          (sample_run RunStatus.running) refl refl))

no_lost_update_example :
    let w = world_with RunStatus.running in
    let w' = (update_with_optimistic_lock 1 3 set_score w).1 in
    (update_with_optimistic_lock 1 3 set_score w).0
      ≡ ok (locked_values 100 3 set_score (sample_run RunStatus.running))
    × update_with_optimistic_lock 1 3 set_score w'
      ≡ (err (app (conflict (concurrent_modification 1 3))), w')
unfolding select
no_lost_update_example =
    no_lost_update 1 set_score set_score {run = sample_run RunStatus.running}
      (world_with RunStatus.running) refl refl (λ r. refl) (λ r. refl) (λ r. refl)

cancel_overwritten_example :
    let w' = (cancel_evaluation_run 1 7 9 (world_with RunStatus.running)).1 in
    (row : EvaluationRun) × ((transition_status 1 3 RunStatus.completed set_score w').0 ≡ ok row)
    × (row.status ≡ RunStatus.completed)
unfolding select
cancel_overwritten_example =
    cancel_overwritten 1 7 9 {run = sample_run RunStatus.running} (world_with RunStatus.running)
      refl refl refl set_score set_score-KeepsCore refl

abbrev next_day : World
next_day = record (world_with RunStatus.running) { now = 100000 }

stale_overwritten_example :
    let (r, w') = cleanup_stale_runs next_day in
    (r ≡ ok (count (is_stale 100000) next_day.db.runs))
    × (count (is_stale 100000) w'.db.runs ≡ 0)
    × Holds 1 (timed_out 100000 (sample_run RunStatus.running)) w'
    × ((row : EvaluationRun) × ((transition_status 1 3 RunStatus.completed set_score w').0 ≡ ok row)
        × (row.status ≡ RunStatus.completed))
unfolding select
stale_overwritten_example =
    stale_overwritten 1 set_score {run = sample_run RunStatus.running} next_day refl refl refl
      set_score-KeepsCore
