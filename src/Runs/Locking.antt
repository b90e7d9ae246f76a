-- ===== src/Runs/Locking.antt =====
-- What the optimistic lock of `update_with_optimistic_lock` guarantees: a write at the version that
-- was read goes through, any other changes nothing, and of two writes at one version one fails.
use ai_detention.Database.Repository
use ai_detention.Runs.{
  run_model, lock_matches, locked_values, update_with_optimistic_lock, transition_status, stamp,
}
use ai_detention.Prelude.{
  ℕ, Bool, ◌≡◌, none, ◌≢◌, ◌∷◌, [], arith, ◌==◌, true, ap, All, refl, ◌∙◌, ◌+◌, some,
}
use ai_detention.Models.Run.{EvaluationRun, RunStatus, running, status_is_terminal}
use ai_detention.Database.Session.{World}
use ai_detention.Database.Table.{
  select, select-select, update_where, update_where-nil, All-select, select-update_where_keep,
}
use ai_detention.Errors.{ok, err, app, conflict, concurrent_modification}
use ai_detention.Database.Repository.{exists, exists_conditions}

module _ (run_id : ℕ) where
  abbrev pub has_id : EvaluationRun → Bool
  has_id r = r.id == run_id

  -- The table has exactly one row of the id, `run`.
  abbrev pub Holds : EvaluationRun → World → Type 0
  Holds run w = select has_id w.db.runs ≡ run ∷ []

  pub Holds-id : {run : EvaluationRun} (w : World) → Holds run w → has_id run ≡ true
  unfolding select
  Holds-id w held =
      ground (arith, ap (All (λ x. has_id x ≡ true)) held, All-select has_id w.db.runs)

module _ (run_id version : ℕ) (values : EvaluationRun → EvaluationRun)
    (keeps_id : (r : EvaluationRun) → (values r).id ≡ r.id) {run : EvaluationRun} (w : World)
    (held : Holds run_id run w) where
  matches-select :
      select (lock_matches run_id version) w.db.runs
      ≡ select (lock_matches run_id version) (run ∷ [])
  matches-select =
      rw (← held) (
        select-select (has_id run_id) (lock_matches run_id version) w.db.runs (λ x h. ground arith))

  exists-held : run.deleted_at ≡ none → Repository.exists run_model run_id none w.db.runs ≡ true
  unfolding exists select
  exists-held d =
      rw
        (
          select-select (has_id run_id) (exists_conditions run_model run_id none) w.db.runs
              (λ x h. ground arith),
          held,
        )
        (ground (arith, Holds-id run_id w held))

  rows-fresh :
      run.version ≡ version
      → run.deleted_at ≡ none
      → select (lock_matches run_id version) w.db.runs ≡ run ∷ []
  unfolding select
  rows-fresh v d = rw matches-select (ground (arith, Holds-id run_id w held))

  rows-stale : run.version ≢ version → select (lock_matches run_id version) w.db.runs ≡ []
  unfolding select
  rows-stale v = rw matches-select (ground (arith, Holds-id run_id w held))

  rows-after :
      run.version ≡ version
      → run.deleted_at ≡ none
      → let f = locked_values w.now version values in
        select (has_id run_id) (update_where (lock_matches run_id version) f w.db.runs) ≡ f run ∷ []
  unfolding update_where
  rows-after v d =
      rw
        (
          select-update_where_keep (has_id run_id) (lock_matches run_id version)
              (locked_values w.now version values) w.db.runs (λ x. ground (arith, keeps_id x)),
          held,
        )
        (ground (arith, Holds-id run_id w held))

  -- A write at the run's own version goes through: it returns the updated row, the table has it in
  -- the place of the old one, and its version is the next.
  pub update_fresh :
      run.version ≡ version
      → run.deleted_at ≡ none
      → let (r, w') = update_with_optimistic_lock run_id version values w in
        let row = locked_values w.now version values run in (r ≡ ok row) × Holds run_id row w'
  unfolding update_with_optimistic_lock
  update_fresh v d = rw (rows-fresh v d) (refl, rows-after v d)

  -- A write at any other version raises a conflict and changes nothing.
  pub update_stale :
      run.version ≢ version
      → run.deleted_at ≡ none
      → update_with_optimistic_lock run_id version values w
        ≡ (err (app (conflict (concurrent_modification run_id version))), w)
  unfolding update_with_optimistic_lock
  update_stale v d =
      rw
        (
          rows-stale v,
          update_where-nil _ (locked_values w.now version values) _ (rows-stale v),
          exists-held d,
        )
        refl

-- Of two writes that read the same version only one goes through: after the first, the second
-- raises a conflict and changes nothing.
pub no_lost_update :
    (run_id : ℕ) (first second : EvaluationRun → EvaluationRun) {run : EvaluationRun} (w : World)
    → Holds run_id run w
    → run.deleted_at ≡ none
    → ((r : EvaluationRun) → (first r).id ≡ r.id)
    → ((r : EvaluationRun) → (second r).id ≡ r.id)
    → ((r : EvaluationRun) → (first r).deleted_at ≡ r.deleted_at)
    → let w' = (update_with_optimistic_lock run_id run.version first w).1 in
      (update_with_optimistic_lock run_id run.version first w).0
        ≡ ok (locked_values w.now run.version first run)
      × update_with_optimistic_lock run_id run.version second w'
        ≡ (err (app (conflict (concurrent_modification run_id run.version))), w')
no_lost_update run_id first second {run} w held alive keep₁ keep₂ keep_deleted =
    let (returned, held') = update_fresh run_id run.version first keep₁ w held refl alive in
    (
      returned,
      update_stale run_id run.version second keep₂
          (update_with_optimistic_lock run_id run.version first w).1 held' (omega arith)
          (keep_deleted run ∙ alive),
    )

-- The columns that callers pass to `transition_status` beside the status leave a row's id, its
-- status and its deletion time alone.
pub record KeepsCore (extra : EvaluationRun → EvaluationRun) : Type 0 where
  pub id : (r : EvaluationRun) → (extra r).id ≡ r.id
  pub status : (r : EvaluationRun) → (extra r).status ≡ r.status
  pub deleted_at : (r : EvaluationRun) → (extra r).deleted_at ≡ r.deleted_at

module _ (run_id version : ℕ) (status : RunStatus) (extra : EvaluationRun → EvaluationRun)
    (keeps : KeepsCore extra) {run : EvaluationRun} (w : World) (held : Holds run_id run w)
    (alive : run.deleted_at ≡ none) where
  abbrev transition_values : EvaluationRun → EvaluationRun
  transition_values r = stamp status w.now (extra (record r { status = status }))

  stamp-id : (r : EvaluationRun) → (transition_values r).id ≡ r.id
  stamp-id r = ground (arith, keeps.id (record r { status = status }))

  -- A transition at the run's version returns the run with the new status, the next version and
  -- the time of its start or of its end; the table then holds that row.
  pub transition_fresh :
      run.version ≡ version
      → let (r, w') = transition_status run_id version status extra w in
        let row = locked_values w.now version transition_values run in
        (r ≡ ok row)
        × Holds run_id row w'
        × (row.status ≡ status)
        × (row.deleted_at ≡ none)
        × (row.version ≡ version + 1)
        × ((status ≡ running) → row.started_at ≡ some w.now)
        × ((status_is_terminal status ≡ true) → row.completed_at ≡ some w.now)
  unfolding transition_status
  transition_fresh v =
      let (returned, now_held) =
        update_fresh run_id version transition_values stamp-id w held v alive in
      (
        returned,
        now_held,
        ground (arith, keeps.status (record run { status = status })),
        ground (arith, keeps.deleted_at (record run { status = status })),
        refl,
        ground arith,
        ground arith,
      )

  -- A transition at another version raises a conflict and changes nothing.
  pub transition_stale :
      run.version ≢ version
      → transition_status run_id version status extra w
        ≡ (err (app (conflict (concurrent_modification run_id version))), w)
  unfolding transition_status
  transition_stale v = update_stale run_id version transition_values stamp-id w held v alive
