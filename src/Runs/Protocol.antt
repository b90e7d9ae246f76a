-- ===== src/Runs/Protocol.antt =====
-- Workers that share one run: each reads it, goes on only if it has not ended, and later writes a
-- status at the version that it read (`_prepare_run`, `_fail_run`, `_finalize` and their callers).
-- Reads and writes of any number of workers interleave in any order.
use mathlib.Core.List.{Memᴰ}
use ai_detention.Prelude.{
  ℕ, List, ◌≤◌, ◌≡◌, none, false, All, some, ◌∷◌, Bool-cases, true, refl, ◌==◌, ap, arith, ◌∙◌, [],
  inl, All-map, inr,
}
use ai_detention.Database.Session.{World}
use ai_detention.Models.Run.{EvaluationRun, is_terminal, RunStatus}
use ai_detention.Runs.{select_run, transition_status, locked_values, stamp}
use ai_detention.Runs.Locking.{Holds, KeepsCore, transition_fresh, transition_stale}
use ai_detention.Errors.{ok}

pub record System : Type 0 where
  pub world : World
  -- the versions that workers have read of a run that had not ended, and may still write at
  pub held : List ℕ

module _ (run_id : ℕ) where
  pub data Step : System → System → Type 0 where
    read :
        (s : System) (run : EvaluationRun)
        → select_run run_id s.world ≡ (ok (some run), s.world)
        → is_terminal run ≡ false
        → Step s (record s { held = run.version ∷ s.held })
    write :
        (s : System) (version : ℕ) (status : RunStatus) (extra : EvaluationRun → EvaluationRun)
        → KeepsCore extra
        → Memᴰ version s.held
        → Step s (record s { world = (transition_status run_id version status extra s.world).1 })

  pub data Reach (s : System) : System → Type 0 where
    here : Reach s s
    next : {t u : System} → Reach s t → Step t u → Reach s u

  -- A version that a worker holds is not past the run's, and is the run's own only if the run has
  -- not ended.
  abbrev IsFair : EvaluationRun → ℕ → Type 0
  IsFair run v = (v ≤ run.version) × (v ≡ run.version → is_terminal run ≡ false)

  -- The invariant: the table holds the one row of the run, and all versions held are fair.
  abbrev pub IsFairSystem : EvaluationRun → System → Type 0
  IsFairSystem run s = Holds run_id run s.world × (run.deleted_at ≡ none) × All (IsFair run) s.held

  IsFair-mem :
      (run : EvaluationRun) (v : ℕ) (held : List ℕ)
      → All (IsFair run) held
      → Memᴰ v held
      → IsFair run v
  IsFair-mem run v [] h m = elim m [ ]
  IsFair-mem run v (x ∷ xs) h (Memᴰ.head e) = rw e h.0
  IsFair-mem run v (x ∷ xs) h (Memᴰ.tail m) = IsFair-mem run v xs h.1 m

  abbrev Kept : EvaluationRun → System → Type 0
  Kept run t = (run' : EvaluationRun) × IsFairSystem run' t × (is_terminal run ≡ true → run' ≡ run)

  write-IsFairSystem :
      (s : System) (version : ℕ) (status : RunStatus) (extra : EvaluationRun → EvaluationRun)
      (run : EvaluationRun)
      → KeepsCore extra
      → IsFair run version
      → IsFairSystem run s
      → Kept run (record s { world = (transition_status run_id version status extra s.world).1 })
  write-IsFairSystem s version status extra run keeps fair (held, alive, all_fair) =
      elim (Bool-cases (run.version == version)) [
        | inl same ↦
            let (returned, held', st, alive', ver, _, _) =
              transition_fresh run_id version status extra keeps s.world held alive
                (ground arith) in
            (
              locked_values s.world.now version
                  (λ r. stamp status s.world.now (extra (record r { status = status }))) run,
              (held', alive', All-map _ _ (λ v f. (ground arith)) s.held all_fair),
              λ e. ground arith,
            )
        | inr other ↦
            rw
              (transition_stale run_id version status extra keeps s.world held alive (ground arith))
              (run, (held, alive, all_fair), λ e. refl)
      ]

  seen-run :
      (s : System) {run seen : EvaluationRun}
      → Holds run_id run s.world
      → select_run run_id s.world ≡ (ok (some seen), s.world)
      → seen ≡ run
  seen-run s held found = cc (held, ap (λ r. r.0) found)

  Step-Kept : {s t : System} (run : EvaluationRun) → Step s t → IsFairSystem run s → Kept run t
  Step-Kept run (read s seen found live) h =
      let same : seen ≡ run = seen-run s h.0 found in
      (run, (h.0, h.1, ((rw same (omega arith), λ e. rw (← same) live), h.2)), λ e. refl)
  Step-Kept run (write s version status extra keeps m) h =
      write-IsFairSystem s version status extra run keeps (IsFair-mem run version s.held h.2 m) h

  Reach-IsFairSystem :
      {s t : System} (run : EvaluationRun)
      → Reach s t
      → IsFairSystem run s
      → (run' : EvaluationRun) × IsFairSystem run' t × (is_terminal run ≡ true → run' ≡ run)
  Reach-IsFairSystem run here h = (run, h, λ e. refl)
  Reach-IsFairSystem run (next r st) h =
      let (mid, fair, kept) = Reach-IsFairSystem run r h in
      let (last, fair', kept') = Step-Kept mid st fair in
      (last, fair', λ e. kept' (rw (kept e) e) ∙ kept e)

-- From a run that no worker has read yet, whatever reads and guarded writes of any number of
-- workers follow in whatever order: the run's row is still there, exactly once and not deleted, and
-- once it has ended no later read or write changes it.
pub terminal_absorbs :
    (run_id : ℕ) {start s t : System} (run : EvaluationRun)
    → Holds run_id run start.world
    → run.deleted_at ≡ none
    → start.held ≡ []
    → Reach run_id start s
    → Reach run_id s t
    → (now : EvaluationRun) × Holds run_id now s.world
      × (now.deleted_at ≡ none)
      × (is_terminal now ≡ true → Holds run_id now t.world)
terminal_absorbs run_id {start} run held alive none_held before after =
    let (now, fair, _) = Reach-IsFairSystem run_id run before (held, alive, rw none_held tt) in
    let (last, fair', kept) = Reach-IsFairSystem run_id now after fair in
    (now, fair.0, fair.1, λ e. rw (← (kept e)) fair'.0)
