-- ===== src/TaskMetrics.antt =====
-- The signal handlers of src/workers/celery_app.py, which time and count Celery's tasks, and the
-- routing of tasks to queues. Celery calls the handlers of a task: prerun, then failure if the task
-- failed, then postrun. A reading of the clock is an argument; the metrics themselves do not fail.
pub mod Counting
use Prim.Native.Char.{Char, code}
use ai_detention.Prelude.{
  List, String, Option, if◌then◌else◌, Bool, some, ◌∷◌, ℕ, [], ◌-◌, str_eq, ◌==◌, false, none, ◌||◌,
}
use ai_detention.Prelude.Text.{is_empty}

pub record Observed : Type 0 where
  pub task_name : String
  pub status : String
  pub duration : ℕ

-- `_task_start_times`, a dict, and what the metrics have observed, newest first.
pub record Timing : Type 0 where
  pub start_times : List (String × ℕ)
  pub observed : List Observed

-- d[key] = value
unfoldable pub put : String → ℕ → List (String × ℕ) → List (String × ℕ)
put key value [] = (key, value) ∷ []
put key value ((k, v) ∷ rest) =
    let later = put key value rest in if str_eq k key then (key, value) ∷ rest else (k, v) ∷ later

-- d.get(key), and d without the key
unfoldable pub get_time : String → List (String × ℕ) → Option ℕ
get_time key [] = none
get_time key ((k, v) ∷ rest) =
    let later = get_time key rest in if str_eq k key then some v else later

unfoldable pub pop_time : String → List (String × ℕ) → List (String × ℕ)
pop_time key [] = []
pop_time key ((k, v) ∷ rest) =
    let later = pop_time key rest in if str_eq k key then rest else (k, v) ∷ later

-- "." in name
abbrev has_dot : String → Bool
has_dot String.[] = false
has_dot (String.◌∷◌ c s) = code c == 46 || has_dot s

-- name.rsplit(".", 1)[-1] if "." in name else name
unfoldable pub short_task_name : String → String
short_task_name String.[] = String.[]
short_task_name (String.◌∷◌ c s) =
    let rest = short_task_name s in
    if has_dot s then rest else (if code c == 46 then s else String.◌∷◌ c s)

-- sender.name if there is a sender
abbrev pub name_of : Option String → String
name_of none = "unknown"
name_of (some name) = short_task_name name

unfoldable pub on_task_prerun : String → ℕ → Timing → Timing
unfolding put
on_task_prerun task_id now m = record m { start_times = put task_id now m.start_times }

abbrev observe : Option ℕ → String → Option String → String → ℕ → Timing → Timing
observe none task_id sender status now m = m
observe (some start) task_id sender status now m = record {
  start_times = pop_time task_id m.start_times;
  observed =
      record { task_name = name_of sender; status = status; duration = now - start } ∷ m.observed;
}

-- state or "SUCCESS"
abbrev pub status_or_success : Option String → String
status_or_success none = "SUCCESS"
status_or_success (some state) = if is_empty state then "SUCCESS" else state

unfoldable pub on_task_postrun : Option String → String → Option String → ℕ → Timing → Timing
unfolding get_time
on_task_postrun sender task_id state now m =
    observe (get_time task_id m.start_times) task_id sender (status_or_success state) now m

unfoldable pub on_task_failure : Option String → String → ℕ → Timing → Timing
unfolding get_time
on_task_failure sender task_id now m =
    observe (get_time task_id m.start_times) task_id sender "FAILURE" now m

-- task_routes and task_default_queue
abbrev pub task_routes : List (String × String)
task_routes =
    ("src.workers.tasks.orchestrator.evaluate_submission", "high_priority")
    ∷ ("src.workers.tasks.finalize.finalize_and_notify_task", "high_priority")
    ∷ ("src.workers.tasks.github_analysis.github_analysis_task", "analysis")
    ∷ ("src.workers.tasks.pitch_deck.pitch_deck_task", "analysis")
    ∷ ("src.workers.tasks.video_analysis.video_analysis_task", "analysis")
    ∷ ("src.workers.tasks.web_verification.web_verification_task", "analysis")
    ∷ ("src.workers.tasks.cross_check.cross_check_task", "ai_inference")
    ∷ ("src.workers.tasks.fabrication.fabrication_detection_task", "ai_inference")
    ∷ ("src.workers.tasks.llm_judge.llm_judge_task", "ai_inference")
    ∷ ("src.workers.tasks.export.export_results_task", "export")
    ∷ []

unfoldable pub queue_from : List (String × String) → String → String
queue_from [] task = "analysis"
queue_from ((name, queue) ∷ routes) task =
    let later = queue_from routes task in if str_eq name task then queue else later

unfoldable pub queue_of : String → String
unfolding queue_from
queue_of task = queue_from task_routes task
