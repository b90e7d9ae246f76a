-- ===== src/TaskMetrics/Counting.antt =====
-- Each run of a task is counted once.
use ai_detention.TaskMetrics.{
  Timing, put, get_time, pop_time, on_task_prerun, on_task_postrun, on_task_failure, name_of,
  status_or_success,
}
use ai_detention.Prelude.{
  String, Option, ℕ, List, ◌≡◌, none, some, str_eq_refl, ◌-◌, ◌∷◌, refl, arith, [],
}

get-put : (key : String) (v : ℕ) (d : List (String × ℕ)) → get_time key (put key v d) ≡ some v
unfolding get_time put
get-put key v [] = rw (str_eq_refl key) refl
get-put key v ((k, x) ∷ rest) = ground (arith, get-put key v rest, str_eq_refl key)

pop-put :
    (key : String) (v : ℕ) (d : List (String × ℕ))
    → get_time key d ≡ none
    → pop_time key (put key v d) ≡ d
unfolding get_time put pop_time
pop-put key v [] h = rw (str_eq_refl key) refl
pop-put key v ((k, x) ∷ rest) h = ground (arith, pop-put key v rest, str_eq_refl key)

module _ (sender state : Option String) (task_id : String) (started ended : ℕ) (m : Timing)
    (fresh : get_time task_id m.start_times ≡ none) where
  -- A task that is not running runs: prerun, failure if it fails, postrun. Whether it fails or
  -- not, one observation is made, with its name, its time and the status FAILURE or its state,
  -- and the start times are as before.
  pub counted_once :
      (on_task_postrun sender task_id state ended (on_task_prerun task_id started m) ≡ record m {
        observed =
            record {
              task_name = name_of sender;
              status = status_or_success state;
              duration = ended - started;
            }
            ∷ m.observed;
      })
      × ((later : ℕ)
          → on_task_postrun sender task_id state later
              (on_task_failure sender task_id ended (on_task_prerun task_id started m))
            ≡ record m {
              observed =
                  record {
                    task_name = name_of sender;
                    status = "FAILURE";
                    duration = ended - started;
                  }
                  ∷ m.observed;
            })
  unfolding on_task_prerun on_task_postrun on_task_failure
  counted_once = (
    rw (get-put task_id started m.start_times, pop-put task_id started m.start_times fresh) refl,
    λ later.
        rw
          (
            get-put task_id started m.start_times,
            pop-put task_id started m.start_times fresh,
            fresh,
          )
          refl,
  )
