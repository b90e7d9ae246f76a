-- ===== src/Tests/Http.antt =====
-- Requests, log lines and tasks at concrete inputs.
use ai_detention.Middleware.{HttpRequest, HttpResponse, responded, Http}
use ai_detention.Middleware.Stack.{handle_http, Router}
use ai_detention.Middleware.Stack.Passes.{passed_counted, IsHandled, IsRestored}
use ai_detention.Middleware.Paths.{normalize_path, sub_numbers, is_excluded}
use ai_detention.Masking.{LogValue, text, TokenPattern, sensitive_field_masker}
use ai_detention.Masking.Blind.{masked_blind}
use ai_detention.TaskMetrics.{
  Timing, on_task_prerun, on_task_postrun, on_task_failure, get_time, short_task_name,
}
use ai_detention.TaskMetrics.Counting.{counted_once}
use ai_detention.RateLimiter.{Settings, zremrangebyscore}
use ai_detention.RateLimiter
use Prim.Native.Char.{Char, code}
use ai_detention.Validators.{starts_with}
use ai_detention.Prelude.{
  some, String, ◌≡◌, none, false, true, Bool, [], ◌∷◌, List, ℕ, refl, leb, inr, inl, ◌&&◌, arith,
}

abbrev is_ascii_digit : Char → Bool
is_ascii_digit c = leb 48 (code c) && leb (code c) 57

abbrev endpoint : String → String
endpoint path = normalize_path (λ s. s) is_ascii_digit path

endpoint_of_run : endpoint "/api/v1/runs/456/7a/12" ≡ "/api/v1/runs/:id/7a/:id"
unfolding normalize_path sub_numbers
endpoint_of_run = refl

health_is_counted : is_excluded "/api/v1/health/live" ≡ false
unfolding is_excluded starts_with
health_is_counted = refl

abbrev sample_request : HttpRequest
sample_request = record {
  method = "POST";
  path = "/api/v1/runs/456";
  client = some "10.0.0.9";
  x_request_id = some "abc";
  org_id = none;
}

abbrev accepted : HttpResponse
accepted = record {
  status_code = 202;
  x_request_id = none;
  rate_limit = none;
  retry_after = none;
  body_request_id = none;
}

abbrev always_accepts : Router
always_accepts request request_id = responded accepted

abbrev idle : Http
idle = record {
  correlation_id = "";
  requests_total = [];
  in_progress = 0;
  audit_events = [];
  requests_of = λ key. 950 ∷ 20 ∷ [];
}

abbrev two_in_sixty : Settings
two_in_sixty = record { rate_limit_window = 60; rate_limit_default = 2 }

passed_counted_example :
    let handled = handle_http endpoint two_in_sixty always_accepts "new" 1000 sample_request idle in
    IsHandled endpoint two_in_sixty always_accepts "new" 1000 sample_request idle true
      (responded accepted)
      handled
    × IsRestored endpoint two_in_sixty always_accepts "new" 1000 sample_request idle handled.1
unfolding is_excluded starts_with RateLimiter.dispatch zremrangebyscore
passed_counted_example =
    passed_counted endpoint two_in_sixty always_accepts "new" 1000 sample_request idle refl refl

abbrev no_tokens : TokenPattern
no_tokens = record { search = λ s. false; sub = λ s. s }

abbrev login_event : String → String → List (String × LogValue)
login_event password email =
    ("event", text "login") ∷ ("password", text password) ∷ ("email", text email) ∷ []

masked_blind_example :
    sensitive_field_masker (λ s. s) no_tokens (login_event "hunter2" "ada@example.com")
    ≡ sensitive_field_masker (λ s. s) no_tokens (login_event "swordfish" "adele@example.com")
masked_blind_example =
    masked_blind (λ s. s) no_tokens (login_event "hunter2" "ada@example.com")
      (login_event "swordfish" "adele@example.com")
      (
        refl,
        inr (inr refl),
        (
          refl,
          inl refl,
          (
            refl,
            inr (
                inl (
                  refl,
                  (
                    "ada@example.com",
                    "adele@example.com",
                    refl,
                    refl,
                    inr (omega arith, omega arith, refl, refl),
                  ),
                )),
            tt,
          ),
        ),
      )

abbrev one_running : Timing
one_running = record { start_times = ("other", 5) ∷ []; observed = [] }

counted_once_example :
    (on_task_postrun
        (some "src.workers.tasks.finalize.finalize_task")
        "t1"
        (some "SUCCESS")
        30
        (on_task_prerun "t1" 10 one_running)
      ≡ record one_running {
        observed = record { task_name = "finalize_task"; status = "SUCCESS"; duration = 20 } ∷ [];
      })
    × ((later : ℕ)
        → on_task_postrun
            (some "src.workers.tasks.finalize.finalize_task")
            "t1"
            (some "SUCCESS")
            later
            (on_task_failure
              (some "src.workers.tasks.finalize.finalize_task")
              "t1"
              30
              (on_task_prerun "t1" 10 one_running))
          ≡ record one_running {
            observed =
                record { task_name = "finalize_task"; status = "FAILURE"; duration = 20 } ∷ [];
          })
unfolding get_time short_task_name
counted_once_example =
    counted_once (some "src.workers.tasks.finalize.finalize_task") (some "SUCCESS") "t1" 10 30
      one_running refl
