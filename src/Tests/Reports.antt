-- ===== src/Tests/Reports.antt =====
-- Metrics, results, webhooks and the second rate limiter at concrete inputs.
use ai_detention.Metrics.Seed.{seed_once}
use ai_detention.Results.Summary.{summary_agrees}
use ai_detention.Webhooks.Delivery.{delivery_exact}
use ai_detention.Progress.DeadLetters.{retry_once}
use ai_detention.RateLimiter.Log.{
  check_exact, check_rate_limit, available, log_after, passed, exceeded,
}
use ai_detention.Webhooks.{
  deliver_webhook, Signing, Request, webhook_request, deliver_with_retry, Answer, deliver_from,
  deliver_once, retried, response,
}
use ai_detention.Prelude.{
  length, String, List, ℕ, [], ◌∷◌, ◌-◌, ◌≤◌, All, ◌≡◌, ◌*◌, suc, true, zero, ◌↔◌, refl, ◌<◌, none,
  arith, some, str_eq, false,
}
use ai_detention.Database.Table.{select}
use ai_detention.Database.Session.{World}
use ai_detention.Results.{
  Orders, ResultsSummary, get_results_summary, get_claims_for_run, get_contradictions_for_run,
  result_scores_for_run,
}
use ai_detention.Metrics.{seed_builtin_metrics, missing_metrics, builtin_named, builtin_metrics}
use ai_detention.Tests.Samples.{world_with, sample_run}
use ai_detention.RateLimiter.Window.{since}
use ai_detention.Prelude.Text.{append_text, text_length}
use ai_detention.Models.Run.{RunStatus}
use ai_detention.Models.Metric.{Metric}
use ai_detention.Errors.{ok}
use ai_detention.Models.Findings.{Claim, Contradiction}
use ai_detention.Progress.{DlqEntry, DlqStore, retry_dlq_entry, send_to_dlq, dlq_key, lookup_hash}

abbrev text_ids : String → ℕ
text_ids name = text_length name

abbrev report_world : World
report_world = world_with RunStatus.completed

seed_once_example :
    let w' = (seed_builtin_metrics text_ids report_world).1 in
    All (λ d. (m : Metric) × (select (builtin_named d.name) w'.db.metrics ≡ m ∷ [])) builtin_metrics
    × (seed_builtin_metrics text_ids w' ≡ (ok 0, w'))
unfolding seed_builtin_metrics missing_metrics select
seed_once_example = seed_once text_ids report_world {n = 8} refl

abbrev pub id_orders : Orders
id_orders = record {
  by_created_at = λ rows. rows;
  claims_by_created_at = λ rows. rows;
  by_severity_desc = λ rows. rows;
  by_dimension = λ rows. rows;
}

summary_agrees_example :
    (summary : ResultsSummary) × (get_results_summary id_orders 1 7 report_world
      ≡ (ok summary, report_world))
    × ((claims : List Claim) × (get_claims_for_run id_orders 1 7 none 1 10 report_world
          ≡ (ok (claims, summary.total_claims), report_world)))
    × ((contradictions : List Contradiction) × (get_contradictions_for_run id_orders 1 7
            report_world
          ≡ (ok contradictions, report_world))
        × (length contradictions ≡ summary.total_contradictions))
    × (result_scores_for_run id_orders 1 7 report_world ≡ (ok summary.scores, report_world))
unfolding select
summary_agrees_example =
    summary_agrees id_orders 1 7 1 10 report_world {run = sample_run RunStatus.completed} refl
      (λ c. refl) tt ((λ e. refl), ((λ e. refl), tt))

abbrev sample_signing : Signing
sample_signing = record {
  dumps = λ event timestamp payload. event;
  hmac_sha256 = λ secret payload. append_text secret payload;
}

-- A server that is down once and then answers.
abbrev flaky : Request → ℕ → Answer
flaky request zero = Answer.connect_error
flaky request (suc n) = Answer.response 204

abbrev sample_request : Request
sample_request = webhook_request sample_signing "k" "1" "100" "https://a" "evaluation.completed" []

delivery_exact_example :
    let (delivered, attempts) =
      deliver_webhook sample_signing "k" "1" flaky "100" "https://a" "evaluation.completed" [] in
    (attempts ≤ 3)
    × ((delivered ≡ true) ↔ (
        (k : ℕ) × (k < 3)
        × ((j : ℕ) → j < k → deliver_once (flaky sample_request j) ≡ retried)
        × ((status : ℕ) × (flaky sample_request k ≡ response status) × (status < 500))))
delivery_exact_example =
    delivery_exact sample_signing "k" "1" flaky "100" "https://a" "evaluation.completed" []

flaky_delivered :
    deliver_webhook sample_signing "k" "1" flaky "100" "https://a" "evaluation.completed" []
    ≡ (true, 2)
unfolding deliver_webhook deliver_with_retry deliver_from deliver_once
flaky_delivered = refl

abbrev recent_requests : List ℕ
recent_requests = 4900000 ∷ 4500000 ∷ 1000000 ∷ []

check_exact_example :
    let recent = length (since (5000000 - 1 * 1000000) recent_requests) in
    let checked_now = (check_rate_limit available 2 1 5000000 (log_after 2 1 recent_requests)).0 in
    ((checked_now ≡ passed) ↔ (recent < 2))
    × ((seconds : ℕ) → checked_now ≡ exceeded seconds → (1 ≤ seconds) × (seconds ≤ 1))
check_exact_example = check_exact 2 1 5000000 recent_requests (omega arith) (
  (omega arith, (omega arith, (omega arith, tt))),
  ((omega arith, (omega arith, tt)), ((omega arith, tt), (tt, tt))),
)

abbrev dead_task : DlqEntry
dead_task = record {
  task_name = "tasks.pitch_deck";
  run_id = "1";
  worker_type = "pitch_deck";
  kwargs = "{}";
  retries = 3;
}

abbrev empty_queue : DlqStore
empty_queue = record { hashes = []; dlq_all = [] }

retry_once_example :
    let first = retry_dlq_entry "1" "pitch_deck" (send_to_dlq dead_task empty_queue) in
    (first.done ≡ true)
    × (first.sent ≡ some ("tasks.pitch_deck", "1"))
    × (first.store.dlq_all ≡ [])
    × ((other : String)
        → str_eq (dlq_key "1" "pitch_deck") other ≡ false
        → lookup_hash other first.store.hashes ≡ lookup_hash other [])
    × (retry_dlq_entry "1" "pitch_deck" first.store
        ≡ record { done = false; sent = none; store = first.store })
retry_once_example = retry_once dead_task empty_queue refl (omega arith)
