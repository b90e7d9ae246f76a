-- ===== src/Middleware/Stack.antt =====
-- MetricsMiddleware, the stack of all middleware (src/main.py) and the catch-all handler outside it
-- (src/middleware/error_handler.py), around a router that sees the request and its correlation id.
pub mod Passes
use ai_detention.Middleware.{
  HttpRequest, HttpResponse, Outcome, responded, raised, AuditEvent, Http, App, audit_dispatch,
  limiter_dispatch, correlation_dispatch, auditable_methods, exempt_paths, member_text,
  get_rate_key, limited_response, given_or, or_unknown, add_headers, echo_id,
}
use ai_detention.Middleware.Paths.{is_excluded, normalize_path}
use ai_detention.RateLimiter.{Settings}
use ai_detention.RateLimiter
use ai_detention.Prelude.{ℕ, none, String, some, ◌∷◌, ◌+◌, ◌-◌, if◌then◌else◌}

-- The status code that is recorded: an exception counts as 500.
abbrev pub recorded_status : Outcome → ℕ
recorded_status (responded r) = r.status_code
recorded_status (raised e) = 500

module _ (endpoint_of : String → String) where
  abbrev record_metrics : HttpRequest → Outcome × Http → Outcome × Http
  record_metrics request (outcome, http) = (
    outcome,
    record http {
      requests_total =
          (request.method, (endpoint_of request.path, recorded_status outcome))
          ∷ http.requests_total;
      in_progress = http.in_progress - 1;
    },
  )

  unfoldable pub metrics_dispatch : App → App
  metrics_dispatch call_next request http =
      let plain = call_next request http in
      let counted =
        record_metrics request
          (call_next request (record http { in_progress = http.in_progress + 1 })) in
      if is_excluded request.path then plain else counted

-- The router with its own exception handlers; it keeps nothing of the middleware's.
abbrev pub Router : Type 0
Router = HttpRequest → String → Outcome

abbrev pub router_app : Router → App
router_app router request http = (router request http.correlation_id, http)

-- unhandled_exception_handler, in Starlette's outermost layer
abbrev pub catch_all : Outcome × Http → HttpResponse × Http
catch_all (responded r, http) = (r, http)
catch_all (raised e, http) = (
  record {
    status_code = 500;
    x_request_id = none;
    rate_limit = none;
    retry_after = none;
    body_request_id = some http.correlation_id;
  },
  http,
)

module _ (endpoint_of : String → String) (settings : Settings) (router : Router) (new_id : String)
    (now : ℕ) where
  abbrev pub inner_app : App
  inner_app = correlation_dispatch new_id (metrics_dispatch endpoint_of (router_app router))

  abbrev pub middleware_stack : App
  middleware_stack = audit_dispatch (limiter_dispatch settings now inner_app)

  -- A request arrives with an empty state.
  unfoldable pub handle_http : HttpRequest → Http → HttpResponse × Http
  handle_http request http = catch_all (middleware_stack (record request { org_id = none }) http)
