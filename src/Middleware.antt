-- ===== src/Middleware.antt =====
-- The middleware of the application (src/middleware, src/main.py) around its router. Starlette puts
-- the middleware that is added last outermost: a request passes AuditMiddleware, the limiter,
-- CorrelationMiddleware and MetricsMiddleware, in this order, and an exception that no handler of
-- the router took reaches the catch-all handler outside all of them. Times and durations that are
-- only reported are left out, Redis answers, and the gauge is that of the request's method.
pub mod Paths
pub mod Stack
use ai_detention.RateLimiter.{Settings, Decision}
use ai_detention.RateLimiter
use ai_detention.Prelude.{
  some, ◌++◌, List, ℕ, none, Option, String, ◌∷◌, if◌then◌else◌, Bool, str_eq, [], any,
}
use ai_detention.Prelude.Text.{append_text, is_empty}

pub record HttpRequest : Type 0 where
  pub method : String
  pub path : String
  pub client : Option String
  pub x_request_id : Option String
  -- request.state.org_id, which authentication sets inside the router
  pub org_id : Option String

pub record HttpResponse : Type 0 where
  pub status_code : ℕ
  -- X-Request-ID
  pub x_request_id : Option String
  -- X-RateLimit-Limit with its companions, and Retry-After
  pub rate_limit : Option Decision
  pub retry_after : Option ℕ
  -- `request_id` of an error's body
  pub body_request_id : Option String

pub data Outcome : Type 0 where
  responded : HttpResponse → Outcome
  raised : String → Outcome

pub record AuditEvent : Type 0 where
  pub method : String
  pub path : String
  -- the status code, or the error
  pub result : Outcome
  pub client_ip : String
  pub request_id : String

-- What the middleware keeps: the context variable, the counters (a record of each request that was
-- counted: method, endpoint, status code), the gauge of requests in progress, the log of audit
-- events, and the limiter's sets in Redis.
pub record Http : Type 0 where
  pub correlation_id : String
  pub requests_total : List (String × (String × ℕ))
  pub in_progress : ℕ
  pub audit_events : List AuditEvent
  pub requests_of : String → List ℕ

abbrev pub App : Type 0
App = HttpRequest → Http → Outcome × Http

abbrev pub or_unknown : Option String → String
or_unknown none = "unknown"
or_unknown (some host) = host

abbrev pub member_text : String → List String → Bool
member_text s texts = any (λ t. str_eq t s) texts

-- CorrelationMiddleware. `new_id` is the text of a new uuid4.
abbrev pub given_or : String → Option String → String
given_or new_id none = new_id
given_or new_id (some id) = id

abbrev pub echo_id : String → Outcome → Outcome
echo_id id (responded r) = responded (record r { x_request_id = some id })
echo_id id (raised e) = raised e

unfoldable pub correlation_dispatch : String → App → App
correlation_dispatch new_id call_next request http =
    let request_id = given_or new_id request.x_request_id in
    let (outcome, http') = call_next request (record http { correlation_id = request_id }) in
    (echo_id request_id outcome, record http' { correlation_id = http.correlation_id })

-- AuditMiddleware
abbrev pub auditable_methods : List String
auditable_methods = "POST" ∷ "PUT" ∷ "PATCH" ∷ "DELETE" ∷ []

abbrev log_event : HttpRequest → String → Outcome × Http → Outcome × Http
log_event request request_id (outcome, http) =
    let event : AuditEvent = record {
      method = request.method;
      path = request.path;
      result = outcome;
      client_ip = or_unknown request.client;
      request_id = request_id;
    } in
    (outcome, record http { audit_events = http.audit_events ++ event ∷ [] })

unfoldable pub audit_dispatch : App → App
audit_dispatch call_next request http =
    let reply = call_next request http in
    if member_text request.method auditable_methods
    then log_event request http.correlation_id reply
    else reply

-- RateLimiterMiddleware
abbrev pub exempt_paths : List String
exempt_paths =
    "/api/v1/health" ∷ "/api/v1/health/live" ∷ "/api/v1/health/ready" ∷ "/api/v1/health/deps"
    ∷ "/metrics" ∷ []

abbrev org_key : Option String → Option String → String
org_key none client = append_text "ip:" (or_unknown client)
org_key (some org_id) client =
    if is_empty org_id then append_text "ip:" (or_unknown client) else append_text "org:" org_id

unfoldable pub get_rate_key : HttpRequest → String
get_rate_key request = org_key request.org_id request.client

abbrev pub add_headers : Decision → Outcome → Outcome
add_headers decision (responded r) = responded (record r { rate_limit = some decision })
add_headers decision (raised e) = raised e

abbrev pub limited_response : Settings → Decision → HttpResponse
limited_response settings decision = record {
  status_code = 429;
  x_request_id = none;
  rate_limit = some decision;
  retry_after = some settings.rate_limit_window;
  body_request_id = none;
}

abbrev pub update_key : String → List ℕ → (String → List ℕ) → String → List ℕ
update_key key times requests_of other = if str_eq other key then times else requests_of other

abbrev with_headers : Decision → Outcome × Http → Outcome × Http
with_headers decision (outcome, http) = (add_headers decision outcome, http)

unfoldable pub limiter_dispatch : Settings → ℕ → App → App
limiter_dispatch settings now call_next request http =
    let key = append_text "ratelimit:" (get_rate_key request) in
    let (decision, times) = RateLimiter.dispatch settings now (http.requests_of key) in
    let http' = record http { requests_of = update_key key times http.requests_of } in
    let passed = with_headers decision (call_next request http') in
    let exempt = call_next request http in
    if member_text request.path exempt_paths
    then exempt
    else (if decision.allowed
        then passed
        else (responded (limited_response settings decision), http'))
