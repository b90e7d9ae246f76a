-- ===== src/Middleware/Stack/Passes.antt =====
-- What the whole stack does with a request, refused by the limiter or passed to the router.
use ai_detention.Middleware.{
  HttpRequest, HttpResponse, Outcome, responded, raised, Http, audit_dispatch, limiter_dispatch,
  correlation_dispatch, auditable_methods, exempt_paths, member_text, get_rate_key,
  limited_response, given_or, or_unknown, AuditEvent,
}
use ai_detention.Middleware.Stack.{Router, handle_http, metrics_dispatch, recorded_status}
use ai_detention.Middleware.Paths.{is_excluded}
use ai_detention.RateLimiter.{Settings, Decision}
use ai_detention.RateLimiter
use ai_detention.Prelude.{
  String, ℕ, List, Bool, ◌≡◌, none, false, some, true, ◌∷◌, Bool-cases, inl, str_eq_refl, inr, refl,
  arith, if◌then◌else◌, ◌++◌, [],
}
use ai_detention.Prelude.Text.{append_text}

-- The key of a request in Redis: always that of its address.
abbrev pub address_key : HttpRequest → String
address_key request = append_text "ratelimit:" (append_text "ip:" (or_unknown request.client))

module _ (endpoint_of : String → String) (settings : Settings) (router : Router) (new_id : String)
    (now : ℕ) (request : HttpRequest) (http : Http) where
  abbrev pub decided : Decision
  decided = (RateLimiter.dispatch settings now (http.requests_of (address_key request))).0

  abbrev pub times_after : List ℕ
  times_after = (RateLimiter.dispatch settings now (http.requests_of (address_key request))).1

  -- What the router makes of the request, with the id that the client gave or a new one.
  abbrev pub reply : Outcome
  reply = router (record request { org_id = none }) (given_or new_id request.x_request_id)

  abbrev pub is_audited : Bool
  is_audited = member_text request.method auditable_methods

  -- What the audit log gets: an event if the method is audited, with the outcome, the address and the
  -- request id of the context before the request.
  abbrev pub events_after : Outcome → List AuditEvent
  events_after outcome =
      let event : AuditEvent = record {
        method = request.method;
        path = request.path;
        result = outcome;
        client_ip = or_unknown request.client;
        request_id = http.correlation_id;
      } in
      if is_audited then http.audit_events ++ event ∷ [] else http.audit_events

  -- The response to a request that reaches the router, from what the router makes of it.
  abbrev pub with_id_and_limit : Outcome → Outcome
  with_id_and_limit (responded r) = responded (record r {
    x_request_id = some (given_or new_id request.x_request_id);
    rate_limit = some decided;
  })
  with_id_and_limit (raised e) = raised e

  abbrev pub IsReply : Outcome → HttpResponse → Type 0
  IsReply (responded r) response = responded response ≡ with_id_and_limit (responded r)
  IsReply (raised e) response =
      (response.status_code ≡ 500)
      × (response.body_request_id ≡ some http.correlation_id)
      × (response.x_request_id ≡ none)

  -- By whether the limit lets the request pass.
  abbrev pub IsHandled : Bool → Outcome → HttpResponse × Http → Type 0
  IsHandled true outcome (response, http') =
      IsReply outcome response
      × (http'.requests_total
          ≡ (request.method, (endpoint_of request.path, recorded_status outcome))
            ∷ http.requests_total)
      × (http'.audit_events ≡ events_after (with_id_and_limit outcome))
  IsHandled false outcome (response, http') =
      (response ≡ limited_response settings decided)
      × (http'.requests_total ≡ http.requests_total)
      × (http'.audit_events ≡ events_after (responded (limited_response settings decided)))

  -- What each request leaves behind, passed or not.
  abbrev pub IsRestored : Http → Type 0
  IsRestored http' =
      (http'.in_progress ≡ http.in_progress)
      × (http'.correlation_id ≡ http.correlation_id)
      × (http'.requests_of (address_key request) ≡ times_after)

  limited-IsHandled :
      member_text request.path exempt_paths ≡ false
      → decided.allowed ≡ false
      → let handled = handle_http endpoint_of settings router new_id now request http in
        IsHandled false reply handled × IsRestored handled.1
  unfolding handle_http audit_dispatch limiter_dispatch get_rate_key
  limited-IsHandled not_exempt over = elim (Bool-cases is_audited) [
    | inl audited ↦
        rw (not_exempt, over, audited, str_eq_refl (address_key request))
          ((refl, refl, refl), (refl, refl, refl))
    | inr plain ↦
        rw (not_exempt, over, plain, str_eq_refl (address_key request))
          ((refl, refl, refl), (refl, refl, refl))
  ]

  passed-IsHandled :
      member_text request.path exempt_paths ≡ false
      → is_excluded request.path ≡ false
      → decided.allowed ≡ true
      → (outcome : Outcome) → reply ≡ outcome
      → let handled = handle_http endpoint_of settings router new_id now request http in
        IsHandled true outcome handled × IsRestored handled.1
  unfolding handle_http audit_dispatch limiter_dispatch get_rate_key correlation_dispatch
      metrics_dispatch
  passed-IsHandled not_exempt counted within (responded r) e = elim (Bool-cases is_audited) [
    | inl audited ↦
        rw (not_exempt, within, counted, audited, e, str_eq_refl (address_key request))
          ((refl, refl, refl), (omega arith, refl, refl))
    | inr plain ↦
        rw (not_exempt, within, counted, plain, e, str_eq_refl (address_key request))
          ((refl, refl, refl), (omega arith, refl, refl))
  ]
  passed-IsHandled not_exempt counted within (raised t) e = elim (Bool-cases is_audited) [
    | inl audited ↦
        rw (not_exempt, within, counted, audited, e, str_eq_refl (address_key request))
          (((refl, refl, refl), refl, refl), (omega arith, refl, refl))
    | inr plain ↦
        rw (not_exempt, within, counted, plain, e, str_eq_refl (address_key request))
          (((refl, refl, refl), refl, refl), (omega arith, refl, refl))
  ]

  -- A request on a path that is neither exempt from the limit nor left out of the metrics. Within the
  -- limit it reaches the router with the id of the client or a new one and is counted once, with its
  -- method, its endpoint and the status code (500 for an exception); the client gets the router's
  -- response with that id and the limit's headers, or, if the router raised, a 500 whose request id is
  -- the one from before the request. Over the limit it gets the limiter's 429, without an id, and is not
  -- counted. Either way a method that is audited adds one event, with what came out of the limiter and
  -- the request id from before the request, and no other does; the gauge and the context are as before;
  -- and the limiter's set of the address, never of an organization, is the one after its decision.
  pub passed_counted :
      member_text request.path exempt_paths ≡ false
      → is_excluded request.path ≡ false
      → let handled = handle_http endpoint_of settings router new_id now request http in
        IsHandled decided.allowed reply handled × IsRestored handled.1
  passed_counted not_exempt counted = elim (Bool-cases decided.allowed) [
    | inl within ↦ rw within (passed-IsHandled not_exempt counted within reply refl)
    | inr over ↦ rw over (limited-IsHandled not_exempt over)
  ]
