-- ===== src/Application/Middleware.antt =====
-- What app/main.py puts around the routes: the exception handlers, the guard of the password
-- broker's route, and the middleware that counts requests. FastAPI runs the middlewares outside in
-- the reverse order of their declaration, and the handlers inside of them; the routes, with what
-- FastAPI does for them and CORS, are a parameter.
pub mod Counted
pub mod Cutover
use ms_auth_service.Prelude.{
  ℕ, ◌-◌, String, Bool, not, ◌&&◌, Option, none, some, List, [], ◌∷◌, ◌==◌, if◌then◌else◌,
}
use ms_auth_service.Py.Exec.{
  Exn, Result, ok, raise, Exec, pure, throw, modify, on, try, ◌>>=◌, ◌>>◌,
}
use ms_auth_service.Errors.{JsonResponse, plain, handler}
use ms_auth_service.Metrics.{metric_path, auth_operation, outcome_for_status}

-- What the middlewares read of a request.
pub record HttpRequest : Type 0 where
  pub method : String
  pub path : String

-- The answer of a route, with its status, or an error's.
pub data Response (Content : Type 0) : Type 0 where
  content : (status_code : ℕ) → Content → Response Content
  error : JsonResponse → Response Content

abbrev pub status_of : {Content : Type 0} → Response Content → ℕ
status_of (Response.content n _) = n
status_of (Response.error r) = r.status_code

-- `response_status`, which stays at 500 when the request ends with an exception.
abbrev pub status_or_500 : {Content : Type 0} → Result (Response Content) → ℕ
status_or_500 (ok r) = status_of r
status_or_500 (raise _) = 500

-- What prometheus_client is told: `HTTP_REQUESTS`, `AUTH_OPERATIONS` and `RATE_LIMIT_HITS` are
-- counted up, and `HTTP_DURATION` observes a duration.
pub data Event : Type 0 where
  http_requests : (method route : String) → (status : ℕ) → Event
  http_duration : (method route : String) → (ticks : ℕ) → Event
  auth_operations : (operation outcome : String) → Event
  rate_limit_hits : Event

-- The state of the routes, and the events so far, the last one first.
pub record Served (S : Type 0) : Type 0 where
  pub state : S
  pub events : List Event

-- `RATE_LIMIT_HITS.inc()` in `rate_limit_handler`.
abbrev pub hits : Exn → List Event → List Event
hits (Exn.rate_limit_exceeded _) events = Event.rate_limit_hits ∷ events
hits _ events = events

abbrev pub operation_event : Option String → ℕ → List Event → List Event
operation_event none status events = events
operation_event (some name) status events =
    Event.auth_operations name (outcome_for_status status) ∷ events

-- The `finally` of `prometheus_request_metrics`.
unfoldable pub telemetry : (ℕ → Bool) → HttpRequest → ℕ → ℕ → List Event → List Event
unfolding metric_path auth_operation outcome_for_status
telemetry decimal request duration status events =
    let route = metric_path decimal request.path in
    operation_event (auth_operation request.method route) status (
      Event.http_duration request.method route duration
      ∷ Event.http_requests request.method route status
      ∷ events)

module _ {S Content : Type 0} where
  abbrev pub handled : Exn → Option JsonResponse → Exec (Served S) (Response Content)
  handled e none = throw e
  handled e (some r) = do
    modify (λ s. record s { events = hits e s.events })
    pure (Response.error r)

  -- The routes within the exception handlers.
  unfoldable pub with_handlers :
      (HttpRequest → Exec S (Response Content)) → HttpRequest → Exec (Served S) (Response Content)
  unfolding handler
  with_handlers routes request =
      try (on (λ s. s.state) (λ t s. record s { state = t }) (routes request))
        (λ e. handled e (handler e))

  -- `password_broker_cutover_guard`, with `enabled` for the setting.
  unfoldable pub password_broker_cutover_guard :
      Bool
      → (HttpRequest → Exec (Served S) (Response Content))
      → HttpRequest
      → Exec (Served S) (Response Content)
  password_broker_cutover_guard enabled call_next request s =
      if not enabled && (request.method == "POST" && request.path == "/v1/auth/token")
      then (ok (Response.error (plain 404 "Not Found")), s)
      else call_next request s

  abbrev pub counted :
      (ℕ → List Event → List Event)
      → Result (Response Content) × Served S
      → Result (Response Content) × Served S
  counted record_status (r, s) = (r, record s { events = record_status (status_or_500 r) s.events })

  -- `prometheus_request_metrics`; `duration` is the time that the call took.
  unfoldable pub prometheus_request_metrics :
      (ℕ → Bool)
      → ℕ
      → (HttpRequest → Exec (Served S) (Response Content))
      → HttpRequest
      → Exec (Served S) (Response Content)
  unfolding telemetry
  prometheus_request_metrics decimal duration call_next request s =
      counted (telemetry decimal request duration) (call_next request s)

  -- A request through all of them.
  unfoldable pub serve :
      (ℕ → Bool)
      → Bool
      → (HttpRequest → Exec S (Response Content))
      → ℕ
      → HttpRequest
      → Exec (Served S) (Response Content)
  unfolding prometheus_request_metrics password_broker_cutover_guard with_handlers
  serve decimal enabled routes duration =
      prometheus_request_metrics decimal duration
        (password_broker_cutover_guard enabled (with_handlers routes))
