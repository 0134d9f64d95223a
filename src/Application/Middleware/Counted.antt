-- ===== src/Application/Middleware/Counted.antt =====
-- `prometheus_request_metrics` of app/main.py around the handlers and the guard.
use ms_auth_service.Prelude.{
  ℕ, ◌≡◌, refl, ◌⊎◌, inl, inr, Bool, not, ◌&&◌, List, ◌∷◌, ◌==◌, Bool-cases,
}
use ms_auth_service.Py.Exec.{Exec-cases, Exn, Result, Exec}
use ms_auth_service.Errors.{handler}
use ms_auth_service.Metrics.{metric_path, auth_operation}
use ms_auth_service.Application.Middleware.{
  HttpRequest, Response, status_or_500, Event, Served, operation_event, telemetry, handled,
  with_handlers, password_broker_cutover_guard, prometheus_request_metrics, serve,
}

-- The events before the request, with a throttled one's counted when the answer is a 429.
abbrev pub IsHit : {Content : Type 0} → List Event → List Event → Result (Response Content) → Type 0
IsHit after before r =
    (after ≡ before) ⊎ ((after ≡ Event.rate_limit_hits ∷ before) × (status_or_500 r ≡ 429))

module _ {S : Type 0} where
  abbrev Hits : {Content : Type 0} → List Event → Result (Response Content) × Served S → Type 0
  Hits before (r, s) = IsHit s.events before r

  handled-Hits :
      (content : Type 0) (e : Exn) (s : Served S)
      → Hits s.events (handled {S = S} {Content = content} e (handler e) s)
  unfolding handler
  handled-Hits content (Exn.rate_limit_exceeded n) s = inr (refl, refl)
  handled-Hits content (Exn.broker_unavailable _) s = inl refl
  handled-Hits content Exn.email_otp_invalid s = inl refl
  handled-Hits content (Exn.email_otp_unavailable _) s = inl refl
  handled-Hits content Exn.invalid_credentials s = inl refl
  handled-Hits content Exn.ambiguous_identity s = inl refl
  handled-Hits content Exn.reset_otp_invalid s = inl refl
  handled-Hits content Exn.reset_otp_attempts_exceeded s = inl refl
  handled-Hits content (Exn.reset_token_invalid d) s = inl refl
  handled-Hits content (Exn.reset_spring_error d n) s = inl refl
  handled-Hits content (Exn.reset_unavailable _) s = inl refl
  handled-Hits content (Exn.http_exception n d) s = inl refl
  handled-Hits content (Exn.service_authentication _) s = inl refl
  handled-Hits content Exn.redis_error s = inl refl
  handled-Hits content Exn.postgres_error s = inl refl
  handled-Hits content Exn.os_error s = inl refl
  handled-Hits content Exn.smtp_error s = inl refl
  handled-Hits content Exn.jwt_error s = inl refl
  handled-Hits content Exn.jwks_error s = inl refl
  handled-Hits content Exn.http_error s = inl refl
  handled-Hits content Exn.protocol_error s = inl refl
  handled-Hits content Exn.type_error s = inl refl
  handled-Hits content Exn.value_error s = inl refl
  handled-Hits content Exn.key_error s = inl refl
  handled-Hits content Exn.runtime_error s = inl refl
  handled-Hits content Exn.other_error s = inl refl

  module _ {Content : Type 0} (routes : HttpRequest → Exec S (Response Content))
      (request : HttpRequest) where
    with_handlers-Hits : (s : Served S) → Hits s.events (with_handlers routes request s)
    unfolding with_handlers
    with_handlers-Hits s =
        let r = routes request s.state in
        elim (Exec-cases r) [
          | inl (a, r_eq) ↦ rw r_eq (inl refl)
          | inr (e, r_eq) ↦ rw r_eq (handled-Hits Content e (record s { state = r.1 }))
        ]

    guard-Hits :
        (enabled : Bool) (s : Served S)
        → Hits s.events (password_broker_cutover_guard enabled (with_handlers routes) request s)
    unfolding password_broker_cutover_guard
    guard-Hits enabled s =
        elim (Bool-cases
          (not enabled && (request.method == "POST" && request.path == "/v1/auth/token"))) [
            | inl e ↦ rw e (inl refl)
            | inr e ↦ rw e (with_handlers-Hits s)
          ]

    -- Every request is counted once and timed once, under its method, the label of its path and the
    -- status of its answer, or 500 when it ends with an exception that has no handler; an operation
    -- of the table is counted once with the outcome of that status; and beside these, a throttled
    -- request is counted only when the answer is a 429.
    pub serve_counted :
        (decimal : ℕ → Bool) (enabled : Bool) (duration : ℕ) (s : Served S)
        → let v = serve decimal enabled routes duration request s in
          let status = status_or_500 v.0 in
          let route = metric_path decimal request.path in
          (h : List Event) × (v.1.events
            ≡ operation_event (auth_operation request.method route) status (
                Event.http_duration request.method route duration
                ∷ Event.http_requests request.method route status
                ∷ h))
          × IsHit h s.events v.0
    unfolding serve prometheus_request_metrics telemetry
    serve_counted decimal enabled duration s =
        let g = password_broker_cutover_guard enabled (with_handlers routes) request s in
        (g.1.events, refl, guard-Hits enabled s)
