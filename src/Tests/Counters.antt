-- ===== src/Tests/Counters.antt =====
-- The counters of the limiter in a Redis server that is a function from keys to counts, the mails
-- that a mail server accepts, and a request through the middlewares.
use ms_auth_service.Prelude.{
  ℕ, suc, String, ◌≡◌, refl, ◌⊎◌, true, false, none, some, List, [], ◌∷◌, arith, ◌==◌,
  if◌then◌else◌,
}
use ms_auth_service.Py.Int.{pos}
use ms_auth_service.Py.Exec.{Exn, Result, ok, raise, Exec}
use ms_auth_service.Redis.{Redis, Raw}
use ms_auth_service.Redis.Laws.{IsCounting}
use ms_auth_service.RateLimit.{Limiter, digests, credential_rules, check_credentials_attempt}
use ms_auth_service.RateLimit.Remote.{IsDecided, check_credentials_attempt_remote}
use ms_auth_service.EmailOtp.Mail.{Mailer, Purpose, Command, build_email_message, send_email}
use ms_auth_service.EmailOtp.Mail.Secured.{
  Log, recorded, is_safe, send_email_secured, send_email_sent,
}
use ms_auth_service.Errors.{plain}
use ms_auth_service.Metrics.{metric_path, auth_operation}
use ms_auth_service.Py.Str.{is_digit}
use ms_auth_service.Application.Middleware.{
  HttpRequest, Response, status_or_500, Event, Served, operation_event, serve,
}
use ms_auth_service.Application.Middleware.Counted.{IsHit, serve_counted}
use ms_auth_service.Application.Middleware.Cutover.{IsTokenRequest, serve_cutover}

abbrev Counts : Type 0
Counts = String → ℕ

abbrev counter_redis : Redis Counts
counter_redis = record {
  ping = λ t. (ok tt, t);
  send = λ t. (ok tt, t);
  receive = λ t. (ok tt, t);
  get = λ k t. (ok none, t);
  set = λ k v ttl t. (ok tt, t);
  set_keepttl = λ k v t. (ok tt, t);
  set_nx = λ k ttl t. (ok false, t);
  delete = λ k t. (ok tt, t);
  incr = λ k t. (ok (suc (t k)), λ j. if k == j then suc (t j) else t j);
  expire = λ k n t. (ok tt, t);
  ttl = λ k t. (ok (pos 60), t);
  cjson_decode = λ raw. none;
  cjson_encode = λ r. Raw.malformed;
}

counting : IsCounting counter_redis
counting = record {
  counts = λ t k. t k;
  send_lem = λ t. refl;
  receive_lem = λ t. refl;
  incr_lem = λ k t. (_, refl, λ j. refl);
  expire_lem = λ k n t h. (t, refl, λ j. refl);
  ttl_lem = λ k t. (pos 60, refl);
}

-- Every counter stands at three.
abbrev limiter : Limiter Counts
limiter = record {
  redis_url = some "redis://";
  connected = true;
  memory = record { counters = []; operations = 0 };
  limits = record {
    ip_burst = 3;
    ip_burst_window_seconds = 10;
    ip_per_minute = 5;
    ip_per_15_minutes = 20;
    email_per_15_minutes = 5;
  };
  server = λ k. 3;
}

check_credentials_attempt_remote_example :
    IsDecided counter_redis counting
      (credential_rules limiter.limits)
      (digests (λ s. s) (some "1.2.3.4") "a@x")
      limiter
      (check_credentials_attempt counter_redis (λ s. s) (λ i. i) (some "1.2.3.4") "a@x" limiter)
check_credentials_attempt_remote_example =
    check_credentials_attempt_remote counter_redis counting (λ s. s) (λ i. i) (some "1.2.3.4") "a@x"
      limiter (record { connected = refl }) (omega arith)

abbrev mailer : Mailer
mailer = record {
  ttl_seconds = 300;
  smtp_host = some "mail";
  smtp_port = 587;
  smtp_from = "no-reply@ouros";
  smtp_from_display_name = "Ouros";
  smtp_auth = true;
  smtp_starttls = true;
  smtp_ssl = false;
  smtp_user = some "u";
  smtp_password = some "p";
  smtp_timeout_seconds = 10;
}

abbrev formataddr : String → String → String
formataddr name addr = addr

abbrev accepting : Log (Unit {0}) → Command (Unit {0}) → Result (Unit {0})
accepting log command = ok tt

send_email_secured_example :
    is_safe mailer
      (send_email (recorded accepting) formataddr tt mailer Purpose.login "a@x" "000007" []).1
    ≡ true
send_email_secured_example =
    send_email_secured accepting mailer formataddr tt Purpose.login "a@x" "000007"

was_accepted :
    (send_email (recorded accepting) formataddr tt mailer Purpose.login "a@x" "000007" []).0 ≡ ok tt
unfolding send_email
was_accepted = refl

send_email_sent_example :
    let v = send_email (recorded accepting) formataddr tt mailer Purpose.login "a@x" "000007" [] in
    let message = build_email_message formataddr tt mailer "a@x" "000007" Purpose.login in
    (rest : Log (Unit {0})) × (v.1
      ≡ (Command.leave, true) ∷ (Command.send_message message, true) ∷ rest)
send_email_sent_example =
    send_email_sent accepting mailer formataddr tt Purpose.login "a@x" "000007" was_accepted

-- A route that is throttled.
abbrev throttled : HttpRequest → Exec ℕ (Response String)
throttled request n = (raise (Exn.rate_limit_exceeded 9), suc n)

abbrev token_request : HttpRequest
token_request = record { method = "POST"; path = "/v1/auth/token" }

abbrev idle : Served ℕ
idle = record { state = 0; events = [] }

serve_counted_example :
    let v = serve is_digit true throttled 7 token_request idle in
    let route = metric_path is_digit "/v1/auth/token" in
    (h : List Event) × (v.1.events
      ≡ operation_event (auth_operation "POST" route) (status_or_500 v.0) (
          Event.http_duration "POST" route 7
          ∷ Event.http_requests "POST" route (status_or_500 v.0)
          ∷ h))
    × IsHit h [] v.0
serve_counted_example = serve_counted throttled token_request is_digit true 7 idle

serve_cutover_example :
    let off = serve is_digit false throttled 7 token_request idle in
    (IsTokenRequest token_request
      × (off.0 ≡ ok (Response.error (plain 404 "Not Found")))
      × (off.1.state ≡ 0))
    ⊎ ((¬ IsTokenRequest token_request)
        × (off ≡ serve is_digit true throttled 7 token_request idle))
serve_cutover_example = serve_cutover throttled is_digit 7 token_request idle
