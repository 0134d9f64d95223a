-- ===== src/Tests/Throttle.antt =====
-- A fourth login from one address within ten seconds.
use ms_auth_service.Prelude.{
  ℕ, ◌≤◌, String, ◌≡◌, refl, inl, Bool, true, false, none, some, [], ◌∷◌, arith,
}
use ms_auth_service.Py.Dict.{Dict, lookup}
use ms_auth_service.Py.Value.{Value}
use ms_auth_service.Py.Exec.{Exn, Result, ok, raise, Exec}
use ms_auth_service.Redis.{Raw}
use ms_auth_service.RateLimit.Memory.{MemoryCounters}
use ms_auth_service.RateLimit.Memory.Bounds.{IsBounded}
use ms_auth_service.RateLimit.{Limiter, digests, rule_key, credential_rules}
use ms_auth_service.RateLimit.Fallback.{IsIsolated}
use ms_auth_service.RateLimit.Check.{exceeded}
use ms_auth_service.Broker.{KeycloakTokenBroker, KeycloakTokenResponse}
use ms_auth_service.Web.{Request, start_native_login}
use ms_auth_service.Application.{App, operations}
use ms_auth_service.Application.Throttle.{start_native_login_throttled}
use ms_auth_service.Tests.Concrete.{redis, digest, local_otp}

abbrev three : MemoryCounters
three = record {
  counters =
      ("ouros:auth:rate-limit:ip-burst:1.2.3.4", record { count = 3; expires_at = 9_000_000_000 })
      ∷ [];
  operations = 3;
}

abbrev limiter : Limiter (Dict Raw)
limiter = record {
  redis_url = none;
  connected = false;
  memory = three;
  limits = record {
    ip_burst = 3;
    ip_burst_window_seconds = 10;
    ip_per_minute = 5;
    ip_per_15_minutes = 20;
    email_per_15_minutes = 5;
  };
  server = [];
}

limiter-IsIsolated : IsIsolated redis limiter
limiter-IsIsolated = record { unconnected = refl; no_server = inl refl }

three-IsBounded : IsBounded three
unfolding lookup
three-IsBounded = record { distinct = (refl, tt); bounded = omega arith }

abbrev application : App (Dict Raw) ℕ
application = record {
  limiter = limiter;
  otp = local_otp [];
  checks = 0;
  keycloak = 0;
  dependency_ready = [];
}

abbrev request : Request
request = record {
  origin = none;
  forwarded_proto = none;
  scheme = "https";
  client = some "1.2.3.4";
  refresh_cookie = none;
  body_token = ok none;
}

abbrev checkpw : String → String → Result Bool
checkpw p h = ok true

abbrev decode : String → Result (Dict Value)
decode token = raise Exn.jwt_error

abbrev post : String → Dict String → Exec ℕ (ℕ × Result KeycloakTokenResponse)
post url form n = (raise Exn.http_error, n)

abbrev broker : KeycloakTokenBroker
broker = record { token_url = "u"; client_id = "broker"; client_secret = none; scope = "openid" }

abbrev send : String → String → Result (Unit {0})
send email code = ok tt

abbrev clock : ℕ → ℕ
clock i = 1_000_000_000

clock_grows : (i j : ℕ) → i ≤ j → clock i ≤ clock j
clock_grows i j h = omega arith

abbrev hash : String → String
hash s = s

full :
    exceeded (digests hash (some "1.2.3.4") "a@x") clock 0 (credential_rules limiter.limits) three
    ≡ true
unfolding lookup credential_rules rule_key digests
full = refl

start_native_login_throttled_example :
    (n : ℕ) × (t : Limiter (Dict Raw)) × (1 ≤ n)
    × (start_native_login
          (operations redis hash digest checkpw hash
            (raise Exn.os_error)
            "dummy"
            (λ s. false)
            decode
            post
            broker
            send
            clock
            clock
            "c1"
            7)
          request
          "a@x"
          "pw"
          application
        ≡ (raise (Exn.rate_limit_exceeded n), record application { limiter = t }))
start_native_login_throttled_example =
    start_native_login_throttled redis hash digest checkpw hash (raise Exn.os_error) "dummy"
      (λ s. false) decode post broker send clock clock "c1" 7 clock_grows request "a@x" "pw"
      application limiter-IsIsolated three-IsBounded (omega arith) (omega arith) full
