-- ===== src/Application.antt =====
-- The services as app/main.py wires them, behind the operations that the routes call.
pub mod Throttle
pub mod Middleware
pub mod Reset
pub mod Lifespan
use ms_auth_service.Prelude.{ℕ, String, Bool, true, false, Option, none, some}
use ms_auth_service.Py.Dict.{Dict, insert}
use ms_auth_service.Py.Value.{Value}
use ms_auth_service.Py.Exec.{Exn, Result, ok, raise, Exec, on, modify}
use ms_auth_service.Redis.{Redis}
use ms_auth_service.Identity.{Tables}
use ms_auth_service.RateLimit.{Limiter, check_credentials_attempt}
use ms_auth_service.RateLimit
use ms_auth_service.EmailOtp.{Otp}
use ms_auth_service.EmailOtp.Login
use ms_auth_service.Credentials
use ms_auth_service.Broker.{
  KeycloakTokenBroker, KeycloakTokenResponse, issue_password_token, refresh_token,
}
use ms_auth_service.Web.{Operations}

-- `application.state`, as far as the routes of logins use it: the limiter, the OTP service, the number of bcrypt computations, what Keycloak keeps, and the gauges of the
-- dependencies. The limiter and the OTP service use keys
-- of different prefixes of their Redis server, so each has a server of its own here.
pub record App (Server Keycloak : Type 0) : Type 0 where
  pub limiter : Limiter Server
  pub otp : Otp Server
  pub checks : ℕ
  pub keycloak : Keycloak
  pub dependency_ready : Dict ℕ

-- `Database.ping`: whether a connection answers.
abbrev is_connected : Result Tables → Bool
is_connected (ok _) = true
is_connected (raise _) = false

module _ {Server Keycloak : Type 0} (redis : Redis Server) (sha256 : String → String)
    (hmac : String → String → String) (checkpw : String → String → Result Bool)
    (sql_lower : String → String) (connection : Result Tables) (dummy : String)
    (limit : String → Bool) (decode : String → Result (Dict Value))
    (post : String → Dict String → Exec Keycloak (ℕ × Result KeycloakTokenResponse))
    (broker : KeycloakTokenBroker) (send : String → String → Result (Unit {0})) (clock : ℕ → ℕ)
    (ticking : ℕ → ℕ) (challenge_id : String) (number : ℕ) where
  -- One request: `clock` is `time.time()` in seconds, `ticking` is `monotonic()` in ticks, and
  -- `challenge_id` and `number` are what `secrets` draws.
  unfoldable pub operations : Operations (App Server Keycloak)
  operations = record {
    check_credentials_attempt = λ client email.
        on (λ s. s.limiter) (λ t s. record s { limiter = t })
          (check_credentials_attempt redis sha256 ticking client email);
    verify_credentials = λ email password account_type.
        on (λ s. s.checks) (λ t s. record s { checks = t })
          (Credentials.verify_credentials checkpw sql_lower connection dummy email password
            account_type);
    start = λ email.
        on (λ s. s.otp) (λ t s. record s { otp = t })
          (Login.start redis hmac send clock challenge_id number email);
    verify = λ id email code.
        on (λ s. s.otp) (λ t s. record s { otp = t }) (Login.verify redis hmac clock id email code);
    issue_password_token = λ email password.
        on (λ s. s.keycloak) (λ t s. record s { keycloak = t })
          (issue_password_token limit decode post broker email password);
    refresh_token = λ token.
        on (λ s. s.keycloak) (λ t s. record s { keycloak = t })
          (refresh_token limit decode post broker token);
    database_ping = λ s. (ok (is_connected connection), s);
    rate_limiter_ping =
        on (λ s. s.limiter) (λ t s. record s { limiter = t }) (RateLimit.ping redis);
    set_dependency_ready = λ dependency value.
        modify (λ s. record s { dependency_ready = insert dependency value s.dependency_ready });
  }
