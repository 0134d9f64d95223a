-- ===== src/Application/Throttle.antt =====
-- The login route of app/api/routes.py with the limiter of app/core/rate_limit.py in memory.
use ms_auth_service.Prelude.{
  ℕ, ◌+◌, ◌≤◌, ◌<◌, String, ◌≡◌, refl, inl, inr, Bool, true, length, arith,
}
use ms_auth_service.Py.Dict.{Dict}
use ms_auth_service.Py.Value.{Value}
use ms_auth_service.Py.Exec.{Exn, Result, raise, Exec}
use ms_auth_service.Redis.{Redis}
use ms_auth_service.Identity.{Tables}
use ms_auth_service.RateLimit.{Limiter, digests, credential_rules, check_credentials_attempt}
use ms_auth_service.RateLimit.Memory.{memory_max_entries}
use ms_auth_service.RateLimit.Memory.Bounds.{IsBounded}
use ms_auth_service.RateLimit.Fallback.{IsIsolated}
use ms_auth_service.RateLimit.Check.{exceeded}
use ms_auth_service.RateLimit.Attempts.{check_credentials_attempt-exceeded}
use ms_auth_service.Broker.{KeycloakTokenBroker, KeycloakTokenResponse}
use ms_auth_service.Web.{Request, start_native_login}
use ms_auth_service.Application.{App, operations}

module _ {Server Keycloak : Type 0} (redis : Redis Server) (sha256 : String → String)
    (hmac : String → String → String) (checkpw : String → String → Result Bool)
    (sql_lower : String → String) (connection : Result Tables) (dummy : String)
    (limit : String → Bool) (decode : String → Result (Dict Value))
    (post : String → Dict String → Exec Keycloak (ℕ × Result KeycloakTokenResponse))
    (broker : KeycloakTokenBroker) (send : String → String → Result (Unit {0})) (clock : ℕ → ℕ)
    (ticking : ℕ → ℕ) (challenge_id : String) (number : ℕ) where
  -- Without Redis, with room for four counters and a clock that does not go back: a login from
  -- an address or for an email whose open window holds its limit is answered as throttled, with
  -- a `Retry-After` of a second at least, before the password is looked at: bcrypt is not
  -- computed, no challenge starts and no email is sent, and nothing but the limiter changes.
  pub start_native_login_throttled :
      (grows : (i j : ℕ) → i ≤ j → ticking i ≤ ticking j) (request : Request)
      (email password : String) (s : App Server Keycloak)
      → IsIsolated redis s.limiter
      → IsBounded s.limiter.memory
      → length s.limiter.memory.counters + 4 ≤ memory_max_entries
      → 0 < s.limiter.limits.ip_burst_window_seconds
      → exceeded
          (digests sha256 request.client email)
          ticking
          0
          (credential_rules s.limiter.limits)
          s.limiter.memory
        ≡ true
      → (n : ℕ) × (t : Limiter Server) × (1 ≤ n)
        × (start_native_login
              (operations redis sha256 hmac checkpw sql_lower connection dummy limit decode post
                broker send clock ticking challenge_id number)
              request
              email
              password
              s
            ≡ (raise (Exn.rate_limit_exceeded n), record s { limiter = t }))
  unfolding start_native_login operations
  start_native_login_throttled grows request email password s iso b room pos full =
      let check = check_credentials_attempt redis sha256 ticking request.client email s.limiter in
      elim (check_credentials_attempt-exceeded redis sha256 ticking grows request.client email
        s.limiter iso b room pos) [
          | inl (free, e) ↦ ground (arith, full, free)
          | inr (f, (n, e, one)) ↦
              let check_eq : check ≡ (raise (Exn.rate_limit_exceeded n), check.1) = rw e refl in
              (n, check.1, one, rw check_eq refl)
        ]
