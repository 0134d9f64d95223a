-- ===== src/EmailOtp.antt =====
-- app/services/email_otp.py: `EmailOtpService`, the state that it keeps and its small helpers.
-- The challenges live in Redis, or without Redis in `_memory`. The service serves one request at a
-- time here, unless a module says otherwise; `time.time()` and `secrets` are read by the caller,
-- and HMAC-SHA256 is a parameter.
pub mod Store
pub mod Local
pub mod Remote
pub mod Login
pub mod Reset
pub mod Mail
pub mod Close
use ms_auth_service.Prelude.{
  ℕ, ◌+◌, ◌-◌, ◌*◌, ◌/◌, String, Bool, true, false, not, ◌&&◌, ◌||◌, Option, none, some, List, ◌==◌,
  if◌then◌else◌, is_some, max,
}
use Prim.Native.Nat.{◌%◌}
use Prim.Native.String
use ms_auth_service.Py.Int.{ℤ, pos, negsuc, le_nat}
use ms_auth_service.Py.Str.{◌++◌, is_ascii, partition}
use ms_auth_service.Py.Dict.{Dict, lookup}
use ms_auth_service.Py.Value.{Value, get, as_int}
use ms_auth_service.Py.Exec.{
  Exn, Result, ok, raise, Exec, pure, throw, gets, modify, try, on, raise_if, is_redis_failure,
  ◌>>=◌, ◌>>◌,
}
use ms_auth_service.Redis.{Redis}

-- `EmailOtpChallenge`
pub record Challenge : Type 0 where
  pub challenge_id : String
  pub expires_in : ℕ
  pub masked_email : String

-- A record of a challenge: `dict[str, object]`.
abbrev pub Record : Type 0
Record = Dict Value

-- A task of `_delivery_tasks` that has not run yet.
pub record Delivery : Type 0 where
  pub challenge_id : String
  pub email : String
  pub code : String

-- `EmailOtpService`; `connected` says whether `_redis` is a client.
pub record Otp (Server : Type 0) : Type 0 where
  pub enabled : Bool
  pub hmac_secret : Option String
  pub ttl_seconds : ℕ
  pub max_attempts : ℕ
  pub redis_url : Option String
  pub connected : Bool
  pub memory : Dict Record
  pub delivery_tasks : List Delivery
  pub smtp_host : Option String
  pub server : Server

-- `not self._smtp_host`
abbrev pub is_blank : Option String → Bool
is_blank none = true
is_blank (some s) = s == ""

abbrev pub digit : ℕ → String
digit n = String.slice "0123456789" (n % 10) (n % 10 + 1)

-- `f"{n:06d}"` of a number below 1,000,000.
unfoldable pub six_digits : ℕ → String
six_digits n =
    digit (n / 100_000)
    ++ (digit (n / 10_000)
        ++ (digit (n / 1000) ++ (digit (n / 100) ++ (digit (n / 10) ++ digit n))))

-- `hmac.compare_digest` of two `str`: it compares ASCII texts only.
unfoldable pub compare_digest : String → String → Result Bool
compare_digest a b = if is_ascii a && is_ascii b then ok (a == b) else raise Exn.type_error

abbrev first_char : String → String
first_char String.[] = ""
first_char (String.◌∷◌ c s) = String.◌∷◌ c String.[]

-- `_mask_email`
unfoldable pub mask_email : String → String
mask_email email = elim (partition b'@' email) [
  | none ↦ "***"
  | some (local, domain) ↦ first_char local ++ ("***@" ++ domain)
]

-- `isinstance(record.get("expires_at"), int) and record["expires_at"] > now`
unfoldable pub is_unexpired : ℕ → Record → Bool
is_unexpired now r = elim (as_int (get r "expires_at")) [
  | none ↦ false
  | some at ↦ not (le_nat at now)
]

-- `max(at - now, 1)`
unfoldable pub seconds_left : ℤ → ℕ → ℕ
seconds_left (pos at) now = max (at - now) 1
seconds_left (negsuc _) now = 1

module _ {Server : Type 0} where
  -- `_require_ready`
  unfoldable pub require_ready : Exec (Otp Server) (Unit {0})
  require_ready = do
    enabled ← gets (λ s. s.enabled)
    raise_if (not enabled) (Exn.email_otp_unavailable "email OTP is disabled")
    incomplete ← gets (λ s. not (is_some s.hmac_secret) || is_blank s.smtp_host)
    raise_if incomplete (Exn.email_otp_unavailable "email OTP configuration is incomplete")

  -- `_code_digest`, with `hmac key payload` the hexadecimal digest.
  unfoldable pub code_digest :
      (String → String → String) → String → String → Exec (Otp Server) String
  code_digest hmac challenge_id code s = elim s.hmac_secret [
    | none ↦ (raise (Exn.email_otp_unavailable "email OTP HMAC secret is not configured"), s)
    | some key ↦ (ok (hmac key (challenge_id ++ (":" ++ code))), s)
  ]

  -- `_close_redis`
  unfoldable pub close_redis : Exec (Otp Server) (Unit {0})
  close_redis = modify (λ s. record s { connected = false })

  abbrev pub on_server : {A : Type 0} → Exec Server A → Exec (Otp Server) A
  on_server = on (λ s. s.server) (λ t s. record s { server = t })

  module _ (redis : Redis Server) where
    -- `_redis_client`
    unfoldable pub redis_client : Exec (Otp Server) (Unit {0})
    redis_client s =
        if not (is_some s.redis_url)
        then (raise (Exn.email_otp_unavailable "Redis is not configured"), s)
        else if s.connected
        then (ok tt, s)
        else (do
          try (on_server redis.ping) (λ e.
              throw (
                if is_redis_failure e then Exn.email_otp_unavailable "Redis is unavailable" else e))
          modify (λ t. record t { connected = true }))
            s

    -- A command of the client: a failure closes the client and is reported with `reason`.
    unfoldable pub redis_command : {A : Type 0} → String → Exec Server A → Exec (Otp Server) A
    unfolding redis_client close_redis
    redis_command reason command = do
      redis_client
      try (on_server command) (λ e.
          if is_redis_failure e
          then (close_redis >>= λ _. throw (Exn.email_otp_unavailable reason))
          else throw e)
