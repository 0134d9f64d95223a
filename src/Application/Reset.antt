-- ===== src/Application/Reset.antt =====
-- The services behind the password reset routes, as app/main.py wires them: the password reset
-- service has the OTP service of the logins.
pub mod Journey
use ms_auth_service.Prelude.{ℕ, String, Bool, Option}
use ms_auth_service.Py.Int.{ℤ}
use ms_auth_service.Py.Value.{Value}
use ms_auth_service.Py.Exec.{Result, Exec, on}
use ms_auth_service.Redis.{Redis}
use ms_auth_service.Identity.{Tables}
use ms_auth_service.RateLimit.{Limiter, check_password_reset_attempt}
use ms_auth_service.EmailOtp.{Otp}
use ms_auth_service.PasswordReset.{Settings, Service, Claims, Update, start_reset, verify_code}
use ms_auth_service.PasswordReset.Confirm.{confirm_reset}
use ms_auth_service.Web.Reset.{ResetOperations}

-- `application.state`, as far as the routes of password resets use it. Their Redis keys have
-- prefixes of their own, so each service has a server of its own here.
pub record ResetApp (Server Spring : Type 0) : Type 0 where
  pub limiter : Limiter Server
  pub otp : Otp Server
  pub password_reset : Service Server Spring

module _ {Server Spring : Type 0} (redis : Redis Server) (sha256 : String → String)
    (hmac : String → String → String) (sql_lower : String → String) (connection : Result Tables)
    (settings : Settings) (post : Update → Exec Spring ℕ) (encode : Claims → String → String)
    (decode : ℕ → String → String → Result Claims) (render : Value → String) (decimal : ℕ → Bool)
    (parse : String → Option ℤ) (clock : ℕ → ℕ) (ticking : ℕ → ℕ)
    (generic_id challenge_id jti : String) (number : ℕ) where
  -- One request: `clock` is `time.time()` in seconds, `ticking` the time in ticks, and the three
  -- identifiers and `number` are what `secrets` and `uuid` draw.
  unfoldable pub reset_operations : ResetOperations (ResetApp Server Spring)
  reset_operations = record {
    check_password_reset_attempt = λ client email.
        on (λ s. s.limiter) (λ t s. record s { limiter = t })
          (check_password_reset_attempt redis sha256 ticking client email);
    start_reset = λ email account_type.
        on (λ s. s.otp) (λ t s. record s { otp = t })
          (start_reset redis hmac sql_lower settings connection clock generic_id challenge_id number
            email account_type);
    verify_code = λ id email code.
        on (λ s. s.otp) (λ t s. record s { otp = t })
          (verify_code redis hmac settings encode decode render parse (clock 0) (ticking 0) jti id
            email code);
    confirm_reset = λ token new_password.
        on (λ s. s.password_reset) (λ t s. record s { password_reset = t })
          (confirm_reset settings post redis encode decode decimal parse ticking token
            new_password);
  }
