-- ===== src/EmailOtp/Login.antt =====
-- `start` and `verify` of `EmailOtpService`: the challenges of native logins.
pub mod Keeps
pub mod Verify
pub mod Guesses
pub mod RoundTrip
pub mod Race
use ms_auth_service.Prelude.{
  ℕ, ◌+◌, String, Bool, true, false, not, ◌&&◌, ◌||◌, Option, none, some, [], ◌∷◌, if◌then◌else◌,
}
use ms_auth_service.Py.Int.{ℤ, pos, add_one, le_nat, ge_nat}
use ms_auth_service.Py.Str.{normalize_email}
use ms_auth_service.Py.Dict.{insert}
use ms_auth_service.Py.Value.{Value, get, as_int, as_str}
use ms_auth_service.Py.Exec.{
  Exn, Result, ok, raise, Exec, pure, throw, gets, lift, try, ◌>>=◌, ◌>>◌,
}
use ms_auth_service.Redis.{Redis}
use ms_auth_service.EmailOtp.{
  Otp, Record, Challenge, require_ready, code_digest, compare_digest, six_digits, mask_email,
  seconds_left,
}
use ms_auth_service.EmailOtp.Store.{Prefix, save, load, delete}

-- `except (OSError, smtplib.SMTPException)`
abbrev pub is_mail_failure : Exn → Bool
is_mail_failure Exn.os_error = true
is_mail_failure Exn.smtp_error = true
is_mail_failure _ = false

-- The record that `start` saves.
abbrev pub login_record : String → String → ℕ → Record
login_record email digest expires_at =
    ("email", Value.str email)
    ∷ ("code_digest", Value.str digest)
    ∷ ("attempts", Value.int (pos 0))
    ∷ ("expires_at", Value.int (pos expires_at))
    ∷ []

-- The four fields that `verify` reads, at their types.
pub record Fields : Type 0 where
  pub email : String
  pub expires_at : ℤ
  pub attempts : ℤ
  pub code_digest : String

abbrev four : Option String → Option ℤ → Option ℤ → Option String → Option Fields
four (some e) (some x) (some a) (some c) =
    some (record { email = e; expires_at = x; attempts = a; code_digest = c })
four _ _ _ _ = none

-- The `isinstance` tests: `none` where one of them fails.
unfoldable pub fields : Record → Option Fields
fields r =
    four (as_str (get r "email")) (as_int (get r "expires_at")) (as_int (get r "attempts"))
      (as_str (get r "code_digest"))

module _ {Server : Type 0} (redis : Redis Server) (hmac : String → String → String) where
  -- `start`: `challenge_id` and `number` are what `secrets` drew, and `send` is `_send_email`.
  unfoldable pub start :
      (String → String → Result (Unit {0}))
      → (ℕ → ℕ)
      → String
      → ℕ
      → String
      → Exec (Otp Server) Challenge
  unfolding require_ready code_digest save delete
  start send clock challenge_id number email = do
    require_ready
    let normalized_email = normalize_email email
    let code = six_digits number
    ttl ← gets (λ s. s.ttl_seconds)
    digest ← code_digest hmac challenge_id code
    save redis (clock 1) challenge_id (login_record normalized_email digest (clock 0 + ttl)) ttl
        Prefix.login
    try (lift (send normalized_email code)) (λ e.
        if is_mail_failure e
        then (do
          delete redis challenge_id Prefix.login
          throw (Exn.email_otp_unavailable "email delivery failed"))
        else throw e)
    pure (record {
      challenge_id = challenge_id;
      expires_in = ttl;
      masked_email = mask_email normalized_email;
    })

  -- A code that does not match: one attempt more, or no challenge any more.
  unfoldable pub miss : (ℕ → ℕ) → String → Record → Fields → Exec (Otp Server) (Unit {0})
  unfolding save delete
  miss clock challenge_id r f = do
    most ← gets (λ s. s.max_attempts)
    let attempts = add_one f.attempts
    (if ge_nat attempts most
        then delete redis challenge_id Prefix.login
        else save redis (clock 2) challenge_id (insert "attempts" (Value.int attempts) r)
            (seconds_left f.expires_at (clock 1)) Prefix.login)
    throw Exn.email_otp_invalid

  -- The comparison of the email and the code, and what follows from it.
  unfoldable pub compare_code :
      (ℕ → ℕ) → String → String → String → Record → Fields → Exec (Otp Server) (Unit {0})
  unfolding delete code_digest compare_digest miss
  compare_code clock challenge_id email code r f = do
    submitted ← code_digest hmac challenge_id code
    email_matches ← lift (compare_digest f.email (normalize_email email))
    code_matches ← lift (compare_digest f.code_digest submitted)
    (if email_matches && code_matches
        then delete redis challenge_id Prefix.login
        else miss clock challenge_id r f)

  -- `verify` from the `isinstance` tests on.
  unfoldable pub verify_record :
      (ℕ → ℕ) → String → String → String → Record → Option Fields → Exec (Otp Server) (Unit {0})
  unfolding delete compare_code
  verify_record clock challenge_id email code r none = do
    delete redis challenge_id Prefix.login
    throw Exn.email_otp_invalid
  verify_record clock challenge_id email code r (some f) = do
    most ← gets (λ s. s.max_attempts)
    (if le_nat f.expires_at (clock 1) || ge_nat f.attempts most
        then (do delete redis challenge_id Prefix.login; throw Exn.email_otp_invalid)
        else compare_code clock challenge_id email code r f)

  -- `verify` once `_load` has answered.
  unfoldable pub verify_loaded :
      (ℕ → ℕ) → String → String → String → Option Record → Exec (Otp Server) (Unit {0})
  unfolding verify_record fields
  verify_loaded clock challenge_id email code none = throw Exn.email_otp_invalid
  verify_loaded clock challenge_id email code (some r) =
      verify_record clock challenge_id email code r (fields r)

  -- `verify`; `clock i` is the i-th time that it reads.
  unfoldable pub verify : (ℕ → ℕ) → String → String → String → Exec (Otp Server) (Unit {0})
  unfolding require_ready load verify_loaded
  verify clock challenge_id email code = do
    require_ready
    found ← load redis (clock 0) challenge_id Prefix.login
    verify_loaded clock challenge_id email code found
