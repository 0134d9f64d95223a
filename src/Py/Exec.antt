-- ===== src/Py/Exec.antt =====
-- Methods that change an object and may raise. What was written before a raise stays written, so
-- the state comes back beside the exception too.
use ms_auth_service.Prelude.{
  ℕ, String, Bool, true, false, max, if◌then◌else◌, ◌≡◌, refl, ◌⊎◌, inl, inr,
}

-- The exceptions that the service raises or handles (app/core/errors.py and the modules that
-- declare their own), those of the libraries that it catches, and those that end as a 500.
pub data Exn : Type 0 where
  invalid_credentials ambiguous_identity : Exn
  rate_limit_exceeded : (retry_after : ℕ) → Exn
  email_otp_invalid : Exn
  email_otp_unavailable : String → Exn
  reset_otp_invalid reset_otp_attempts_exceeded : Exn
  reset_token_invalid : String → Exn
  reset_spring_error : (detail : String) (status_code : ℕ) → Exn
  reset_unavailable : String → Exn
  broker_unavailable : String → Exn
  service_authentication : String → Exn
  http_exception : (status_code : ℕ) (detail : String) → Exn
  redis_error postgres_error os_error smtp_error : Exn
  jwt_error jwks_error : Exn
  -- `http_error` is a timeout or a failure of the network, `protocol_error` any other `HTTPError`.
  http_error protocol_error : Exn
  type_error value_error key_error runtime_error other_error : Exn

pub data Result (A : Type 0) : Type 0 where
  ok : A → Result A
  raise : Exn → Result A

pub Result-cases :
    {A : Type 0} → (r : Result A) → ((a : A) × (r ≡ ok a)) ⊎ ((e : Exn) × (r ≡ raise e))
Result-cases (ok a) = inl (a, refl)
Result-cases (raise e) = inr (e, refl)

-- A result and its state, from what the result is.
pub result_eq : {S A : Type 0} → (p : Result A × S) → {a : A} → p.0 ≡ ok a → p ≡ (ok a, p.1)
result_eq p e = λ i. (e i, p.1)

abbrev pub Exec : Type 0 → Type 0 → Type 0
Exec S A = S → Result A × S

module _ {S A : Type 0} where
  abbrev pub pure : A → Exec S A
  pure a s = (ok a, s)

  abbrev pub throw : Exn → Exec S A
  throw e s = (raise e, s)

  abbrev pub gets : (S → A) → Exec S A
  gets f s = (ok (f s), s)

  abbrev pub lift : Result A → Exec S A
  lift r s = (r, s)

  -- `try: m` with `except Exception as e: handler(e)`; a handler that does not apply raises again.
  abbrev after_try : (Exn → Exec S A) → Result A × S → Result A × S
  after_try handler (ok a, s) = (ok a, s)
  after_try handler (raise e, s) = handler e s

  abbrev pub try : Exec S A → (Exn → Exec S A) → Exec S A
  try m handler s = after_try handler (m s)

pub Exec-cases :
    {S A : Type 0}
    → (r : Result A × S) → ((a : A) × (r ≡ (ok a, r.1))) ⊎ ((e : Exn) × (r ≡ (raise e, r.1)))
Exec-cases (ok a, s) = inl (a, refl)
Exec-cases (raise e, s) = inr (e, refl)

-- `try: m` with `finally: z`, or `with` with the exit `z`: what `z` raises takes the place of the
-- outcome of `m`.
abbrev exited : {S A : Type 0} → Result A → Result (Unit {0}) × S → Result A × S
exited r (ok _, s) = (r, s)
exited r (raise e, s) = (raise e, s)

abbrev finish : {S A : Type 0} → Exec S (Unit {0}) → Result A × S → Result A × S
finish z (r, s) = exited r (z s)

abbrev pub finally : {S A : Type 0} → Exec S A → Exec S (Unit {0}) → Exec S A
finally m z s = finish z (m s)

abbrev pub modify : {S : Type 0} → (S → S) → Exec S (Unit {0})
modify f s = (ok tt, f s)

abbrev follow : {S A B : Type 0} → (A → Exec S B) → Result A × S → Result B × S
follow f (ok a, s) = f a s
follow f (raise e, s) = (raise e, s)

infixl 5 ◌>>=◌ ◌>>◌
abbrev pub ◌>>=◌ : {S A B : Type 0} → Exec S A → (A → Exec S B) → Exec S B
◌>>=◌ m f s = follow f (m s)

abbrev pub ◌>>◌ : {S B : Type 0} → Exec S (Unit {0}) → Exec S B → Exec S B
m >> n = m >>= λ _. n

-- `if test: raise e`
abbrev pub raise_if : {S : Type 0} → Bool → Exn → Exec S (Unit {0})
raise_if b e s = (if b then raise e else ok tt, s)

-- An action on a part of the state.
abbrev focused : {S T A : Type 0} → (T → S → S) → S → Result A × T → Result A × S
focused put s (r, t) = (r, put t s)

abbrev pub on : {S T A : Type 0} → (S → T) → (T → S → S) → Exec T A → Exec S A
on get put m s = focused put s (m (get s))

-- `except (RedisError, OSError)`
abbrev pub is_redis_failure : Exn → Bool
is_redis_failure Exn.redis_error = true
is_redis_failure Exn.os_error = true
is_redis_failure _ = false

-- `RateLimitExceeded(retry_after=n)`
unfoldable pub raise_rate_limit : ℕ → Exn
raise_rate_limit n = Exn.rate_limit_exceeded (max n 1)
