-- ===== src/PasswordReset.antt =====
-- app/services/password_reset_service.py: `PasswordResetService`, with the HTTP client that it
-- makes for each call. The time is `time.time()` in ticks; PyJWT, the HTTP call to the Spring
-- service and the random values are parameters.
pub mod Confirm
pub mod Start
pub mod Race
pub mod Journey
use ms_auth_service.Prelude.{
  ℕ, ◌+◌, ◌-◌, ◌*◌, ◌/◌, String, Bool, true, false, not, ◌&&◌, ◌||◌, Option, none, some, List, [],
  ◌∷◌, ◌==◌, if◌then◌else◌, eqb, leb, is_some, max, those,
}
use ms_auth_service.Py.Int.{ℤ, pos, negsuc}
use ms_auth_service.Py.Str.{◌++◌, length, normalize_email, rstrip_char}
use ms_auth_service.Py.Dict.{Dict, lookup, insert, erase, keep}
use ms_auth_service.Py.Value.{Value}
use ms_auth_service.Py.Exec.{
  Exn, Result, ok, raise, Exec, pure, throw, gets, lift, modify, try, on, raise_if,
  is_redis_failure, ◌>>=◌, ◌>>◌,
}
use ms_auth_service.Redis.{Redis}
use ms_auth_service.RateLimit.Memory.{ticks}
use ms_auth_service.Identity.{
  AccountType, StoredIdentity, Tables, value, account_type_of, find_by_email,
}
use ms_auth_service.EmailOtp.{Otp, Record, Challenge, mask_email}
use ms_auth_service.EmailOtp.Reset.{start_password_reset, verify_password_reset, is_otp_unavailable}
use ms_auth_service.Password.{is_complex}

-- The settings that the service reads.
pub record Settings : Type 0 where
  pub password_reset_jwt_secret : Option String
  pub email_otp_hmac_secret : Option String
  pub internal_service_secret : Option String
  pub internal_service_key : Option String
  pub spring_jwt_secret : Option String
  pub email_otp_ttl_seconds : ℕ
  pub password_reset_token_ttl_seconds : ℕ
  pub ms_spring_api_url : String

-- `PasswordResetService`; `connected` says whether `_redis` is a client, and `spring` is the state
-- of the service that holds the passwords.
pub record Service (Server Spring : Type 0) : Type 0 where
  pub redis_url : Option String
  pub connected : Bool
  pub blacklist_memory : Dict ℕ
  pub server : Server
  pub spring : Spring

-- The claims of a reset token. PyJWT makes sure that `sub` and `jti` are texts and that `iat` and
-- `exp` are numbers.
pub record Claims : Type 0 where
  pub sub : String
  pub account_type : Value
  pub database_id : Value
  pub purpose : Value
  pub jti : String
  pub iat : ℕ
  pub exp : ℕ

-- The first secret that passes a test.
unfoldable pub first_secret : (String → Bool) → List (Option String) → Option String
first_secret p [] = none
first_secret p (none ∷ rest) = first_secret p rest
first_secret p (some s ∷ rest) = if p s then some s else first_secret p rest

abbrev or_else : Option String → String → String
or_else none d = d
or_else (some s) d = s

abbrev or_first : Option String → Option String → Option String
or_first none o = o
or_first (some s) o = some s

-- The two loops over the secrets, and the text that stands in for a missing one.
unfoldable pub choose_secret : List (Option String) → String → String
unfolding first_secret length
choose_secret secrets default =
    or_else
      (or_first (first_secret (λ s. leb 32 (length s)) secrets)
        (first_secret (λ s. not (s == "")) secrets))
      default

-- `_get_reset_jwt_secret`
unfoldable pub get_reset_jwt_secret : Settings → String
unfolding choose_secret
get_reset_jwt_secret c =
    choose_secret
      (c.password_reset_jwt_secret ∷ c.email_otp_hmac_secret ∷ c.internal_service_secret
        ∷ c.internal_service_key ∷ c.spring_jwt_secret ∷ [])
      "ouros-dev-password-reset-secret-key-32-chars-minimum"

-- `_get_internal_service_secret`
unfoldable pub get_internal_service_secret : Settings → String
unfolding choose_secret
get_internal_service_secret c =
    choose_secret
      (c.internal_service_secret ∷ c.internal_service_key ∷ c.spring_jwt_secret
        ∷ c.password_reset_jwt_secret ∷ c.email_otp_hmac_secret ∷ [])
      "ouros-dev-internal-service-secret-key-32-chars-minimum"

-- `PasswordResetStartResponse`
pub record StartResponse : Type 0 where
  pub challenge_id : String
  pub masked_email : String
  pub expires_in : ℕ

-- `account_type in (FARM_OWNER, COMPANY_EMPLOYEE)`
unfoldable pub is_resettable : AccountType → Bool
is_resettable AccountType.farm_owner = true
is_resettable AccountType.company_employee = true
is_resettable AccountType.admin = false

-- `int(v)`: `none` where it raises, with `parse` for `int` of a text.
abbrev pub int_of : (String → Option ℤ) → Value → Option ℤ
int_of parse (Value.int n) = some n
int_of parse (Value.bool true) = some (pos 1)
int_of parse (Value.bool false) = some (pos 0)
int_of parse (Value.str s) = parse s
int_of parse _ = none

-- `_cleanup_blacklist_memory`
unfoldable pub cleanup_blacklist_memory : ℕ → Dict ℕ → Dict ℕ
cleanup_blacklist_memory now blacklist = keep (λ exp. not (leb exp now)) blacklist

abbrev pub token_used : Exn
token_used = Exn.reset_token_invalid "Token já utilizado ou inválido."

-- What the status of the Spring service's answer comes to.
unfoldable pub spring_answer : ℕ → Result (Unit {0})
spring_answer status =
    if eqb status 200
    then ok tt
    else if eqb status 404
    then raise (Exn.reset_token_invalid "Usuário não encontrado para redefinição de senha.")
    else if eqb status 400
    then raise (Exn.reset_token_invalid "Dados inválidos para redefinição de senha.")
    else if eqb status 401
    then raise (Exn.reset_unavailable "Erro de autenticação interna entre serviços.")
    else raise
        (Exn.reset_unavailable "Serviço de redefinição de senha temporariamente indisponível.")

-- What the request to the Spring service says.
pub record Update : Type 0 where
  pub endpoint : String
  pub key : String
  pub account_type : String
  pub id : ℤ
  pub new_password : String

abbrev pub is_network_failure : Exn → Bool
is_network_failure Exn.http_error = true
is_network_failure _ = false

-- `_start_reset`, which changes the challenges of the OTP service.
module _ {Server : Type 0} (redis : Redis Server) (hmac : String → String → String)
    (sql_lower : String → String) (c : Settings) where
  abbrev pub send_challenge :
      (ℕ → ℕ) → String → ℕ → StartResponse → List StoredIdentity → Exec (Otp Server) StartResponse
  send_challenge clock challenge_id number response (i ∷ []) =
      try
        (start_password_reset redis hmac clock challenge_id number i.email (value i.account_type)
            i.database_id
          >>= λ (challenge : Challenge).
              pure (record response { challenge_id = challenge.challenge_id }))
        (λ e. if is_otp_unavailable e then pure response else throw e)
  send_challenge clock challenge_id number response _ = pure response

  -- `start_reset`; `generic_id` and `challenge_id` are the two identifiers drawn.
  unfoldable pub start_reset :
      Result Tables
      → (ℕ → ℕ)
      → String
      → String
      → ℕ
      → String
      → Option AccountType
      → Exec (Otp Server) StartResponse
  unfolding find_by_email normalize_email mask_email start_password_reset value is_resettable those
  start_reset connection clock generic_id challenge_id number email account_type = do
    let normalized_email = normalize_email email
    identities ← lift (find_by_email sql_lower connection normalized_email account_type)
    send_challenge clock challenge_id number
        (record {
          challenge_id = generic_id;
          masked_email = mask_email normalized_email;
          expires_in = c.email_otp_ttl_seconds;
        })
        (those (λ i. is_resettable i.account_type) identities)

-- `_mint_reset_token` and `_verify_reset_token`
module _ (c : Settings) (encode : Claims → String → String)
    (decode : ℕ → String → String → Result Claims) where
  unfoldable pub mint_reset_token : ℕ → String → String → String → ℤ → String
  unfolding get_reset_jwt_secret
  mint_reset_token at jti email account_type database_id =
      encode
        (record {
          sub = email;
          account_type = Value.str account_type;
          database_id = Value.int database_id;
          purpose = Value.str "password_reset";
          jti = jti;
          iat = at / ticks;
          exp = at / ticks + c.password_reset_token_ttl_seconds;
        })
        (get_reset_jwt_secret c)

  -- `except (jwt.PyJWTError, ValueError)`
  abbrev pub is_refusal : Exn → Bool
  is_refusal Exn.jwt_error = true
  is_refusal Exn.value_error = true
  is_refusal _ = false

  abbrev is_reset_purpose : Value → Bool
  is_reset_purpose (Value.str s) = s == "password_reset"
  is_reset_purpose _ = false

  unfoldable pub verify_reset_token : ℕ → String → Result Claims
  unfolding get_reset_jwt_secret
  verify_reset_token at token = elim (decode at token (get_reset_jwt_secret c)) [
    | raise e ↦ raise (
        if is_refusal e
        then Exn.reset_token_invalid "Token de recuperação inválido ou expirado."
        else e)
    | ok claims ↦
        if is_reset_purpose claims.purpose
        then ok claims
        else raise (Exn.reset_token_invalid "Token de recuperação com finalidade inválida.")
  ]

-- `verify_code`, with `render` for `str` of what is no text.
module _ {Server : Type 0} (redis : Redis Server) (hmac : String → String → String) (c : Settings)
    (encode : Claims → String → String) (decode : ℕ → String → String → Result Claims)
    (render : Value → String) (parse : String → Option ℤ) where
  abbrev text_of : Value → String
  text_of (Value.str s) = s
  text_of v = render v

  abbrev minted : ℕ → String → Option Value → Option Value → Option Value → Result (String × ℕ)
  minted at jti (some e) (some t) (some d) = elim (int_of parse d) [
    | none ↦ raise Exn.value_error
    | some n ↦ ok (
      mint_reset_token c encode decode at jti (text_of e) (text_of t) n,
      c.password_reset_token_ttl_seconds,
    )
  ]
  minted at jti _ _ _ = raise Exn.key_error

  unfoldable pub verify_code :
      ℕ → ℕ → String → String → String → String → Exec (Otp Server) (String × ℕ)
  unfolding verify_password_reset mint_reset_token
  verify_code now at jti challenge_id email code = do
    r ← verify_password_reset redis hmac now challenge_id email code
    lift (minted at jti (lookup "email" r) (lookup "account_type" r) (lookup "database_id" r))
