-- ===== src/Schemas.antt =====
-- The requests of app/schemas/auth.py: what pydantic lets through of their fields. Bounds of a field
-- are tested first, and the class's validators after them.
use ms_auth_service.Prelude.{
  ℕ, String, Bool, not, ◌&&◌, Option, none, some, ◌==◌, if◌then◌else◌, eqb, leb,
}
use ms_auth_service.Py.Str.{length, all_chars}
use ms_auth_service.Password.{validate_email_shape, validate_password_length, is_complex}
use ms_auth_service.Identity.{AccountType}

infixl 5 ◌>>=◌
abbrev ◌>>=◌ : {A B : Type 0} → Option A → (A → Option B) → Option B
◌>>=◌ none f = none
◌>>=◌ (some a) f = f a

-- `Field(min_length=least, max_length=most)`
unfoldable pub bounded : ℕ → ℕ → String → Option String
unfolding length
bounded least most s = if leb least (length s) && leb (length s) most then some s else none

-- `Field(pattern=r"^\d{6}$")`, with `decimal` for `\d`.
unfoldable pub six_decimals : (ℕ → Bool) → String → Option String
unfolding all_chars length
six_decimals decimal s = if eqb (length s) 6 && all_chars decimal s then some s else none

-- `email`, in every request that has one.
unfoldable pub email_field : String → Option String
unfolding bounded validate_email_shape
email_field s = do t ← bounded 3 255 s; validate_email_shape t

pub record TokenLoginRequest : Type 0 where
  pub email : String
  pub password : String

unfoldable pub token_login_request : (email password : String) → Option TokenLoginRequest
unfolding email_field validate_password_length
token_login_request email password = do
  e ← email_field email
  p ← validate_password_length password
  some (record { email = e; password = p })

pub record CredentialVerificationRequest : Type 0 where
  pub email : String
  pub password : String
  pub account_type : Option AccountType

unfoldable pub credential_verification_request :
    (email password : String) → Option AccountType → Option CredentialVerificationRequest
unfolding email_field validate_password_length
credential_verification_request email password account_type = do
  e ← email_field email
  p ← validate_password_length password
  some (record { email = e; password = p; account_type = account_type })

pub record NativeLoginVerifyRequest : Type 0 where
  pub email : String
  pub password : String
  pub challenge_id : String
  pub code : String

unfoldable pub native_login_verify_request :
    (ℕ → Bool) → (email password challenge_id code : String) → Option NativeLoginVerifyRequest
unfolding email_field validate_password_length bounded six_decimals
native_login_verify_request decimal email password challenge_id code = do
  e ← email_field email
  p ← validate_password_length password
  i ← bounded 20 256 challenge_id
  c ← six_decimals decimal code
  some (record { email = e; password = p; challenge_id = i; code = c })

-- `validate_refresh_token`
unfoldable pub validate_refresh_token : String → Option String
validate_refresh_token s = if s == "" then none else some s

pub record PasswordResetStartRequest : Type 0 where
  pub email : String
  pub account_type : Option AccountType

unfoldable pub password_reset_start_request :
    (email : String) → Option AccountType → Option PasswordResetStartRequest
unfolding email_field
password_reset_start_request email account_type = do
  e ← email_field email
  some (record { email = e; account_type = account_type })

pub record PasswordResetVerifyRequest : Type 0 where
  pub challenge_id : String
  pub email : String
  pub code : String

unfoldable pub password_reset_verify_request :
    (ℕ → Bool) → (challenge_id email code : String) → Option PasswordResetVerifyRequest
unfolding email_field bounded six_decimals
password_reset_verify_request decimal challenge_id email code = do
  i ← bounded 20 256 challenge_id
  e ← email_field email
  c ← six_decimals decimal code
  some (record { challenge_id = i; email = e; code = c })

pub record PasswordResetConfirmRequest : Type 0 where
  pub reset_token : String
  pub new_password : String

-- `Field(min_length=1)` and `validate_new_password_complexity`
unfoldable pub password_reset_confirm_request :
    (ℕ → Bool) → (reset_token new_password : String) → Option PasswordResetConfirmRequest
unfolding is_complex
password_reset_confirm_request decimal reset_token new_password =
    if not (reset_token == "") && is_complex decimal new_password
    then some (record { reset_token = reset_token; new_password = new_password })
    else none
