-- ===== src/Credentials.antt =====
-- app/core/security.py and app/services/auth_service.py. `bcrypt.checkpw` is a parameter; the state
-- counts how often it is computed, since that is what the response time shows.
pub mod Answers
use ms_auth_service.Prelude.{
  ℕ, suc, ◌+◌, String, Bool, true, false, Option, none, some, List, [], ◌∷◌, ◌==◌, if◌then◌else◌,
  count,
}
use ms_auth_service.Py.Str.{◌++◌, length}
use Prim.Native.String
use ms_auth_service.Py.Exec.{
  Exn, Result, ok, raise, Exec, pure, throw, lift, modify, try, ◌>>=◌, ◌>>◌,
}
use ms_auth_service.Identity.{
  AccountType, StoredIdentity, Tables, IdentityResponse, from_identity, find_by_email,
  find_by_external_id,
}

-- `_normalize_bcrypt_prefix`
unfoldable pub normalize_bcrypt_prefix : String → String
unfolding length
normalize_bcrypt_prefix s =
    if String.slice s 0 4 == "$2y$" then "$2b$" ++ String.slice s 4 (length s) else s

-- `except (ValueError, TypeError): return False`
abbrev pub checked : Result Bool → Result Bool
checked (ok b) = ok b
checked (raise Exn.value_error) = ok false
checked (raise Exn.type_error) = ok false
checked (raise e) = raise e

module _ (checkpw : String → String → Result Bool) where
  -- `verify_password`
  unfoldable pub verify_password : String → String → Exec ℕ Bool
  unfolding normalize_bcrypt_prefix
  verify_password raw_password encoded_password n =
      (checked (checkpw raw_password (normalize_bcrypt_prefix encoded_password)), suc n)

  -- `burn_dummy_password_check`, with the hash that the process made for it.
  unfoldable pub burn_dummy_password_check : String → String → Exec ℕ (Unit {0})
  unfolding verify_password
  burn_dummy_password_check dummy raw_password = do _ ← verify_password raw_password dummy; pure tt

  -- The loop of `verify_credentials`
  unfoldable pub collect_matches : String → List StoredIdentity → Exec ℕ (List StoredIdentity)
  unfolding verify_password
  collect_matches raw_password [] = pure []
  collect_matches raw_password (identity ∷ identities) = do
    is_match ← verify_password raw_password identity.password_hash
    rest ← collect_matches raw_password identities
    pure (if is_match then identity ∷ rest else rest)

  -- What the matches come to.
  abbrev pub answer : List StoredIdentity → Result IdentityResponse
  answer [] = raise Exn.invalid_credentials
  answer (i ∷ []) = ok (from_identity i)
  answer (_ ∷ _ ∷ _) = raise Exn.ambiguous_identity

  -- `verify_credentials` from what the repository found.
  unfoldable pub attempt : String → String → List StoredIdentity → Exec ℕ IdentityResponse
  unfolding burn_dummy_password_check collect_matches from_identity
  attempt dummy raw_password [] = do
    burn_dummy_password_check dummy raw_password
    throw Exn.invalid_credentials
  attempt dummy raw_password (i ∷ is) = do
    matches ← collect_matches raw_password (i ∷ is)
    lift (answer matches)

  -- `AuthService.verify_credentials`
  unfoldable pub verify_credentials :
      (String → String)
      → Result Tables
      → String
      → String
      → String
      → Option AccountType
      → Exec ℕ IdentityResponse
  unfolding find_by_email attempt
  verify_credentials sql_lower connection dummy email raw_password account_type = do
    identities ← lift (find_by_email sql_lower connection email account_type)
    attempt dummy raw_password identities

abbrev only : List StoredIdentity → Result (Option IdentityResponse)
only [] = ok none
only (i ∷ []) = ok (some (from_identity i))
only (_ ∷ _ ∷ _) = raise Exn.ambiguous_identity

-- `lookup_identity_by_email`
unfoldable pub lookup_identity_by_email :
    (String → String) → Result Tables → String → Result (Option IdentityResponse)
unfolding find_by_email from_identity
lookup_identity_by_email sql_lower connection email =
    elim (find_by_email sql_lower connection email none) [ raise e ↦ raise e | ok is ↦ only is ]

-- `lookup_identity_by_external_id`
unfoldable pub lookup_identity_by_external_id :
    Result Tables → AccountType → ℕ → Result (Option IdentityResponse)
unfolding find_by_external_id from_identity
lookup_identity_by_external_id connection account_type database_id =
    elim (find_by_external_id connection account_type database_id) [
      | raise e ↦ raise e
      | ok none ↦ ok none
      | ok (some i) ↦ ok (some (from_identity i))
    ]
