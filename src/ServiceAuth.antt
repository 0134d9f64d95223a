-- ===== src/ServiceAuth.antt =====
-- app/core/service_auth.py and the service routes of app/api/internal_routes.py. PyJWT's check of
-- a token is a parameter.
pub mod Guard
pub mod Routes
use ms_auth_service.Prelude.{
  ℕ, String, Bool, true, false, not, ◌&&◌, ◌||◌, Option, none, some, ◌==◌, if◌then◌else◌,
}
use ms_auth_service.Py.Str.{partition, lower, strip, rstrip_char}
use ms_auth_service.Py.Dict.{Dict}
use ms_auth_service.Py.Value.{Value, get, as_str}
use ms_auth_service.Py.Exec.{Exn, Result, ok, raise}
use ms_auth_service.Identity.{IdentityResponse}

-- `except (InvalidTokenError, PyJWKClientError)`
abbrev pub is_token_failure : Exn → Bool
is_token_failure Exn.jwt_error = true
is_token_failure Exn.jwks_error = true
is_token_failure _ = false

-- `except ServiceAuthenticationError`
abbrev pub is_service_failure : Exn → Bool
is_service_failure (Exn.service_authentication _) = true
is_service_failure _ = false

-- `except InvalidCredentialsError`
abbrev pub is_invalid_credentials : Exn → Bool
is_invalid_credentials Exn.invalid_credentials = true
is_invalid_credentials _ = false

abbrev pub is_party : String → Option String → Bool
is_party client_id none = false
is_party client_id (some s) = s == client_id

-- `KeycloakServiceTokenVerifier`: what a token must be for. PyJWT's client of the keys is left out.
pub record Verifier : Type 0 where
  pub issuer : String
  pub audience : String
  pub client_id : String

abbrev stripped_or : String → Option String → String
stripped_or d none = d
stripped_or d (some s) = strip s

-- `__init__`, from the settings and the two arguments.
unfoldable pub make_verifier :
    (issuer_url internal_audience internal_client_id : String)
    → (audience client_id : Option String) → Result Verifier
unfolding strip rstrip_char
make_verifier issuer_url internal_audience internal_client_id audience client_id =
    let a = stripped_or internal_audience audience in
    let c = stripped_or internal_client_id client_id in
    if a == "" || c == ""
    then raise Exn.value_error
    else ok (record { issuer = rstrip_char b'/' issuer_url; audience = a; client_id = c })

module _ (decode : String → Result (Dict Value)) (client_id : String) where
  -- `_decode`
  unfoldable pub decode_token : String → Result (Dict Value)
  decode_token token = elim (decode token) [
    | raise e ↦
        raise (if is_token_failure e then Exn.service_authentication "invalid service token" else e)
    | ok payload ↦
        if is_party client_id (as_str (get payload "azp"))
        then ok payload
        else raise (Exn.service_authentication "unexpected authorized party")
  ]

  abbrev pub verify_parts : Option (String × String) → Result (Dict Value)
  verify_parts none = raise (Exn.service_authentication "invalid bearer token")
  verify_parts (some (scheme, token)) =
      if not (lower scheme == "bearer") || strip token == ""
      then raise (Exn.service_authentication "invalid bearer token")
      else decode_token (strip token)

  -- `verify_authorization_header`
  unfoldable pub verify_authorization_header : Option String → Result (Dict Value)
  unfolding decode_token lower strip partition
  verify_authorization_header none = raise (Exn.service_authentication "missing bearer token")
  verify_authorization_header (some h) = verify_parts (partition b' ' h)

  -- `require_keycloak_service` and `require_metrics_bearer`, with the detail of each.
  unfoldable pub require_service : String → Option String → Result (Unit {0})
  unfolding verify_authorization_header
  require_service detail header = elim (verify_authorization_header header) [
    | ok _ ↦ ok tt
    | raise e ↦ raise (if is_service_failure e then Exn.http_exception 401 detail else e)
  ]

  -- The routes `/identities/by-email` and `/identities/{account_type}/{database_id}`, from what
  -- the lookup of `AuthService` answers.
  unfoldable pub lookup_identity :
      Option String → Result (Option IdentityResponse) → Result IdentityResponse
  unfolding require_service
  lookup_identity header found = elim (require_service "Invalid service credentials." header) [
    | raise e ↦ raise e
    | ok _ ↦ elim found [
      | raise e ↦ raise e
      | ok none ↦ raise (Exn.http_exception 404 "Identity not found.")
      | ok (some i) ↦ ok i
    ]
  ]

  -- `verify_internal_credentials`, from what `AuthService.verify_credentials` answers.
  unfoldable pub verify_internal_credentials :
      Option String → Result IdentityResponse → Result IdentityResponse
  unfolding require_service
  verify_internal_credentials header verified =
      elim (require_service "Invalid service credentials." header) [
        | raise e ↦ raise e
        | ok _ ↦ elim verified [
          | ok i ↦ ok i
          | raise e ↦ raise (
              if is_invalid_credentials e
              then Exn.http_exception 403 "Credenciais inválidas."
              else e)
        ]
      ]
