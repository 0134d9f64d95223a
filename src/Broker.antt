-- ===== src/Broker.antt =====
-- app/services/keycloak_token_broker.py: the contract that an access token of Keycloak must keep,
-- and the two grants. PyJWT's check of signature, issuer and lifetime, and the HTTP exchange with
-- Keycloak, are parameters.
pub mod Contract
use ms_auth_service.Prelude.{
  ℕ, String, Bool, true, false, not, ◌&&◌, ◌||◌, Option, none, some, List, [], ◌∷◌, ◌==◌,
  if◌then◌else◌, eqb, is_some,
}
use ms_auth_service.Py.Int.{ℤ, pos, negsuc, le_nat}
use ms_auth_service.Py.Str.{is_ascii, is_ascii_decimal, int_from}
use ms_auth_service.Py.Dict.{Dict}
use ms_auth_service.Py.Value.{Value, items, entries, get, as_str}
use ms_auth_service.Py.Exec.{
  Exn, Result, ok, raise, Exec, pure, throw, lift, try, raise_if, ◌>>=◌, ◌>>◌,
}

-- `KeycloakTokenResponse`
pub record KeycloakTokenResponse : Type 0 where
  pub access_token : String
  pub expires_in : ℕ
  pub refresh_expires_in : Option ℕ
  pub refresh_token : Option String
  pub scope : Option String

-- The fields of `KeycloakTokenBroker` that a grant reads.
pub record KeycloakTokenBroker : Type 0 where
  pub token_url : String
  pub client_id : String
  pub client_secret : Option String
  pub scope : String

-- `REQUIRED_FIRST_PARTY_AUDIENCES`
abbrev pub required_first_party_audiences : List String
required_first_party_audiences =
    "ms-spring-api" ∷ "ms-telemetry-dashboard-service" ∷ "ms-ai-server"
    ∷ "ms-ai-server-mcp-exchange" ∷ "ms-mcp-server-ouros-knowledge-codemode"
    ∷ "ms-ouros-audience-engine" ∷ []

-- `VALID_ACCOUNT_TYPES`
abbrev pub valid_account_types : List String
valid_account_types = "farm_owner" ∷ "company_employee" ∷ "admin" ∷ []

-- `s in names`
unfoldable pub is_in : String → List String → Bool
is_in s [] = false
is_in s (n ∷ ns) = s == n || is_in s ns

-- `s in values`: a value that is no text equals no text.
unfoldable pub is_item : String → List Value → Bool
is_item s [] = false
is_item s (Value.str n ∷ vs) = s == n || is_item s vs
is_item s (_ ∷ vs) = is_item s vs

-- `a.issubset(b)`
unfoldable pub is_subset : List String → List String → Bool
unfolding is_in
is_subset [] b = true
is_subset (s ∷ a) b = is_in s b && is_subset a b

-- The texts of a list, or `none` where an item is no text.
unfoldable pub texts : List Value → Option (List String)
texts [] = some []
texts (v ∷ vs) = elim (as_str v) [
  | none ↦ none
  | some s ↦ elim (texts vs) [ none ↦ none | some ss ↦ some (s ∷ ss) ]
]

abbrev or_empty : Option (List String) → List String
or_empty none = []
or_empty (some ss) = ss

-- `_audience_set`
unfoldable pub audience_set : Value → List String
unfolding texts
audience_set (Value.str s) = s ∷ []
audience_set (Value.list vs) = or_empty (texts (items vs))
audience_set _ = []

-- `KeycloakTokenBrokerUnavailable("invalid database_id claim")`
abbrev invalid_database_id : Exn
invalid_database_id = Exn.broker_unavailable "invalid database_id claim"

abbrev pub positive : ℤ → Result ℤ
positive n = if le_nat n 0 then raise invalid_database_id else ok n

-- `_positive_database_id`; `int` of decimal ASCII digits raises nothing below the interpreter's
-- limit of 4300 digits, and what it raises above is reported like any other bad claim.
unfoldable pub positive_database_id : (limit : String → Bool) → Value → Result ℤ
unfolding is_ascii_decimal int_from
positive_database_id limit (Value.int n) = positive n
positive_database_id limit (Value.str s) =
    if is_ascii s && is_ascii_decimal s
    then (if limit s then raise invalid_database_id else positive (pos (int_from 0 s)))
    else raise invalid_database_id
positive_database_id limit _ = raise invalid_database_id

-- `realm_access.get("roles") if isinstance(realm_access, dict) else None`, when it is a list.
abbrev list_of : Value → Option (List Value)
list_of (Value.list vs) = some (items vs)
list_of _ = none

abbrev roles_of : Value → Option (List Value)
roles_of (Value.dict es) = list_of (get (entries es) "roles")
roles_of _ = none

-- The test of `account_type` and `roles`.
abbrev pub has_role : Option String → Option (List Value) → Bool
has_role (some t) (some roles) = is_in t valid_account_types && is_item t roles
has_role _ _ = false

-- `except (InvalidTokenError, PyJWKClientError, ValueError)`
abbrev pub is_token_failure : Exn → Bool
is_token_failure Exn.jwt_error = true
is_token_failure Exn.jwks_error = true
is_token_failure Exn.value_error = true
is_token_failure _ = false

abbrev is_azp : String → Option String → Bool
is_azp client_id none = false
is_azp client_id (some s) = s == client_id

-- `_validate_access_token_contract` from the claims that `decode` returned.
unfoldable pub check_claims : (limit : String → Bool) → String → Dict Value → Result (Dict Value)
unfolding audience_set is_subset positive_database_id
check_claims limit client_id claims =
    if not (is_subset required_first_party_audiences (audience_set (get claims "aud")))
    then raise (Exn.broker_unavailable "Keycloak access token is missing required Ouros audiences")
    else if not (is_azp client_id (as_str (get claims "azp")))
    then raise
        (Exn.broker_unavailable "Keycloak access token was not issued to the official broker")
    else if not
        (has_role (as_str (get claims "account_type")) (roles_of (get claims "realm_access")))
    then raise
        (Exn.broker_unavailable "Keycloak access token is missing the signed Ouros account role")
    else elim (positive_database_id limit (get claims "database_id")) [
      | raise e ↦ raise e
      | ok _ ↦ ok claims
    ]

module _ (limit : String → Bool) (decode : String → Result (Dict Value)) where
  -- `_validate_access_token_contract`
  unfoldable pub validate_access_token_contract : String → String → Result (Dict Value)
  unfolding check_claims
  validate_access_token_contract client_id token = elim (decode token) [
    | ok claims ↦ check_claims limit client_id claims
    | raise e ↦ raise (
        if is_token_failure e
        then Exn.broker_unavailable "Keycloak issued an access token that failed local validation"
        else e)
  ]

  -- `except (ValueError, TypeError)`
  abbrev pub is_body_failure : Exn → Bool
  is_body_failure Exn.value_error = true
  is_body_failure Exn.type_error = true
  is_body_failure _ = false

  abbrev pub parsed : Result KeycloakTokenResponse → Result KeycloakTokenResponse
  parsed (ok r) = ok r
  parsed (raise e) =
      raise
        (if is_body_failure e then Exn.broker_unavailable "invalid Keycloak token response" else e)

  abbrev pub is_http_error : Exn → Bool
  is_http_error Exn.http_error = true
  is_http_error Exn.protocol_error = true
  is_http_error _ = false

  -- `post` answers with the status, and with the body as `model_validate` reads it.
  module _ {World : Type 0}
      (post : String → Dict String → Exec World (ℕ × Result KeycloakTokenResponse)) where
    -- `_exchange_token` once Keycloak has answered.
    unfoldable pub relay :
        KeycloakTokenBroker → ℕ × Result KeycloakTokenResponse → Exec World KeycloakTokenResponse
    unfolding validate_access_token_contract
    relay b (status_code, body) = do
      raise_if (eqb status_code 400 || eqb status_code 401) Exn.invalid_credentials
      raise_if (not (eqb status_code 200))
          (Exn.broker_unavailable "Keycloak token endpoint rejected request")
      token_response ← lift (parsed body)
      _ ← lift (validate_access_token_contract b.client_id token_response.access_token)
      pure token_response

    -- `_exchange_token`
    unfoldable pub exchange_token :
        KeycloakTokenBroker → Dict String → Exec World KeycloakTokenResponse
    unfolding relay
    exchange_token b form = do
      raise_if (not (is_some b.client_secret))
          (Exn.broker_unavailable "broker client secret is not configured")
      response ← try (post b.token_url form) (λ e. throw (
          if is_http_error e
          then Exn.broker_unavailable "Keycloak token endpoint unavailable"
          else e))
      relay b response

    abbrev with_secret :
        KeycloakTokenBroker
        → (String → Dict String)
        → Option String
        → Exec World KeycloakTokenResponse
    with_secret b form none =
        throw (Exn.broker_unavailable "broker client secret is not configured")
    with_secret b form (some secret) = exchange_token b (form secret)

    -- `issue_password_token`
    unfoldable pub issue_password_token :
        KeycloakTokenBroker → String → String → Exec World KeycloakTokenResponse
    unfolding exchange_token
    issue_password_token b email password =
        with_secret b
          (λ secret.
            ("grant_type", "password")
            ∷ ("client_id", b.client_id)
            ∷ ("client_secret", secret)
            ∷ ("username", email)
            ∷ ("password", password)
            ∷ ("scope", b.scope)
            ∷ [])
          b.client_secret

    -- `refresh_token`
    unfoldable pub refresh_token : KeycloakTokenBroker → String → Exec World KeycloakTokenResponse
    unfolding exchange_token
    refresh_token b token =
        with_secret b
          (λ secret.
            ("grant_type", "refresh_token")
            ∷ ("client_id", b.client_id)
            ∷ ("client_secret", secret)
            ∷ ("refresh_token", token)
            ∷ [])
          b.client_secret
