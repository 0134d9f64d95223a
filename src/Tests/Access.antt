-- ===== src/Tests/Access.antt =====
-- Who is let in: credentials, tokens of Keycloak, service tokens, web sessions, and the labels.
use ms_auth_service.Prelude.{
  ℕ, ◌+◌, max, String, ◌≡◌, ◌≢◌, refl, Bool, true, false, none, some, [], ◌∷◌, those, count, length,
  if◌then◌else◌,
}
use ms_auth_service.Py.Str.{normalize_email, is_digit, upper, is_ascii}
use ms_auth_service.Py.Dict.{Dict, lookup}
use ms_auth_service.Py.Value.{Value, Items, Entries}
use ms_auth_service.Py.Exec.{Result, ok, raise, Exec}
use ms_auth_service.Identity.{
  AccountType, StoredIdentity, IdentityResponse, Row, Tables, find_identities,
}
use ms_auth_service.Identity.Laws.{found, count-find_identities}
use ms_auth_service.Credentials.{verify_credentials}
use ms_auth_service.Credentials.Answers.{IsHandled, IsDecided, has_password, verify_credentials_lem}
use ms_auth_service.Broker.{KeycloakTokenResponse, KeycloakTokenBroker, exchange_token, is_item}
use ms_auth_service.Broker.Contract.{IsOuros, exchange_token-IsOuros}
use ms_auth_service.ServiceAuth.{lookup_identity}
use ms_auth_service.ServiceAuth.Guard.{IsTrusted, lookup_identity-IsTrusted}
use ms_auth_service.Config.{Settings, web_allowed_origins}
use ms_auth_service.EmailOtp.{Challenge}
use ms_auth_service.Web.{
  Request, Operations, Cookie, verify_web_login, refresh_web_session, logout_web_session,
  start_native_login, verify_native_login, set_web_refresh_cookie, is_secure_request,
}
use ms_auth_service.Web.Origin.{IsUntrusted, untrusted, web_session_untrusted}
use ms_auth_service.Web.Session.{Decided, start_native_login_lem, set_web_refresh_cookie_lem}
use ms_auth_service.Metrics.{is_member, metric_path, auth_operation}
use ms_auth_service.Metrics.Labels.{labels, metric_path_bounded, auth_operation-listed}

abbrev owner : Row
owner = record {
  id = 4;
  email = "a@x";
  password = "$2y$h";
  name = none;
  id_farm = some 1;
  id_enterprise = none;
  first_access = some false;
}

abbrev tables : Tables
tables = record { farm_owners = owner ∷ []; company_employees = []; adms = owner ∷ [] }

abbrev by_id : StoredIdentity → Bool
by_id i = true

count-find_identities_example :
    count by_id (find_identities (λ s. s) "a@x" none tables)
    ≡ found by_id (λ s. s) "a@x" none AccountType.farm_owner tables
      + found by_id (λ s. s) "a@x" none AccountType.company_employee tables
      + found by_id (λ s. s) "a@x" none AccountType.admin tables
count-find_identities_example = count-find_identities by_id (λ s. s) "a@x" none tables

-- A `checkpw` that accepts everything, and raises nothing.
abbrev checkpw : String → String → Result Bool
checkpw p h = ok true

handled : IsHandled checkpw
handled p h = (true, refl)

verify_credentials_lem_example :
    let is = find_identities (λ s. s) (normalize_email "A@x") none tables in
    let v = verify_credentials checkpw (λ s. s) (ok tables) "dummy" "A@x" "pw" none 0 in
    IsDecided (those (has_password checkpw handled "pw") is) v.0 × (v.1 ≡ 0 + max 1 (length is))
verify_credentials_lem_example =
    verify_credentials_lem checkpw handled (λ s. s) tables "dummy" "A@x" "pw" none 0

abbrev audiences : Value
audiences = Value.list (
    Items.cons (Value.str "ms-spring-api") (
      Items.cons (Value.str "ms-telemetry-dashboard-service") (
        Items.cons (Value.str "ms-ai-server") (
          Items.cons (Value.str "ms-ai-server-mcp-exchange") (
            Items.cons (Value.str "ms-mcp-server-ouros-knowledge-codemode")
              (Items.cons (Value.str "ms-ouros-audience-engine") Items.nil))))))

abbrev claims : Dict Value
claims =
    ("aud", audiences)
    ∷ ("azp", Value.str "broker")
    ∷ ("account_type", Value.str "admin")
    ∷ ("database_id", Value.str "12")
    ∷ (
      "realm_access",
      Value.dict (
          Entries.entry "roles" (Value.list (Items.cons (Value.str "admin") Items.nil))
            Entries.end),
    )
    ∷ []

abbrev decode : String → Result (Dict Value)
decode token = ok claims

abbrev token : KeycloakTokenResponse
token = record {
  access_token = "t";
  expires_in = 60;
  refresh_expires_in = some 0;
  refresh_token = some "r";
  scope = none;
}

abbrev post : String → Dict String → Exec ℕ (ℕ × Result KeycloakTokenResponse)
post url form n = (ok (200, ok token), n + 1)

abbrev broker : KeycloakTokenBroker
broker = record {
  token_url = "https://keycloak/token";
  client_id = "broker";
  client_secret = some "s";
  scope = "openid";
}

exchanged : exchange_token (λ s. false) decode post broker [] 0 ≡ (ok token, 1)
unfolding exchange_token lookup is_item is_ascii
exchanged = refl

exchange_token-IsOuros_example :
    (post "https://keycloak/token" [] 0 ≡ (ok (200, ok token), 1))
    × ((c : Dict Value) × (decode "t" ≡ ok c) × IsOuros (λ s. false) "broker" c)
exchange_token-IsOuros_example =
    exchange_token-IsOuros (λ s. false) decode post broker [] 0 1 token exchanged

abbrev identity : IdentityResponse
identity = record {
  id = 4;
  email = "a@x";
  account_type = AccountType.admin;
  realm_role = "admin";
  name = none;
  farm_id = none;
  enterprise_id = none;
  first_access = none;
}

looked_up : lookup_identity decode "broker" (some "Bearer t") (ok (some identity)) ≡ ok identity
unfolding lookup_identity lookup
looked_up = refl

lookup_identity-IsTrusted_example :
    IsTrusted decode "broker" (some "Bearer t") × (ok (some identity) ≡ ok (some identity))
lookup_identity-IsTrusted_example =
    lookup_identity-IsTrusted decode "broker" (some "Bearer t") (ok (some identity)) identity
      looked_up

abbrev settings : Settings
settings = record {
  environment = "production";
  database_min_pool_size = 1;
  database_max_pool_size = 10;
  keycloak_metrics_audience = "a";
  metrics_keycloak_authorized_party = "p";
  keycloak_password_broker_enabled = true;
  ouros_web_allowed_origins = " https://app.ouros/ , ";
  ouros_email_otp_enabled = false;
  ouros_email_otp_hmac_secret = none;
  ouros_smtp_host = none;
  ouros_smtp_auth = false;
  ouros_smtp_starttls = true;
  ouros_smtp_ssl = false;
  ouros_smtp_user = none;
  ouros_smtp_password = none;
}

abbrev request : Request
request = record {
  origin = some "https://evil/";
  forwarded_proto = none;
  scheme = "http";
  client = some "1.2.3.4";
  refresh_cookie = some "r";
  body_token = ok none;
}

test_origins : web_allowed_origins settings ≡ "https://app.ouros" ∷ []
unfolding web_allowed_origins
test_origins = refl

untrusted_lem : IsUntrusted request settings
unfolding web_allowed_origins ms_auth_service.Web.is_listed ms_auth_service.Py.Str.rstrip_char
untrusted_lem = refl

abbrev challenge : Challenge
challenge = record { challenge_id = "c1"; expires_in = 300; masked_email = "a***@x" }

-- Services that let everything pass and count their calls.
abbrev operations : Operations ℕ
operations = record {
  check_credentials_attempt = λ c e n. (ok tt, n + 1);
  verify_credentials = λ e p t n. (ok identity, n + 1);
  start = λ e n. (ok challenge, n + 1);
  verify = λ i e c n. (ok tt, n + 1);
  issue_password_token = λ e p n. (ok token, n + 1);
  refresh_token = λ t n. (ok token, n + 1);
  database_ping = λ n. (ok true, n);
  set_dependency_ready = λ dependency value n. (ok tt, n);
  rate_limiter_ping = λ n. (ok true, n);
}

web_session_untrusted_example :
    (verify_web_login operations settings request "a@x" "pw" "c1" "000007" 0 ≡ (raise untrusted, 0))
    × (refresh_web_session operations settings request 0 ≡ (raise untrusted, 0))
    × (logout_web_session operations settings request 0 ≡ (raise untrusted, 0))
web_session_untrusted_example =
    web_session_untrusted operations settings request "a@x" "pw" "c1" "000007" 0 untrusted_lem

started : start_native_login operations request "a@x" "pw" 0 ≡ (ok challenge, 3)
unfolding start_native_login
started = refl

start_native_login_lem_example :
    Decided operations request "a@x" "pw" 0 (start_native_login operations request "a@x" "pw" 0)
start_native_login_lem_example = start_native_login_lem operations request "a@x" "pw" 0

made :
    set_web_refresh_cookie token settings request
    ≡ some (record {
      value = some "r";
      max_age = none;
      httponly = true;
      secure = true;
      samesite = "none";
      path = "/v1/auth/web";
    })
unfolding set_web_refresh_cookie
made = refl

abbrev cookie : Cookie
cookie = record {
  value = some "r";
  max_age = none;
  httponly = true;
  secure = true;
  samesite = "none";
  path = "/v1/auth/web";
}

set_web_refresh_cookie_lem_example :
    (cookie.httponly ≡ true)
    × (cookie.value ≡ token.refresh_token)
    × (cookie.secure ≡ is_secure_request request settings)
    × (cookie.samesite ≡ (if cookie.secure then "none" else "lax"))
    × (cookie.max_age ≢ some 0)
set_web_refresh_cookie_lem_example = set_web_refresh_cookie_lem token settings request cookie made

metric_path_bounded_example :
    is_member (metric_path is_digit "/internal/v1/identities/admin/7") labels ≡ true
metric_path_bounded_example = metric_path_bounded is_digit "/internal/v1/identities/admin/7"

counted : auth_operation "post" (metric_path is_digit "/v1/auth/token") ≡ some "token_issue"
unfolding auth_operation metric_path
counted = refl

auth_operation-listed_example :
    (upper "post" ≡ "POST") × (metric_path is_digit "/v1/auth/token" ≡ "/v1/auth/token")
auth_operation-listed_example =
    auth_operation-listed is_digit "post" "/v1/auth/token" "token_issue" counted
