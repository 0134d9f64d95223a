-- ===== src/Web.antt =====
-- app/api/routes.py: the routes, over the operations of the services that they call.
pub mod Origin
pub mod Session
pub mod Reset
use ms_auth_service.Prelude.{
  ℕ, String, Bool, true, false, not, ◌&&◌, ◌||◌, Option, none, some, List, [], ◌∷◌, ◌==◌,
  if◌then◌else◌, eqb,
}
use ms_auth_service.Py.Str.{rstrip_char, lower}
use ms_auth_service.Py.Dict.{Dict}
use ms_auth_service.Py.Exec.{
  Exn, Result, ok, raise, Exec, pure, throw, gets, lift, modify, try, raise_if, ◌>>=◌, ◌>>◌,
}
use ms_auth_service.Identity.{IdentityResponse, AccountType}
use ms_auth_service.EmailOtp.{Challenge}
use ms_auth_service.Broker.{KeycloakTokenResponse}
use ms_auth_service.Config.{Settings, web_allowed_origins}

-- What the routes read of a request. `body_token` is what `request.json()` gives as
-- `str(body["refresh_token"])`: `ok none` for a body without one, and a raise where the body is no
-- JSON.
pub record Request : Type 0 where
  pub origin : Option String
  pub forwarded_proto : Option String
  pub scheme : String
  pub client : Option String
  pub refresh_cookie : Option String
  pub body_token : Result (Option String)

-- `WEB_REFRESH_COOKIE` with its attributes; a cookie without a value is deleted.
pub record Cookie : Type 0 where
  pub value : Option String
  pub max_age : Option ℕ
  pub httponly : Bool
  pub secure : Bool
  pub samesite : String
  pub path : String

-- `WebAccessTokenResponse`
pub record WebAccessTokenResponse : Type 0 where
  pub access_token : String
  pub expires_in : ℕ
  pub refresh_expires_in : Option ℕ
  pub scope : Option String

-- The operations of the services that the routes call, on the state of the application.
pub record Operations (App : Type 0) : Type 0 where
  pub check_credentials_attempt : Option String → String → Exec App (Unit {0})
  pub verify_credentials : String → String → Option AccountType → Exec App IdentityResponse
  pub start : String → Exec App Challenge
  pub verify : String → String → String → Exec App (Unit {0})
  pub issue_password_token : String → String → Exec App KeycloakTokenResponse
  pub refresh_token : String → Exec App KeycloakTokenResponse
  pub database_ping : Exec App Bool
  pub rate_limiter_ping : Exec App Bool
  -- `DEPENDENCY_READY.labels(dependency).set(value)`
  pub set_dependency_ready : (dependency : String) → (value : ℕ) → Exec App (Unit {0})

abbrev or_empty : Option String → String
or_empty none = ""
or_empty (some s) = s

unfoldable pub is_listed : String → List String → Bool
is_listed s [] = false
is_listed s (o ∷ os) = s == o || is_listed s os

-- `require_web_origin`
unfoldable pub require_web_origin : Request → Settings → Result (Unit {0})
unfolding rstrip_char web_allowed_origins is_listed
require_web_origin request settings =
    let origin = rstrip_char b'/' (or_empty request.origin) in
    if origin == "" || not (is_listed origin (web_allowed_origins settings))
    then raise (Exn.http_exception 403 "Origem não autorizada.")
    else ok tt

abbrev or_scheme : Option String → String → String
or_scheme none s = s
or_scheme (some p) s = p

-- `is_secure_request`
unfoldable pub is_secure_request : Request → Settings → Bool
unfolding lower
is_secure_request request settings =
    let e = lower settings.environment in
    lower (or_scheme request.forwarded_proto request.scheme) == "https"
    || not (e == "development" || e == "dev" || e == "local")

-- `token.refresh_expires_in or None`
abbrev pub or_session : Option ℕ → Option ℕ
or_session none = none
or_session (some n) = if eqb n 0 then none else some n

abbrev pub cookie_for : Bool → Option ℕ → Option String → Cookie
cookie_for secure max_age value = record {
  value = value;
  max_age = max_age;
  httponly = true;
  secure = secure;
  samesite = if secure then "none" else "lax";
  path = "/v1/auth/web";
}

abbrev set_if : KeycloakTokenResponse → Bool → Option String → Option Cookie
set_if token secure none = none
set_if token secure (some v) =
    if v == ""
    then none
    else some (cookie_for secure (or_session token.refresh_expires_in) (some v))

-- `set_web_refresh_cookie`: the cookie that is set, if one is.
unfoldable pub set_web_refresh_cookie : KeycloakTokenResponse → Settings → Request → Option Cookie
unfolding is_secure_request
set_web_refresh_cookie token settings request =
    set_if token (is_secure_request request settings) token.refresh_token

-- `web_access_token_response`
unfoldable pub web_access_token_response : KeycloakTokenResponse → WebAccessTokenResponse
web_access_token_response token = record {
  access_token = token.access_token;
  expires_in = token.expires_in;
  refresh_expires_in = token.refresh_expires_in;
  scope = token.scope;
}

-- `request.cookies.get(…)`, or the text in the body: no text and the empty text are the same here.
-- A body that is no JSON is passed over.
abbrev body_of : Result (Option String) → Option String
body_of (ok t) = t
body_of (raise _) = none

abbrev present : Option String → Option String
present none = none
present (some s) = if s == "" then none else some s

abbrev pub token_of : Option String → Result (Option String) → Option String
token_of cookie body = elim (present cookie) [ none ↦ present (body_of body) | some s ↦ some s ]

-- `require_password_broker`
unfoldable pub require_password_broker : Settings → Result (Unit {0})
require_password_broker settings =
    if not settings.keycloak_password_broker_enabled
    then raise (Exn.http_exception 404 "Not Found")
    else ok tt

-- `root`
abbrev pub root : Dict String
root = ("service", "ouros-auth-service") ∷ ("status", "running") ∷ ("phase", "M2") ∷ []

module _ {App : Type 0} (op : Operations App) where
  -- `ready`
  unfoldable pub ready : Exec App (Unit {0})
  ready = do
    database_ready ← op.database_ping
    rate_limiter_ready ← op.rate_limiter_ping
    op.set_dependency_ready "postgresql" (if database_ready then 1 else 0)
    op.set_dependency_ready "rate_limiter" (if rate_limiter_ready then 1 else 0)
    raise_if (not database_ready) (Exn.http_exception 503 "Database is not ready.")
    raise_if (not rate_limiter_ready) (Exn.http_exception 503 "Rate limiter is not ready.")

  -- `verify_credentials`
  unfoldable pub verify_credentials :
      Request → String → String → Option AccountType → Exec App IdentityResponse
  verify_credentials request email password account_type = do
    op.check_credentials_attempt request.client email
    op.verify_credentials email password account_type

  -- `start_native_login`
  unfoldable pub start_native_login : Request → String → String → Exec App Challenge
  start_native_login request email password = do
    op.check_credentials_attempt request.client email
    identity ← op.verify_credentials email password none
    op.start identity.email

  -- `verify_native_login`
  unfoldable pub verify_native_login :
      String → String → String → String → Exec App KeycloakTokenResponse
  verify_native_login email password challenge_id code = do
    op.verify challenge_id email code
    op.issue_password_token email password

  -- `verify_web_login`, with the cookie that it sets.
  unfoldable pub verify_web_login :
      Settings
      → Request
      → String
      → String
      → String
      → String
      → Exec App (WebAccessTokenResponse × Option Cookie)
  unfolding require_web_origin set_web_refresh_cookie web_access_token_response
  verify_web_login settings request email password challenge_id code = do
    lift (require_web_origin request settings)
    op.verify challenge_id email code
    token ← op.issue_password_token email password
    pure (web_access_token_response token, set_web_refresh_cookie token settings request)

  abbrev refresh_with :
      Settings → Request → Option String → Exec App (WebAccessTokenResponse × Option Cookie)
  refresh_with settings request none =
      throw (Exn.http_exception 401 "Sessão expirada. Faça login novamente.")
  refresh_with settings request (some t) = do
    token ← op.refresh_token t
    pure (web_access_token_response token, set_web_refresh_cookie token settings request)

  -- `refresh_web_session`, with the cookie that it sets.
  unfoldable pub refresh_web_session :
      Settings → Request → Exec App (WebAccessTokenResponse × Option Cookie)
  unfolding require_web_origin set_web_refresh_cookie web_access_token_response
  refresh_web_session settings request = do
    lift (require_web_origin request settings)
    refresh_with settings request (token_of request.refresh_cookie request.body_token)

  -- `logout_web_session`: the cookie that it deletes.
  unfoldable pub logout_web_session : Settings → Request → Exec App Cookie
  unfolding require_web_origin is_secure_request
  logout_web_session settings request = do
    lift (require_web_origin request settings)
    pure (cookie_for (is_secure_request request settings) none none)

  -- `refresh_keycloak_token`
  unfoldable pub refresh_keycloak_token : String → Exec App KeycloakTokenResponse
  refresh_keycloak_token token = op.refresh_token token

  -- `issue_keycloak_token`
  unfoldable pub issue_keycloak_token :
      Settings → Request → String → String → Exec App KeycloakTokenResponse
  unfolding require_password_broker
  issue_keycloak_token settings request email password = do
    lift (require_password_broker settings)
    op.check_credentials_attempt request.client email
    op.issue_password_token email password
