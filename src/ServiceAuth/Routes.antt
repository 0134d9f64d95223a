-- ===== src/ServiceAuth/Routes.antt =====
-- The routes of app/api/internal_routes.py over `AuthService`, and the guard of `/metrics` in
-- app/api/routes.py.
use ms_auth_service.Prelude.{ℕ, String, Option}
use ms_auth_service.Py.Dict.{Dict}
use ms_auth_service.Py.Value.{Value}
use ms_auth_service.Py.Exec.{Result}
use ms_auth_service.Identity.{AccountType, Tables, IdentityResponse}
use ms_auth_service.Credentials
use ms_auth_service.ServiceAuth.{require_service, lookup_identity}

module _ (decode : String → Result (Dict Value)) (client_id : String) where
  -- `require_metrics_bearer`
  unfoldable pub require_metrics_bearer : Option String → Result (Unit {0})
  unfolding require_service
  require_metrics_bearer header =
      require_service decode client_id "Invalid metrics credentials." header

  module _ (connection : Result Tables) where
    -- `lookup_identity_by_email`
    unfoldable pub get_identity_by_email :
        (String → String) → Option String → String → Result IdentityResponse
    unfolding lookup_identity
    get_identity_by_email sql_lower header email =
        lookup_identity decode client_id header
          (Credentials.lookup_identity_by_email sql_lower connection email)

    -- `lookup_identity_by_external_id`
    unfoldable pub get_identity_by_external_id :
        Option String → AccountType → ℕ → Result IdentityResponse
    unfolding lookup_identity
    get_identity_by_external_id header account_type database_id =
        lookup_identity decode client_id header
          (Credentials.lookup_identity_by_external_id connection account_type database_id)
