-- ===== src/Secrets.antt =====
-- app/core/infisical.py: `load_infisical_secrets`, on the process's environment. The dotenv file and
-- the Infisical client (infisical_sdk) are parameters.
pub mod Laws
use ms_auth_service.Prelude.{
  String, Bool, true, false, not, ◌||◌, Option, none, some, List, [], ◌∷◌, ◌==◌, if◌then◌else◌,
}
use ms_auth_service.Py.Dict.{Dict, lookup, insert}
use ms_auth_service.Py.Exec.{Exn, Result, Exec, pure, lift, gets, modify, raise_if, ◌>>=◌, ◌>>◌}

-- `os.environ`
abbrev pub Environ : Type 0
Environ = Dict String

-- `_REQUIRED_INFISICAL_KEYS`
abbrev pub required_infisical_keys : List String
required_infisical_keys =
    "INFISICAL_CLIENT_ID" ∷ "INFISICAL_CLIENT_SECRET" ∷ "INFISICAL_PROJECT_ID"
    ∷ "INFISICAL_ENVIRONMENT" ∷ "INFISICAL_SECRET_PATH" ∷ []

abbrev value_or : String → Option String → String
value_or d none = d
value_or d (some v) = v

-- `bool(os.getenv(key))`
abbrev pub has_text : Option String → Bool
has_text none = false
has_text (some v) = not (v == "")

-- `any(values.values())`
abbrev pub any_set : Environ → List String → Bool
any_set env [] = false
any_set env (key ∷ keys) = has_text (lookup key env) || any_set env keys

-- `[key for key, value in values.items() if not value]`
abbrev pub missing : Environ → List String → List String
missing env [] = []
missing env (key ∷ keys) =
    let rest = missing env keys in if has_text (lookup key env) then rest else key ∷ rest

abbrev pub is_empty : List String → Bool
is_empty [] = true
is_empty (_ ∷ _) = false

-- A secret of `response.secrets`.
pub record Secret : Type 0 where
  pub secret_key : String
  pub secret_value : String

-- What the client is told.
pub record Query : Type 0 where
  pub host : String
  pub client_id : String
  pub client_secret : String
  pub project_id : String
  pub environment_slug : String
  pub secret_path : String

-- The query that the environment says.
unfoldable pub query_of : Environ → Query
query_of env = record {
  host = value_or "https://app.infisical.com" (lookup "INFISICAL_SITE_URL" env);
  client_id = value_or "" (lookup "INFISICAL_CLIENT_ID" env);
  client_secret = value_or "" (lookup "INFISICAL_CLIENT_SECRET" env);
  project_id = value_or "" (lookup "INFISICAL_PROJECT_ID" env);
  environment_slug = value_or "" (lookup "INFISICAL_ENVIRONMENT" env);
  secret_path = value_or "" (lookup "INFISICAL_SECRET_PATH" env);
}

-- The loop over the secrets.
unfoldable pub set_all : List Secret → Environ → Environ
set_all [] env = env
set_all (s ∷ secrets) env = set_all secrets (insert s.secret_key s.secret_value env)

module _ (load_dotenv : Exec Environ (Unit {0})) (login : Query → Result (Unit {0}))
    (list_secrets : Query → Result (List Secret)) where
  -- `load_infisical_secrets`
  unfoldable pub load_infisical_secrets : Exec Environ (Unit {0})
  unfolding query_of set_all
  load_infisical_secrets = do
    load_dotenv
    env ← gets (λ e. e)
    (if not (any_set env required_infisical_keys) then pure tt else (do
      raise_if (not (is_empty (missing env required_infisical_keys))) Exn.runtime_error
      lift (login (query_of env))
      secrets ← lift (list_secrets (query_of env))
      modify (set_all secrets)))
