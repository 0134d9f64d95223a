-- ===== src/Metrics.antt =====
-- app/core/metrics.py: the labels of the metrics.
pub mod Labels
use ms_auth_service.Prelude.{
  ℕ, String, ◌≡◌, refl, Bool, true, false, not, ◌&&◌, ◌||◌, Option, none, some, List, [], ◌∷◌, ◌==◌,
  if◌then◌else◌, eqb, ltb, arith, Bool-cases, inl, inr, eq_iff, ap,
}
use Prim.Native.String
use ms_auth_service.Py.Str.{◌++◌, upper, length, partition, contains_char, all_chars}

-- `_KNOWN_METRIC_PATHS`
abbrev pub known_metric_paths : List String
known_metric_paths =
    "/" ∷ "/health" ∷ "/ready" ∷ "/metrics" ∷ "/docs" ∷ "/openapi.json" ∷ "/redoc"
    ∷ "/v1/auth/credentials/verify" ∷ "/v1/auth/login/start" ∷ "/v1/auth/login/verify"
    ∷ "/v1/auth/token" ∷ "/v1/auth/token/refresh" ∷ "/v1/auth/password/reset/start"
    ∷ "/v1/auth/password/reset/verify" ∷ "/v1/auth/password/reset/confirm"
    ∷ "/internal/v1/identities/by-email" ∷ "/internal/v1/credentials/verify" ∷ []

-- `path in paths`
unfoldable pub is_member : String → List String → Bool
is_member s [] = false
is_member s (n ∷ ns) = s == n || is_member s ns

-- `[^/]+/\d+` as a whole; `decimal` says which characters `\d` stands for. A number is followed
-- by nothing, since `fullmatch` takes the text to its end.
unfoldable pub is_identity : (ℕ → Bool) → String → Bool
unfolding partition all_chars
is_identity decimal s = elim (partition b'/' s) [
  | none ↦ false
  | some (account_type, id) ↦ not (account_type == "") && (not (id == "") && all_chars decimal id)
]

-- `re.fullmatch(r"/internal/v1/identities/[^/]+/\d+", path)`
unfoldable pub is_identity_path : (ℕ → Bool) → String → Bool
unfolding is_identity length
is_identity_path decimal path =
    String.slice path 0 24 == "/internal/v1/identities/"
    && is_identity decimal (String.slice path 24 (length path))

abbrev pub identity_template : String
identity_template = "/internal/v1/identities/{account_type}/{database_id}"

abbrev pub unknown_template : String
unknown_template = "{unknown}"

-- `metric_path`
unfoldable pub metric_path : (ℕ → Bool) → String → String
unfolding is_member is_identity_path
metric_path decimal path =
    if is_member path known_metric_paths
    then path
    else if is_identity_path decimal path
    then identity_template
    else unknown_template

-- `_AUTH_OPERATIONS_BY_PATH`
abbrev pub auth_operations_by_path : List ((String × String) × String)
auth_operations_by_path =
    (("POST", "/v1/auth/credentials/verify"), "credentials_verify")
    ∷ (("POST", "/v1/auth/login/start"), "login_start")
    ∷ (("POST", "/v1/auth/login/verify"), "login_verify")
    ∷ (("POST", "/v1/auth/token"), "token_issue")
    ∷ (("POST", "/v1/auth/token/refresh"), "token_refresh")
    ∷ (("POST", "/v1/auth/password/reset/start"), "password_reset_start")
    ∷ (("POST", "/v1/auth/password/reset/verify"), "password_reset_verify")
    ∷ (("POST", "/v1/auth/password/reset/confirm"), "password_reset_confirm")
    ∷ []

abbrev pub operation_in : String → String → List ((String × String) × String) → Option String
operation_in method path [] = none
operation_in method path (((m, p), name) ∷ rows) =
    if method == m && path == p then some name else operation_in method path rows

-- `auth_operation`
unfoldable pub auth_operation : String → String → Option String
unfolding upper
auth_operation method path = operation_in (upper method) path auth_operations_by_path

-- `outcome_for_status`
unfoldable pub outcome_for_status : ℕ → String
outcome_for_status status_code =
    if ltb status_code 400
    then "success"
    else if ltb status_code 500
    then "client_error"
    else "server_error"
