-- ===== src/Web/Origin.antt =====
-- `require_web_origin` of app/api/routes.py and the routes of the web session.
use ms_auth_service.Prelude.{String, ◌≡◌, refl, false, ◌==◌, Bool-cases, inl, inr}
use ms_auth_service.Py.Str.{rstrip_char}
use ms_auth_service.Py.Exec.{Exn, raise}
use ms_auth_service.Config.{Settings, web_allowed_origins}
use ms_auth_service.Web.{
  Request, Operations, is_listed, or_empty, require_web_origin, verify_web_login,
  refresh_web_session, logout_web_session,
}

-- The header `Origin`, less the slashes at its end, is not among the configured origins.
abbrev pub IsUntrusted : Request → Settings → Type 0
IsUntrusted request settings =
    is_listed (rstrip_char b'/' (or_empty request.origin)) (web_allowed_origins settings) ≡ false

abbrev pub untrusted : Exn
untrusted = Exn.http_exception 403 "Origem não autorizada."

require_web_origin-untrusted :
    (request : Request) (settings : Settings)
    → IsUntrusted request settings
    → require_web_origin request settings ≡ raise untrusted
unfolding require_web_origin
require_web_origin-untrusted request settings h =
    elim (Bool-cases (rstrip_char b'/' (or_empty request.origin) == "")) [
      | inl e ↦ rw e refl
      | inr e ↦ rw (e, h) refl
    ]

-- A request from an origin that is not configured is answered 403 by each of the three routes of
-- the web session, and nothing changes: no attempt at a code is used up, no token is refreshed.
pub web_session_untrusted :
    {App : Type 0}
    → (op : Operations App) (settings : Settings) (request : Request)
      (email password challenge_id code : String) (s : App)
    → IsUntrusted request settings
    → (verify_web_login op settings request email password challenge_id code s
        ≡ (raise untrusted, s))
      × (refresh_web_session op settings request s ≡ (raise untrusted, s))
      × (logout_web_session op settings request s ≡ (raise untrusted, s))
unfolding verify_web_login refresh_web_session logout_web_session
web_session_untrusted op settings request email password challenge_id code s h =
    rw (require_web_origin-untrusted request settings h) (refl, refl, refl)
