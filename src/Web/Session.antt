-- ===== src/Web/Session.antt =====
-- The login routes and the refresh cookie of app/api/routes.py.
use ms_auth_service.Prelude.{
  ℕ, String, ◌≡◌, ◌≢◌, ◌⊎◌, refl, sym, ap, inl, inr, true, Option, none, some, ◌==◌, if◌then◌else◌,
  arith, Bool-cases, Option-cases,
}
use ms_auth_service.Py.Exec.{Exec-cases, Result-cases, Exn, Result, ok, raise, Exec, ◌>>=◌}
use ms_auth_service.Identity.{IdentityResponse}
use ms_auth_service.EmailOtp.{Challenge}
use ms_auth_service.Broker.{KeycloakTokenResponse}
use ms_auth_service.Config.{Settings}
use ms_auth_service.Web.{
  Request, Operations, Cookie, is_secure_request, set_web_refresh_cookie, or_session, cookie_for,
  start_native_login, verify_native_login,
}

-- A chain of two actions that ends well: each of them ended well.
pub bind-ok :
    {S A B : Type 0}
    → (m : Exec S A) (f : A → Exec S B) (b : B) (s t : S) → (m >>= f) s ≡ (ok b, t)
    → (a : A) × (u : S) × (m s ≡ (ok a, u)) × (f a u ≡ (ok b, t))
bind-ok m f b s t h = elim (Result-cases (m s).0) [
  | inl (a, e) ↦ let m_eq : m s ≡ (ok a, (m s).1) = rw e refl in (a, (m s).1, m_eq, rw m_eq at h)
  | inr (x, e) ↦ let m_eq : m s ≡ (raise x, (m s).1) = rw e refl in ground (arith, rw m_eq at h)
]

module _ {App : Type 0} (op : Operations App) where
  -- What became of a login: refused by the limiter, which alone was called then; refused by the
  -- check of the password, and nothing was called after it; or left to the start of a challenge,
  -- for the address of the identity that was verified.
  abbrev pub Decided : Request → String → String → App → Result Challenge × App → Type 0
  Decided request email password s v =
      let c = op.check_credentials_attempt request.client email s in
      let p = op.verify_credentials email password none c.1 in
      ((e : Exn) × (c.0 ≡ raise e) × (v ≡ (raise e, c.1)))
      ⊎ ((e : Exn) × (c.0 ≡ ok tt) × (p.0 ≡ raise e) × (v ≡ (raise e, p.1)))
      ⊎ ((i : IdentityResponse) × (c.0 ≡ ok tt) × (p.0 ≡ ok i) × (v ≡ op.start i.email p.1))

  -- A login challenge starts only after the attempt was within its limits and the password was
  -- verified. When the limiter refuses, the answer and the state are the limiter's, and the
  -- password is not looked at; when the check of the password raises, they are that check's, and no
  -- challenge starts; and else they are those of starting a challenge for the address of the
  -- identity that was verified.
  pub start_native_login_lem :
      (request : Request) (email password : String) (s : App)
      → Decided request email password s (start_native_login op request email password s)
  unfolding start_native_login
  start_native_login_lem request email password s =
      let c = op.check_credentials_attempt request.client email s in
      let p = op.verify_credentials email password none c.1 in
      elim (Exec-cases c) [
        | inr (e, c_eq) ↦ inl (e, ap (λ x. x.0) c_eq, rw c_eq refl)
        | inl (tt, c_eq) ↦ elim (Exec-cases p) [
          | inr (e, p_eq) ↦
              inr (inl (e, ap (λ x. x.0) c_eq, ap (λ x. x.0) p_eq, rw (c_eq, p_eq) refl))
          | inl (i, p_eq) ↦
              inr (inr (i, ap (λ x. x.0) c_eq, ap (λ x. x.0) p_eq, rw (c_eq, p_eq) refl))
        ]
      ]

  -- Tokens are issued only after the code was verified.
  pub verify_native_login_lem :
      (email password challenge_id code : String) (token : KeycloakTokenResponse) (s s' : App)
      → verify_native_login op email password challenge_id code s ≡ (ok token, s')
      → (s1 : App) × (op.verify challenge_id email code s ≡ (ok tt, s1))
        × (op.issue_password_token email password s1 ≡ (ok token, s'))
  unfolding verify_native_login
  verify_native_login_lem email password challenge_id code token s s' h =
      let (_, s1, verified, h1) = bind-ok (op.verify challenge_id email code) _ token s s' h in
      (s1, verified, h1)

some_inj : (a b : Cookie) → some a ≡ some b → a ≡ b
some_inj a b e = ap (λ o. elim o [ none ↦ a | some x ↦ x ]) e

or_session_ne : (o : Option ℕ) → or_session o ≢ some 0
or_session_ne none = ground arith
or_session_ne (some n) = ground arith

-- A refresh cookie is out of the reach of scripts, is sent across sites only where it is secure,
-- holds the token that Keycloak gave, and never has the lifetime 0, which would delete it.
pub set_web_refresh_cookie_lem :
    (token : KeycloakTokenResponse) (settings : Settings) (request : Request) (cookie : Cookie)
    → set_web_refresh_cookie token settings request ≡ some cookie
    → (cookie.httponly ≡ true)
      × (cookie.value ≡ token.refresh_token)
      × (cookie.secure ≡ is_secure_request request settings)
      × (cookie.samesite ≡ (if cookie.secure then "none" else "lax"))
      × (cookie.max_age ≢ some 0)
unfolding set_web_refresh_cookie
set_web_refresh_cookie_lem token settings request cookie h =
    elim (Option-cases token.refresh_token) [
      | inl e ↦ ground (arith, rw (e, set_web_refresh_cookie) at h)
      | inr (v, e) ↦ elim (Bool-cases (v == "")) [
        | inl b ↦ ground (arith, rw (e, b, set_web_refresh_cookie) at h)
        | inr b ↦
            let made =
              cookie_for (is_secure_request request settings) (or_session token.refresh_expires_in)
                (some v) in
            let same : some made ≡ some cookie = rw (e, b, set_web_refresh_cookie) at h in
            let same' : made ≡ cookie = some_inj made cookie same in
            rw (sym same') (refl, sym e, refl, refl, or_session_ne token.refresh_expires_in)
      ]
    ]
