-- ===== src/Application/Middleware/Cutover.antt =====
-- `password_broker_cutover_guard` of app/main.py.
use ms_auth_service.Prelude.{
  ℕ, ◌≡◌, refl, ◌⊎◌, inl, inr, Bool, true, false, ◌&&◌, ◌==◌, arith, Bool-cases, eq_iff, and_left,
  and_right,
}
use ms_auth_service.Py.Exec.{ok, Exec}
use ms_auth_service.Errors.{plain}
use ms_auth_service.Application.Middleware.{HttpRequest, Response, Served, serve}

-- The request for a token with a password.
abbrev pub IsTokenRequest : HttpRequest → Type 0
IsTokenRequest request = (request.method ≡ "POST") × (request.path ≡ "/v1/auth/token")

module _ {S Content : Type 0} (routes : HttpRequest → Exec S (Response Content)) where
  -- With the password broker switched off, the request for a token with a password is answered with
  -- 404 and no route runs; every other request is served as when it is switched on, with the same
  -- answer, state and counts.
  pub serve_cutover :
      (decimal : ℕ → Bool) (duration : ℕ) (request : HttpRequest) (s : Served S)
      → let off = serve decimal false routes duration request s in
        (IsTokenRequest request
          × (off.0 ≡ ok (Response.error (plain 404 "Not Found")))
          × (off.1.state ≡ s.state))
        ⊎ ((¬ IsTokenRequest request) × (off ≡ serve decimal true routes duration request s))
  unfolding serve
  serve_cutover decimal duration request s =
      let post = request.method == "POST" in
      let token = request.path == "/v1/auth/token" in
      elim (Bool-cases (post && token)) [
        | inl e ↦ inl (
          (
            (eq_iff request.method "POST").0 (and_left post token e),
            (eq_iff request.path "/v1/auth/token").0 (and_right post token e),
          ),
          rw e refl,
          rw e refl,
        )
        | inr e ↦ inr (
          λ (m, p).
              ground (arith, eq_iff request.method "POST", eq_iff request.path "/v1/auth/token"),
          rw e refl,
        )
      ]
