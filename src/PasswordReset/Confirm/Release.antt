-- ===== src/PasswordReset/Confirm/Release.antt =====
-- `confirm_reset` (app/services/password_reset_service.py) when the Spring service fails, with the
-- blacklist in memory.
use ms_auth_service.Prelude.{ℕ, String, ◌≡◌, sym, ap, ◌∙◌, inl, inr, Bool, Option, none, arith}
use ms_auth_service.Py.Int.{ℤ}
use ms_auth_service.Py.Dict.{lookup}
use ms_auth_service.Py.Dict.Laws.{lookup-erase_self}
use ms_auth_service.Py.Exec.{Result-cases, Exn, Result, raise, Exec}
use ms_auth_service.Redis.{Redis}
use ms_auth_service.Identity.{AccountType, value}
use ms_auth_service.PasswordReset.{Settings, Service, Claims, Update}
use ms_auth_service.PasswordReset.Confirm.{call_spring_internal_reset, update_password}
use ms_auth_service.PasswordReset.Confirm.Branches.{
  swept, reserved, call_lem, update_done, update_failed,
}

module _ {Server Spring : Type 0} (redis : Redis Server) (c : Settings)
    (post : Update → Exec Spring ℕ) (encode : Claims → String → String)
    (decode : ℕ → String → String → Result Claims) (decimal : ℕ → Bool)
    (parse : String → Option ℤ) where
  -- With the blacklist in memory: when the update of a token that was not used before raises,
  -- the exception and the state of the Spring service are those of the call to it, and the token
  -- is off the blacklist again.
  pub update_password-released :
      (at later : ℕ) (claims : Claims) (t : AccountType) (n : ℤ) (p : String) (e : Exn)
      (s s' : Service Server Spring)
      → s.redis_url ≡ none
      → lookup claims.jti (swept later s) ≡ none
      → update_password c post redis encode decode decimal parse at later claims t n p s
        ≡ (raise e, s')
      → (lookup claims.jti s'.blacklist_memory ≡ none)
        × ((call_spring_internal_reset c post (value t) n p (reserved at later claims s)).0
            ≡ raise e)
        × ((call_spring_internal_reset c post (value t) n p (reserved at later claims s)).1.spring
            ≡ s'.spring)
  update_password-released at later claims t n p e s s' l free h =
      let r = reserved at later claims s in
      let (a, w, call) = call_lem c post (value t) n p r in
      elim (Result-cases a) [
        | inl (x, a_eq) ↦
            let u =
              update_done redis c post encode decode decimal parse at later claims t n p w s l free
                (call ∙ ap (λ b. (b, record r { spring = w })) a_eq) in
            ground (arith, sym u ∙ h)
        | inr (x, a_eq) ↦
            let u =
              update_failed redis c post encode decode decimal parse at later claims t n p x w s l
                free (call ∙ ap (λ b. (b, record r { spring = w })) a_eq) in
            let same_state = ap (λ y. y.1) (sym u ∙ h) in
            let same : raise x ≡ raise e = ap (λ y. y.0) (sym u ∙ h) in
            (
              ap (λ y. lookup claims.jti y.blacklist_memory) (sym same_state)
                  ∙ lookup-erase_self claims.jti r.blacklist_memory,
              ap (λ y. y.0) call ∙ (a_eq ∙ same),
              ap (λ y. y.1.spring) call ∙ ap (λ y. y.spring) same_state,
            )
      ]
