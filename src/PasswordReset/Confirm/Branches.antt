-- ===== src/PasswordReset/Confirm/Branches.antt =====
-- The branches of `update_password` with the blacklist in memory.
use ms_auth_service.Prelude.{
  ℕ, ◌+◌, ◌-◌, ◌*◌, ◌/◌, ◌≤◌, String, ◌≡◌, refl, inl, inr, Bool, Option, none, some, if◌then◌else◌,
  max,
}
use ms_auth_service.Py.Int.{ℤ}
use ms_auth_service.Py.Dict.{Dict, IsDict, lookup, insert, erase}
use ms_auth_service.Py.Exec.{Result-cases, Exn, Result, ok, raise, Exec}
use ms_auth_service.Redis.{Redis}
use ms_auth_service.RateLimit.Memory.{ticks}
use ms_auth_service.Identity.{AccountType, value}
use ms_auth_service.PasswordReset.{
  Settings, Service, Claims, Update, token_used, cleanup_blacklist_memory, spring_answer,
  is_network_failure,
}
use ms_auth_service.PasswordReset.Confirm.{
  spring_request, reserve_memory, reserve_token, release_token, call_spring_internal_reset,
  update_password,
}

module _ {Server Spring : Type 0} where
  -- The blacklist is a dictionary in memory.
  pub record IsLocal (s : Service Server Spring) : Type 0 where
    pub local : s.redis_url ≡ none
    pub blacklist : IsDict s.blacklist_memory

  -- The token's identifier is on the blacklist for as long as the token lives.
  abbrev pub IsSpent : Claims → Service Server Spring → Type 0
  IsSpent claims s =
      (e : ℕ) × (lookup claims.jti s.blacklist_memory ≡ some e) × (claims.exp * ticks ≤ e)

  abbrev pub swept : ℕ → Service Server Spring → Dict ℕ
  swept now s = cleanup_blacklist_memory now s.blacklist_memory

  -- The state after the reservation.
  abbrev pub reserved : ℕ → ℕ → Claims → Service Server Spring → Service Server Spring
  reserved at later claims s = record s {
    blacklist_memory =
        insert claims.jti (later + max (claims.exp - at / ticks) 1 * ticks) (swept later s);
  }

  module _ (c : Settings) (post : Update → Exec Spring ℕ) where
    -- The call to the Spring service changes nothing of the service itself.
    pub call_lem :
        (t : String) (n : ℤ) (p : String) (s : Service Server Spring)
        → (r : Result (Unit {0})) × (w : Spring) × (call_spring_internal_reset c post t n p s
            ≡ (r, record s { spring = w }))
    unfolding call_spring_internal_reset
    call_lem t n p s =
        let a = post (spring_request c t n p) s.spring in
        elim (Result-cases a.0) [
          | inl (status, e) ↦
              let a_eq : a ≡ (ok status, a.1) = rw e refl in
              (spring_answer status, a.1, rw a_eq refl)
          | inr (x, e) ↦
              let a_eq : a ≡ (raise x, a.1) = rw e refl in
              (
                raise (
                    if is_network_failure x
                    then Exn.reset_unavailable
                        "Serviço de redefinição de senha temporariamente indisponível."
                    else x),
                a.1,
                rw a_eq refl,
              )
        ]

  module _ (redis : Redis Server) (c : Settings) (post : Update → Exec Spring ℕ)
      (encode : Claims → String → String) (decode : ℕ → String → String → Result Claims)
      (decimal : ℕ → Bool) (parse : String → Option ℤ) where
    reserve_used :
        (now : ℕ) (jti : String) (ttl e : ℕ) (s : Service Server Spring)
        → s.redis_url ≡ none
        → lookup jti (cleanup_blacklist_memory now s.blacklist_memory) ≡ some e
        → reserve_token redis now jti ttl s ≡ (
          raise token_used,
          record s { blacklist_memory = cleanup_blacklist_memory now s.blacklist_memory },
        )
    unfolding reserve_token reserve_memory
    reserve_used now jti ttl e s l found = rw (l, found) refl

    reserve_free :
        (now : ℕ) (jti : String) (ttl : ℕ) (s : Service Server Spring)
        → s.redis_url ≡ none
        → lookup jti (cleanup_blacklist_memory now s.blacklist_memory) ≡ none
        → reserve_token redis now jti ttl s ≡ (
          ok tt,
          record s {
            blacklist_memory =
                insert jti (now + ttl * ticks) (cleanup_blacklist_memory now s.blacklist_memory);
          },
        )
    unfolding reserve_token reserve_memory
    reserve_free now jti ttl s l free = rw (l, free) refl

    pub update_used :
        (at later : ℕ) (claims : Claims) (t : AccountType) (n : ℤ) (p : String) (e : ℕ)
        (s : Service Server Spring)
        → s.redis_url ≡ none
        → lookup claims.jti (swept later s) ≡ some e
        → update_password c post redis encode decode decimal parse at later claims t n p s
          ≡ (raise token_used, record s { blacklist_memory = swept later s })
    unfolding update_password
    update_used at later claims t n p e s l found =
        rw (reserve_used later claims.jti (max (claims.exp - at / ticks) 1) e s l found) refl

    pub update_done :
        (at later : ℕ) (claims : Claims) (t : AccountType) (n : ℤ) (p : String) (w : Spring)
        (s : Service Server Spring)
        → s.redis_url ≡ none
        → lookup claims.jti (swept later s) ≡ none
        → call_spring_internal_reset c post (value t) n p (reserved at later claims s)
          ≡ (ok tt, record (reserved at later claims s) { spring = w })
        → update_password c post redis encode decode decimal parse at later claims t n p s
          ≡ (ok tt, record (reserved at later claims s) { spring = w })
    unfolding update_password
    update_done at later claims t n p w s l free e =
        rw (reserve_free later claims.jti (max (claims.exp - at / ticks) 1) s l free, e) refl

    pub update_failed :
        (at later : ℕ) (claims : Claims) (t : AccountType) (n : ℤ) (p : String) (x : Exn)
        (w : Spring) (s : Service Server Spring)
        → s.redis_url ≡ none
        → lookup claims.jti (swept later s) ≡ none
        → call_spring_internal_reset c post (value t) n p (reserved at later claims s)
          ≡ (raise x, record (reserved at later claims s) { spring = w })
        → update_password c post redis encode decode decimal parse at later claims t n p s ≡ (
          raise x,
          record s {
            blacklist_memory = erase claims.jti (reserved at later claims s).blacklist_memory;
            spring = w;
          },
        )
    unfolding update_password release_token
    update_failed at later claims t n p x w s l free e =
        rw (reserve_free later claims.jti (max (claims.exp - at / ticks) 1) s l free, e, l) refl
