-- ===== src/PasswordReset/Confirm.antt =====
-- `confirm_reset` of `PasswordResetService`, with `_reserve_token`, `_release_token` and
-- `_call_spring_internal_reset`.
pub mod Branches
pub mod Spent
pub mod Once
pub mod Release
use ms_auth_service.Prelude.{
  ℕ, ◌+◌, ◌-◌, ◌*◌, ◌/◌, String, Bool, true, false, not, ◌&&◌, ◌||◌, Option, none, some, ◌==◌,
  if◌then◌else◌, is_some, max,
}
use ms_auth_service.Py.Int.{ℤ}
use ms_auth_service.Py.Str.{◌++◌, rstrip_char}
use ms_auth_service.Py.Dict.{lookup, insert, erase}
use ms_auth_service.Py.Value.{Value}
use ms_auth_service.Py.Exec.{
  Exn, Result, ok, raise, Exec, pure, throw, gets, lift, modify, try, on, raise_if,
  is_redis_failure, ◌>>=◌, ◌>>◌,
}
use ms_auth_service.Redis.{Redis}
use ms_auth_service.RateLimit.Memory.{ticks}
use ms_auth_service.Identity.{AccountType, value, account_type_of}
use ms_auth_service.Password.{is_complex}
use ms_auth_service.PasswordReset.{
  Settings, Service, Claims, Update, token_used, cleanup_blacklist_memory, is_resettable, int_of,
  spring_answer, is_network_failure, verify_reset_token, get_internal_service_secret,
}

-- `AccountType(account_type)`
abbrev pub type_of : Value → Option AccountType
type_of (Value.str s) = account_type_of s
type_of _ = none

-- The two tests of the account type.
abbrev pub resettable_of : Option AccountType → Option AccountType
resettable_of none = none
resettable_of (some t) = if is_resettable t then some t else none

abbrev pub invalid_account_type : Exn
invalid_account_type = Exn.reset_token_invalid "Tipo de conta inválido para redefinição."

abbrev pub weak_password : Exn
weak_password =
    Exn.reset_token_invalid
      "A senha deve ter entre 8 e 20 caracteres, incluindo pelo menos uma letra maiúscula, uma minúscula, um número e um caractere especial"

-- The endpoint, the header and the payload of `_call_spring_internal_reset`.
unfoldable pub spring_request : Settings → String → ℤ → String → Update
unfolding get_internal_service_secret rstrip_char
spring_request c account_type database_id new_password = record {
  endpoint = rstrip_char b'/' c.ms_spring_api_url ++ "/internal/v1/password-reset";
  key = get_internal_service_secret c;
  account_type = account_type;
  id = database_id;
  new_password = new_password;
}

abbrev pub blacklist_key : String → String
blacklist_key jti = "ouros:auth:password-reset:blacklist:" ++ jti

module _ {Server Spring : Type 0} where
  -- `close`
  unfoldable pub close : Exec (Service Server Spring) (Unit {0})
  close = modify (λ s. record s { connected = false })

  abbrev on_server : {A : Type 0} → Exec Server A → Exec (Service Server Spring) A
  on_server = on (λ s. s.server) (λ t s. record s { server = t })

  module _ (redis : Redis Server) where
    -- `_redis_client`
    unfoldable pub redis_client : Exec (Service Server Spring) (Unit {0})
    redis_client s =
        if not (is_some s.redis_url)
        then (raise (Exn.reset_unavailable "Redis is not configured"), s)
        else if s.connected
        then (ok tt, s)
        else (do
          try (on_server redis.ping) (λ e.
              throw
                (if is_redis_failure e then Exn.reset_unavailable "Redis is unavailable" else e))
          modify (λ t. record t { connected = true }))
            s

    -- A command of the client: a failure closes the service and is reported with `reason`.
    unfoldable pub redis_command :
        {A : Type 0} → String → Exec Server A → Exec (Service Server Spring) A
    unfolding redis_client close
    redis_command reason command = do
      redis_client
      try (on_server command) (λ e.
          if is_redis_failure e
          then (close >>= λ _. throw (Exn.reset_unavailable reason))
          else throw e)

    -- The branch of `_reserve_token` for `_blacklist_memory`, under `_blacklist_lock`.
    unfoldable pub reserve_memory : ℕ → String → ℕ → Exec (Service Server Spring) (Unit {0})
    unfolding cleanup_blacklist_memory
    reserve_memory now jti ttl_seconds s =
        let blacklist = cleanup_blacklist_memory now s.blacklist_memory in
        if is_some (lookup jti blacklist)
        then (raise token_used, record s { blacklist_memory = blacklist })
        else (
          ok tt,
          record s { blacklist_memory = insert jti (now + ttl_seconds * ticks) blacklist },
        )

    -- `_reserve_token`
    unfoldable pub reserve_token : ℕ → String → ℕ → Exec (Service Server Spring) (Unit {0})
    unfolding redis_command reserve_memory
    reserve_token now jti ttl_seconds s =
        if is_some s.redis_url
        then (do
          reserved ←
              redis_command "Redis reservation failed"
                (redis.set_nx (blacklist_key jti) (max ttl_seconds 1))
          raise_if (not reserved) token_used)
            s
        else reserve_memory now jti ttl_seconds s

    -- `_release_token`
    unfoldable pub release_token : String → Exec (Service Server Spring) (Unit {0})
    unfolding redis_command
    release_token jti s =
        if is_some s.redis_url
        then redis_command "Redis reservation release failed" (redis.delete (blacklist_key jti)) s
        else (ok tt, record s { blacklist_memory = erase jti s.blacklist_memory })

  module _ (c : Settings) (post : Update → Exec Spring ℕ) where
    -- `_call_spring_internal_reset`
    unfoldable pub call_spring_internal_reset :
        String → ℤ → String → Exec (Service Server Spring) (Unit {0})
    unfolding spring_request spring_answer
    call_spring_internal_reset account_type database_id new_password = do
      status ←
          try
            (on (λ s. s.spring) (λ t s. record s { spring = t })
              (post (spring_request c account_type database_id new_password)))
            (λ e. throw (
              if is_network_failure e
              then Exn.reset_unavailable
                  "Serviço de redefinição de senha temporariamente indisponível."
              else e))
      lift (spring_answer status)

    module _ (redis : Redis Server) (encode : Claims → String → String)
        (decode : ℕ → String → String → Result Claims) (decimal : ℕ → Bool)
        (parse : String → Option ℤ) where
      -- `confirm_reset` from the reservation on: `at` is the time of `int(time.time())`, and
      -- `later` that of `_reserve_token`.
      unfoldable pub update_password :
          ℕ → ℕ → Claims → AccountType → ℤ → String → Exec (Service Server Spring) (Unit {0})
      unfolding reserve_token release_token call_spring_internal_reset value
      update_password at later claims t database_id raw_password = do
        reserve_token redis later claims.jti (max (claims.exp - at / ticks) 1)
        try (call_spring_internal_reset (value t) database_id raw_password)
            (λ e. release_token redis claims.jti >>= λ _. throw e)

      abbrev pub checked_update :
          ℕ
          → ℕ
          → Claims
          → String
          → Option ℤ
          → Option AccountType
          → Exec (Service Server Spring) (Unit {0})
      checked_update at later claims raw_password none t = throw Exn.value_error
      checked_update at later claims raw_password (some n) none = throw invalid_account_type
      checked_update at later claims raw_password (some n) (some t) =
          update_password at later claims t n raw_password

      -- `confirm_reset`; `clock` holds the readings of the time, in ticks.
      unfoldable pub confirm_reset :
          (ℕ → ℕ) → String → String → Exec (Service Server Spring) (Unit {0})
      unfolding verify_reset_token is_complex update_password is_resettable account_type_of
      confirm_reset clock token raw_password = do
        claims ← lift (verify_reset_token c encode decode (clock 0) token)
        raise_if (not (is_complex decimal raw_password)) weak_password
        checked_update (clock 1) (clock 2) claims raw_password (int_of parse claims.database_id)
            (resettable_of (type_of claims.account_type))
