-- ===== src/PasswordReset/Journey/Confirm.antt =====
-- `confirm_reset` with a token that `verify_code` minted (app/services/password_reset_service.py),
-- in Redis.
use ms_auth_service.Prelude.{
  ℕ, ◌+◌, ◌-◌, ◌*◌, ◌/◌, ◌<◌, ◌≤◌, arith, String, ◌≡◌, refl, ◌∙◌, Bool, true, Option, none, some,
  max, eq_refl,
}
use ms_auth_service.Py.Int.{ℤ, pos}
use ms_auth_service.Py.Value.{Value}
use ms_auth_service.Py.Exec.{Result, ok, Exec}
use ms_auth_service.Redis.{Redis}
use ms_auth_service.Redis.Laws.{IsReachable, flag}
use ms_auth_service.RateLimit.Memory.{ticks}
use ms_auth_service.Identity.{AccountType, value}
use ms_auth_service.Identity.Laws.{account_type_of-value}
use ms_auth_service.Password.{is_complex}
use ms_auth_service.PasswordReset.{
  Settings, Service, Claims, Update, is_resettable, mint_reset_token, verify_reset_token,
  get_reset_jwt_secret, spring_answer,
}
use ms_auth_service.PasswordReset.Confirm.{
  blacklist_key, spring_request, call_spring_internal_reset, update_password, confirm_reset,
}
use ms_auth_service.PasswordReset.Race.{IsConnected}
use ms_auth_service.PasswordReset.Race.Remote.{reserve_free}

-- What PyJWT documents, for these claims and this secret: the token decodes to the claims with the
-- secret that it was encoded with, from the time it was issued at until it expires.
abbrev pub DecodesEncoded :
    (Claims → String → String) → (ℕ → String → String → Result Claims) → Claims → String → Type 0
DecodesEncoded encode decode claims secret =
    (now : ℕ)
    → claims.iat * ticks ≤ now
    → now < claims.exp * ticks
    → decode now (encode claims secret) secret ≡ ok claims

module _ {Server Spring : Type 0} (redis : Redis Server) (law : IsReachable redis) (c : Settings)
    (post : Update → Exec Spring ℕ) (encode : Claims → String → String)
    (decode : ℕ → String → String → Result Claims) (decimal : ℕ → Bool) (parse : String → Option ℤ)
    (at : ℕ) (jti email : String) (type : AccountType) (database_id : ℕ) where
  -- The claims of the token.
  abbrev pub minted_claims : Claims
  minted_claims = record {
    sub = email;
    account_type = Value.str (value type);
    database_id = Value.int (pos database_id);
    purpose = Value.str "password_reset";
    jti = jti;
    iat = at / ticks;
    exp = at / ticks + c.password_reset_token_ttl_seconds;
  }

  abbrev pub token : String
  token = mint_reset_token c encode decode at jti email (value type) (pos database_id)

  verify_minted :
      (now : ℕ)
      → DecodesEncoded encode decode minted_claims (get_reset_jwt_secret c)
      → at ≤ now
      → now < minted_claims.exp * ticks
      → verify_reset_token c encode decode now token ≡ ok minted_claims
  unfolding verify_reset_token mint_reset_token
  verify_minted now decodes issued fresh =
      let started : at / ticks * ticks ≤ now = omega arith in
      rw (decodes now started fresh, verify_reset_token) refl

  module _ (s : Service Server Spring) (h : IsConnected s) (password : String) (w : Spring) where
    update_minted :
        (at' later : ℕ)
        → law.contents s.server (blacklist_key jti) ≡ none
        → post (spring_request c (value type) (pos database_id) password) s.spring ≡ (ok 200, w)
        → (t : Server) × (update_password c post redis encode decode decimal parse at' later
              minted_claims type
              (pos database_id)
              password
              s
            ≡ (ok tt, record s { server = t; spring = w }))
          × (law.contents t (blacklist_key jti) ≡ some flag)
    unfolding update_password call_spring_internal_reset spring_answer
    update_minted at' later free accepted =
        let ttl = max (minted_claims.exp - at' / ticks) 1 in
        let (t, e, after) = law.set_nx_free (blacklist_key jti) (max ttl 1) s.server free in
        (
          t,
          rw (reserve_free redis law later jti ttl t s h e, accepted) refl,
          after (blacklist_key jti) ∙ rw (eq_refl (blacklist_key jti)) refl,
        )

    -- The token changes the password of its account, and is used up.
    pub confirm_minted :
        (clock : ℕ → ℕ)
        → DecodesEncoded encode decode minted_claims (get_reset_jwt_secret c)
        → at ≤ clock 0
        → clock 0 < minted_claims.exp * ticks
        → is_complex decimal password ≡ true
        → is_resettable type ≡ true
        → law.contents s.server (blacklist_key jti) ≡ none
        → post (spring_request c (value type) (pos database_id) password) s.spring ≡ (ok 200, w)
        → (t : Server) × (confirm_reset c post redis encode decode decimal parse clock token
              password s
            ≡ (ok tt, record s { server = t; spring = w }))
          × (law.contents t (blacklist_key jti) ≡ some flag)
    unfolding confirm_reset
    confirm_minted clock decodes issued fresh complex resettable free accepted =
        let (t, e, kept) = update_minted (clock 1) (clock 2) free accepted in
        let (named, _) = account_type_of-value type in
        (t, rw (verify_minted (clock 0) decodes issued fresh, complex, named, resettable) e, kept)
