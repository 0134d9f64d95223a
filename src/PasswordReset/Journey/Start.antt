-- ===== src/PasswordReset/Journey/Start.antt =====
-- `verify_code` after `start_reset` (app/services/password_reset_service.py), in Redis.
use ms_auth_service.Prelude.{
  ℕ, ◌+◌, ◌<◌, String, ◌≡◌, refl, true, Option, some, [], ◌∷◌, those, max, arith, eq_refl, ◌∙◌, ap,
}
use mathlib.Core.List.{◌++◌}
use ms_auth_service.Py.Int.{ℤ, pos}
use ms_auth_service.Py.Str
use ms_auth_service.Py.Str.{normalize_email, is_ascii}
use ms_auth_service.Py.Dict.{lookup}
use ms_auth_service.Py.Value.{Value}
use ms_auth_service.Py.Exec.{result_eq, Result, ok}
use ms_auth_service.Redis.{Redis}
use ms_auth_service.Redis.Laws.{IsReachable}
use ms_auth_service.Identity.{
  AccountType, StoredIdentity, Tables, value, find_by_email, find_identities,
}
use ms_auth_service.EmailOtp.{Otp, Record, six_digits, mask_email}
use ms_auth_service.EmailOtp.Store.{Prefix, full_key, dumps, save}
use ms_auth_service.EmailOtp.Remote.{
  IsConnected, require_ready_remote, code_digest_remote, save_remote,
}
use ms_auth_service.EmailOtp.Login.{fields}
use ms_auth_service.EmailOtp.Reset.{
  reset_record, reset_fields, lua_fields, start_password_reset, verify_password_reset, answered,
}
use ms_auth_service.EmailOtp.Reset.Decide.{LuaDecodes, decide_match}
use ms_auth_service.EmailOtp.Reset.Agree.{verify_password_reset_remote}
use ms_auth_service.PasswordReset.{
  Settings, Claims, StartResponse, is_resettable, start_reset, mint_reset_token, verify_code,
}

-- The record of a challenge has its fields at their types, for Python and for Lua.
reset_record-fields :
    (email type digest : String) (n expires : ℕ)
    → reset_fields (reset_record email type n digest expires)
      ≡ some (record {
        email = email;
        expires_at = pos expires;
        attempts = pos 0;
        code_digest = digest;
      })
unfolding reset_fields fields lookup
reset_record-fields email type digest n expires = refl

reset_record-lua :
    (email type digest : String) (n expires : ℕ)
    → lua_fields (reset_record email type n digest expires)
      ≡ reset_fields (reset_record email type n digest expires)
unfolding reset_fields fields lua_fields lookup
reset_record-lua email type digest n expires = refl

module _ {Server : Type 0} (redis : Redis Server) (law : IsReachable redis)
    (hmac : String → String → String) (ascii : (k p : String) → is_ascii (hmac k p) ≡ true)
    (sql_lower : String → String) (key : String) (id : String) (number : ℕ) (clock : ℕ → ℕ)
    (i : StoredIdentity) (s : Otp Server) (h : IsConnected key s) where
  abbrev pub stored_record : Record
  stored_record =
      reset_record (normalize_email i.email) (value i.account_type) i.database_id
        (hmac key (Str.◌++◌ id (Str.◌++◌ ":" (six_digits number)))) (clock 0 + s.ttl_seconds)

  -- The service after the challenge has started.
  abbrev pub started : Otp Server
  started = record s {
    server =
        (law.set_lem (full_key Prefix.reset id) (dumps stored_record) (max s.ttl_seconds 1)
          s.server).0;
    delivery_tasks =
        s.delivery_tasks
        ++ record { challenge_id = id; email = normalize_email i.email; code = six_digits number }
          ∷ [];
  }

  started-IsConnected : IsConnected key started
  started-IsConnected = record {
    enabled = h.enabled;
    secret = h.secret;
    host = h.host;
    remote = h.remote;
    connected = h.connected;
  }

  start_password_reset-started :
      start_password_reset redis hmac clock id number i.email (value i.account_type) i.database_id s
      ≡ (
        ok (record {
          challenge_id = id;
          expires_in = s.ttl_seconds;
          masked_email = mask_email (normalize_email i.email);
        }),
        started,
      )
  unfolding start_password_reset save
  start_password_reset-started =
      rw
        (
          require_ready_remote h,
          code_digest_remote h hmac id (six_digits number),
          save_remote h redis law (clock 1) id stored_record s.ttl_seconds Prefix.reset,
        )
        refl

  module _ (c : Settings) (tables : Tables) (generic_id email : String)
      (t : Option AccountType) where
    -- One account of the two types has the email.
    abbrev pub IsOnly : Type 0
    IsOnly =
        those (λ j. is_resettable j.account_type)
          (find_identities sql_lower (normalize_email (normalize_email email)) t tables)
        ≡ i ∷ []

    abbrev pub begun : Result StartResponse × Otp Server
    begun = start_reset redis hmac sql_lower c (ok tables) clock generic_id id number email t s

    pub start_reset-started :
        IsOnly
        → begun ≡ (
          ok (record {
            challenge_id = id;
            masked_email = mask_email (normalize_email email);
            expires_in = c.email_otp_ttl_seconds;
          }),
          started,
        )
    unfolding start_reset find_by_email
    start_reset-started only = rw (only, start_password_reset-started) refl

    module _ (encode : Claims → String → String) (decode : ℕ → String → String → Result Claims)
        (render : Value → String) (parse : String → Option ℤ) where
      -- The code of the email gives a token for the account, until it expires.
      pub verify_code-start_reset :
          (now at : ℕ) (jti : String)
          → IsOnly
          → normalize_email i.email ≡ normalize_email email
          → now < clock 0 + s.ttl_seconds
          → 0 < s.max_attempts
          → LuaDecodes redis stored_record
          → (verify_code redis hmac c encode decode render parse now at jti id email
              (six_digits number)
              begun.1).0
            ≡ ok (
              mint_reset_token c encode decode at jti
                  (normalize_email i.email)
                  (value i.account_type)
                  (pos i.database_id),
              c.password_reset_token_ttl_seconds,
            )
      unfolding verify_code lookup
      verify_code-start_reset now at jti only same fresh left decoded =
          let k = full_key Prefix.reset id in
          let code = six_digits number in
          let digest = hmac key (Str.◌++◌ id (Str.◌++◌ ":" code)) in
          let kept : law.contents started.server k ≡ some (dumps stored_record) =
            (law.set_lem k (dumps stored_record) (max s.ttl_seconds 1) s.server).2 k
            ∙ rw (eq_refl k) refl in
          let v = verify_password_reset redis hmac now id email code started in
          let (answer, _) =
            verify_password_reset_remote redis hmac ascii key now id email code law started
              stored_record started-IsConnected kept decoded
              (reset_record-lua (normalize_email i.email) (value i.account_type) digest
                i.database_id (clock 0 + s.ttl_seconds)) in
          let accepted =
            decide_match s.max_attempts now (normalize_email email) digest stored_record _
              (reset_record-fields (normalize_email i.email) (value i.account_type) digest
                i.database_id (clock 0 + s.ttl_seconds))
              same refl (ground arith) (ground arith) in
          let v_eq : v ≡ (ok stored_record, v.1) = result_eq v (answer ∙ ap answered accepted) in
          rw (start_reset-started only, v_eq) refl
