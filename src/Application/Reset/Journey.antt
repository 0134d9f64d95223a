-- ===== src/Application/Reset/Journey.antt =====
-- The three password reset routes one after the other, over the services as app/main.py wires them,
-- with Redis for the limiter, the challenges and the blacklist.
use ms_auth_service.Prelude.{
  ℕ, ◌+◌, ◌*◌, ◌/◌, ◌<◌, ◌≤◌, String, ◌≡◌, refl, ap, inl, inr, Bool, true, false, Option, none,
  some, [], ◌∷◌, those, arith,
}
use mathlib.Core.List.{◌++◌}
use ms_auth_service.Py.Int.{ℤ, pos}
use ms_auth_service.Py.Str
use ms_auth_service.Py.Str.{normalize_email, is_ascii}
use ms_auth_service.Py.Value.{Value}
use ms_auth_service.Py.Exec.{result_eq, Result, ok, Exec}
use ms_auth_service.Redis.{Redis}
use ms_auth_service.Redis.Laws.{IsReachable, IsCounting, flag}
use ms_auth_service.RateLimit.Memory.{ticks}
use ms_auth_service.RateLimit.{Limiter, digests, password_reset_rules, check_password_reset_attempt}
use ms_auth_service.RateLimit.Remote
use ms_auth_service.RateLimit.Remote.{exceeded, check_password_reset_attempt_remote}
use ms_auth_service.Identity.{AccountType, StoredIdentity, Tables, value, find_identities}
use ms_auth_service.EmailOtp.{Otp, six_digits, mask_email}
use ms_auth_service.EmailOtp.Reset.{reset_record}
use ms_auth_service.EmailOtp.Reset.Decide.{LuaDecodes}
use ms_auth_service.EmailOtp.Remote as OtpRemote
use ms_auth_service.Password.{is_complex}
use ms_auth_service.PasswordReset.{
  Settings, Claims, Update, StartResponse, start_reset, verify_code, is_resettable,
  mint_reset_token, get_reset_jwt_secret,
}
use ms_auth_service.PasswordReset.Confirm.{blacklist_key, spring_request}
use ms_auth_service.PasswordReset.Race.{IsConnected}
use ms_auth_service.PasswordReset.Journey.Start.{start_reset-started, verify_code-start_reset}
use ms_auth_service.PasswordReset.Journey.Confirm.{DecodesEncoded, minted_claims, confirm_minted}
use ms_auth_service.Web.{Request}
use ms_auth_service.Web.Reset.{
  ResetOperations, start_password_reset, verify_password_reset, confirm_password_reset,
}
use ms_auth_service.Application.Reset.{ResetApp, reset_operations}

module _ {Server Spring : Type 0} (redis : Redis Server) (law : IsReachable redis)
    (counting : IsCounting redis) (sha256 : String → String) (hmac : String → String → String)
    (ascii : (k p : String) → is_ascii (hmac k p) ≡ true) (sql_lower : String → String)
    (c : Settings) (post : Update → Exec Spring ℕ) (encode : Claims → String → String)
    (decode : ℕ → String → String → Result Claims) (render : Value → String) (decimal : ℕ → Bool)
    (parse : String → Option ℤ) where
  -- An attempt that no counter refuses changes nothing but the limiter.
  allowed :
      (ticking : ℕ → ℕ) (client : Option String) (email : String) (s : Limiter Server)
      → Remote.IsConnected s
      → exceeded (counting.counts s.server) (digests sha256 client email) password_reset_rules
        ≡ false
      → (t : Limiter Server) × (check_password_reset_attempt redis sha256 ticking client email s
          ≡ (ok tt, t))
  allowed ticking client email s h free =
      let v = check_password_reset_attempt redis sha256 ticking client email s in
      let (decided, _, _) =
        check_password_reset_attempt_remote redis counting sha256 ticking client email s h in
      elim decided [
        | inl (_, e) ↦ (v.1, λ j. (e j, v.1))
        | inr (full, _) ↦ ground (arith, free, full)
      ]

  module _ (key id generic_id jti email password : String) (number : ℕ)
      (clock clock' ticking ticking' ticking'' : ℕ → ℕ) (tables : Tables)
      (type : Option AccountType) (request : Request) (i : StoredIdentity)
      (s : ResetApp Server Spring) (w : Spring) where
    abbrev operations_at : (ℕ → ℕ) → (ℕ → ℕ) → ResetOperations (ResetApp Server Spring)
    operations_at seconds now =
        reset_operations redis sha256 hmac sql_lower (ok tables) c post encode decode render decimal
          parse seconds now generic_id id jti number

    abbrev pub begun : Result StartResponse × ResetApp Server Spring
    begun = start_password_reset (operations_at clock ticking) request email type s

    abbrev pub given : Result (String × ℕ) × ResetApp Server Spring
    given =
        verify_password_reset (operations_at clock' ticking') id email (six_digits number) begun.1

    abbrev pub changed : String → Result String × ResetApp Server Spring
    changed token = confirm_password_reset (operations_at clock' ticking'') token password given.1

    begun_lem :
        Remote.IsConnected s.limiter
        → exceeded
            (counting.counts s.limiter.server)
            (digests sha256 request.client email)
            password_reset_rules
          ≡ false
        → OtpRemote.IsConnected key s.otp
        → those
            (λ j. is_resettable j.account_type)
            (find_identities sql_lower (normalize_email (normalize_email email)) type tables)
          ≡ i ∷ []
        → (t : Limiter Server) × (begun ≡ (
          ok (record {
            challenge_id = id;
            masked_email = mask_email (normalize_email email);
            expires_in = c.email_otp_ttl_seconds;
          }),
          record s {
            limiter = t;
            otp =
                (start_reset redis hmac sql_lower c
                  (ok tables)
                  clock
                  generic_id
                  id
                  number
                  email
                  type
                  s.otp).1;
          },
        ))
    unfolding start_password_reset reset_operations
    begun_lem hl free ho only =
        let (t, e) = allowed ticking request.client email s.limiter hl free in
        let started =
          start_reset-started redis law hmac ascii sql_lower key id number clock i s.otp ho c tables
            generic_id email type only in
        (t, rw (e, started) refl)

    -- A forgotten password is changed, from the first route to the last. The limiter, the challenges
    -- and the blacklist are in Redis servers that can be reached and keep their keys, and PyJWT
    -- decodes the token that it encoded from the time it was issued at until it expires; cjson
    -- decodes the stored challenge as it is. When no counter of the caller's address or
    -- email is at its limit, and one farm owner's or employee's account has the email, which is the
    -- account's own up to case and outer spaces, the start answers the challenge and queues one
    -- email, to that account; the code of that email and the email give a token before the challenge
    -- expires, with attempts allowed; and that token, not before the time of its minting, before it expires and while it is not on the
    -- blacklist, with a complex password, is answered as a success when the Spring service answers
    -- 200 to the request with that account's type and id and the new password. The Spring service
    -- is then in the state that this request left it in, and the token is on the blacklist.
    pub reset_routes_journey :
        Remote.IsConnected s.limiter
        → OtpRemote.IsConnected key s.otp
        → IsConnected s.password_reset
        → DecodesEncoded encode decode
            (minted_claims redis law c post encode decode decimal parse
              (ticking' 0)
              jti
              (normalize_email i.email)
              i.account_type
              i.database_id)
            (get_reset_jwt_secret c)
        → exceeded
            (counting.counts s.limiter.server)
            (digests sha256 request.client email)
            password_reset_rules
          ≡ false
        → those
            (λ j. is_resettable j.account_type)
            (find_identities sql_lower (normalize_email (normalize_email email)) type tables)
          ≡ i ∷ []
        → normalize_email i.email ≡ normalize_email email
        → clock' 0 < clock 0 + s.otp.ttl_seconds
        → 0 < s.otp.max_attempts
        → LuaDecodes redis (
            reset_record
              (normalize_email i.email)
              (value i.account_type)
              i.database_id
              (hmac key (Str.◌++◌ id (Str.◌++◌ ":" (six_digits number))))
              (clock 0 + s.otp.ttl_seconds))
        → is_complex decimal password ≡ true
        → is_resettable i.account_type ≡ true
        → ticking' 0 ≤ ticking'' 0
        → ticking'' 0 < (ticking' 0 / ticks + c.password_reset_token_ttl_seconds) * ticks
        → law.contents s.password_reset.server (blacklist_key jti) ≡ none
        → post
            (spring_request c (value i.account_type) (pos i.database_id) password)
            s.password_reset.spring
          ≡ (ok 200, w)
        → (begun.0
            ≡ ok (record {
              challenge_id = id;
              masked_email = mask_email (normalize_email email);
              expires_in = c.email_otp_ttl_seconds;
            }))
          × (begun.1.otp.delivery_tasks
              ≡ s.otp.delivery_tasks
                ++ record {
                  challenge_id = id;
                  email = normalize_email i.email;
                  code = six_digits number;
                }
                  ∷ [])
          × ((token : String) × (given.0 ≡ ok (token, c.password_reset_token_ttl_seconds))
              × ((changed token).0 ≡ ok "Senha redefinida com sucesso.")
              × ((changed token).1.password_reset.spring ≡ w)
              × (law.contents (changed token).1.password_reset.server (blacklist_key jti)
                  ≡ some flag))
    unfolding verify_password_reset confirm_password_reset reset_operations
    reset_routes_journey hl ho hs decodes free only same fresh left decoded complex resettable
          issued live unused accepted =
        let (t, begun_eq) = begun_lem hl free ho only in
        let started =
          start_reset-started redis law hmac ascii sql_lower key id number clock i s.otp ho c tables
            generic_id email type only in
        let otp =
          (start_reset redis hmac sql_lower c (ok tables) clock generic_id id number email type
            s.otp).1 in
        let v =
          verify_code redis hmac c encode decode render parse (clock' 0) (ticking' 0) jti id email
            (six_digits number) otp in
        let minted =
          verify_code-start_reset redis law hmac ascii sql_lower key id number clock i s.otp ho c
            tables generic_id email type encode decode render parse (clock' 0) (ticking' 0) jti only
            same fresh left decoded in
        let v_eq = result_eq v minted in
        let (t', done, kept) =
          confirm_minted redis law c post encode decode decimal parse (ticking' 0) jti
            (normalize_email i.email) i.account_type i.database_id s.password_reset hs password w
            ticking'' decodes issued live complex resettable unused accepted in
        (
          rw begun_eq refl,
          rw begun_eq (ap (λ (o : Result StartResponse × Otp Server). o.1.delivery_tasks) started),
          (
            mint_reset_token c encode decode (ticking' 0) jti (normalize_email i.email)
                (value i.account_type) (pos i.database_id),
            rw (begun_eq, v_eq) refl,
            rw (begun_eq, v_eq, done) refl,
            rw (begun_eq, v_eq, done) refl,
            rw (begun_eq, v_eq, done) kept,
          ),
        )
