-- ===== src/EmailOtp/Reset.antt =====
-- `start_password_reset`, `_deliver_password_reset_email` and `verify_password_reset` of
-- `EmailOtpService`, with the script that does the latter in Redis.
pub mod Decide
pub mod Agree
use ms_auth_service.Prelude.{
  ℕ, ◌+◌, String, Bool, true, false, not, ◌&&◌, ◌||◌, Option, none, some, List, [], ◌∷◌, ◌==◌,
  if◌then◌else◌, is_some,
}
use mathlib.Core.List.{◌++◌}
use ms_auth_service.Py.Int.{ℤ, pos, add_one, le_nat, ge_nat}
use ms_auth_service.Py.Str.{normalize_email}
use ms_auth_service.Py.Dict.{Dict, insert, erase, lookup}
use ms_auth_service.Py.Value.{Value, get, as_int, as_str, entries, of_dict}
use ms_auth_service.Py.Exec.{
  Exn, Result, ok, raise, Exec, pure, throw, gets, modify, lift, try, ◌>>=◌, ◌>>◌,
}
use ms_auth_service.Redis.{Redis, Raw, eval}
use ms_auth_service.EmailOtp.{
  Otp, Record, Challenge, Delivery, require_ready, code_digest, compare_digest, six_digits,
  mask_email, redis_command,
}
use ms_auth_service.EmailOtp.Store.{Prefix, full_key, mem_key, cleanup_memory, save, delete}
use ms_auth_service.EmailOtp.Login.{Fields, fields, is_mail_failure}

-- The record that `start_password_reset` saves.
abbrev pub reset_record : String → String → ℕ → String → ℕ → Record
reset_record email account_type database_id digest expires_at =
    ("email", Value.str email)
    ∷ ("account_type", Value.str account_type)
    ∷ ("database_id", Value.int (pos database_id))
    ∷ ("code_digest", Value.str digest)
    ∷ ("attempts", Value.int (pos 0))
    ∷ ("expires_at", Value.int (pos expires_at))
    ∷ ("purpose", Value.str "password_reset")
    ∷ []

-- `v == "password_reset"`
abbrev pub is_reset : Value → Bool
is_reset (Value.str s) = s == "password_reset"
is_reset _ = false

-- The `isinstance` tests and the test of `purpose`: `none` where one of them fails.
unfoldable pub reset_fields : Record → Option Fields
unfolding fields
reset_fields r = if is_reset (get r "purpose") then fields r else none

-- What the script answers: `{0}`, `{-1}` or `{1, raw}`.
pub data Answer : Type 0 where
  invalid exceeded : Answer
  valid : Record → Answer

-- `tonumber`-typed fields are numbers in Lua, where no boolean is one.
abbrev pub as_number : Value → Option ℤ
as_number (Value.int n) = some n
as_number _ = none

abbrev table_of : Raw → Option Record
table_of (Raw.json (Value.dict es)) = some (entries es)
table_of _ = none

abbrev lua_four : Option String → Option String → Option ℤ → Option ℤ → Option Fields
lua_four (some e) (some c) (some x) (some a) =
    some (record { email = e; expires_at = x; attempts = a; code_digest = c })
lua_four _ _ _ _ = none

-- The type tests of the script, and that of `purpose`.
unfoldable pub lua_fields : Record → Option Fields
lua_fields r =
    if is_reset (get r "purpose")
    then lua_four (as_str (get r "email")) (as_str (get r "code_digest"))
        (as_number (get r "expires_at")) (as_number (get r "attempts"))
    else none

module _ {Server : Type 0} (redis : Redis Server) where
  -- The script once its table has passed the type tests; `r` is the record as it is stored, which
  -- an accepted call answers.
  unfoldable pub script_record :
      String → String → String → ℕ → ℕ → Record → Record → Fields → Exec Server Answer
  script_record key email digest now most r table f =
      let attempts = add_one f.attempts in
      let answer = λ (a : Answer). redis.delete key >>= λ _. pure a in
      if le_nat f.expires_at now
      then answer invalid
      else if ge_nat f.attempts most
      then answer exceeded
      else if not (f.email == email) || not (f.code_digest == digest)
      then (if ge_nat attempts most
          then answer exceeded
          else (redis.set_keepttl key
                (redis.cjson_encode (insert "attempts" (Value.int attempts) table))
              >>= λ _. pure invalid))
      else answer (valid r)

  abbrev pub script_table :
      String → String → String → ℕ → ℕ → Record → Record → Option Fields → Exec Server Answer
  script_table key email digest now most r table none = redis.delete key >>= λ _. pure invalid
  script_table key email digest now most r table (some f) =
      script_record key email digest now most r table f

  -- The stored record, and the table that the script decodes it to.
  abbrev script_decoded :
      String → String → String → ℕ → ℕ → Option Record → Option Record → Exec Server Answer
  script_decoded key email digest now most (some r) (some table) =
      script_table key email digest now most r table (lua_fields table)
  script_decoded key email digest now most none table = redis.delete key >>= λ _. pure invalid
  script_decoded key email digest now most (some r) none = redis.delete key >>= λ _. pure invalid

  abbrev script_raw : String → String → String → ℕ → ℕ → Option Raw → Exec Server Answer
  script_raw key email digest now most none = pure invalid
  script_raw key email digest now most (some raw) =
      script_decoded key email digest now most (table_of raw) (redis.cjson_decode raw)

  -- `_VERIFY_PASSWORD_RESET_SCRIPT`
  unfoldable pub verify_script : String → String → String → ℕ → ℕ → Exec Server Answer
  unfolding script_record lua_fields
  verify_script key email digest now most = do
    raw ← redis.get key
    script_raw key email digest now most raw

-- The results of the script as `verify_password_reset` reads them.
abbrev pub answered : Answer → Result Record
answered invalid = raise Exn.reset_otp_invalid
answered exceeded = raise Exn.reset_otp_attempts_exceeded
answered (valid r) = ok r

-- A record that is loaded from `_memory`, what is answered, and `_memory` after it.
module _ (most : ℕ) (key email digest : String) (memory : Dict Record) where
  unfoldable pub judge_matches : Record → Fields → Bool → Bool → Result Record × Dict Record
  judge_matches r f email_matches code_matches =
      if email_matches && code_matches
      then (ok r, erase key memory)
      else if ge_nat (add_one f.attempts) most
      then (raise Exn.reset_otp_attempts_exceeded, erase key memory)
      else (
        raise Exn.reset_otp_invalid,
        insert key (insert "attempts" (Value.int (add_one f.attempts)) r) memory,
      )

  abbrev judge_code : Record → Fields → Result Bool → Result Record × Dict Record
  judge_code r f (raise e) = (raise e, memory)
  judge_code r f (ok code_matches) = judge_matches r f (f.email == email) code_matches

  unfoldable pub judge_fields : Record → Option Fields → Result Record × Dict Record
  unfolding compare_digest judge_matches
  judge_fields r none = (raise Exn.reset_otp_invalid, erase key memory)
  judge_fields r (some f) =
      if ge_nat f.attempts most
      then (raise Exn.reset_otp_attempts_exceeded, erase key memory)
      else judge_code r f (compare_digest f.code_digest digest)

  unfoldable pub judge : Option Record → Result Record × Dict Record
  unfolding judge_fields reset_fields
  judge none = (raise Exn.reset_otp_invalid, memory)
  judge (some r) = judge_fields r (reset_fields r)

-- `except EmailOtpUnavailable`
abbrev pub is_otp_unavailable : Exn → Bool
is_otp_unavailable (Exn.email_otp_unavailable _) = true
is_otp_unavailable _ = false

module _ {Server : Type 0} (redis : Redis Server) (hmac : String → String → String) where
  -- `start_password_reset`: the email is sent by a task.
  unfoldable pub start_password_reset :
      (ℕ → ℕ) → String → ℕ → String → String → ℕ → Exec (Otp Server) Challenge
  unfolding require_ready code_digest save
  start_password_reset clock challenge_id number email account_type database_id = do
    require_ready
    let normalized_email = normalize_email email
    let code = six_digits number
    ttl ← gets (λ s. s.ttl_seconds)
    digest ← code_digest hmac challenge_id code
    save redis (clock 1) challenge_id
        (reset_record normalized_email account_type database_id digest (clock 0 + ttl)) ttl
        Prefix.reset
    modify (λ s. record s {
      delivery_tasks =
          s.delivery_tasks
          ++ record { challenge_id = challenge_id; email = normalized_email; code = code } ∷ [];
    })
    pure (record {
      challenge_id = challenge_id;
      expires_in = ttl;
      masked_email = mask_email normalized_email;
    })

  -- `_deliver_password_reset_email`, with `send` for `_send_password_reset_email`.
  unfoldable pub deliver_password_reset_email :
      (String → String → Result (Unit {0})) → Delivery → Exec (Otp Server) (Unit {0})
  unfolding delete
  deliver_password_reset_email send d = try (lift (send d.email d.code)) (λ e.
      if is_mail_failure e
      then try (delete redis d.challenge_id Prefix.reset)
          (λ e'. if is_otp_unavailable e' then pure tt else throw e')
      else throw e)

  -- The first waiting task runs, and leaves `_delivery_tasks` however it ends.
  abbrev run_tasks :
      (String → String → Result (Unit {0})) → List Delivery → Exec (Otp Server) (Unit {0})
  run_tasks send [] = pure tt
  run_tasks send (d ∷ tasks) = do
    modify (λ s. record s { delivery_tasks = tasks })
    deliver_password_reset_email send d

  unfoldable pub run_delivery : (String → String → Result (Unit {0})) → Exec (Otp Server) (Unit {0})
  unfolding deliver_password_reset_email
  run_delivery send s = run_tasks send s.delivery_tasks s

  -- The branch of `verify_password_reset` for Redis.
  unfoldable pub verify_redis : ℕ → String → String → String → Exec (Otp Server) Record
  unfolding redis_command verify_script full_key
  verify_redis now challenge_id email digest = do
    most ← gets (λ s. s.max_attempts)
    answer ← redis_command redis "Redis verification failed" (
        eval redis (verify_script redis (full_key Prefix.reset challenge_id) email digest now most))
    lift (answered answer)

  -- The branch for `_memory`, under `_memory_lock`.
  unfoldable pub verify_memory : ℕ → String → String → String → Exec (Otp Server) Record
  unfolding cleanup_memory mem_key judge
  verify_memory now challenge_id email digest s =
      let memory = cleanup_memory now s.memory in
      let key = mem_key Prefix.reset challenge_id in
      let (r, memory') = judge s.max_attempts key email digest memory (lookup key memory) in
      (r, record s { memory = memory' })

  -- `verify_password_reset` at the time `now`
  unfoldable pub verify_password_reset : ℕ → String → String → String → Exec (Otp Server) Record
  unfolding require_ready code_digest verify_redis verify_memory
  verify_password_reset now challenge_id email code = do
    require_ready
    digest ← code_digest hmac challenge_id code
    distributed ← gets (λ s. is_some s.redis_url)
    (if distributed
        then verify_redis now challenge_id (normalize_email email) digest
        else verify_memory now challenge_id (normalize_email email) digest)
