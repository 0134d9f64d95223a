-- ===== src/EmailOtp/Reset/Agree.antt =====
-- `verify_password_reset` with its challenges in Redis and with its challenges in memory.
use ms_auth_service.Prelude.{ℕ, String, ◌≡◌, refl, true, false, some, arith, ◌∙◌, ap, sym, none}
use mathlib.Core.Option
use ms_auth_service.Py.Int.{le_nat, ge_nat}
use ms_auth_service.Py.Str.{◌++◌, is_ascii, normalize_email}
use ms_auth_service.Py.Dict.{lookup}
use ms_auth_service.Py.Exec.{ok, Result, raise}
use ms_auth_service.Redis.{Redis, eval}
use ms_auth_service.Redis.Laws.{IsReachable}
use ms_auth_service.EmailOtp.{Otp, Record, is_unexpired}
use ms_auth_service.EmailOtp.Store.{Prefix, full_key, mem_key, cleanup_memory, dumps}
use ms_auth_service.EmailOtp.Local.{
  IsReady, require_ready_local, code_digest_local, lookup-cleanup_memory,
}
use ms_auth_service.EmailOtp.Remote.{
  IsConnected, require_ready_remote, code_digest_remote, redis_command_remote, eval_remote,
}
use ms_auth_service.EmailOtp.Login.{Fields, fields}
use ms_auth_service.EmailOtp.Login.Verify.{fields-is_unexpired}
use ms_auth_service.EmailOtp.Reset.{
  Answer, answered, judge, reset_fields, lua_fields, verify_script, verify_redis, verify_memory,
  verify_password_reset, valid, invalid, exceeded,
}
use ms_auth_service.EmailOtp.Reset.Decide.{
  LuaDecodes, decide, verify_script-Does, judge-decide, decide-valid,
}

pub fields-reset_fields : (r : Record) (f : Fields) → reset_fields r ≡ some f → fields r ≡ some f
unfolding reset_fields
fields-reset_fields r f e = ground arith

open_fields :
    (now : ℕ) (r : Record) (f : Fields)
    → is_unexpired now r ≡ true
    → fields r ≡ some f
    → le_nat f.expires_at now ≡ false
open_fields now r f u e = ground (arith, fields-is_unexpired r f now e)

answered-valid : (a : Answer) (r : Record) → answered a ≡ ok r → a ≡ valid r
answered-valid invalid r e = ground arith
answered-valid exceeded r e = ground arith
answered-valid (valid x) r e =
    ap (λ (o : Result Record). elim o [ ok y ↦ valid y | raise _ ↦ valid x ]) e

module _ {Server : Type 0} (redis : Redis Server) (hmac : String → String → String)
    (ascii : (k p : String) → is_ascii (hmac k p) ≡ true) (key : String) (now : ℕ)
    (id email code : String) where
  abbrev digest : String
  digest = hmac key (id ++ (":" ++ code))

  -- In memory the call is decided on what the cleanup has left.
  verify_local :
      (s : Otp Server)
      → IsReady key s
      → let memory = cleanup_memory now s.memory in
        let k = mem_key Prefix.reset id in
        let j = judge s.max_attempts k (normalize_email email) digest memory (lookup k memory) in
        verify_password_reset redis hmac now id email code s ≡ (j.0, record s { memory = j.1 })
  unfolding verify_password_reset verify_memory
  verify_local s h = rw (require_ready_local h, code_digest_local h hmac id code, h.local)

  -- With the challenges in memory, for a record that is found and has not expired and whose
  -- digest is ASCII, `verify_password_reset` answers and stores what `decide` says of the
  -- record.
  pub verify_password_reset_local :
      (s : Otp Server) (r : Record)
      → IsReady key s
      → lookup (mem_key Prefix.reset id) s.memory ≡ some r
      → is_unexpired now r ≡ true
      → ((f : Fields) → reset_fields r ≡ some f → is_ascii f.code_digest ≡ true)
      → let d = decide s.max_attempts now (normalize_email email) digest (some r) in
        let v = verify_password_reset redis hmac now id email code s in
        (v.0 ≡ answered d.0) × (lookup (mem_key Prefix.reset id) v.1.memory ≡ d.1)
  verify_password_reset_local s r h found unexpired ascii' =
      let memory = cleanup_memory now s.memory in
      let still : lookup (mem_key Prefix.reset id) memory ≡ some r =
        lookup-cleanup_memory now (mem_key Prefix.reset id) s.memory h.memory
        ∙ rw (found, unexpired) refl in
      let typed = fields-reset_fields r in
      rw (verify_local s h, still)
        (judge-decide s.max_attempts now (normalize_email email) digest (mem_key Prefix.reset id)
          memory r (ascii key (id ++ (":" ++ code))) still
          (λ f e. (open_fields now r f unexpired (typed f e), ascii' f e)))

  -- The call when the server carries the script out.
  verify_remote :
      (s : Otp Server) (a : Answer) (t : Server)
      → IsConnected key s
      → IsReachable redis
      → verify_script redis
          (full_key Prefix.reset id)
          (normalize_email email)
          digest
          now
          s.max_attempts
          s.server
        ≡ (ok a, t)
      → verify_password_reset redis hmac now id email code s ≡ (answered a, record s { server = t })
  unfolding verify_password_reset verify_redis
  verify_remote s a t h law e =
      let m =
        verify_script redis (full_key Prefix.reset id) (normalize_email email) digest now
          s.max_attempts in
      rw
        (
          require_ready_remote h,
          code_digest_remote h hmac id code,
          h.remote,
          redis_command_remote h redis law "Redis verification failed" (eval redis m) a t
              (eval_remote redis law m a s.server t e),
        )
        refl

  -- With a Redis server that can be reached, and a stored record that cjson decodes as it is
  -- and whose numbers are numbers in Lua too, `verify_password_reset` answers what `decide` says
  -- of the record, and stores the text that cjson writes of what `decide` leaves.
  pub verify_password_reset_remote :
      (law : IsReachable redis) (s : Otp Server) (r : Record)
      → IsConnected key s
      → law.contents s.server (full_key Prefix.reset id) ≡ some (dumps r)
      → LuaDecodes redis r
      → lua_fields r ≡ reset_fields r
      → let d = decide s.max_attempts now (normalize_email email) digest (some r) in
        let v = verify_password_reset redis hmac now id email code s in
        (v.0 ≡ answered d.0)
        × (law.contents v.1.server (full_key Prefix.reset id) ≡ Option.map redis.cjson_encode d.1)
  verify_password_reset_remote law s r h stored decoded same =
      let d = decide s.max_attempts now (normalize_email email) digest (some r) in
      let k = full_key Prefix.reset id in
      let v = verify_script redis k (normalize_email email) digest now s.max_attempts s.server in
      let (e, c) =
        verify_script-Does s.max_attempts now (normalize_email email) digest redis law k r s.server
          stored decoded same in
      let v_eq : v ≡ (ok d.0, v.1) = rw e refl in rw (verify_remote s d.0 v.1 h law v_eq) (refl, c)

  -- With a Redis server that can be reached, and a stored record that cjson decodes as it is
  -- and whose numbers are numbers in Lua too: a reset code is accepted only from the email of its record and for the code of its
  -- record, before it expires and with an attempt left; the record is the answer, and is gone.
  pub verify_password_reset_sound :
      (law : IsReachable redis) (s : Otp Server) (r r' : Record)
      → IsConnected key s
      → law.contents s.server (full_key Prefix.reset id) ≡ some (dumps r)
      → LuaDecodes redis r
      → lua_fields r ≡ reset_fields r
      → (verify_password_reset redis hmac now id email code s).0 ≡ ok r'
      → (f : Fields) × (reset_fields r ≡ some f)
        × (r' ≡ r)
        × (f.email ≡ normalize_email email)
        × (f.code_digest ≡ digest)
        × (le_nat f.expires_at now ≡ false)
        × (ge_nat f.attempts s.max_attempts ≡ false)
        × (law.contents
              (verify_password_reset redis hmac now id email code s).1.server
              (full_key Prefix.reset id)
            ≡ none)
  verify_password_reset_sound law s r r' h stored decoded same e =
      let d = decide s.max_attempts now (normalize_email email) digest (some r) in
      let (a, c) = verify_password_reset_remote law s r h stored decoded same in
      let (f, typed, rec, owner, right, fresh, left, gone) =
        decide-valid s.max_attempts now (normalize_email email) digest r r'
          (answered-valid d.0 r' (sym a ∙ e)) in
      (f, typed, rec, owner, right, fresh, left, c ∙ ap (Option.map redis.cjson_encode) gone)
