-- ===== src/EmailOtp/Login/RoundTrip.antt =====
-- A challenge from `start` to its one use, or to a delivery that failed.
use ms_auth_service.Prelude.{ℕ, ◌+◌, ◌<◌, String, ◌≡◌, refl, sym, true, some, arith}
use ms_auth_service.Py.Int.{pos}
use ms_auth_service.Py.Str.{◌++◌, is_ascii, normalize_email}
use ms_auth_service.Py.Dict.{lookup, insert}
use ms_auth_service.Py.Dict.Laws.{lookup-insert_self, insert-IsDict}
use ms_auth_service.Py.Exec.{Exn, Result, ok, raise}
use ms_auth_service.Redis.{Redis}
use ms_auth_service.EmailOtp.{Otp, Record, six_digits, mask_email}
use ms_auth_service.EmailOtp.Store.{Prefix, mem_key, cleanup_memory}
use ms_auth_service.EmailOtp.Local.{
  IsReady, require_ready_local, code_digest_local, save_local, cleanup_memory-IsDict,
}
use ms_auth_service.EmailOtp.Login.{Fields, fields, login_record, start, verify}
use ms_auth_service.EmailOtp.Login.Keeps.{KeepsReady-verify}
use ms_auth_service.EmailOtp.Login.Verify.{verify_right, verify_unknown}

-- The fields of a new challenge.
pub fields-login_record :
    (email digest : String) (at : ℕ)
    → fields (login_record email digest at)
      ≡ some (record { email = email; expires_at = pos at; attempts = pos 0; code_digest = digest })
unfolding fields lookup
fields-login_record email digest at = refl

module _ {Server : Type 0} (redis : Redis Server) (hmac : String → String → String) (key : String)
    (send : String → String → Result (Unit {0})) (clock : ℕ → ℕ) (id : String) (number : ℕ)
    (email : String) (s : Otp Server) (h : IsReady key s) where
  abbrev digest : String
  digest = hmac key (id ++ (":" ++ six_digits number))

  abbrev new_record : Record
  new_record = login_record (normalize_email email) digest (clock 0 + s.ttl_seconds)

  -- The service once the challenge is saved.
  abbrev saved : Otp Server
  saved = record s { memory = insert id new_record (cleanup_memory (clock 1) s.memory) }

  saved-IsReady : IsReady key saved
  saved-IsReady = record {
    enabled = h.enabled;
    secret = h.secret;
    host = h.host;
    local = h.local;
    memory = insert-IsDict id new_record _ (cleanup_memory-IsDict (clock 1) s.memory h.memory);
  }

  -- A challenge whose code was sent is saved under its id, with no attempt counted.
  pub start_sent :
      send (normalize_email email) (six_digits number) ≡ ok tt
      → start redis hmac send clock id number email s ≡ (
        ok (record {
          challenge_id = id;
          expires_in = s.ttl_seconds;
          masked_email = mask_email (normalize_email email);
        }),
        saved,
      )
  unfolding start mem_key
  start_sent e = rw (
    require_ready_local h,
    code_digest_local h hmac id (six_digits number),
    save_local h redis (clock 1) id new_record s.ttl_seconds Prefix.login,
    e,
  )

  -- In memory, with ASCII emails and digests: a login code that was sent is accepted from its
  -- owner until it expires, however the owner writes the email in upper or lower case, and only
  -- once: the same call is refused after it.
  pub verify-start :
      (clock' clock'' : ℕ → ℕ) (email' : String)
      → send (normalize_email email) (six_digits number) ≡ ok tt
      → ((k p : String) → is_ascii (hmac k p) ≡ true)
      → is_ascii (normalize_email email) ≡ true
      → normalize_email email' ≡ normalize_email email
      → 0 < s.max_attempts
      → clock' 0 < clock 0 + s.ttl_seconds
      → clock' 1 < clock 0 + s.ttl_seconds
      → let s' = (start redis hmac send clock id number email s).1 in
        let once = verify redis hmac clock' id email' (six_digits number) s' in
        (once.0 ≡ ok tt)
        × ((verify redis hmac clock'' id email' (six_digits number) once.1).0
            ≡ raise Exn.email_otp_invalid)
  verify-start clock' clock'' email' sent ascii ae same most t0 t1 =
      let f : Fields = record {
        email = normalize_email email;
        expires_at = pos (clock 0 + s.ttl_seconds);
        attempts = pos 0;
        code_digest = digest;
      } in
      let code = six_digits number in
      let right =
        verify_right redis hmac key clock' id email' code saved saved-IsReady new_record f
          (lookup-insert_self id new_record _)
          (fields-login_record (normalize_email email) digest _) (ground arith) (ground arith)
          (ground arith) ae (sym same) (ascii key _) refl in
      let ready = KeepsReady-verify key redis hmac clock' id email' code saved saved-IsReady in
      rw (start_sent sent)
        (right.0, (verify_unknown redis hmac key clock'' id email' code _ ready.0 right.1).0)
