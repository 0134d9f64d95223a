-- ===== src/EmailOtp/Login/Race.antt =====
-- Two calls of `verify` on one challenge in Redis that overlap. `_load` and what follows it are
-- separate requests to the server, so another call may run between them: here a first call has
-- loaded the challenge (`load`), a second one runs as a whole, and the first one goes on from what
-- it had loaded (`verify_loaded`).
use ms_auth_service.Prelude.{
  ℕ, String, ◌≡◌, ◌≢◌, refl, true, false, some, arith, eq_iff, eq_refl, ◌==◌, max, ◌∙◌,
}
use ms_auth_service.Py.Int.{add_one, le_nat, ge_nat}
use ms_auth_service.Py.Str.{◌++◌, is_ascii, normalize_email}
use ms_auth_service.Py.Dict.{insert}
use ms_auth_service.Py.Value.{Value}
use ms_auth_service.Py.Exec.{Exn, ok, raise}
use ms_auth_service.Redis.{Redis}
use ms_auth_service.Redis.Laws.{IsReachable}
use ms_auth_service.EmailOtp.{Otp, Record, compare_digest, seconds_left}
use ms_auth_service.EmailOtp.Store.{Prefix, full_key, dumps, load}
use ms_auth_service.EmailOtp.Remote.{
  IsConnected, IsConnected-server, require_ready_remote, code_digest_remote, load_remote,
  save_remote, delete_remote,
}
use ms_auth_service.EmailOtp.Login.{
  Fields, fields, verify, verify_loaded, verify_record, compare_code, miss,
}
use ms_auth_service.EmailOtp.Login.Verify.{fields-insert_attempts}

module _ {Server : Type 0} (redis : Redis Server) (law : IsReachable redis)
    (hmac : String → String → String) (ascii : (k p : String) → is_ascii (hmac k p) ≡ true)
    (key id email : String) (ascii_email : is_ascii (normalize_email email) ≡ true) where
  -- The challenge in Redis is this record, with fields at their types, open at the times that a
  -- call reads, and with an attempt left.
  pub record IsOpen (clock : ℕ → ℕ) (r : Record) (f : Fields) (s : Otp Server) : Type 0 where
    pub connected : IsConnected key s
    pub stored : law.contents s.server (full_key Prefix.login id) ≡ some (dumps r)
    pub typed : fields r ≡ some f
    pub owner : f.email ≡ normalize_email email
    pub digest_ascii : is_ascii f.code_digest ≡ true
    pub unexpired : le_nat f.expires_at (clock 1) ≡ false
    pub left : ge_nat f.attempts s.max_attempts ≡ false

  module _ (clock : ℕ → ℕ) (r : Record) (f : Fields) where
    -- A call goes on to the comparison of the code.
    loaded_open :
        (code : String) (s : Otp Server)
        → IsConnected key s
        → fields r ≡ some f
        → le_nat f.expires_at (clock 1) ≡ false
        → ge_nat f.attempts s.max_attempts ≡ false
        → verify_loaded redis hmac clock id email code (some r) s
          ≡ compare_code redis hmac clock id email code r f s
    unfolding verify_loaded verify_record
    loaded_open code s h typed unexpired left = rw (typed, unexpired, left)

    verify_remote :
        (code : String) (s : Otp Server)
        → IsOpen clock r f s
        → verify redis hmac clock id email code s
          ≡ compare_code redis hmac clock id email code r f s
    unfolding verify
    verify_remote code s o =
        rw
          (
            require_ready_remote o.connected,
            load_remote o.connected redis law (clock 0) id Prefix.login r o.stored,
          )
          (loaded_open code s o.connected o.typed o.unexpired o.left)

    -- The right code: the challenge is deleted.
    accepted :
        (code : String) (s : Otp Server)
        → IsConnected key s
        → f.email ≡ normalize_email email
        → is_ascii f.code_digest ≡ true
        → f.code_digest ≡ hmac key (id ++ (":" ++ code))
        → compare_code redis hmac clock id email code r f s
          ≡ (ok tt, record s { server = (law.delete_lem (full_key Prefix.login id) s.server).0 })
    unfolding compare_code compare_digest
    accepted code s h owner ac ec = rw (
      code_digest_remote h hmac id code,
      ← owner,
      ← ec,
      owner,
      ascii_email,
      ac,
      eq_refl (normalize_email email),
      eq_refl f.code_digest,
      delete_remote h redis law id Prefix.login,
    )

    abbrev once_more : Record
    once_more = insert "attempts" (Value.int (add_one f.attempts)) r

    abbrev rewritten : Otp Server → Server
    rewritten s =
        (law.set_lem (full_key Prefix.login id) (dumps once_more)
          (max (seconds_left f.expires_at (clock 1)) 1) s.server).0

    -- A wrong code with an attempt to spare: the challenge is written again.
    refused :
        (code : String) (s : Otp Server)
        → IsConnected key s
        → f.email ≡ normalize_email email
        → is_ascii f.code_digest ≡ true
        → f.code_digest ≢ hmac key (id ++ (":" ++ code))
        → ge_nat (add_one f.attempts) s.max_attempts ≡ false
        → compare_code redis hmac clock id email code r f s
          ≡ (raise Exn.email_otp_invalid, record s { server = rewritten s })
    unfolding compare_code compare_digest miss
    refused code s h owner ac ne spare =
        let submitted = hmac key (id ++ (":" ++ code)) in
        let differ : (f.code_digest == submitted) ≡ false =
          ground (arith, eq_iff f.code_digest submitted) in
        rw (
          code_digest_remote h hmac id code,
          owner,
          ascii_email,
          ac,
          ascii key (id ++ (":" ++ code)),
          eq_refl (normalize_email email),
          differ,
          spare,
          save_remote h redis law (clock 2) id once_more (seconds_left f.expires_at (clock 1))
              Prefix.login,
        )

    stored_rewritten :
        (s : Otp Server)
        → law.contents (rewritten s) (full_key Prefix.login id) ≡ some (dumps once_more)
    stored_rewritten s =
        let k = full_key Prefix.login id in
        (law.set_lem k (dumps once_more) (max (seconds_left f.expires_at (clock 1)) 1) s.server).2 k
        ∙ rw (eq_refl k)

  module _ (clock : ℕ → ℕ) (r : Record) (f : Fields) (right wrong : String) (s : Otp Server)
      (o : IsOpen clock r f s) (matches : f.code_digest ≡ hmac key (id ++ (":" ++ right)))
      (misses : f.code_digest ≢ hmac key (id ++ (":" ++ wrong)))
      (spare : ge_nat (add_one f.attempts) s.max_attempts ≡ false) where
    -- A code is accepted twice when a wrong guess overlaps: the guess loads the challenge, the
    -- right code is accepted and deletes it, the guess is refused and writes the challenge back,
    -- and the right code is accepted again.
    pub verify_twice :
        let loaded = load redis (clock 0) id Prefix.login s in
        let first = verify redis hmac clock id email right loaded.1 in
        let stale = verify_loaded redis hmac clock id email wrong (some r) first.1 in
        (loaded.0 ≡ ok (some r))
        × (first.0 ≡ ok tt)
        × (stale.0 ≡ raise Exn.email_otp_invalid)
        × ((verify redis hmac clock id email right stale.1).0 ≡ ok tt)
    verify_twice =
        let k = full_key Prefix.login id in
        let h = o.connected in
        let s1 = record s { server = (law.delete_lem k s.server).0 } in
        let h1 = IsConnected-server h s1.server in
        let s2 = record s { server = rewritten clock r f s1 } in
        let h2 = IsConnected-server h s2.server in
        let f2 : Fields = record f { attempts = add_one f.attempts } in
        let o2 : IsOpen clock (once_more clock r f) f2 s2 = record {
          connected = h2;
          stored = stored_rewritten clock r f s1;
          typed = fields-insert_attempts r f (add_one f.attempts) o.typed;
          owner = o.owner;
          digest_ascii = o.digest_ascii;
          unexpired = o.unexpired;
          left = spare;
        } in
        rw
          (
            load_remote h redis law (clock 0) id Prefix.login r o.stored,
            verify_remote clock r f right s o,
            accepted clock r f right s h o.owner o.digest_ascii matches,
            loaded_open clock r f wrong s1 h1 o.typed o.unexpired o.left,
            refused clock r f wrong s1 h1 o.owner o.digest_ascii misses spare,
            verify_remote clock (once_more clock r f) f2 right s2 o2,
            accepted clock (once_more clock r f) f2 right s2 h2 o.owner o.digest_ascii matches,
          )
          (refl, refl, refl, refl)

    -- Of two wrong guesses that overlap only one is counted.
    pub verify_uncounted :
        let loaded = load redis (clock 0) id Prefix.login s in
        let first = verify redis hmac clock id email wrong loaded.1 in
        let stale = verify_loaded redis hmac clock id email wrong (some r) first.1 in
        (loaded.0 ≡ ok (some r))
        × (first.0 ≡ raise Exn.email_otp_invalid)
        × (stale.0 ≡ raise Exn.email_otp_invalid)
        × (law.contents stale.1.server (full_key Prefix.login id)
            ≡ some (dumps (once_more clock r f)))
    verify_uncounted =
        let h = o.connected in
        let s1 = record s { server = rewritten clock r f s } in
        let h1 = IsConnected-server h s1.server in
        rw
          (
            load_remote h redis law (clock 0) id Prefix.login r o.stored,
            verify_remote clock r f wrong s o,
            refused clock r f wrong s h o.owner o.digest_ascii misses spare,
            loaded_open clock r f wrong s1 h1 o.typed o.unexpired o.left,
            refused clock r f wrong s1 h1 o.owner o.digest_ascii misses spare,
          )
          (refl, refl, refl, stored_rewritten clock r f s1)
