-- ===== src/EmailOtp/Login/Verify.antt =====
-- What one call of `verify` does to a login challenge that is kept in memory.
use ms_auth_service.Prelude.{
  ℕ, String, ◌≡◌, ◌≢◌, refl, true, false, ◌&&◌, not, none, some, ◌⊎◌, inl, inr, arith, ◌==◌, eq_iff,
  eq_refl, if◌then◌else◌, Bool-cases,
}
use ms_auth_service.Py.Int.{ℤ, add_one, le_nat, ge_nat}
use ms_auth_service.Py.Str.{◌++◌, is_ascii, normalize_email}
use ms_auth_service.Py.Dict.{lookup, insert}
use ms_auth_service.Py.Dict.Laws.{lookup-insert, lookup-insert_self, lookup-erase_self, kept}
use ms_auth_service.Py.Value.{Value}
use ms_auth_service.Py.Exec.{Exn, ok, raise}
use ms_auth_service.Redis.{Redis}
use ms_auth_service.EmailOtp.{Otp, Record, is_unexpired, compare_digest}
use ms_auth_service.EmailOtp.Store.{Prefix, mem_key, cleanup_memory}
use ms_auth_service.EmailOtp.Local.{
  IsReady, require_ready_local, code_digest_local, load_local, save_local, delete_local,
  lookup-cleanup_memory, cleanup_memory-IsDict,
}
use ms_auth_service.EmailOtp.Login.{
  Fields, fields, verify, verify_loaded, verify_record, compare_code, miss,
}

pub fields-is_unexpired :
    (r : Record) (f : Fields) (now : ℕ)
    → fields r ≡ some f
    → is_unexpired now r ≡ not (le_nat f.expires_at now)
unfolding fields is_unexpired
fields-is_unexpired r f now e = ground arith

-- The fields of a record whose attempts are written.
pub fields-insert_attempts :
    (r : Record) (f : Fields) (a : ℤ)
    → fields r ≡ some f
    → fields (insert "attempts" (Value.int a) r) ≡ some (record f { attempts = a })
unfolding fields
fields-insert_attempts r f a e = simp lookup-insert (ground arith)

module _ {Server : Type 0} (redis : Redis Server) (hmac : String → String → String) (key : String)
    (clock : ℕ → ℕ) (id email code : String) where
  -- The service after the cleanup of `_load`.
  abbrev swept : Otp Server → Otp Server
  swept s = record s { memory = cleanup_memory (clock 0) s.memory }

  swept-IsReady : {s : Otp Server} → IsReady key s → IsReady key (swept s)
  swept-IsReady {s} h = record {
    enabled = h.enabled;
    secret = h.secret;
    host = h.host;
    local = h.local;
    memory = cleanup_memory-IsDict (clock 0) s.memory h.memory;
  }

  verify_swept :
      (s : Otp Server)
      → IsReady key s
      → verify redis hmac clock id email code s
        ≡ verify_loaded redis hmac clock id email code
            (lookup id (cleanup_memory (clock 0) s.memory))
            (swept s)
  unfolding verify mem_key
  verify_swept s h = rw (require_ready_local h, load_local h redis (clock 0) id Prefix.login)

  -- With no open challenge of that id the call is refused, and the id stays unknown.
  pub verify_unknown :
      (s : Otp Server)
      → IsReady key s
      → lookup id s.memory ≡ none
      → ((verify redis hmac clock id email code s).0 ≡ raise Exn.email_otp_invalid)
        × (lookup id (verify redis hmac clock id email code s).1.memory ≡ none)
  unfolding verify_loaded
  verify_unknown s h e =
      let gone : lookup id (cleanup_memory (clock 0) s.memory) ≡ none =
        rw (lookup-cleanup_memory (clock 0) id s.memory h.memory, e) in
      rw (verify_swept s h, gone) (refl, gone)

  module _ (s : Otp Server) (h : IsReady key s) (r : Record) (f : Fields)
      (found : lookup id s.memory ≡ some r) (typed : fields r ≡ some f) where
    verify_open :
        le_nat f.expires_at (clock 0) ≡ false
        → verify redis hmac clock id email code s
          ≡ verify_record redis hmac clock id email code r (some f) (swept s)
    unfolding verify_loaded
    verify_open e =
        let still : lookup id (cleanup_memory (clock 0) s.memory) ≡ some r = rw (
          lookup-cleanup_memory (clock 0) id s.memory h.memory,
          found,
          kept,
          fields-is_unexpired r f (clock 0) typed,
          e,
        ) in
        rw (verify_swept s h, still, typed)

    -- A challenge in memory that has expired by the time of the call is refused whatever the
    -- code is, and is gone after it.
    pub verify_expired :
        (le_nat f.expires_at (clock 0) ≡ true) ⊎ (le_nat f.expires_at (clock 1) ≡ true)
        → ((verify redis hmac clock id email code s).0 ≡ raise Exn.email_otp_invalid)
          × (lookup id (verify redis hmac clock id email code s).1.memory ≡ none)
    unfolding verify_record verify_loaded mem_key
    verify_expired e = elim (Bool-cases (le_nat f.expires_at (clock 0))) [
      | inl x ↦
          let gone : lookup id (cleanup_memory (clock 0) s.memory) ≡ none = rw (
            lookup-cleanup_memory (clock 0) id s.memory h.memory,
            found,
            kept,
            fields-is_unexpired r f (clock 0) typed,
            x,
          ) in
          rw (verify_swept s h, gone) (refl, gone)
      | inr x ↦
          let now : le_nat f.expires_at (clock 1) ≡ true = elim e [
            | inl y ↦ cc (x, y)
            | inr y ↦ y
          ] in
          rw (verify_open x, now, delete_local (swept-IsReady h) redis id Prefix.login)
            (refl, lookup-erase_self id _)
    ]

    module _ (open0 : le_nat f.expires_at (clock 0) ≡ false)
        (open1 : le_nat f.expires_at (clock 1) ≡ false) where
      -- A challenge whose attempts are used up is refused whatever the code is, and is gone.
      pub verify_exhausted :
          ge_nat f.attempts s.max_attempts ≡ true
          → ((verify redis hmac clock id email code s).0 ≡ raise Exn.email_otp_invalid)
            × (lookup id (verify redis hmac clock id email code s).1.memory ≡ none)
      unfolding verify_record mem_key
      verify_exhausted e =
          rw (verify_open open0, open1, e, delete_local (swept-IsReady h) redis id Prefix.login)
            (refl, lookup-erase_self id _)

      module _ (left : ge_nat f.attempts s.max_attempts ≡ false) where
        verify_compared :
            verify redis hmac clock id email code s
            ≡ compare_code redis hmac clock id email code r f (swept s)
        unfolding verify_record
        verify_compared = rw (verify_open open0, open1, left)

        -- For an open challenge in memory with an attempt left and ASCII fields: the right code
        -- for the right email is accepted, and the challenge is gone.
        pub verify_right :
            is_ascii f.email ≡ true
            → f.email ≡ normalize_email email
            → is_ascii f.code_digest ≡ true
            → f.code_digest ≡ hmac key (id ++ (":" ++ code))
            → ((verify redis hmac clock id email code s).0 ≡ ok tt)
              × (lookup id (verify redis hmac clock id email code s).1.memory ≡ none)
        unfolding compare_code compare_digest mem_key
        verify_right ae ee ac ec =
            rw
              (
                verify_compared,
                code_digest_local (swept-IsReady h) hmac id code,
                ← ee,
                ← ec,
                ae,
                ac,
                eq_refl f.email,
                eq_refl f.code_digest,
                delete_local (swept-IsReady h) redis id Prefix.login,
              )
              (refl, lookup-erase_self id _)

        -- For an open challenge in memory with an attempt left, and ASCII emails and digests: a
        -- wrong email or code is refused and counts as an attempt; the last attempt takes the
        -- challenge away.
        pub verify_wrong :
            is_ascii f.email ≡ true
            → is_ascii (normalize_email email) ≡ true
            → is_ascii f.code_digest ≡ true
            → is_ascii (hmac key (id ++ (":" ++ code))) ≡ true
            → (f.email ≢ normalize_email email) ⊎ (f.code_digest ≢ hmac key (id ++ (":" ++ code)))
            → ((verify redis hmac clock id email code s).0 ≡ raise Exn.email_otp_invalid)
              × (lookup id (verify redis hmac clock id email code s).1.memory ≡ (
                  if ge_nat (add_one f.attempts) s.max_attempts
                  then none
                  else some (insert "attempts" (Value.int (add_one f.attempts)) r)))
        unfolding compare_code compare_digest miss mem_key
        verify_wrong ae ae' ac ac' ne =
            let submitted = hmac key (id ++ (":" ++ code)) in
            let differ : ((f.email == normalize_email email) && (f.code_digest == submitted))
                ≡ false =
              ground
                (arith, eq_iff f.email (normalize_email email), eq_iff f.code_digest submitted) in
            let r' = insert "attempts" (Value.int (add_one f.attempts)) r in
            rw
              (
                verify_compared,
                code_digest_local (swept-IsReady h) hmac id code,
                ae,
                ae',
                ac,
                ac',
                differ,
              )
              (elim (Bool-cases (ge_nat (add_one f.attempts) s.max_attempts)) [
                | inl e ↦
                    rw (e, delete_local (swept-IsReady h) redis id Prefix.login)
                      (refl, lookup-erase_self id _)
                | inr e ↦
                    rw (e, save_local (swept-IsReady h) redis (clock 2) id r' _ Prefix.login)
                      (refl, lookup-insert_self id r' _)
              ])

        -- An email that is not ASCII ends in a `TypeError`, and nothing is counted.
        pub verify_non_ascii :
            is_ascii (normalize_email email) ≡ false
            → verify redis hmac clock id email code s ≡ (raise Exn.type_error, swept s)
        unfolding compare_code compare_digest
        verify_non_ascii e = elim (Bool-cases (is_ascii f.email)) [
          | inl a ↦ rw (verify_compared, code_digest_local (swept-IsReady h) hmac id code, a, e)
          | inr a ↦ rw (verify_compared, code_digest_local (swept-IsReady h) hmac id code, a)
        ]
