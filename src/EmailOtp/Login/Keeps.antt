-- ===== src/EmailOtp/Login/Keeps.antt =====
-- `verify` (app/services/email_otp.py) and the configuration of the service.
use ms_auth_service.Prelude.{ℕ, String, ◌≡◌, refl, Option, none, some, arith}
use ms_auth_service.Py.Int.{add_one}
use ms_auth_service.Py.Dict.{lookup, insert}
use ms_auth_service.Py.Dict.Laws.{insert-IsDict, erase-IsDict}
use ms_auth_service.Py.Value.{Value}
use ms_auth_service.Py.Exec.{Exec}
use ms_auth_service.Redis.{Redis}
use ms_auth_service.EmailOtp.{Otp, Record, compare_digest, seconds_left}
use ms_auth_service.EmailOtp.Store.{Prefix, mem_key, cleanup_memory, save, delete}
use ms_auth_service.EmailOtp.Local.{
  IsReady, require_ready_local, code_digest_local, load_local, save_local, delete_local,
  cleanup_memory-IsDict,
}
use ms_auth_service.EmailOtp.Login.{
  Fields, fields, verify, verify_loaded, verify_record, compare_code, miss,
}

module _ {Server : Type 0} (key : String) where
  -- From a ready service `m` leads to a ready one with the same limit.
  abbrev pub KeepsReady : {A : Type 0} → Exec (Otp Server) A → Otp Server → Type 0
  KeepsReady m s = IsReady key s → IsReady key (m s).1 × ((m s).1.max_attempts ≡ s.max_attempts)

  module _ (redis : Redis Server) where
    KeepsReady-delete :
        (id : String) (p : Prefix) (s : Otp Server) → KeepsReady (delete redis id p) s
    KeepsReady-delete id p s h = rw (delete_local h redis id p) (
      record {
        enabled = h.enabled;
        secret = h.secret;
        host = h.host;
        local = h.local;
        memory = erase-IsDict (mem_key p id) s.memory h.memory;
      },
      refl,
    )

    KeepsReady-save :
        (now : ℕ) (id : String) (r : Record) (ttl : ℕ) (p : Prefix) (s : Otp Server)
        → KeepsReady (save redis now id r ttl p) s
    KeepsReady-save now id r ttl p s h = rw (save_local h redis now id r ttl p) (
      record {
        enabled = h.enabled;
        secret = h.secret;
        host = h.host;
        local = h.local;
        memory = insert-IsDict (mem_key p id) r _ (cleanup_memory-IsDict now s.memory h.memory);
      },
      refl,
    )

    module _ (hmac : String → String → String) (clock : ℕ → ℕ) (id email code : String) where
      KeepsReady-miss :
          (r : Record) (f : Fields) (s : Otp Server) → KeepsReady (miss redis hmac clock id r f) s
      unfolding miss
      KeepsReady-miss r f s h =
          let r' = insert "attempts" (Value.int (add_one f.attempts)) r in
          ground (
            arith,
            KeepsReady-delete id Prefix.login s h,
            KeepsReady-save (clock 2) id r' (seconds_left f.expires_at (clock 1)) Prefix.login s h,
            delete_local h redis id Prefix.login,
            save_local h redis (clock 2) id r' (seconds_left f.expires_at (clock 1)) Prefix.login,
          )

      KeepsReady-compare_code :
          (r : Record) (f : Fields) (s : Otp Server)
          → KeepsReady (compare_code redis hmac clock id email code r f) s
      unfolding compare_code compare_digest
      KeepsReady-compare_code r f s h = ground (
        arith,
        code_digest_local h hmac id code,
        KeepsReady-miss r f s h,
        KeepsReady-delete id Prefix.login s h,
      )

      KeepsReady-verify_record :
          (r : Record) (o : Option Fields) (s : Otp Server)
          → KeepsReady (verify_record redis hmac clock id email code r o) s
      unfolding verify_record
      KeepsReady-verify_record r none s h =
          ground
            (arith, KeepsReady-delete id Prefix.login s h, delete_local h redis id Prefix.login)
      KeepsReady-verify_record r (some f) s h = ground (
        arith,
        KeepsReady-delete id Prefix.login s h,
        delete_local h redis id Prefix.login,
        KeepsReady-compare_code r f s h,
      )

      KeepsReady-verify_loaded :
          (o : Option Record) (s : Otp Server)
          → KeepsReady (verify_loaded redis hmac clock id email code o) s
      unfolding verify_loaded
      KeepsReady-verify_loaded none s h = (h, refl)
      KeepsReady-verify_loaded (some r) s h = KeepsReady-verify_record r (fields r) s h

      -- However it ends, `verify` leaves a ready service ready.
      pub KeepsReady-verify :
          (s : Otp Server) → KeepsReady (verify redis hmac clock id email code) s
      unfolding verify
      KeepsReady-verify s h =
          let memory = cleanup_memory (clock 0) s.memory in
          let h' : IsReady key (record s { memory = memory }) = record {
            enabled = h.enabled;
            secret = h.secret;
            host = h.host;
            local = h.local;
            memory = cleanup_memory-IsDict (clock 0) s.memory h.memory;
          } in
          rw (require_ready_local h, load_local h redis (clock 0) id Prefix.login)
            (KeepsReady-verify_loaded (lookup (mem_key Prefix.login id) memory)
              (record s { memory = memory }) h')
