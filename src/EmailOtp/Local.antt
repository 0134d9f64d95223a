-- ===== src/EmailOtp/Local.antt =====
-- The service when it is configured to send codes and keeps its challenges in `_memory`.
use ms_auth_service.Prelude.{ℕ, String, ◌≡◌, true, false, none, some, arith}
use ms_auth_service.Py.Str.{◌++◌}
use ms_auth_service.Py.Dict.{Dict, IsDict, lookup, insert, erase}
use ms_auth_service.Py.Dict.Laws.{lookup-keep, keep-IsDict, kept}
use ms_auth_service.Py.Exec.{ok}
use ms_auth_service.Redis.{Redis}
use ms_auth_service.EmailOtp.{Otp, Record, is_blank, is_unexpired, require_ready, code_digest}
use ms_auth_service.EmailOtp.Store.{Prefix, mem_key, cleanup_memory, save, load, delete}

module _ {Server : Type 0} where
  -- The checks of `_require_ready` pass, and the challenges are in a dictionary in memory.
  pub record IsReady (key : String) (s : Otp Server) : Type 0 where
    pub enabled : s.enabled ≡ true
    pub secret : s.hmac_secret ≡ some key
    pub host : is_blank s.smtp_host ≡ false
    pub local : s.redis_url ≡ none
    pub memory : IsDict s.memory

  module _ {key : String} {s : Otp Server} (h : IsReady key s) where
    pub require_ready_local : require_ready s ≡ (ok tt, s)
    unfolding require_ready
    require_ready_local = ground arith

    pub code_digest_local :
        (hmac : String → String → String) (id code : String)
        → code_digest hmac id code s ≡ (ok (hmac key (id ++ (":" ++ code))), s)
    unfolding code_digest
    code_digest_local hmac id code = ground arith

    module _ (redis : Redis Server) where
      pub load_local :
          (now : ℕ) (id : String) (p : Prefix)
          → load redis now id p s ≡ (
            ok (lookup (mem_key p id) (cleanup_memory now s.memory)),
            record s { memory = cleanup_memory now s.memory },
          )
      unfolding load
      load_local now id p = rw (h.local)

      pub save_local :
          (now : ℕ) (id : String) (r : Record) (ttl : ℕ) (p : Prefix)
          → save redis now id r ttl p s
            ≡ (ok tt, record s { memory = insert (mem_key p id) r (cleanup_memory now s.memory) })
      unfolding save
      save_local now id r ttl p = rw (h.local)

      pub delete_local :
          (id : String) (p : Prefix)
          → delete redis id p s ≡ (ok tt, record s { memory = erase (mem_key p id) s.memory })
      unfolding delete
      delete_local id p = rw (h.local)

-- A challenge that has not expired survives the cleanup; one that has does not.
pub lookup-cleanup_memory :
    (now : ℕ) (k : String) (memory : Dict Record)
    → IsDict memory
    → lookup k (cleanup_memory now memory) ≡ kept (is_unexpired now) (lookup k memory)
unfolding cleanup_memory
lookup-cleanup_memory now k memory h = lookup-keep (is_unexpired now) k memory h

pub cleanup_memory-IsDict :
    (now : ℕ) (memory : Dict Record) → IsDict memory → IsDict (cleanup_memory now memory)
unfolding cleanup_memory
cleanup_memory-IsDict now memory h = keep-IsDict (is_unexpired now) memory h
