-- ===== src/EmailOtp/Remote.antt =====
-- The service when it is configured to send codes and keeps its challenges in a Redis server that
-- can be reached.
use ms_auth_service.Prelude.{ℕ, String, ◌≡◌, true, false, some, arith, max, is_some}
use ms_auth_service.Py.Str.{◌++◌}
use ms_auth_service.Py.Value.{entries-of_dict}
use ms_auth_service.Py.Exec.{ok, Exec}
use ms_auth_service.Redis.{Redis, eval}
use ms_auth_service.Redis.Laws.{IsReachable}
use ms_auth_service.EmailOtp.{
  Otp, Record, is_blank, require_ready, code_digest, redis_client, redis_command,
}
use ms_auth_service.EmailOtp.Store.{Prefix, full_key, dumps, save, load, delete, read_raw}

module _ {Server : Type 0} where
  -- The checks of `_require_ready` pass, and there is a client.
  pub record IsConnected (key : String) (s : Otp Server) : Type 0 where
    pub enabled : s.enabled ≡ true
    pub secret : s.hmac_secret ≡ some key
    pub host : is_blank s.smtp_host ≡ false
    pub remote : is_some s.redis_url ≡ true
    pub connected : s.connected ≡ true

  module _ {key : String} {s : Otp Server} (h : IsConnected key s) where
    pub require_ready_remote : require_ready s ≡ (ok tt, s)
    unfolding require_ready
    require_ready_remote = ground arith

    pub code_digest_remote :
        (hmac : String → String → String) (id code : String)
        → code_digest hmac id code s ≡ (ok (hmac key (id ++ (":" ++ code))), s)
    unfolding code_digest
    code_digest_remote hmac id code = ground arith

    -- The same with the server in another state.
    pub IsConnected-server : (t : Server) → IsConnected key (record s { server = t })
    IsConnected-server t = record {
      enabled = h.enabled;
      secret = h.secret;
      host = h.host;
      remote = h.remote;
      connected = h.connected;
    }

    module _ (redis : Redis Server) (law : IsReachable redis) where
      pub load_remote :
          (now : ℕ) (id : String) (p : Prefix) (r : Record)
          → law.contents s.server (full_key p id) ≡ some (dumps r)
          → load redis now id p s ≡ (ok (some r), s)
      unfolding load redis_command redis_client read_raw
      load_remote now id p r e =
          rw (h.remote, h.connected, law.get_lem (full_key p id) s.server, e, entries-of_dict r)

      pub save_remote :
          (now : ℕ) (id : String) (r : Record) (ttl : ℕ) (p : Prefix)
          → let t = (law.set_lem (full_key p id) (dumps r) (max ttl 1) s.server).0 in
            save redis now id r ttl p s ≡ (ok tt, record s { server = t })
      unfolding save redis_command redis_client
      save_remote now id r ttl p =
          let (t, e, _) = law.set_lem (full_key p id) (dumps r) (max ttl 1) s.server in
          rw (h.remote, h.connected, e)

      pub delete_remote :
          (id : String) (p : Prefix)
          → let t = (law.delete_lem (full_key p id) s.server).0 in
            delete redis id p s ≡ (ok tt, record s { server = t })
      unfolding delete redis_command redis_client
      delete_remote id p =
          let (t, e, _) = law.delete_lem (full_key p id) s.server in rw (h.remote, h.connected, e)

      -- A command that the server carries out.
      pub redis_command_remote :
          {A : Type 0}
          → (reason : String) (m : Exec Server A) (a : A) (t : Server) → m s.server ≡ (ok a, t)
          → redis_command redis reason m s ≡ (ok a, record s { server = t })
      unfolding redis_command redis_client
      redis_command_remote reason m a t e = rw (h.remote, h.connected, e)

module _ {Server : Type 0} (redis : Redis Server) (law : IsReachable redis) where
  -- A script that the server carries out.
  pub eval_remote :
      {A : Type 0}
      → (m : Exec Server A) (a : A) (t t' : Server) → m t ≡ (ok a, t')
      → eval redis m t ≡ (ok a, t')
  eval_remote m a t t' e = rw (law.send_lem t, e, law.receive_lem t')
