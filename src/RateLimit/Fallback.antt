-- ===== src/RateLimit/Fallback.antt =====
-- A limiter with no Redis to count for it: none is configured, or its `ping` fails.
use ms_auth_service.Prelude.{ℕ, String, ◌≡◌, true, false, none, ◌⊎◌, inl, inr, Option-cases, arith}
use ms_auth_service.Py.Exec.{Exn, ok, raise, is_redis_failure}
use ms_auth_service.Redis.{Redis}
use ms_auth_service.RateLimit.{Limiter, connect, try_connect, increment_redis, fall_back, increment}
use ms_auth_service.RateLimit.Memory.{increment_memory}

module _ {Server : Type 0} (redis : Redis Server) where
  -- `ping` fails, now and whenever it is tried again.
  abbrev pub IsDown : Type 0
  IsDown = (t : Server) → (e : Exn) × ((redis.ping t).0 ≡ raise e) × (is_redis_failure e ≡ true)

  -- There is no client, and none can be had.
  pub record IsIsolated (s : Limiter Server) : Type 0 where
    pub unconnected : s.connected ≡ false
    pub no_server : (s.redis_url ≡ none) ⊎ IsDown

  -- Whatever `ping` wrote on the server, the rest of the limiter is as it was.
  try_connect_isolated :
      (s : Limiter Server)
      → IsIsolated s
      → (t : Server) × (try_connect redis s ≡ (ok tt, record s { server = t }))
  unfolding try_connect connect
  try_connect_isolated s h = elim (Option-cases s.redis_url) [
    | inl e ↦ (s.server, ground arith)
    | inr (u, e) ↦ (
      (redis.ping s.server).1,
      elim h.no_server [ inl e' ↦ cc (e, e') | inr down ↦ ground (arith, down s.server) ],
    )
  ]

  -- Without Redis an increment is the fallback's, on the memory alone, and never raises.
  pub increment_isolated :
      (key : String) (window_seconds now : ℕ) (s : Limiter Server)
      → IsIsolated s
      → let (r, m) = increment_memory key window_seconds now s.memory in
        (t : Server) × (increment redis key window_seconds now s
          ≡ (ok r, record s { memory = m; server = t }))
  unfolding increment increment_redis fall_back
  increment_isolated key w now s h = let (t, e) = try_connect_isolated s h in (t, ground (arith, e))
