-- ===== src/Redis/Laws.antt =====
-- A Redis server that can be reached, as its documentation describes the commands: `get` reads
-- what the last `set` of the key wrote, `delete` takes it away, and no command touches another key.
-- Keys may also expire; this states the laws for the time in which none does.
use ms_auth_service.Prelude.{
  ℕ, suc, ◌<◌, String, ◌≡◌, Option, none, some, ◌==◌, if◌then◌else◌, true, false,
}
use ms_auth_service.Py.Exec.{ok}
use ms_auth_service.Py.Int.{ℤ, pos}
use ms_auth_service.Py.Value.{Value}
use ms_auth_service.Redis.{Redis, Raw}

-- The value "1" that `SET key "1" NX` stores.
abbrev pub flag : Raw
flag = Raw.json (Value.int (pos 1))

pub record IsReachable {Server : Type 0} (redis : Redis Server) : Type 0 where
  pub contents : Server → String → Option Raw
  pub ping_lem : (t : Server) → redis.ping t ≡ (ok tt, t)
  pub send_lem : (t : Server) → redis.send t ≡ (ok tt, t)
  pub receive_lem : (t : Server) → redis.receive t ≡ (ok tt, t)
  pub get_lem : (k : String) (t : Server) → redis.get k t ≡ (ok (contents t k), t)
  pub set_lem :
      (k : String) (v : Raw) (ttl : ℕ) (t : Server)
      → (t' : Server) × (redis.set k v ttl t ≡ (ok tt, t'))
        × ((j : String) → contents t' j ≡ (if k == j then some v else contents t j))
  pub set_keepttl_lem :
      (k : String) (v : Raw) (t : Server)
      → (t' : Server) × (redis.set_keepttl k v t ≡ (ok tt, t'))
        × ((j : String) → contents t' j ≡ (if k == j then some v else contents t j))
  pub delete_lem :
      (k : String) (t : Server)
      → (t' : Server) × (redis.delete k t ≡ (ok tt, t'))
        × ((j : String) → contents t' j ≡ (if k == j then none else contents t j))
  pub set_nx_free :
      (k : String) (ttl : ℕ) (t : Server)
      → contents t k ≡ none
      → (t' : Server) × (redis.set_nx k ttl t ≡ (ok true, t'))
        × ((j : String) → contents t' j ≡ (if k == j then some flag else contents t j))
  pub set_nx_taken :
      (k : String) (ttl : ℕ) (t : Server) (v : Raw)
      → contents t k ≡ some v
      → redis.set_nx k ttl t ≡ (ok false, t)

-- The counters of a server that can be reached, for the time in which none expires: `incr` adds one
-- to a key, and starts at one where there is none; `expire` with a time to come changes no counter.
pub record IsCounting {Server : Type 0} (redis : Redis Server) : Type 0 where
  pub counts : Server → String → ℕ
  pub send_lem : (t : Server) → redis.send t ≡ (ok tt, t)
  pub receive_lem : (t : Server) → redis.receive t ≡ (ok tt, t)
  pub incr_lem :
      (k : String) (t : Server)
      → (t' : Server) × (redis.incr k t ≡ (ok (suc (counts t k)), t'))
        × ((j : String) → counts t' j ≡ (if k == j then suc (counts t j) else counts t j))
  pub expire_lem :
      (k : String) (n : ℕ) (t : Server)
      → 0 < n
      → (t' : Server) × (redis.expire k n t ≡ (ok tt, t'))
        × ((j : String) → counts t' j ≡ counts t j)
  pub ttl_lem : (k : String) (t : Server) → (n : ℤ) × (redis.ttl k t ≡ (ok n, t))
