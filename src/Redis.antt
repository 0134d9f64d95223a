-- ===== src/Redis.antt =====
-- The Redis client (redis.asyncio, not under the repository): each command acts on the server's
-- state, and answers or raises. A script goes to the server by `send`, its `redis.call`s run
-- there, and its answer comes back by `receive`: either may raise while the server works on.
pub mod Laws
use ms_auth_service.Prelude.{ℕ, String, Bool, Option}
use ms_auth_service.Py.Int.{ℤ}
use ms_auth_service.Py.Dict.{Dict}
use ms_auth_service.Py.Value.{Value}
use ms_auth_service.Py.Exec.{Exec, pure, ◌>>=◌, ◌>>◌}

-- What is stored under a key, read as JSON: the value that it decodes to, or no JSON at all.
pub data Raw : Type 0 where
  json : Value → Raw
  malformed : Raw

pub record Redis (Server : Type 0) : Type 0 where
  pub ping : Exec Server (Unit {0})
  pub send : Exec Server (Unit {0})
  pub receive : Exec Server (Unit {0})
  pub get : String → Exec Server (Option Raw)
  -- SET key value EX seconds
  pub set : String → Raw → ℕ → Exec Server (Unit {0})
  -- SET key value KEEPTTL
  pub set_keepttl : String → Raw → Exec Server (Unit {0})
  -- SET key "1" NX EX seconds
  pub set_nx : String → ℕ → Exec Server Bool
  pub delete : String → Exec Server (Unit {0})
  pub incr : String → Exec Server ℕ
  pub expire : String → ℕ → Exec Server (Unit {0})
  pub ttl : String → Exec Server ℤ
  -- The server's Lua library: the fields of the table that `cjson.decode` makes of a text, in the
  -- text's order, when it makes a table; and the text that `cjson.encode` writes of them.
  pub cjson_decode : Raw → Option (Dict Value)
  pub cjson_encode : Dict Value → Raw

-- `client.eval(script, …)`
abbrev pub eval : {Server A : Type 0} → Redis Server → Exec Server A → Exec Server A
eval r script = do r.send; a ← script; r.receive; pure a
