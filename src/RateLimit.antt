-- ===== src/RateLimit.antt =====
-- app/core/rate_limit.py: `RateLimiter`, with its counters in Redis or, without Redis and when a
-- command fails, in memory. `monotonic()` is read in ticks of 1 / `ticks` second, so a number of
-- seconds is multiplied by `ticks`, and `int(...)` of a time is a division by it. The class serves
-- one request at a time here, so that the locks are always free.
pub mod Memory
pub mod Check
pub mod Consume
pub mod Fallback
pub mod Attempts
pub mod Remote
use ms_auth_service.Prelude.{
  ℕ, zero, suc, ◌+◌, ◌*◌, String, Bool, true, false, not, ◌&&◌, ◌||◌, Option, none, some, List, [],
  ◌∷◌, ltb, eqb, if◌then◌else◌, is_some, max,
}
use ms_auth_service.Py.Int.{ℤ, pos, negsuc}
use ms_auth_service.Py.Str.{◌++◌, normalize_email}
use ms_auth_service.Py.Exec.{
  Exn, Result, ok, raise, Exec, pure, throw, gets, modify, try, on, raise_if, is_redis_failure,
  raise_rate_limit, ◌>>=◌, ◌>>◌,
}
use ms_auth_service.Redis.{Redis, eval}
use ms_auth_service.RateLimit.Memory.{MemoryCounters, Increment, increment_memory}

-- The values of `RateLimitRule.dimension`.
pub data Dimension : Type 0 where
  ip email : Dimension

-- `RateLimitRule`
pub record Rule : Type 0 where
  pub name : String
  pub limit : ℕ
  pub window_seconds : ℕ
  pub dimension : Dimension

-- The settings that the limiter reads.
pub record Limits : Type 0 where
  pub ip_burst : ℕ
  pub ip_burst_window_seconds : ℕ
  pub ip_per_minute : ℕ
  pub ip_per_15_minutes : ℕ
  pub email_per_15_minutes : ℕ

-- `self._rules` of `__init__`
unfoldable pub credential_rules : Limits → List Rule
credential_rules l =
    record {
      name = "ip-burst";
      limit = l.ip_burst;
      window_seconds = l.ip_burst_window_seconds;
      dimension = ip;
    }
    ∷ record { name = "ip-minute"; limit = l.ip_per_minute; window_seconds = 60; dimension = ip }
    ∷ record {
      name = "ip-fifteen-minutes";
      limit = l.ip_per_15_minutes;
      window_seconds = 15 * 60;
      dimension = ip;
    }
    ∷ record {
      name = "email-fifteen-minutes";
      limit = l.email_per_15_minutes;
      window_seconds = 15 * 60;
      dimension = email;
    }
    ∷ []

-- `rules` of `check_password_reset_attempt`
unfoldable pub password_reset_rules : List Rule
password_reset_rules =
    record { name = "password-reset-ip-minute"; limit = 3; window_seconds = 60; dimension = ip }
    ∷ record {
      name = "password-reset-email-15min";
      limit = 5;
      window_seconds = 15 * 60;
      dimension = email;
    }
    ∷ []

-- `RateLimiter`; `connected` says whether `_redis` is a client.
pub record Limiter (Server : Type 0) : Type 0 where
  pub redis_url : Option String
  pub connected : Bool
  pub memory : MemoryCounters
  pub limits : Limits
  pub server : Server

-- `_client_ip`: the peer's host, if the request has a peer.
unfoldable pub client_ip : Option String → String
client_ip none = "unknown"
client_ip (some host) = host

-- `max(int(result[1]), 1)`
unfoldable pub at_least_one : ℤ → ℕ
at_least_one (pos n) = max n 1
at_least_one (negsuc _) = 1

-- The digests of the request, and the key of a rule's counter.
pub record Digests : Type 0 where
  pub ip : String
  pub email : String

unfoldable pub digest_of : Digests → Dimension → String
digest_of d ip = d.ip
digest_of d email = d.email

unfoldable pub rule_key : Digests → Rule → String
unfolding digest_of
rule_key d rule = "ouros:auth:rate-limit:" ++ (rule.name ++ (":" ++ digest_of d rule.dimension))

unfoldable pub digests : (String → String) → Option String → String → Digests
unfolding client_ip normalize_email
digests sha256 client addr = record {
  ip = sha256 (client_ip client);
  email = sha256 (normalize_email addr);
}

-- What the loop does with one rule's counter.
unfoldable pub worst : Rule → Increment → ℕ → ℕ
worst rule r longest = if ltb rule.limit r.count then max longest r.retry_after else longest

module _ {Server : Type 0} (redis : Redis Server) where
  abbrev pub on_server : {A : Type 0} → Exec Server A → Exec (Limiter Server) A
  on_server = on (λ s. s.server) (λ t s. record s { server = t })

  abbrev pub set_connected : Bool → Exec (Limiter Server) (Unit {0})
  set_connected b = modify (λ s. record s { connected = b })

  -- `_REDIS_SCRIPT`
  unfoldable pub counter_script : String → ℕ → Exec Server (ℕ × ℤ)
  counter_script key window = do
    current ← redis.incr key
    (if eqb current 1 then redis.expire key window else pure tt)
    ttl ← redis.ttl key
    pure (current, ttl)

  -- `connect`: a failed `ping` leaves no client.
  unfoldable pub connect : Exec (Limiter Server) (Unit {0})
  connect s =
      if not (is_some s.redis_url) || s.connected
      then (ok tt, s)
      else (on_server redis.ping >>= λ _. set_connected true) s

  -- `close`
  unfoldable pub close : Exec (Limiter Server) (Unit {0})
  close = set_connected false

  -- `except (RedisError, OSError): return answer`
  abbrev or_else : {A : Type 0} → Exec (Limiter Server) A → Exn → Exec (Limiter Server) A
  or_else m e = if is_redis_failure e then m else throw e

  -- `ping`
  unfoldable pub ping : Exec (Limiter Server) Bool
  unfolding connect
  ping s =
      if not (is_some s.redis_url)
      then (ok true, s)
      else try
          (do
            connect
            alive ← gets (λ t. t.connected)
            (if alive then (on_server redis.ping >>= λ _. pure true) else pure false))
          (or_else (pure false)) s

  -- The client of `_increment`: a failed `connect` is passed over.
  unfoldable pub try_connect : Exec (Limiter Server) (Unit {0})
  unfolding connect
  try_connect = try connect (or_else (pure tt))

  -- The attempt at Redis in `_increment`: `none` where the counter must come from memory.
  unfoldable pub increment_redis : String → ℕ → Exec (Limiter Server) (Option Increment)
  unfolding counter_script close at_least_one
  increment_redis key window s =
      if s.connected
      then try
          (do
            (current, ttl) ← on_server (eval redis (counter_script key window))
            pure (some (record { count = current; retry_after = at_least_one ttl })))
          (or_else (close >> pure none)) s
      else (ok none, s)

  -- The fallback, on the limiter's memory.
  unfoldable pub fall_back : String → ℕ → ℕ → Option Increment → Exec (Limiter Server) Increment
  fall_back key window now (some r) s = (ok r, s)
  fall_back key window now none s =
      let (r, m) = increment_memory key window now s.memory in (ok r, record s { memory = m })

  -- `_increment`, with `now = monotonic()`
  unfoldable pub increment : String → ℕ → ℕ → Exec (Limiter Server) Increment
  increment key window now = do
    try_connect
    found ← increment_redis key window
    fall_back key window now found

  -- The loop over the rules; `clock i` is what `monotonic()` reads in its i-th round.
  unfoldable pub consume : Digests → (ℕ → ℕ) → ℕ → List Rule → ℕ → Exec (Limiter Server) ℕ
  consume d clock i [] longest = pure longest
  consume d clock i (rule ∷ rules) longest = do
    r ← increment (rule_key d rule) rule.window_seconds (clock i)
    consume d clock (suc i) rules (worst rule r longest)

  -- The loop, and the raise after it.
  unfoldable pub check_rules : Digests → (ℕ → ℕ) → List Rule → Exec (Limiter Server) (Unit {0})
  check_rules d clock rules = do
    longest ← consume d clock 0 rules 0
    raise_if (ltb 0 longest) (raise_rate_limit longest)

  module _ (sha256 : String → String) where
    -- `check_credentials_attempt`
    unfoldable pub check_credentials_attempt :
        (ℕ → ℕ) → Option String → String → Exec (Limiter Server) (Unit {0})
    check_credentials_attempt clock client addr = do
      limits ← gets (λ s. s.limits)
      check_rules (digests sha256 client addr) clock (credential_rules limits)

    -- `check_password_reset_attempt`
    unfoldable pub check_password_reset_attempt :
        (ℕ → ℕ) → Option String → String → Exec (Limiter Server) (Unit {0})
    check_password_reset_attempt clock client addr =
        check_rules (digests sha256 client addr) clock password_reset_rules
