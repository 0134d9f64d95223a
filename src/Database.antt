-- ===== src/Database.antt =====
-- app/core/database.py: `Database`, over the connections of asyncpg, which is a parameter. `S` is the
-- state of PostgreSQL and of asyncpg's pool.
pub mod Connect
use ms_auth_service.Prelude.{
  ℕ, String, Bool, true, false, not, Option, none, some, ◌==◌, if◌then◌else◌, eqb,
}
use ms_auth_service.Py.Exec.{
  Exn, Result, ok, Exec, pure, throw, gets, modify, try, on, raise_if, ◌>>=◌, ◌>>◌,
}

-- `Database`; `pooled` says whether `_pool` is a pool.
pub record Database (S : Type 0) : Type 0 where
  pub database_url : Option String
  pub pooled : Bool
  pub server : S

-- What of asyncpg the class uses: the making of a pool whose connections run a command first, its
-- end, and the value of a query in a transaction on one of its connections.
pub record Asyncpg (S : Type 0) : Type 0 where
  pub create_pool : (init : String) → Exec S (Unit {0})
  pub close : Exec S (Unit {0})
  pub fetchval : (readonly : Bool) → (query : String) → Exec S ℕ

abbrev pub is_configured : Option String → Bool
is_configured none = false
is_configured (some url) = not (url == "")

-- `except (asyncpg.PostgresError, OSError, RuntimeError, ValueError)`
abbrev pub is_database_failure : Exn → Bool
is_database_failure Exn.postgres_error = true
is_database_failure Exn.os_error = true
is_database_failure Exn.runtime_error = true
is_database_failure Exn.value_error = true
is_database_failure _ = false

module _ {S : Type 0} (asyncpg : Asyncpg S) where
  abbrev on_server : {A : Type 0} → Exec S A → Exec (Database S) A
  on_server = on (λ d. d.server) (λ t d. record d { server = t })

  -- `connect`, when no other call holds the lock.
  unfoldable pub connect : Exec (Database S) (Unit {0})
  connect d =
      if d.pooled
      then (ok tt, d)
      else (do
        raise_if (not (is_configured d.database_url)) Exn.runtime_error
        on_server (asyncpg.create_pool "SET default_transaction_read_only = on")
        modify (λ e. record e { pooled = true }))
          d

  -- `close`
  unfoldable pub close : Exec (Database S) (Unit {0})
  close d =
      if d.pooled
      then (on_server asyncpg.close >>= λ _. modify (λ e. record e { pooled = false })) d
      else (ok tt, d)

  -- `connection`, around a body that is given the kind of its transaction.
  unfoldable pub connection : {A : Type 0} → ((readonly : Bool) → Exec S A) → Exec (Database S) A
  unfolding connect
  connection body = do
    connect
    ready ← gets (λ d. d.pooled)
    raise_if (not ready) Exn.runtime_error
    on_server (body true)

  -- `ping`
  unfoldable pub ping : Exec (Database S) Bool
  unfolding connection
  ping =
      try (connection (λ readonly. asyncpg.fetchval readonly "SELECT 1") >>= λ n. pure (eqb n 1))
        (λ e. if is_database_failure e then pure false else throw e)
