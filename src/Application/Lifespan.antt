-- ===== src/Application/Lifespan.antt =====
-- The end of `lifespan` in app/main.py: the services are closed one after the other, and a service
-- whose `close` raises keeps those behind it open.
use ms_auth_service.Prelude.{String, List}
use ms_auth_service.Py.Exec.{Result, Exec, on, ◌>>◌}
use ms_auth_service.Redis.{Redis}
use ms_auth_service.RateLimit.{Limiter}
use ms_auth_service.RateLimit
use ms_auth_service.EmailOtp.{Otp, Delivery}
use ms_auth_service.EmailOtp.Close
use ms_auth_service.PasswordReset.{Service}
use ms_auth_service.PasswordReset.Confirm
use ms_auth_service.Database.{Database, Asyncpg}
use ms_auth_service.Database

-- The services of `AppDependencies` that are closed.
pub record Services (Server Spring Postgres : Type 0) : Type 0 where
  pub password_reset_service : Service Server Spring
  pub email_otp_service : Otp Server
  pub rate_limiter : Limiter Server
  pub database : Database Postgres

module _ {Server Spring Postgres : Type 0} (redis : Redis Server) (hmac : String → String → String)
    (asyncpg : Asyncpg Postgres) (send : String → String → Result (Unit {0}))
    (in_order : List Delivery → List Delivery) where
  -- The `finally` of `lifespan`.
  unfoldable pub shutdown : Exec (Services Server Spring Postgres) (Unit {0})
  shutdown = do
    on (λ s. s.password_reset_service) (λ t s. record s { password_reset_service = t })
        Confirm.close
    on (λ s. s.email_otp_service) (λ t s. record s { email_otp_service = t })
        (Close.close redis hmac send in_order)
    on (λ s. s.rate_limiter) (λ t s. record s { rate_limiter = t }) (RateLimit.close redis)
    on (λ s. s.database) (λ t s. record s { database = t }) (Database.close asyncpg)
