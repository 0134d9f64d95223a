-- ===== src/Lib.antt =====
-- The Ouros authentication service (app/), as a model of what its parts decide and store.
--
-- A method that changes an object is a function `Exec S A` from a state to a result, which is a
-- value or a raised exception, and the state after it (Py/Exec.antt): what was written before a
-- raise stays written. Python's texts, dictionaries, integers and JSON values are in Py/; `lower`
-- maps the letters of ASCII and Latin-1.
--
-- Redis.antt is the Redis client as a record of commands, and Redis/Laws.antt what a server that
-- can be reached does with keys and with counters; its keys do not expire. The Lua script's cjson,
-- which may write numbers otherwise than it read them, is a part of that record. The other code
-- that is not in the repository is a parameter too: HMAC, SHA-256, bcrypt's `checkpw`, PyJWT's
-- `encode` and `decode`, the HTTP calls to Keycloak and to the Spring service, smtplib with the
-- end of its `with` block, the order in which the event loop ends tasks, asyncpg, dotenv and the
-- Infisical client, PostgreSQL's `lower`, and the routing of FastAPI.
--
-- Which file models what:
--   RateLimit.antt        app/core/rate_limit.py, `RateLimiter`; RateLimit/Memory.antt the counters
--                         in memory. Times are whole ticks of a billionth of a second,
--                         where the source has floats.
--   EmailOtp.antt         app/services/email_otp.py, `EmailOtpService`: Store (`_save`, `_load`,
--                         `_delete`), Login (`start`, `verify`), Reset (`start_password_reset`,
--                         `verify_password_reset` and its Lua script), Mail (the emails and the
--                         SMTP dialogue), Close (`close`).
--   PasswordReset.antt    app/services/password_reset_service.py; Confirm has `confirm_reset` and
--                         the blacklist of tokens, Race the calls of `confirm_reset` that overlap.
--                         The HTTP client is made for each call.
--   Identity.antt         app/models/identity.py and app/repositories/identity_repository.py, with
--                         the SQL over lists of rows.
--   Credentials.antt      app/core/security.py and app/services/auth_service.py.
--   Broker.antt           app/services/keycloak_token_broker.py.
--   ServiceAuth.antt      app/core/service_auth.py and app/api/internal_routes.py.
--   Config.antt           app/core/config.py.
--   Web.antt              app/api/routes.py, over records of the services' operations.
--   Application.antt      the services behind those operations, as app/main.py wires them; its
--                         middlewares and handlers around the routes (Middleware), the services of
--                         the password reset routes (Reset), and the end of its lifespan.
--   Database.antt         app/core/database.py; Connect has calls of `connect` that overlap.
--   Secrets.antt          app/core/infisical.py.
--   Password.antt         the validators of app/schemas/auth.py, and Schemas.antt its requests.
--   Metrics.antt          app/core/metrics.py.
--   Errors.antt           the exception handlers of app/main.py.
--   Tests.antt            runs on concrete inputs.
--
-- Every loop is over a list or a text, but for the digits of a number (`digits_of` in
-- EmailOtp/Mail.antt), which has a round more than the number says (EmailOtp/Mail/Digits.antt). The
-- calls that overlap are sequences of turns (PasswordReset/Race.antt, Database/Connect.antt).
--
-- Not modelled: CORS and the routing of FastAPI, the getters of `application.state`, the bodies of
-- `/health` and `/metrics`, the bounds that pydantic puts on settings and on answers, logging, and
-- the locks and timeouts of single commands: a service handles one request at a time, except in
-- EmailOtp/Login/Race.antt, PasswordReset/Race.antt and Database/Connect.antt, where calls overlap.
-- The second of these is of a service with an open Redis client, which takes no lock.
pub mod Prelude
pub mod Py
pub mod Redis
pub mod RateLimit
pub mod EmailOtp
pub mod Identity
pub mod Credentials
pub mod Broker
pub mod Errors
pub mod Metrics
pub mod Password
pub mod PasswordReset
pub mod ServiceAuth
pub mod Secrets
pub mod Database
pub mod Schemas
pub mod Config
pub mod Web
pub mod Tests
pub mod Application
