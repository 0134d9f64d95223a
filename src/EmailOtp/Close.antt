-- ===== src/EmailOtp/Close.antt =====
-- `close` of `EmailOtpService` (app/services/email_otp.py).
use ms_auth_service.Prelude.{String, List, [], ◌∷◌}
use ms_auth_service.Py.Exec.{Result, Exec, pure, gets, modify, ◌>>=◌, ◌>>◌}
use ms_auth_service.Redis.{Redis}
use ms_auth_service.EmailOtp.{Otp, Delivery, close_redis}
use ms_auth_service.EmailOtp.Reset.{deliver_password_reset_email}

module _ {Server : Type 0} (redis : Redis Server) (hmac : String → String → String)
    (send : String → String → Result (Unit {0})) (in_order : List Delivery → List Delivery) where
  -- `asyncio.gather(*self._delivery_tasks)` with the tasks in the order in which they end, each of
  -- which leaves `_delivery_tasks` then. The first exception in time is raised again at once: the
  -- tasks that have not ended by then are not waited for, and stay in `_delivery_tasks`.
  unfoldable pub gather : List Delivery → Exec (Otp Server) (Unit {0})
  unfolding deliver_password_reset_email
  gather [] = pure tt
  gather (d ∷ tasks) = do
    modify (λ s. record s { delivery_tasks = tasks })
    deliver_password_reset_email redis hmac send d
    gather tasks

  -- `close`; `in_order` is the order in which the event loop ends the tasks.
  unfoldable pub close : Exec (Otp Server) (Unit {0})
  unfolding gather close_redis
  close = do tasks ← gets (λ s. s.delivery_tasks); gather (in_order tasks); close_redis
