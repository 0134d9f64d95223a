-- ===== src/PasswordReset/Journey.antt =====
-- `start_reset`, `verify_code` and `confirm_reset` of app/services/password_reset_service.py one
-- after the other, with the challenges and the blacklist in Redis.
pub mod Start
pub mod Confirm
