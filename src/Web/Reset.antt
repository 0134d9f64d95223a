-- ===== src/Web/Reset.antt =====
-- The password reset routes of app/api/routes.py, over the operations that they call.
use ms_auth_service.Prelude.{ℕ, String, Option}
use ms_auth_service.Py.Exec.{Exec, pure, ◌>>◌}
use ms_auth_service.Identity.{AccountType}
use ms_auth_service.PasswordReset.{StartResponse}
use ms_auth_service.Web.{Request}

-- `PasswordResetService` and the limiter, as the routes call them.
pub record ResetOperations (App : Type 0) : Type 0 where
  pub check_password_reset_attempt : Option String → String → Exec App (Unit {0})
  pub start_reset : String → Option AccountType → Exec App StartResponse
  pub verify_code : (challenge_id email code : String) → Exec App (String × ℕ)
  pub confirm_reset : (reset_token new_password : String) → Exec App (Unit {0})

module _ {App : Type 0} (op : ResetOperations App) where
  -- `start_password_reset`
  unfoldable pub start_password_reset :
      Request → String → Option AccountType → Exec App StartResponse
  start_password_reset request email account_type = do
    op.check_password_reset_attempt request.client email
    op.start_reset email account_type

  -- `verify_password_reset`
  unfoldable pub verify_password_reset : (challenge_id email code : String) → Exec App (String × ℕ)
  verify_password_reset challenge_id email code = op.verify_code challenge_id email code

  -- `confirm_password_reset`, with the message of its answer.
  unfoldable pub confirm_password_reset : (reset_token new_password : String) → Exec App String
  confirm_password_reset reset_token new_password = do
    op.confirm_reset reset_token new_password
    pure "Senha redefinida com sucesso."
