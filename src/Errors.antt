-- ===== src/Errors.antt =====
-- The exception handlers of app/main.py: the status and the detail of the answer for each exception
-- that a request ends with, and the header `Retry-After`.
use ms_auth_service.Prelude.{ℕ, String, Option, none, some, ◌==◌, if◌then◌else◌}
use ms_auth_service.Py.Exec.{Exn}

pub record JsonResponse : Type 0 where
  pub status_code : ℕ
  pub detail : String
  pub retry_after : Option ℕ

abbrev pub plain : ℕ → String → JsonResponse
plain n d = record { status_code = n; detail = d; retry_after = none }

-- The handlers that `create_app` declares, and FastAPI's own for `HTTPException`: `none` where there
-- is no handler, so that the exception goes on to the middlewares.
unfoldable pub handler : Exn → Option JsonResponse
handler (Exn.broker_unavailable _) = some (plain 503 "Autenticação temporariamente indisponível.")
handler Exn.email_otp_invalid = some (plain 401 "Código inválido ou expirado.")
handler (Exn.email_otp_unavailable _) =
    some (plain 503 "Verificação por e-mail temporariamente indisponível.")
handler Exn.invalid_credentials = some (plain 401 "Credenciais inválidas.")
handler Exn.ambiguous_identity =
    some (plain 409 "As credenciais correspondem a mais de uma conta. Informe account_type.")
handler (Exn.rate_limit_exceeded n) = some (record {
  status_code = 429;
  detail = "Muitas tentativas. Tente novamente mais tarde.";
  retry_after = some n;
})
handler Exn.reset_otp_invalid = some (plain 400 "Código inválido, incorreto ou expirado.")
handler Exn.reset_otp_attempts_exceeded =
    some (plain 429 "Número máximo de tentativas de digitação do código excedido.")
handler (Exn.reset_token_invalid d) =
    some (plain 400 (if d == "" then "Token de recuperação inválido ou expirado." else d))
handler (Exn.reset_spring_error d n) = some (plain n d)
handler (Exn.reset_unavailable _) =
    some (plain 503 "Serviço de recuperação de senha temporariamente indisponível.")
handler (Exn.http_exception n d) = some (plain n d)
handler _ = none
