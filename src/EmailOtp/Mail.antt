-- ===== src/EmailOtp/Mail.antt =====
-- The emails of app/services/email_otp.py: `_build_email_message`, and `_dispatch_email` as the
-- commands that it gives to smtplib. The SMTP connection (smtplib), `formataddr` and the bytes of
-- the logo are parameters.
pub mod Html
pub mod Secured
pub mod Digits
use ms_auth_service.Prelude.{
  ℕ, zero, suc, ◌/◌, String, Bool, true, false, not, ◌||◌, Option, none, some, ◌==◌, eqb, max,
  if◌then◌else◌, is_some,
}
use ms_auth_service.Py.Str.{◌++◌}
use ms_auth_service.Py.Exec.{Exn, Result, Exec, pure, throw, lift, raise_if, finally, ◌>>=◌, ◌>>◌}
use ms_auth_service.EmailOtp.{is_blank, digit}
use ms_auth_service.EmailOtp.Mail.Html.{Texts, html_body}

-- What `__init__` takes from the settings for sending.
pub record Mailer : Type 0 where
  pub ttl_seconds : ℕ
  pub smtp_host : Option String
  pub smtp_port : ℕ
  pub smtp_from : String
  pub smtp_from_display_name : String
  pub smtp_auth : Bool
  pub smtp_starttls : Bool
  pub smtp_ssl : Bool
  pub smtp_user : Option String
  pub smtp_password : Option String
  pub smtp_timeout_seconds : ℕ

-- The message, with the logo inline in its HTML part.
pub record EmailMessage (Bytes : Type 0) : Type 0 where
  pub subject : String
  pub from_header : String
  pub to : String
  pub text : String
  pub html : String
  pub logo : Bytes

pub data Purpose : Type 0 where
  login password_reset : Purpose

-- The digits of a number, with as many rounds as it may have digits or more.
unfoldable pub digits_of : ℕ → ℕ → String → String
digits_of zero n rest = rest
digits_of (suc rounds) n rest = elim (eqb (n / 10) 0) [
  | true ↦ digit n ++ rest
  | false ↦ digits_of rounds (n / 10) (digit n ++ rest)
]

-- `f"{n}"`
unfoldable pub str_of : ℕ → String
unfolding digits_of
str_of n = digits_of (suc n) n ""

-- `ttl_minutes`
abbrev pub ttl_minutes : Mailer → ℕ
ttl_minutes m = max (m.ttl_seconds / 60) 1

abbrev pub texts : Purpose → Texts
texts Purpose.password_reset = record {
  badge = "Recuperação de Senha";
  title = "Redefina sua senha";
  desc =
      "Recebemos uma solicitação para redefinir a senha da sua conta Ouros. Use o código de 6 dígitos abaixo para continuar.";
  code_label = "Código de verificação";
  footer = "segurança de acesso";
  note =
      "Nunca compartilhe este código. Se você não solicitou a redefinição de senha da sua conta Ouros, pode ignorar esta mensagem com total segurança. Sua senha atual permanecerá inalterada.";
}
texts Purpose.login = record {
  badge = "Segurança de acesso";
  title = "Confirme que é você";
  desc = "Use o código abaixo para concluir seu acesso ao Ouros.";
  code_label = "Seu código";
  footer = "acesso protegido";
  note =
      "Nunca compartilhe este código. Se você não tentou entrar no Ouros, pode ignorar esta mensagem com segurança.";
}

abbrev pub subject_of : Purpose → String → String
subject_of Purpose.password_reset code = code ++ " é seu código de recuperação de senha Ouros"
subject_of Purpose.login code = code ++ " é seu código de acesso Ouros"

unfoldable pub text_body : Purpose → (code minutes : String) → String
text_body Purpose.password_reset code minutes =
    "Seu código para recuperação de senha no Ouros é:\n\n"
    ++ (code
        ++ ("\n\nEle expira em "
            ++ (minutes
                ++ " minuto(s).\n\nNunca compartilhe este código. Se você não solicitou a redefinição de senha da sua conta Ouros, desconsidere este e-mail. Sua senha atual permanecerá inalterada.")))
text_body Purpose.login code minutes =
    "Seu código de acesso Ouros é:\n\n"
    ++ (code
        ++ ("\n\nEle expira em "
            ++ (minutes
                ++ " minuto(s).\nNunca compartilhe este código. Se você não tentou entrar, ignore esta mensagem.")))

-- The calls on smtplib: the connection by `SMTP_SSL` or by `SMTP`, its methods, and its
-- `__exit__` at the end of the `with` block. That one sends QUIT; smtplib lets it end well too when
-- the server has gone by then, and has it raise when the server answers otherwise than with 221.
pub data Command (Bytes : Type 0) : Type 0 where
  connect : (tls : Bool) → (host : String) → (port timeout : ℕ) → Command Bytes
  ehlo starttls leave : Command Bytes
  login : (user password : String) → Command Bytes
  send_message : EmailMessage Bytes → Command Bytes

module _ {Bytes : Type 0} (formataddr : String → String → String) (logo : Bytes) where
  -- `_build_email_message`
  unfoldable pub build_email_message :
      Mailer → (recipient code : String) → Purpose → EmailMessage Bytes
  unfolding text_body str_of html_body
  build_email_message m recipient code purpose =
      let minutes = str_of (ttl_minutes m) in
      record {
        subject = subject_of purpose code;
        from_header = formataddr m.smtp_from_display_name m.smtp_from;
        to = recipient;
        text = text_body purpose code minutes;
        html = html_body (texts purpose) code minutes;
        logo = logo;
      }

abbrev pub text_or_empty : Option String → String
text_or_empty none = ""
text_or_empty (some s) = s

module _ {S Bytes : Type 0} (smtp : Command Bytes → Exec S (Unit {0})) where
  -- The greeting, in TLS when `starttls` is set.
  unfoldable pub greet : Mailer → Exec S (Unit {0})
  greet m s =
      if m.smtp_ssl
      then pure tt s
      else if m.smtp_starttls
      then (do smtp Command.ehlo; smtp Command.starttls; smtp Command.ehlo) s
      else smtp Command.ehlo s

  -- The login, when `smtp_auth` is set.
  unfoldable pub log_in : Mailer → Exec S (Unit {0})
  log_in m s =
      if m.smtp_auth
      then (do
        raise_if (is_blank m.smtp_user || not (is_some m.smtp_password))
            (Exn.email_otp_unavailable "SMTP credentials are not configured")
        smtp (Command.login (text_or_empty m.smtp_user) (text_or_empty m.smtp_password)))
          s
      else pure tt s

  -- `_dispatch_email`
  unfoldable pub dispatch_email : Mailer → EmailMessage Bytes → Exec S (Unit {0})
  unfolding greet log_in
  dispatch_email m message = do
    raise_if (is_blank m.smtp_host) (Exn.email_otp_unavailable "SMTP host is not configured")
    smtp (Command.connect m.smtp_ssl (text_or_empty m.smtp_host) m.smtp_port m.smtp_timeout_seconds)
    finally (do greet m; log_in m; smtp (Command.send_message message)) (smtp Command.leave)

  -- `_send_email` and `_send_password_reset_email`
  unfoldable pub send_email :
      (String → String → String)
      → Bytes
      → Mailer
      → Purpose
      → (recipient code : String) → Exec S (Unit {0})
  unfolding dispatch_email build_email_message
  send_email formataddr logo m purpose recipient code =
      dispatch_email m (build_email_message formataddr logo m recipient code purpose)
