-- ===== src/EmailOtp/Mail/Secured.antt =====
-- What `_dispatch_email` of app/services/email_otp.py gives away, and when: the log of its commands
-- with a mail server that answers as it likes.
use ms_auth_service.Prelude.{
  String, ◌≡◌, refl, ap, inl, inr, Bool, true, false, not, ◌&&◌, ◌||◌, List, [], ◌∷◌, arith,
  Bool-cases,
}
use ms_auth_service.Py.Exec.{Exec-cases, Result-cases, Result, ok, raise, Exec, finally, ◌>>◌}
use ms_auth_service.EmailOtp.{is_blank}
use ms_auth_service.EmailOtp.Mail.{
  Mailer, EmailMessage, Purpose, Command, build_email_message, greet, log_in, dispatch_email,
  send_email, text_or_empty,
}

-- The commands so far and whether each raised nothing, the last one first.
abbrev pub Log : Type 0 → Type 0
Log Bytes = List (Command Bytes × Bool)

abbrev accepted : Result (Unit {0}) → Bool
accepted (ok _) = true
accepted (raise _) = false

-- A mail server: its answer to a command may depend on all that went before.
abbrev pub recorded :
    {Bytes : Type 0}
    → (Log Bytes → Command Bytes → Result (Unit {0}))
    → Command Bytes
    → Exec (Log Bytes) (Unit {0})
recorded answer command log = let a = answer log command in (a, (command, accepted a) ∷ log)

module _ {Bytes : Type 0} where
  -- The connection is in TLS: it was opened so, or STARTTLS was accepted.
  abbrev pub is_secured : Log Bytes → Bool
  is_secured [] = false
  is_secured ((Command.connect tls _ _ _, a) ∷ log) = (tls && a) || is_secured log
  is_secured ((Command.starttls, a) ∷ log) = a || is_secured log
  is_secured ((_, _) ∷ log) = is_secured log

  abbrev pub is_logged_in : Log Bytes → Bool
  is_logged_in [] = false
  is_logged_in ((Command.login _ _, a) ∷ log) = a || is_logged_in log
  is_logged_in ((_, _) ∷ log) = is_logged_in log

  -- TLS, when the settings ask for it.
  abbrev pub has_tls : Mailer → Log Bytes → Bool
  has_tls m log = not (m.smtp_ssl || m.smtp_starttls) || is_secured log

  abbrev pub has_login : Mailer → Log Bytes → Bool
  has_login m log = not m.smtp_auth || is_logged_in log

  abbrev pub is_allowed : Mailer → Log Bytes → Command Bytes → Bool
  is_allowed m log (Command.login _ _) = has_tls m log
  is_allowed m log (Command.send_message _) = has_tls m log && has_login m log
  is_allowed m log _ = true

  -- Every command of the log was allowed by those before it.
  abbrev pub is_safe : Mailer → Log Bytes → Bool
  is_safe m [] = true
  is_safe m ((command, _) ∷ log) = is_allowed m log command && is_safe m log

  module _ (answer : Log Bytes → Command Bytes → Result (Unit {0})) (m : Mailer) where
    -- The rest of the log is safe; and after a stage that succeeded, more is known of it.
    abbrev Stage : (Log Bytes → Bool) → Result (Unit {0}) × Log Bytes → Type 0
    Stage q (r, log) = (is_safe m log ≡ true) × ((r ≡ ok tt) → q log ≡ true)

    greet_lem :
        (log : Log Bytes)
        → is_safe m log ≡ true
        → not m.smtp_ssl || is_secured log ≡ true
        → Stage (has_tls m) (greet (recorded answer) m log)
    unfolding greet
    greet_lem log safe tls = ground arith

    log_in_lem :
        (log : Log Bytes)
        → is_safe m log ≡ true
        → has_tls m log ≡ true
        → Stage (λ l. has_tls m l && has_login m l) (log_in (recorded answer) m log)
    unfolding log_in
    log_in_lem log safe tls = ground arith

    -- What `with` does after the connection.
    abbrev session : EmailMessage Bytes → Exec (Log Bytes) (Unit {0})
    session message = do
      greet (recorded answer) m
      log_in (recorded answer) m
      recorded answer (Command.send_message message)

    session_lem :
        (message : EmailMessage Bytes) (log : Log Bytes)
        → is_safe m log ≡ true
        → not m.smtp_ssl || is_secured log ≡ true
        → is_safe m (session message log).1 ≡ true
    session_lem message log safe tls =
        let g = greet (recorded answer) m log in
        let (g_safe, g_tls) = greet_lem log safe tls in
        elim (Exec-cases g) [
          | inr (e, g_eq) ↦ rw g_eq g_safe
          | inl (u, g_eq) ↦
              let l = log_in (recorded answer) m g.1 in
              let (l_safe, l_both) = log_in_lem g.1 g_safe (g_tls (ap (λ x. x.0) g_eq)) in
              elim (Exec-cases l) [
                | inr (e, l_eq) ↦ rw (g_eq, l_eq) l_safe
                | inl (v, l_eq) ↦
                    let both = l_both (ap (λ x. x.0) l_eq) in rw (g_eq, l_eq) (ground arith)
              ]
        ]

    leave_lem :
        (body : Exec (Log Bytes) (Unit {0})) (log : Log Bytes)
        → is_safe m (body log).1 ≡ true
        → is_safe m (finally body (recorded answer Command.leave) log).1 ≡ true
    leave_lem body log safe = elim (Result-cases (answer (body log).1 Command.leave)) [
      | inl (u, e) ↦ rw e safe
      | inr (x, e) ↦ rw e safe
    ]

    dispatch_lem :
        (message : EmailMessage Bytes)
        → is_safe m (dispatch_email (recorded answer) m message []).1 ≡ true
    unfolding dispatch_email
    dispatch_lem message =
        let first : Command Bytes =
          Command.connect m.smtp_ssl (text_or_empty m.smtp_host) m.smtp_port
            m.smtp_timeout_seconds in
        elim (Bool-cases (is_blank m.smtp_host)) [
          | inl e ↦ rw e refl
          | inr e ↦ elim (Result-cases (answer [] first)) [
            | inr (x, f) ↦ rw (e, f) refl
            | inl (u, f) ↦
                let log : Log Bytes = (first, true) ∷ [] in
                let safe =
                  leave_lem (session message) log (session_lem message log refl (ground arith)) in
                rw (e, f) safe
          ]
        ]

    -- Whatever the mail server answers: with TLS or STARTTLS in the settings, the login's name and
    -- password and the message with the code are sent only after the connection is in TLS; and
    -- with `smtp_auth`, the message is sent only after a login that was accepted.
    pub send_email_secured :
        (formataddr : String → String → String) (logo : Bytes) (purpose : Purpose)
        (recipient code : String)
        → is_safe m (send_email (recorded answer) formataddr logo m purpose recipient code []).1
          ≡ true
    unfolding send_email
    send_email_secured formataddr logo purpose recipient code =
        dispatch_lem (build_email_message formataddr logo m recipient code purpose)

    -- The session's last command when it raised nothing.
    abbrev Sent : EmailMessage Bytes → Result (Unit {0}) × Log Bytes → Type 0
    Sent message (r, log) =
        (r ≡ ok tt) → (rest : Log Bytes) × (log ≡ (Command.send_message message, true) ∷ rest)

    session-Sent :
        (message : EmailMessage Bytes) (log : Log Bytes) → Sent message (session message log)
    session-Sent message log done =
        let g = greet (recorded answer) m log in
        elim (Exec-cases g) [
          | inr (e, g_eq) ↦ let clash : raise e ≡ ok tt = rw g_eq at done in ground arith
          | inl (u, g_eq) ↦
              let l = log_in (recorded answer) m g.1 in
              elim (Exec-cases l) [
                | inr (e, l_eq) ↦
                    let clash : raise e ≡ ok tt = rw (g_eq, l_eq) at done in ground arith
                | inl (v, l_eq) ↦ elim (Result-cases (answer l.1 (Command.send_message message))) [
                  | inl (w, s_eq) ↦ (l.1, rw (g_eq, l_eq, s_eq) refl)
                  | inr (x, s_eq) ↦
                      let clash : raise x ≡ ok tt = rw (g_eq, l_eq, s_eq) at done in ground arith
                ]
              ]
        ]

    -- No email passes for sent that the mail server did not take: when sending raises nothing, the
    -- message was sent and accepted, and after it there was only the end of the `with` block, whose
    -- `__exit__` raised nothing.
    pub send_email_sent :
        (formataddr : String → String → String) (logo : Bytes) (purpose : Purpose)
        (recipient code : String)
        → let v = send_email (recorded answer) formataddr logo m purpose recipient code [] in
          let message = build_email_message formataddr logo m recipient code purpose in
          (v.0 ≡ ok tt)
          → (rest : Log Bytes) × (v.1
              ≡ (Command.leave, true) ∷ (Command.send_message message, true) ∷ rest)
    unfolding send_email dispatch_email
    send_email_sent formataddr logo purpose recipient code done =
        let message = build_email_message formataddr logo m recipient code purpose in
        let first : Command Bytes =
          Command.connect m.smtp_ssl (text_or_empty m.smtp_host) m.smtp_port
            m.smtp_timeout_seconds in
        elim (Bool-cases (is_blank m.smtp_host)) [
          | inl e ↦ ground (arith, rw e at done)
          | inr e ↦ elim (Result-cases (answer [] first)) [
            | inr (x, f) ↦ ground (arith, rw (e, f) at done)
            | inl (u, f) ↦
                let b = session message ((first, true) ∷ []) in
                elim (Result-cases (answer b.1 Command.leave)) [
                  | inr (x, q) ↦ let clash : raise x ≡ ok tt = rw (e, f, q) at done in ground arith
                  | inl (w, q) ↦
                      let (rest, eq) =
                        session-Sent message ((first, true) ∷ []) (rw (e, f, q) at done) in
                      (rest, rw (e, f, q) (ap (λ (l : Log Bytes). (Command.leave, true) ∷ l) eq))
                ]
          ]
        ]
