-- ===== src/PasswordReset/Start.antt =====
-- The answers of `start_reset` (app/services/password_reset_service.py).
use ms_auth_service.Prelude.{
  ℕ, String, ◌≡◌, refl, ◌⊎◌, inl, inr, Option, none, List, [], ◌∷◌, those, Bool-cases, Option-cases,
}
use ms_auth_service.Py.Str.{normalize_email}
use ms_auth_service.Py.Exec.{Exn, Result, ok, raise}
use ms_auth_service.Redis.{Redis}
use ms_auth_service.Identity.{
  AccountType, StoredIdentity, Tables, value, find_by_email, find_identities,
}
use ms_auth_service.EmailOtp.{Otp, Challenge, mask_email, is_blank, require_ready, code_digest}
use ms_auth_service.EmailOtp.Store.{save}
use ms_auth_service.EmailOtp.Reset.{start_password_reset}
use ms_auth_service.PasswordReset.{
  Settings, StartResponse, is_resettable, send_challenge, start_reset,
}

module _ {Server : Type 0} (redis : Redis Server) (hmac : String → String → String)
    (sql_lower : String → String) (c : Settings) where
  -- A challenge that is kept in memory starts, or the service says that it is unavailable.
  start_outcome :
      (clock : ℕ → ℕ) (id : String) (number : ℕ) (email type : String) (n : ℕ) (s : Otp Server)
      → s.redis_url ≡ none
      → ((m : String) × ((start_password_reset redis hmac clock id number email type n s).0
            ≡ raise (Exn.email_otp_unavailable m)))
        ⊎ ((ch : Challenge) × ((start_password_reset redis hmac clock id number email type n s).0
              ≡ ok ch)
            × (ch.challenge_id ≡ id))
  unfolding start_password_reset require_ready code_digest save
  start_outcome clock id number email type n s l = elim (Bool-cases s.enabled) [
    | inr e ↦ inl ("email OTP is disabled", rw e refl)
    | inl e ↦ elim (Option-cases s.hmac_secret) [
      | inl k ↦ inl ("email OTP configuration is incomplete", rw (e, k) refl)
      | inr (key, k) ↦ elim (Bool-cases (is_blank s.smtp_host)) [
        | inl b ↦ inl ("email OTP configuration is incomplete", rw (e, k, b) refl)
        | inr b ↦ inr (
          record {
            challenge_id = id;
            expires_in = s.ttl_seconds;
            masked_email = mask_email (normalize_email email);
          },
          rw (e, k, b, l) refl,
          refl,
        )
      ]
    ]
  ]

  -- The answer is the generic one, with one of the two identifiers that were drawn.
  abbrev pub IsGeneric : String → String → String → Result StartResponse → Type 0
  IsGeneric generic_id challenge_id email r =
      (id : String) × ((id ≡ generic_id) ⊎ (id ≡ challenge_id))
      × (r
          ≡ ok (record {
            challenge_id = id;
            masked_email = mask_email email;
            expires_in = c.email_otp_ttl_seconds;
          }))

  send_challenge-IsGeneric :
      (clock : ℕ → ℕ) (generic_id challenge_id : String) (number : ℕ) (email : String)
      (is : List StoredIdentity) (s : Otp Server)
      → s.redis_url ≡ none
      → let response : StartResponse = record {
        challenge_id = generic_id;
        masked_email = mask_email email;
        expires_in = c.email_otp_ttl_seconds;
      } in
        IsGeneric generic_id challenge_id email
          (send_challenge redis hmac sql_lower c clock challenge_id number response is s).0
  send_challenge-IsGeneric clock g id number email [] s l = (g, inl refl, refl)
  send_challenge-IsGeneric clock g id number email (i ∷ j ∷ is) s l = (g, inl refl, refl)
  send_challenge-IsGeneric clock g id number email (i ∷ []) s l =
      let p =
        start_password_reset redis hmac clock id number i.email (value i.account_type) i.database_id
          s in
      elim (start_outcome clock id number i.email (value i.account_type) i.database_id s l) [
        | inl (m, e) ↦
            let p_eq : p ≡ (raise (Exn.email_otp_unavailable m), p.1) = rw e refl in
            (g, inl refl, rw p_eq refl)
        | inr (ch, e, id_eq) ↦
            let p_eq : p ≡ (ok ch, p.1) = rw e refl in (ch.challenge_id, inr id_eq, rw p_eq refl)
      ]

  -- With the challenges in memory and a database that answers: whatever accounts there are,
  -- whatever type is asked for and whatever becomes of the challenge, `start_reset` answers
  -- `ok`, the mask and the lifetime in the answer depend on the address in the request and the
  -- settings alone, and its identifier is one of the two random ones.
  pub start_reset-IsGeneric :
      (tables : Tables) (clock : ℕ → ℕ) (generic_id challenge_id : String) (number : ℕ)
      (email : String) (t : Option AccountType) (s : Otp Server)
      → s.redis_url ≡ none
      → IsGeneric generic_id challenge_id
          (normalize_email email)
          (start_reset redis hmac sql_lower c
            (ok tables)
            clock
            generic_id
            challenge_id
            number
            email
            t
            s).0
  unfolding start_reset find_by_email
  start_reset-IsGeneric tables clock g id number email t s l =
      send_challenge-IsGeneric clock g id number (normalize_email email)
        (those (λ i. is_resettable i.account_type)
          (find_identities sql_lower (normalize_email (normalize_email email)) t tables))
        s l
