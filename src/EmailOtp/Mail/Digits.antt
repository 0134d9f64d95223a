-- ===== src/EmailOtp/Mail/Digits.antt =====
-- The rounds that `digits_of` is given for f-strings of app/services/email_otp.py.
use ms_auth_service.Prelude.{
  ℕ, zero, suc, ◌/◌, ◌<◌, String, ◌≡◌, refl, eqb, arith, Bool-cases, inl, inr,
}
use ms_auth_service.Py.Str.{◌++◌}
use ms_auth_service.EmailOtp.{digit}
use ms_auth_service.EmailOtp.Mail.{digits_of}

-- A number has fewer digits than a greater number of rounds: one round more changes nothing.
pub digits_of_enough :
    (rounds n : ℕ) (rest : String)
    → n < rounds
    → digits_of (suc rounds) n rest ≡ digits_of rounds n rest
unfolding digits_of
digits_of_enough zero n rest h = absurd (omega arith)
digits_of_enough (suc rounds) n rest h = elim (Bool-cases (eqb (n / 10) 0)) [
  | inl e ↦ rw (e, digits_of) refl
  | inr e ↦
      let less : n / 10 < rounds = ground arith in
      let ih = digits_of_enough rounds (n / 10) (digit n ++ rest) less in rw (e, digits_of) ih
]
