-- ===== src/EmailOtp/Login/Guesses.antt =====
-- Sequences of calls of `verify` (app/services/email_otp.py) on one login challenge in memory.
use ms_auth_service.Prelude.{
  ℕ, suc, ◌+◌, ◌≤◌, String, ◌≡◌, ◌≢◌, refl, ◌∙◌, true, none, some, ◌⊎◌, inl, inr, List, [], ◌∷◌,
  arith, if◌then◌else◌, length, Bool-cases,
}
use ms_auth_service.Py.Int.{pos, add_one, le_nat, ge_nat}
use ms_auth_service.Py.Str.{◌++◌, is_ascii, normalize_email}
use ms_auth_service.Py.Dict.{lookup, insert}
use ms_auth_service.Py.Value.{Value}
use ms_auth_service.Py.Exec.{Exn, raise}
use ms_auth_service.Redis.{Redis}
use ms_auth_service.EmailOtp.{Otp, Record}
use ms_auth_service.EmailOtp.Local.{IsReady}
use ms_auth_service.EmailOtp.Login.{Fields, fields, verify}
use ms_auth_service.EmailOtp.Login.Keeps.{KeepsReady-verify}
use ms_auth_service.EmailOtp.Login.Verify.{
  fields-insert_attempts, verify_unknown, verify_expired, verify_exhausted, verify_wrong,
}

-- A call of `verify`: the times that it reads, the email and the code.
pub record Guess : Type 0 where
  pub clock : ℕ → ℕ
  pub email : String
  pub code : String

module _ {Server : Type 0} (redis : Redis Server) (hmac : String → String → String)
    (key id : String) (ascii : (k p : String) → is_ascii (hmac k p) ≡ true) where
  -- The service after a guess, whatever it raised.
  pub guess : Otp Server → Guess → Otp Server
  guess s g = (verify redis hmac g.clock id g.email g.code s).1

  pub guesses : Otp Server → List Guess → Otp Server
  guesses s [] = s
  guesses s (g ∷ gs) = guesses (guess s g) gs

  module _ (owner digest : String) where
    -- The guess has another email or another code, and an ASCII email.
    abbrev pub IsWrong : Guess → Type 0
    IsWrong g =
        (is_ascii (normalize_email g.email) ≡ true)
        × ((owner ≢ normalize_email g.email) ⊎ (digest ≢ hmac key (id ++ (":" ++ g.code))))

    abbrev pub AreWrong : List Guess → Type 0
    AreWrong [] = Unit
    AreWrong (g ∷ gs) = IsWrong g × AreWrong gs

    -- The challenge is gone, or it is the owner's and at least `k` attempts were counted.
    abbrev pub Counted : ℕ → Otp Server → Type 0
    Counted k s =
        (lookup id s.memory ≡ none)
        ⊎ ((r : Record) × (f : Fields) × (a : ℕ) × (lookup id s.memory ≡ some r)
            × (fields r ≡ some f)
            × (f.attempts ≡ pos a)
            × (k ≤ a)
            × (f.email ≡ owner)
            × (f.code_digest ≡ digest))

    counted :
        (k a : ℕ) (r : Record) (f : Fields) (s : Otp Server) (most : ℕ)
        → fields r ≡ some f
        → f.attempts ≡ pos a
        → k ≤ a
        → f.email ≡ owner
        → f.code_digest ≡ digest
        → lookup id s.memory ≡ (
            if ge_nat (add_one f.attempts) most
            then none
            else some (insert "attempts" (Value.int (add_one f.attempts)) r))
        → Counted (suc k) s
    counted k a r f s most typed ea le ee ed e =
        elim (Bool-cases (ge_nat (add_one f.attempts) most)) [
          | inl x ↦ inl (rw x at e)
          | inr x ↦ inr (
            insert "attempts" (Value.int (add_one f.attempts)) r,
            record f { attempts = add_one f.attempts },
            a + 1,
            rw x at e,
            fields-insert_attempts r f (add_one f.attempts) typed,
            rw ea refl,
            omega arith,
            ee,
            ed,
          )
        ]

    -- A wrong guess counts, unless the challenge is gone.
    guess-Counted :
        (k : ℕ) (s : Otp Server) (g : Guess)
        → is_ascii owner ≡ true
        → is_ascii digest ≡ true
        → IsReady key s
        → IsWrong g
        → Counted k s
        → Counted (suc k) (guess s g)
    unfolding guess
    guess-Counted k s g ao ad h wrong (inl gone) =
        inl (verify_unknown redis hmac key g.clock id g.email g.code s h gone).1
    guess-Counted k s g ao ad h wrong (inr (r, f, a, found, typed, ea, le, ee, ed)) =
        elim (Bool-cases (le_nat f.expires_at (g.clock 0))) [
          | inl x ↦
              inl
                (verify_expired redis hmac key g.clock id g.email g.code s h r f found typed
                  (inl x)).1
          | inr x ↦ elim (Bool-cases (le_nat f.expires_at (g.clock 1))) [
            | inl y ↦
                inl
                  (verify_expired redis hmac key g.clock id g.email g.code s h r f found typed
                    (inr y)).1
            | inr y ↦ elim (Bool-cases (ge_nat f.attempts s.max_attempts)) [
              | inl z ↦
                  inl
                    (verify_exhausted redis hmac key g.clock id g.email g.code s h r f found typed x
                      y z).1
              | inr z ↦
                  counted k a r f (guess s g) s.max_attempts typed ea le ee ed
                    (verify_wrong redis hmac key g.clock id g.email g.code s h r f found typed x y z
                      (rw ee ao) wrong.0 (rw ed ad) (ascii key _) (rw (ee, ed) wrong.1)).1
            ]
          ]
        ]

    guesses-Counted :
        (k n : ℕ) (s : Otp Server) (gs : List Guess)
        → is_ascii owner ≡ true
        → is_ascii digest ≡ true
        → IsReady key s
        → AreWrong gs
        → length gs + k ≡ n
        → Counted k s
        → IsReady key (guesses s gs)
          × ((guesses s gs).max_attempts ≡ s.max_attempts)
          × Counted n (guesses s gs)
    unfolding guesses guess
    guesses-Counted k n s [] ao ad h wrong e c =
        let e' : k ≡ n = omega arith in (h, refl, rw (← e') c)
    guesses-Counted k n s (g ∷ gs) ao ad h wrong e c =
        let (h', m) = KeepsReady-verify key redis hmac g.clock id g.email g.code s h in
        let (h'', m', c') =
          guesses-Counted (suc k) n (guess s g) gs ao ad h' wrong.1 (omega arith)
            (guess-Counted k s g ao ad h wrong.0 c) in
        (h'', m' ∙ m, c')

    -- When no attempt is left, every call is refused.
    refused :
        (k : ℕ) (s : Otp Server) (g : Guess)
        → IsReady key s
        → s.max_attempts ≤ k
        → Counted k s
        → (verify redis hmac g.clock id g.email g.code s).0 ≡ raise Exn.email_otp_invalid
    refused k s g h le (inl gone) =
        (verify_unknown redis hmac key g.clock id g.email g.code s h gone).0
    refused k s g h le (inr (r, f, a, found, typed, ea, le', _, _)) =
        elim (Bool-cases (le_nat f.expires_at (g.clock 0))) [
          | inl x ↦
              (verify_expired redis hmac key g.clock id g.email g.code s h r f found typed
                (inl x)).0
          | inr x ↦ elim (Bool-cases (le_nat f.expires_at (g.clock 1))) [
            | inl y ↦
                (verify_expired redis hmac key g.clock id g.email g.code s h r f found typed
                  (inr y)).0
            | inr y ↦
                (verify_exhausted redis hmac key g.clock id g.email g.code s h r f found typed x y
                  (rw ea (ground arith))).0
          ]
        ]

    -- In memory, with digests and the owner's email in ASCII: after at least as many wrong
    -- guesses from ASCII emails as the limit allows, a new challenge accepts nothing: whatever
    -- the email and the code of a call of `verify` are, it is refused as invalid.
    pub guesses_run_out :
        (s : Otp Server) (r : Record) (f : Fields) (gs : List Guess) (last : Guess)
        → is_ascii owner ≡ true
        → is_ascii digest ≡ true
        → IsReady key s
        → lookup id s.memory ≡ some r
        → fields r ≡ some f
        → f.attempts ≡ pos 0
        → f.email ≡ owner
        → f.code_digest ≡ digest
        → AreWrong gs
        → s.max_attempts ≤ length gs
        → (verify redis hmac last.clock id last.email last.code (guesses s gs)).0
          ≡ raise Exn.email_otp_invalid
    guesses_run_out s r f gs last ao ad h found typed ea ee ed wrong enough =
        let (h', m, c) =
          guesses-Counted 0 (length gs) s gs ao ad h wrong (omega arith)
            (inr (r, f, 0, found, typed, ea, omega arith, ee, ed)) in
        refused (length gs) (guesses s gs) last h' (omega arith) c
