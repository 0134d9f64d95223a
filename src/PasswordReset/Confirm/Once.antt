-- ===== src/PasswordReset/Confirm/Once.antt =====
-- Sequences of calls of `confirm_reset` (app/services/password_reset_service.py), with the blacklist
-- in memory.
use ms_auth_service.Prelude.{
  ℕ, ◌*◌, ◌≤◌, ◌<◌, String, ◌≡◌, refl, sym, ◌∙◌, inl, inr, Bool, true, Option, none, some, List, [],
  ◌∷◌, arith, Bool-cases,
}
use ms_auth_service.Py.Int.{ℤ}
use ms_auth_service.Py.Exec.{Result-cases, Result, ok, raise, Exec}
use ms_auth_service.Redis.{Redis}
use ms_auth_service.RateLimit.Memory.{ticks}
use ms_auth_service.Identity.{AccountType}
use ms_auth_service.Password.{is_complex}
use ms_auth_service.PasswordReset.{
  Settings, Service, Claims, Update, token_used, int_of, verify_reset_token,
}
use ms_auth_service.PasswordReset.Confirm.{type_of, resettable_of, checked_update, confirm_reset}
use ms_auth_service.PasswordReset.Confirm.Branches.{IsLocal, swept, update_used}
use ms_auth_service.PasswordReset.Confirm.Spent.{Stays, spent_swept, update-Stays, update-IsSpent}

ok_inj : (a b : Claims) → ok a ≡ ok b → a ≡ b
ok_inj a b e = ground arith

-- A call of `confirm_reset`: the readings of its clock, its token and its password.
pub record Attempt : Type 0 where
  pub clock : ℕ → ℕ
  pub token : String
  pub password : String

-- The calls reserve their tokens before a time.
abbrev pub AreBefore : ℕ → List Attempt → Type 0
AreBefore time [] = Unit {0}
AreBefore time (a ∷ rest) = (a.clock 2 < time) × AreBefore time rest

module _ {Server Spring : Type 0} (redis : Redis Server) (c : Settings)
    (post : Update → Exec Spring ℕ) (encode : Claims → String → String)
    (decode : ℕ → String → String → Result Claims) (decimal : ℕ → Bool)
    (parse : String → Option ℤ) where
  abbrev pub confirm : Attempt → Exec (Service Server Spring) (Unit {0})
  confirm a = confirm_reset c post redis encode decode decimal parse a.clock a.token a.password

  abbrev pub claims_of : Attempt → Result Claims
  claims_of a = verify_reset_token c encode decode (a.clock 0) a.token

  -- The service after a sequence of calls.
  abbrev pub confirms : List Attempt → Service Server Spring → Service Server Spring
  confirms [] s = s
  confirms (a ∷ rest) s = confirms rest (confirm a s).1

  checked-Stays :
      (claims other : Claims) (at later : ℕ) (p : String) (n : Option ℤ) (t : Option AccountType)
      (s : Service Server Spring)
      → Stays claims s
      → later < claims.exp * ticks
      → Stays claims
          (checked_update c post redis encode decode decimal parse at later other p n t s).1
  checked-Stays claims other at later p none t s h e = h
  checked-Stays claims other at later p (some n) none s h e = h
  checked-Stays claims other at later p (some n) (some t) s h e =
      update-Stays redis c post encode decode decimal parse claims at later other t n p s h e

  -- No call takes a token off the blacklist while it lives.
  pub confirm-Stays :
      (claims : Claims) (a : Attempt) (s : Service Server Spring)
      → Stays claims s
      → a.clock 2 < claims.exp * ticks
      → Stays claims (confirm a s).1
  unfolding confirm_reset
  confirm-Stays claims a s h e = elim (Result-cases (claims_of a)) [
    | inr (x, x_eq) ↦ rw x_eq h
    | inl (other, o) ↦ elim (Bool-cases (is_complex decimal a.password)) [
      | inr w ↦ rw (o, w) h
      | inl w ↦
          rw (o, w)
            (checked-Stays claims other (a.clock 1) (a.clock 2) a.password
              (int_of parse other.database_id) (resettable_of (type_of other.account_type)) s h e)
    ]
  ]

  pub confirms-Stays :
      (claims : Claims) (rest : List Attempt) (s : Service Server Spring)
      → Stays claims s
      → AreBefore (claims.exp * ticks) rest
      → Stays claims (confirms rest s)
  confirms-Stays claims [] s h e = h
  confirms-Stays claims (a ∷ rest) s h e =
      confirms-Stays claims rest (confirm a s).1 (confirm-Stays claims a s h e.0) e.1

  checked-IsSpent :
      (at later : ℕ) (claims : Claims) (p : String) (n : Option ℤ) (t : Option AccountType)
      (s s' : Service Server Spring)
      → IsLocal s
      → at ≤ later
      → checked_update c post redis encode decode decimal parse at later claims p n t s
        ≡ (ok tt, s')
      → ((m : ℤ) × (n ≡ some m)) × ((u : AccountType) × (t ≡ some u)) × Stays claims s'
  checked-IsSpent at later claims p none t s s' l h e = ground arith
  checked-IsSpent at later claims p (some n) none s s' l h e = ground arith
  checked-IsSpent at later claims p (some n) (some t) s s' l h e = (
    (n, refl),
    (t, refl),
    update-IsSpent redis c post encode decode decimal parse at later claims t n p s s' l h e,
  )

  -- A call that succeeds spends its token.
  pub confirm-IsSpent :
      (a : Attempt) (s s' : Service Server Spring)
      → IsLocal s
      → a.clock 1 ≤ a.clock 2
      → confirm a s ≡ (ok tt, s')
      → (claims : Claims) × (claims_of a ≡ ok claims)
        × ((n : ℤ) × (int_of parse claims.database_id ≡ some n))
        × ((t : AccountType) × (resettable_of (type_of claims.account_type) ≡ some t))
        × Stays claims s'
  unfolding confirm_reset
  confirm-IsSpent a s s' l h e = elim (Result-cases (claims_of a)) [
    | inr (x, x_eq) ↦ ground (arith, rw (x_eq, confirm_reset) at e)
    | inl (claims, o) ↦ elim (Bool-cases (is_complex decimal a.password)) [
      | inr w ↦ ground (arith, rw (o, w, confirm_reset) at e)
      | inl w ↦
          let (n, t, stays) =
            checked-IsSpent (a.clock 1) (a.clock 2) claims a.password
              (int_of parse claims.database_id) (resettable_of (type_of claims.account_type)) s s' l
              h (rw (o, w, confirm_reset) at e) in
          (claims, o, n, t, stays)
    ]
  ]

  -- A token that is spent is refused, and the Spring service is not called.
  pub confirm_spent :
      (claims : Claims) (a : Attempt) (n : ℤ) (t : AccountType) (s : Service Server Spring)
      → Stays claims s
      → claims_of a ≡ ok claims
      → is_complex decimal a.password ≡ true
      → int_of parse claims.database_id ≡ some n
      → resettable_of (type_of claims.account_type) ≡ some t
      → a.clock 2 < claims.exp * ticks
      → confirm a s ≡ (raise token_used, record s { blacklist_memory = swept (a.clock 2) s })
  unfolding confirm_reset
  confirm_spent claims a n t s (l, spent) o w n_eq t_eq h =
      let (e, found, long) = spent_swept claims (a.clock 2) s l spent h in
      rw (o, w, n_eq, t_eq)
        (update_used redis c post encode decode decimal parse (a.clock 1) (a.clock 2) claims t n
          a.password e s l.local found)

  -- With the blacklist in memory and a clock that does not go back during the first call: after
  -- a call of `confirm_reset` that succeeded, and any calls that reserve before the token
  -- expires, a call with the same token that reserves before then, with a password of the
  -- required strength, is refused as used and does not reach the Spring service.
  pub confirm_reset_once :
      (claims : Claims) (first second : Attempt) (between : List Attempt)
      (s s' : Service Server Spring)
      → IsLocal s
      → first.clock 1 ≤ first.clock 2
      → claims_of first ≡ ok claims
      → confirm first s ≡ (ok tt, s')
      → AreBefore (claims.exp * ticks) between
      → second.clock 2 < claims.exp * ticks
      → claims_of second ≡ ok claims
      → is_complex decimal second.password ≡ true
      → let s2 = confirms between s' in
        confirm second s2
        ≡ (raise token_used, record s2 { blacklist_memory = swept (second.clock 2) s2 })
  confirm_reset_once claims first second between s s' l order o done before valid o2 w =
      let (claims', o', (n, n_eq), (t, t_eq), stays) = confirm-IsSpent first s s' l order done in
      let same : claims' ≡ claims = ok_inj claims' claims (sym o' ∙ o) in
      confirm_spent claims second n t (confirms between s')
        (confirms-Stays claims between s' (rw same at stays) before) o2 w (rw same at n_eq)
        (rw same at t_eq) valid
