-- ===== src/Credentials/Answers.antt =====
-- `verify_credentials` of app/services/auth_service.py by what the repository finds.
use ms_auth_service.Prelude.{
  ℕ, suc, ◌+◌, max, String, ◌≡◌, ◌≤◌, ◌⊎◌, inl, inr, refl, Bool, Option, List, [], ◌∷◌, arith,
  those, length,
}
use ms_auth_service.Py.Exec.{Exn, Result, ok, raise}
use ms_auth_service.Py.Str.{normalize_email}
use ms_auth_service.Identity.{
  AccountType, StoredIdentity, Tables, IdentityResponse, from_identity, find_by_email,
  find_identities,
}
use ms_auth_service.Credentials.{
  normalize_bcrypt_prefix, checked, verify_password, collect_matches, answer, attempt,
  verify_credentials, burn_dummy_password_check,
}

-- `checkpw` raises nothing but the errors that `verify_password` handles.
abbrev pub IsHandled : (String → String → Result Bool) → Type 0
IsHandled checkpw = (p h : String) → (b : Bool) × (checked (checkpw p h) ≡ ok b)

-- What the identities whose password it is come to.
abbrev pub IsDecided : List StoredIdentity → Result IdentityResponse → Type 0
IsDecided matches r =
    ((length matches ≡ 0) × (r ≡ raise Exn.invalid_credentials))
    ⊎ ((i : StoredIdentity) × (matches ≡ i ∷ []) × (r ≡ ok (from_identity i)))
    ⊎ ((2 ≤ length matches) × (r ≡ raise Exn.ambiguous_identity))

module _ (checkpw : String → String → Result Bool) (handled : IsHandled checkpw) where
  -- Whether the password is that of the identity.
  pub has_password : String → StoredIdentity → Bool
  has_password p i = (handled p (normalize_bcrypt_prefix i.password_hash)).0

  verify_password_lem :
      (p : String) (i : StoredIdentity) (n : ℕ)
      → verify_password checkpw p i.password_hash n ≡ (ok (has_password p i), suc n)
  unfolding verify_password has_password
  verify_password_lem p i n = rw ((handled p (normalize_bcrypt_prefix i.password_hash)).1) refl

  collect_matches_lem :
      (p : String) (is : List StoredIdentity) (n : ℕ)
      → collect_matches checkpw p is n ≡ (ok (those (has_password p) is), n + length is)
  unfolding collect_matches those
  collect_matches_lem p [] n = let e : n + 0 ≡ n = omega arith in rw e refl
  collect_matches_lem p (i ∷ is) n =
      let e : suc n + length is ≡ n + suc (length is) = omega arith in
      rw (verify_password_lem p i n, collect_matches_lem p is (suc n), e) refl

  attempt_lem :
      (dummy p : String) (is : List StoredIdentity) (n : ℕ)
      → attempt checkpw dummy p is n
        ≡ (answer checkpw (those (has_password p) is), n + max 1 (length is))
  unfolding attempt burn_dummy_password_check verify_password those
  attempt_lem dummy p [] n =
      let e : suc n ≡ n + 1 = omega arith in
      rw ((handled p (normalize_bcrypt_prefix dummy)).1, e) refl
  attempt_lem dummy p (i ∷ is) n =
      let e : max 1 (suc (length is)) ≡ suc (length is) = omega arith in
      rw (collect_matches_lem p (i ∷ is) n, e) refl

  answer-IsDecided : (matches : List StoredIdentity) → IsDecided matches (answer checkpw matches)
  answer-IsDecided [] = inl (refl, refl)
  answer-IsDecided (i ∷ []) = inr (inl (i, refl, refl))
  answer-IsDecided (i ∷ j ∷ is) = inr (inr (omega arith, refl))

  -- When `checkpw` raises nothing but ValueError and TypeError, and the query succeeds, the answer
  -- is decided by the identities of the address and the type whose password it is: with none of
  -- them the credentials are invalid, a single one is answered with, and two or more are refused
  -- as ambiguous. bcrypt is computed at least
  -- once, and once for each identity of the address and the type.
  pub verify_credentials_lem :
      (sql_lower : String → String) (tables : Tables) (dummy email p : String)
      (t : Option AccountType) (n : ℕ)
      → let is = find_identities sql_lower (normalize_email email) t tables in
        let v = verify_credentials checkpw sql_lower (ok tables) dummy email p t n in
        IsDecided (those (has_password p) is) v.0 × (v.1 ≡ n + max 1 (length is))
  unfolding verify_credentials find_by_email
  verify_credentials_lem sql_lower tables dummy email p t n =
      let is = find_identities sql_lower (normalize_email email) t tables in
      rw (attempt_lem dummy p is n) (answer-IsDecided (those (has_password p) is), refl)
