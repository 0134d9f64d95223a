-- ===== src/Tests/Login.antt =====
-- A login challenge for a@x, whose code is 000007, that expires at the time 100.
use ms_auth_service.Prelude.{
  ℕ, String, ◌≡◌, ◌≢◌, inl, inr, refl, true, none, some, List, [], ◌∷◌, arith, eq_iff,
  if◌then◌else◌,
}
use ms_auth_service.Py.Int.{pos, ge_nat}
use ms_auth_service.Py.Str.{◌++◌, is_ascii, normalize_email}
use ms_auth_service.Py.Dict.{Dict, lookup, insert}
use ms_auth_service.Py.Value.{Value}
use ms_auth_service.Py.Exec.{Exn, Result, ok, raise}
use ms_auth_service.Redis.{Raw}
use ms_auth_service.EmailOtp.{Otp, Record, six_digits}
use ms_auth_service.EmailOtp.Store.{Prefix, full_key, dumps, load}
use ms_auth_service.EmailOtp.Local.{IsReady}
use ms_auth_service.EmailOtp.Remote.{IsConnected}
use ms_auth_service.EmailOtp.Login.{Fields, fields, login_record, start, verify, verify_loaded}
use ms_auth_service.EmailOtp.Login.Verify.{verify_expired, verify_right, verify_wrong}
use ms_auth_service.EmailOtp.Login.Guesses.{Guess, guesses, guesses_run_out}
use ms_auth_service.EmailOtp.Login.RoundTrip.{verify-start, fields-login_record}
use ms_auth_service.EmailOtp.Login.Race.{IsOpen, verify_twice}
use ms_auth_service.Tests.Concrete.{
  redis, redis_reachable, digest, digest_ascii, local_otp, remote_otp,
}

abbrev challenge : Record
challenge = login_record "a@x" "d7" 100

abbrev typed : Fields
typed = record { email = "a@x"; expires_at = pos 100; attempts = pos 0; code_digest = "d7" }

abbrev memory : Dict Record
memory = ("c1", challenge) ∷ []

abbrev service : Otp (Dict Raw)
service = local_otp memory

ready : IsReady "k" service
unfolding lookup
ready = record { enabled = refl; secret = refl; host = refl; local = refl; memory = (refl, tt) }

empty_ready : IsReady "k" (local_otp [])
empty_ready = record { enabled = refl; secret = refl; host = refl; local = refl; memory = tt }

found : lookup "c1" memory ≡ some challenge
unfolding lookup
found = refl

typed_lem : fields challenge ≡ some typed
typed_lem = fields-login_record "a@x" "d7" 100

abbrev at : ℕ → ℕ → ℕ
at n i = n

email_lem : "a@x" ≡ normalize_email "a@x"
unfolding normalize_email
email_lem = refl

email_ascii : is_ascii "a@x" ≡ true
unfolding is_ascii
email_ascii = refl

normal_ascii : is_ascii (normalize_email "a@x") ≡ true
unfolding is_ascii normalize_email
normal_ascii = refl

digest7_ascii : is_ascii "d7" ≡ true
unfolding is_ascii
digest7_ascii = refl

digest_ne : ◌≢◌ {A = String} "d7" "d8"
digest_ne = ground (arith, eq_iff "d7" "d8")

verify_expired_example :
    let v = verify redis digest (at 100) "c1" "a@x" "000007" service in
    (v.0 ≡ raise Exn.email_otp_invalid) × (lookup "c1" v.1.memory ≡ none)
verify_expired_example =
    verify_expired redis digest "k" (at 100) "c1" "a@x" "000007" service ready challenge typed found
      typed_lem (inl refl)

verify_right_example :
    let v = verify redis digest (at 10) "c1" "a@x" "000007" service in
    (v.0 ≡ ok tt) × (lookup "c1" v.1.memory ≡ none)
verify_right_example =
    verify_right redis digest "k" (at 10) "c1" "a@x" "000007" service ready challenge typed found
      typed_lem refl refl refl email_ascii email_lem digest7_ascii refl

verify_wrong_example :
    let v = verify redis digest (at 10) "c1" "a@x" "000008" service in
    (v.0 ≡ raise Exn.email_otp_invalid)
    × (lookup "c1" v.1.memory ≡ (
        if ge_nat (pos 1) 3 then none else some (insert "attempts" (Value.int (pos 1)) challenge)))
verify_wrong_example =
    verify_wrong redis digest "k" (at 10) "c1" "a@x" "000008" service ready challenge typed found
      typed_lem refl refl refl email_ascii normal_ascii digest7_ascii
      (digest_ascii "k" ("c1" ++ (":" ++ "000008"))) (inr digest_ne)

abbrev wrong : Guess
wrong = record { clock = at 10; email = "a@x"; code = "000008" }

abbrev right : Guess
right = record { clock = at 20; email = "a@x"; code = "000007" }

abbrev three : List Guess
three = wrong ∷ wrong ∷ wrong ∷ []

guesses_run_out_example :
    (verify redis digest
      (at 20)
      "c1"
      "a@x"
      "000007"
      (guesses redis digest "k" "c1" digest_ascii service three)).0
    ≡ raise Exn.email_otp_invalid
guesses_run_out_example =
    guesses_run_out redis digest "k" "c1" digest_ascii "a@x" "d7" service challenge typed three
      right email_ascii digest7_ascii ready found typed_lem refl refl refl
      (
        (normal_ascii, inr digest_ne),
        ((normal_ascii, inr digest_ne), ((normal_ascii, inr digest_ne), tt)),
      )
      (omega arith)

abbrev sent : String → String → Result (Unit {0})
sent email code = ok tt

abbrev unsent : String → String → Result (Unit {0})
unsent email code = raise Exn.smtp_error

verify-start_example :
    let s' = (start redis digest sent (at 10) "c1" 7 "A@x" (local_otp [])).1 in
    let once = verify redis digest (at 20) "c1" "a@X" (six_digits 7) s' in
    (once.0 ≡ ok tt)
    × ((verify redis digest (at 30) "c1" "a@X" (six_digits 7) once.1).0
        ≡ raise Exn.email_otp_invalid)
unfolding normalize_email is_ascii
verify-start_example =
    verify-start redis digest "k" sent (at 10) "c1" 7 "A@x" (local_otp []) empty_ready (at 20)
      (at 30) "a@X" refl digest_ascii refl refl (omega arith) (omega arith) (omega arith)

abbrev server : Dict Raw
server = ("ouros:auth:email-otp:c1", dumps challenge) ∷ []

stored : lookup (full_key Prefix.login "c1") server ≡ some (dumps challenge)
unfolding lookup full_key
stored = refl

connected : IsConnected "k" (remote_otp server)
connected = record { enabled = refl; secret = refl; host = refl; remote = refl; connected = refl }

open_lem :
    IsOpen redis redis_reachable digest digest_ascii "k" "c1" "a@x" normal_ascii
      (at 10)
      challenge
      typed
      (remote_otp server)
open_lem = record {
  connected = connected;
  stored = stored;
  typed = typed_lem;
  owner = email_lem;
  digest_ascii = digest7_ascii;
  unexpired = refl;
  left = refl;
}

verify_twice_example :
    let loaded = load redis 10 "c1" Prefix.login (remote_otp server) in
    let first = verify redis digest (at 10) "c1" "a@x" "000007" loaded.1 in
    let stale = verify_loaded redis digest (at 10) "c1" "a@x" "000008" (some challenge) first.1 in
    (loaded.0 ≡ ok (some challenge))
    × (first.0 ≡ ok tt)
    × (stale.0 ≡ raise Exn.email_otp_invalid)
    × ((verify redis digest (at 10) "c1" "a@x" "000007" stale.1).0 ≡ ok tt)
verify_twice_example =
    verify_twice redis redis_reachable digest digest_ascii "k" "c1" "a@x" normal_ascii (at 10)
      challenge typed "000007" "000008" (remote_otp server) open_lem refl digest_ne refl
