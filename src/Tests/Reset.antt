-- ===== src/Tests/Reset.antt =====
-- A password reset challenge for a@x, and a reset token that expires in the 100th second.
use ms_auth_service.Prelude.{
  ℕ, suc, ◌*◌, String, ◌≡◌, refl, sym, ap, true, false, Option, none, some, [], ◌∷◌, arith,
}
use mathlib.Core.Option
use ms_auth_service.Py.Int.{ℤ, pos, ge_nat, le_nat}
use ms_auth_service.Py.Str.{is_ascii, normalize_email, is_digit}
use ms_auth_service.Py.Dict.{Dict, lookup, keep}
use ms_auth_service.Py.Value.{Value}
use ms_auth_service.Py.Exec.{Exn, Result, ok, raise, Exec}
use ms_auth_service.Redis.{Raw}
use ms_auth_service.Password.{is_complex}
use ms_auth_service.Identity.{AccountType, Row, Tables, value}
use ms_auth_service.EmailOtp.{Otp, Record, is_unexpired}
use ms_auth_service.EmailOtp.Store.{Prefix, full_key, mem_key, dumps}
use ms_auth_service.EmailOtp.Local.{IsReady}
use ms_auth_service.EmailOtp.Remote.{IsConnected}
use ms_auth_service.EmailOtp.Login.{Fields, fields}
use ms_auth_service.EmailOtp.Reset.{
  reset_record, reset_fields, lua_fields, answered, verify_password_reset,
}
use ms_auth_service.EmailOtp.Reset.Decide.{decide}
use ms_auth_service.EmailOtp.Reset.Agree.{
  verify_password_reset_local, verify_password_reset_remote, verify_password_reset_sound,
}
use ms_auth_service.PasswordReset.{
  Settings, Service, Claims, Update, token_used, cleanup_blacklist_memory, start_reset,
  verify_reset_token,
}
use ms_auth_service.PasswordReset.Start.{IsGeneric, start_reset-IsGeneric}
use ms_auth_service.PasswordReset.Confirm.{
  confirm_reset, update_password, call_spring_internal_reset,
}
use ms_auth_service.PasswordReset.Confirm.Branches.{IsLocal, swept, reserved}
use ms_auth_service.PasswordReset.Confirm.Once.{
  Attempt, confirm, confirms, claims_of, confirm_reset_once,
}
use ms_auth_service.PasswordReset.Confirm.Release.{update_password-released}
use ms_auth_service.Tests.Concrete.{
  redis, redis_reachable, digest, digest_ascii, local_otp, remote_otp,
}

abbrev challenge : Record
challenge = reset_record "a@x" "farm_owner" 4 "d7" 100

abbrev memory : Dict Record
memory = ("reset:c1", challenge) ∷ []

abbrev pub service : Otp (Dict Raw)
service = local_otp memory

ready : IsReady "k" service
unfolding lookup
ready = record { enabled = refl; secret = refl; host = refl; local = refl; memory = (refl, tt) }

found : lookup (mem_key Prefix.reset "c1") memory ≡ some challenge
unfolding lookup mem_key
found = refl

unexpired : is_unexpired 10 challenge ≡ true
unfolding is_unexpired lookup
unexpired = refl

digests_ascii : (f : Fields) → reset_fields challenge ≡ some f → is_ascii f.code_digest ≡ true
unfolding reset_fields fields lookup is_ascii
digests_ascii f e =
    sym (ap (λ (o : Option Fields). elim o [ none ↦ true | some g ↦ is_ascii g.code_digest ]) e)

verify_password_reset_local_example :
    let d = decide 3 10 (normalize_email "A@x") "d7" (some challenge) in
    let v = verify_password_reset redis digest 10 "c1" "A@x" "000007" service in
    (v.0 ≡ answered d.0) × (lookup (mem_key Prefix.reset "c1") v.1.memory ≡ d.1)
verify_password_reset_local_example =
    verify_password_reset_local redis digest digest_ascii "k" 10 "c1" "A@x" "000007" service
      challenge ready found unexpired digests_ascii

abbrev server : Dict Raw
server = ("ouros:auth:password-reset-otp:c1", dumps challenge) ∷ []

stored : lookup (full_key Prefix.reset "c1") server ≡ some (dumps challenge)
unfolding lookup full_key
stored = refl

pub connected : IsConnected "k" (remote_otp server)
connected = record { enabled = refl; secret = refl; host = refl; remote = refl; connected = refl }

same_fields : lua_fields challenge ≡ reset_fields challenge
unfolding lua_fields reset_fields fields lookup
same_fields = refl

verify_password_reset_remote_example :
    let d = decide 3 10 (normalize_email "A@x") "d8" (some challenge) in
    let v = verify_password_reset redis digest 10 "c1" "A@x" "000008" (remote_otp server) in
    (v.0 ≡ answered d.0)
    × (lookup (full_key Prefix.reset "c1") v.1.server ≡ Option.map redis.cjson_encode d.1)
verify_password_reset_remote_example =
    verify_password_reset_remote redis digest digest_ascii "k" 10 "c1" "A@x" "000008"
      redis_reachable (remote_otp server) challenge connected stored refl same_fields

right_code :
    (verify_password_reset redis digest 10 "c1" "A@x" "000007" (remote_otp server)).0 ≡ ok challenge
unfolding verify_password_reset lookup full_key normalize_email
right_code = refl

verify_password_reset_sound_example :
    (f : Fields) × (reset_fields challenge ≡ some f)
    × (challenge ≡ challenge)
    × (f.email ≡ normalize_email "A@x")
    × (f.code_digest ≡ "d7")
    × (le_nat f.expires_at 10 ≡ false)
    × (ge_nat f.attempts 3 ≡ false)
    × (lookup
          (full_key Prefix.reset "c1")
          (verify_password_reset redis digest 10 "c1" "A@x" "000007" (remote_otp server)).1.server
        ≡ none)
verify_password_reset_sound_example =
    verify_password_reset_sound redis digest digest_ascii "k" 10 "c1" "A@x" "000007" redis_reachable
      (remote_otp server) challenge challenge connected stored refl same_fields right_code

abbrev pub settings : Settings
settings = record {
  password_reset_jwt_secret = some "0123456789abcdef0123456789abcdef";
  email_otp_hmac_secret = none;
  internal_service_secret = none;
  internal_service_key = none;
  spring_jwt_secret = none;
  email_otp_ttl_seconds = 300;
  password_reset_token_ttl_seconds = 600;
  ms_spring_api_url = "https://spring/";
}

abbrev owner : Row
owner = record {
  id = 4;
  email = "a@x";
  password = "h";
  name = none;
  id_farm = some 1;
  id_enterprise = none;
  first_access = some false;
}

abbrev pub tables : Tables
tables = record { farm_owners = owner ∷ []; company_employees = []; adms = [] }

abbrev clock : ℕ → ℕ
clock i = 10

start_reset-IsGeneric_example :
    IsGeneric redis digest
      (λ s. s)
      settings
      "g"
      "c1"
      (normalize_email "A@x")
      (start_reset redis digest
        (λ s. s)
        settings
        (ok tables)
        clock
        "g"
        "c1"
        7
        "A@x"
        none
        (local_otp [])).0
start_reset-IsGeneric_example =
    start_reset-IsGeneric redis digest (λ s. s) settings tables clock "g" "c1" 7 "A@x" none
      (local_otp []) refl

-- PyJWT on one token, and a Spring service that counts its updates.
abbrev pub claims : Claims
claims = record {
  sub = "a@x";
  account_type = Value.str "farm_owner";
  database_id = Value.int (pos 4);
  purpose = Value.str "password_reset";
  jti = "j";
  iat = 1;
  exp = 100;
}

abbrev pub encode : Claims → String → String
encode c key = "t"

abbrev pub decode : ℕ → String → String → Result Claims
decode now token key = ok claims

abbrev pub accept : Update → Exec ℕ ℕ
accept u n = (ok 200, suc n)

abbrev fail : Update → Exec ℕ ℕ
fail u n = (ok 500, n)

abbrev pub parse : String → Option ℤ
parse s = none

abbrev fresh : Service (Dict Raw) ℕ
fresh = record {
  redis_url = none;
  connected = false;
  blacklist_memory = [];
  server = [];
  spring = 0;
}

fresh_lem : IsLocal fresh
fresh_lem = record { local = refl; blacklist = tt }

abbrev seconds : ℕ → ℕ → ℕ
seconds n i = n * 1_000_000_000

abbrev attempt : ℕ → Attempt
attempt n = record { clock = seconds n; token = "t"; password = "Abcdef1!" }

abbrev done : Service (Dict Raw) ℕ
done = (confirm redis settings accept encode decode is_digit parse (attempt 10) fresh).1

claims_lem :
    (n : ℕ) → claims_of redis settings accept encode decode is_digit parse (attempt n) ≡ ok claims
unfolding verify_reset_token
claims_lem n = refl

complex : is_complex is_digit "Abcdef1!" ≡ true
unfolding is_complex
complex = refl

done_lem :
    confirm redis settings accept encode decode is_digit parse (attempt 10) fresh ≡ (ok tt, done)
unfolding confirm_reset lookup keep
done_lem = refl

confirm_reset_once_example :
    let s2 = confirms redis settings accept encode decode is_digit parse (attempt 15 ∷ []) done in
    confirm redis settings accept encode decode is_digit parse (attempt 20) s2
    ≡ (raise token_used, record s2 { blacklist_memory = swept (seconds 20 2) s2 })
confirm_reset_once_example =
    confirm_reset_once redis settings accept encode decode is_digit parse claims (attempt 10)
      (attempt 20) (attempt 15 ∷ []) fresh done fresh_lem (omega arith) (claims_lem 10) done_lem
      (omega arith, tt) (omega arith) (claims_lem 20) complex

abbrev failed : Service (Dict Raw) ℕ
failed =
    (update_password settings fail redis encode decode is_digit parse (seconds 10 1) (seconds 10 2)
      claims AccountType.farm_owner (pos 4) "Abcdef1!" fresh).1

abbrev spring_down : Exn
spring_down = Exn.reset_unavailable "Serviço de redefinição de senha temporariamente indisponível."

failed_lem :
    update_password settings fail redis encode decode is_digit parse
      (seconds 10 1)
      (seconds 10 2)
      claims
      AccountType.farm_owner
      (pos 4)
      "Abcdef1!"
      fresh
    ≡ (raise spring_down, failed)
unfolding update_password lookup keep
failed_lem = refl

free_lem : lookup "j" (swept (seconds 10 2) fresh) ≡ none
unfolding lookup cleanup_blacklist_memory keep
free_lem = refl

update_password-released_example :
    let call =
      call_spring_internal_reset settings fail
        (value AccountType.farm_owner)
        (pos 4)
        "Abcdef1!"
        (reserved (seconds 10 1) (seconds 10 2) claims fresh) in
    (lookup "j" failed.blacklist_memory ≡ none)
    × (call.0 ≡ raise spring_down)
    × (call.1.spring ≡ failed.spring)
update_password-released_example =
    update_password-released redis settings fail encode decode is_digit parse (seconds 10 1)
      (seconds 10 2) claims AccountType.farm_owner (pos 4) "Abcdef1!" spring_down fresh failed refl
      free_lem failed_lem
