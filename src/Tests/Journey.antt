-- ===== src/Tests/Journey.antt =====
-- A farm owner forgets the password of a@x.
use ms_auth_service.Prelude.{
  leb, ◌&&◌, ◌==◌, suc, ℕ, ◌*◌, String, ◌≡◌, refl, true, false, none, some, [], ◌∷◌, arith,
  if◌then◌else◌, ltb, those,
}
use ms_auth_service.Py.Int.{pos}
use ms_auth_service.Py.Str.{normalize_email, is_digit}
use ms_auth_service.Py.Dict.{Dict, lookup, insert, erase}
use ms_auth_service.Py.Value.{Value}
use ms_auth_service.Py.Exec.{Exn, Result, ok, raise, Exec, on}
use ms_auth_service.Redis.{Raw}
use ms_auth_service.Redis.Laws.{IsReachable, IsCounting, flag}
use ms_auth_service.RateLimit.Memory.{ticks}
use ms_auth_service.Password.{is_complex}
use ms_auth_service.Identity.{AccountType, StoredIdentity, find_identities, value}
use ms_auth_service.EmailOtp.{six_digits, mask_email}
use ms_auth_service.PasswordReset.{Claims, is_resettable, get_reset_jwt_secret}
use ms_auth_service.PasswordReset.Confirm.{blacklist_key, spring_request}
use ms_auth_service.PasswordReset.Journey.Confirm.{DecodesEncoded}
use ms_auth_service.RateLimit.{digests, password_reset_rules}
use ms_auth_service.RateLimit.Remote.{exceeded}
use ms_auth_service.Web.{Request}
use ms_auth_service.Application.Reset.{ResetApp}
use ms_auth_service.Application.Reset.Journey.{begun, given, changed, reset_routes_journey}
use ms_auth_service.Redis.{Redis}
use ms_auth_service.Py.Dict.Laws.{lookup-insert, lookup-erase}
use ms_auth_service.Tests.Concrete.{redis, digest, digest_ascii}
use ms_auth_service.Tests.Reset.{settings, accept, parse, tables}

-- PyJWT of one token.
abbrev the_claims : Claims
the_claims = record {
  sub = normalize_email "a@x";
  account_type = Value.str (value AccountType.farm_owner);
  database_id = Value.int (pos 4);
  purpose = Value.str "password_reset";
  jti = "j";
  iat = 20;
  exp = 620;
}

-- A server with keys and with counters.
abbrev Server : Type 0
Server = Dict Raw × (String → ℕ)

abbrev keys : {A : Type 0} → Exec (Dict Raw) A → Exec Server A
keys = on (λ t. t.0) (λ d t. (d, t.1))

abbrev whole : Redis Server
whole = record {
  ping = λ t. (ok tt, t);
  send = λ t. (ok tt, t);
  receive = λ t. (ok tt, t);
  get = λ k. keys (redis.get k);
  set = λ k v ttl. keys (redis.set k v ttl);
  set_keepttl = λ k v. keys (redis.set_keepttl k v);
  set_nx = λ k ttl. keys (redis.set_nx k ttl);
  delete = λ k. keys (redis.delete k);
  incr = λ k t. (ok (suc (t.1 k)), (t.0, λ j. if k == j then suc (t.1 j) else t.1 j));
  expire = λ k n t. (ok tt, t);
  ttl = λ k t. (ok (pos 60), t);
  cjson_decode = redis.cjson_decode;
  cjson_encode = redis.cjson_encode;
}

abbrev reachable : IsReachable whole
reachable = record {
  contents = λ t k. lookup k t.0;
  ping_lem = λ t. refl;
  send_lem = λ t. refl;
  receive_lem = λ t. refl;
  get_lem = λ k t. refl;
  set_lem = λ k v ttl t. ((insert k v t.0, t.1), refl, λ j. lookup-insert k j v t.0);
  set_keepttl_lem = λ k v t. ((insert k v t.0, t.1), refl, λ j. lookup-insert k j v t.0);
  delete_lem = λ k t. ((erase k t.0, t.1), refl, λ j. lookup-erase k j t.0);
  set_nx_free = λ k ttl t e. ((insert k flag t.0, t.1), rw e refl, λ j. lookup-insert k j flag t.0);
  set_nx_taken = λ k ttl t v e. rw e refl;
}

abbrev counting : IsCounting whole
counting = record {
  counts = λ t k. t.1 k;
  send_lem = λ t. refl;
  receive_lem = λ t. refl;
  incr_lem = λ k t. (_, refl, λ j. refl);
  expire_lem = λ k n t h. (t, refl, λ j. refl);
  ttl_lem = λ k t. (pos 60, refl);
}

abbrev nothing : Server
nothing = ([], λ k. 0)

-- Nobody has tried anything yet.
abbrev app : ResetApp Server ℕ
app = record {
  limiter = record {
    redis_url = some "redis://";
    connected = true;
    memory = record { counters = []; operations = 0 };
    limits = record {
      ip_burst = 3;
      ip_burst_window_seconds = 10;
      ip_per_minute = 5;
      ip_per_15_minutes = 20;
      email_per_15_minutes = 5;
    };
    server = nothing;
  };
  otp = record {
    enabled = true;
    hmac_secret = some "k";
    ttl_seconds = 300;
    max_attempts = 3;
    redis_url = some "redis://";
    connected = true;
    memory = [];
    delivery_tasks = [];
    smtp_host = some "smtp";
    server = nothing;
  };
  password_reset = record {
    redis_url = some "redis://";
    connected = true;
    blacklist_memory = [];
    server = nothing;
    spring = 0;
  };
}

abbrev request : Request
request = record {
  origin = none;
  forwarded_proto = none;
  scheme = "https";
  client = some "1.2.3.4";
  refresh_cookie = none;
  body_token = ok none;
}

unused : exceeded (λ k. 0) (digests (λ t. t) (some "1.2.3.4") "A@x") password_reset_rules ≡ false
unfolding password_reset_rules
unused = refl

abbrev encode : Claims → String → String
encode claims key = "t"

abbrev decode : ℕ → String → String → Result Claims
decode now token key =
    if leb (20 * ticks) now && ltb now (620 * ticks) then ok the_claims else raise Exn.jwt_error

decodes : DecodesEncoded encode decode the_claims (get_reset_jwt_secret settings)
decodes now started fresh = ground arith

abbrev the_owner : StoredIdentity
the_owner = record {
  account_type = AccountType.farm_owner;
  database_id = 4;
  email = "a@x";
  password_hash = "h";
  name = none;
  farm_id = some 1;
  enterprise_id = none;
  first_access = some false;
}

only :
    those
      (λ j. is_resettable j.account_type)
      (find_identities (λ s. s) (normalize_email (normalize_email "A@x")) none tables)
    ≡ the_owner ∷ []
unfolding those is_resettable find_identities normalize_email
only = refl

abbrev clock : ℕ → ℕ
clock i = 10

abbrev clock2 : ℕ → ℕ
clock2 i = 15

abbrev issued : ℕ → ℕ
issued i = 20 * ticks

abbrev later : ℕ → ℕ
later i = 30 * ticks

same : normalize_email "a@x" ≡ normalize_email "A@x"
unfolding normalize_email
same = refl

resettable : is_resettable AccountType.farm_owner ≡ true
unfolding is_resettable
resettable = refl

free : lookup (blacklist_key "j") app.password_reset.server.0 ≡ none
unfolding lookup
free = refl

accepted :
    accept (spring_request settings (value AccountType.farm_owner) (pos 4) "Abcdef1!") 0
    ≡ (ok 200, 1)
accepted = refl

complex : is_complex is_digit "Abcdef1!" ≡ true
unfolding is_complex
complex = refl

abbrev render : Value → String
render v = "?"

reset_routes_journey_example :
    let first =
      begun whole reachable counting
        (λ t. t)
        digest
        digest_ascii
        (λ t. t)
        settings
        accept
        encode
        decode
        render
        is_digit
        parse
        "k"
        "c1"
        "g"
        "j"
        "A@x"
        "Abcdef1!"
        7
        clock
        clock2
        later
        issued
        later
        tables
        none
        request
        the_owner
        app
        1 in
    let second =
      given whole reachable counting
        (λ t. t)
        digest
        digest_ascii
        (λ t. t)
        settings
        accept
        encode
        decode
        render
        is_digit
        parse
        "k"
        "c1"
        "g"
        "j"
        "A@x"
        "Abcdef1!"
        7
        clock
        clock2
        later
        issued
        later
        tables
        none
        request
        the_owner
        app
        1 in
    let third =
      changed whole reachable counting
        (λ t. t)
        digest
        digest_ascii
        (λ t. t)
        settings
        accept
        encode
        decode
        render
        is_digit
        parse
        "k"
        "c1"
        "g"
        "j"
        "A@x"
        "Abcdef1!"
        7
        clock
        clock2
        later
        issued
        later
        tables
        none
        request
        the_owner
        app
        1 in
    (first.0
      ≡ ok (record {
        challenge_id = "c1";
        masked_email = mask_email (normalize_email "A@x");
        expires_in = 300;
      }))
    × (first.1.otp.delivery_tasks
        ≡ record { challenge_id = "c1"; email = normalize_email "a@x"; code = six_digits 7 } ∷ [])
    × ((token : String) × (second.0 ≡ ok (token, 600))
        × ((third token).0 ≡ ok "Senha redefinida com sucesso.")
        × ((third token).1.password_reset.spring ≡ 1)
        × (lookup (blacklist_key "j") (third token).1.password_reset.server.0 ≡ some flag))
reset_routes_journey_example =
    reset_routes_journey whole reachable counting (λ t. t) digest digest_ascii (λ t. t) settings
      accept encode decode render is_digit parse "k" "c1" "g" "j" "A@x" "Abcdef1!" 7 clock clock2
      later issued later tables none request the_owner app 1 (record { connected = refl })
      (record { enabled = refl; secret = refl; host = refl; remote = refl; connected = refl })
      (record { remote = refl; connected = refl }) decodes unused only same (omega arith)
      (omega arith) refl complex resettable (omega arith) (omega arith) free accepted
