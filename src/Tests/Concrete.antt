-- ===== src/Tests/Concrete.antt =====
-- The parameters of the model at concrete values: a Redis server that is a dictionary in memory, a
-- keyed digest, and the settings of the OTP service.
use ms_auth_service.Prelude.{
  String, ◌≡◌, refl, Bool, true, false, not, Option, none, some, [], ◌==◌, if◌then◌else◌, is_some,
}
use ms_auth_service.Py.Int.{pos}
use ms_auth_service.Py.Str.{is_ascii}
use ms_auth_service.Py.Dict.{Dict, lookup, insert, erase}
use ms_auth_service.Py.Dict.Laws.{lookup-insert, lookup-erase}
use ms_auth_service.Py.Value.{Value, entries, of_dict}
use ms_auth_service.Py.Exec.{ok}
use ms_auth_service.Redis.{Redis, Raw}
use ms_auth_service.Redis.Laws.{IsReachable, flag}
use ms_auth_service.EmailOtp.{Otp, Record}

abbrev pub decoded : Raw → Option (Dict Value)
decoded (Raw.json (Value.dict es)) = some (entries es)
decoded _ = none

-- A server that keeps what it is told, for ever.
abbrev pub redis : Redis (Dict Raw)
redis = record {
  ping = λ t. (ok tt, t);
  send = λ t. (ok tt, t);
  receive = λ t. (ok tt, t);
  get = λ k t. (ok (lookup k t), t);
  set = λ k v ttl t. (ok tt, insert k v t);
  set_keepttl = λ k v t. (ok tt, insert k v t);
  set_nx = λ k ttl t. (
    ok (not (is_some (lookup k t))),
    if is_some (lookup k t) then t else insert k (Raw.json (Value.int (pos 1))) t,
  );
  delete = λ k t. (ok tt, erase k t);
  incr = λ k t. (ok 1, t);
  expire = λ k n t. (ok tt, t);
  ttl = λ k t. (ok (pos 1), t);
  cjson_decode = decoded;
  cjson_encode = λ r. Raw.json (Value.dict (of_dict r));
}

abbrev pub redis_reachable : IsReachable redis
redis_reachable = record {
  contents = λ t k. lookup k t;
  ping_lem = λ t. refl;
  send_lem = λ t. refl;
  receive_lem = λ t. refl;
  get_lem = λ k t. refl;
  set_lem = λ k v ttl t. (insert k v t, refl, λ j. lookup-insert k j v t);
  set_keepttl_lem = λ k v t. (insert k v t, refl, λ j. lookup-insert k j v t);
  delete_lem = λ k t. (erase k t, refl, λ j. lookup-erase k j t);
  set_nx_free = λ k ttl t e. (insert k flag t, rw e refl, λ j. lookup-insert k j flag t);
  set_nx_taken = λ k ttl t v e. rw e refl;
}

-- A digest that shows only the last character of the code.
abbrev pub digest : String → String → String
digest key payload =
    if payload == "c1:000007" then "d7" else if payload == "c1:000008" then "d8" else "d0"

if_ascii :
    (b : Bool) (s t : String)
    → is_ascii s ≡ true
    → is_ascii t ≡ true
    → is_ascii (if b then s else t) ≡ true
if_ascii true s t hs ht = hs
if_ascii false s t hs ht = ht

pub digest_ascii : (k p : String) → is_ascii (digest k p) ≡ true
unfolding is_ascii
digest_ascii k p =
    if_ascii (p == "c1:000007") "d7" (if p == "c1:000008" then "d8" else "d0") refl
      (if_ascii (p == "c1:000008") "d8" "d0" refl refl)

-- The OTP service with its challenges in memory, or in Redis.
abbrev pub local_otp : Dict Record → Otp (Dict Raw)
local_otp memory = record {
  enabled = true;
  hmac_secret = some "k";
  ttl_seconds = 300;
  max_attempts = 3;
  redis_url = none;
  connected = false;
  memory = memory;
  delivery_tasks = [];
  smtp_host = some "smtp";
  server = [];
}

abbrev pub remote_otp : Dict Raw → Otp (Dict Raw)
remote_otp t = record {
  enabled = true;
  hmac_secret = some "k";
  ttl_seconds = 300;
  max_attempts = 3;
  redis_url = some "redis://";
  connected = true;
  memory = [];
  delivery_tasks = [];
  smtp_host = some "smtp";
  server = t;
}
