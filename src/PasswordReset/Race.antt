-- ===== src/PasswordReset/Race.antt =====
-- Calls of `confirm_reset` (app/services/password_reset_service.py) that overlap, from their
-- reservation on, while the blacklist is in Redis and the service has its client. `_redis_client`
-- then returns the client without waiting, and no lock is taken, so that each turn of a call makes
-- one request and goes on to the next: SET NX, the POST to the Spring service, or DEL after a POST
-- that failed. Other calls may take any number of turns between two of these. What a call does
-- around its request touches nothing that calls share, so a turn stands at the time at which the
-- server carries the request out. Opening the client, and the locks of the client and of the
-- blacklist in memory, are not part of the relation.
pub mod Remote
pub mod Invariant
pub mod Safety
use ms_auth_service.Prelude.{
  ℕ, ◌-◌, ◌/◌, ◌<◌, String, ◌≡◌, Bool, true, false, if◌then◌else◌, is_some, update, max,
}
use ms_auth_service.Py.Int.{ℤ}
use ms_auth_service.Py.Exec.{Exn, Result, ok, raise, Exec}
use ms_auth_service.Redis.{Redis}
use ms_auth_service.RateLimit.Memory.{ticks}
use ms_auth_service.Identity.{AccountType, value}
use ms_auth_service.PasswordReset.{Settings, Service, Claims, Update}
use ms_auth_service.PasswordReset.Confirm.{reserve_token, release_token, call_spring_internal_reset}

-- What `confirm_reset` has found by the time that it reserves: the two readings of the clock, the
-- claims, the account and the new password.
pub record Call : Type 0 where
  pub at : ℕ
  pub later : ℕ
  pub claims : Claims
  pub account_type : AccountType
  pub database_id : ℤ
  pub password : String

-- Where a call stands: before the reservation, before the call to the Spring service, before the
-- release after that call raised, or ended.
pub data Pc : Type 0 where
  ready reserved done : Pc
  failing refused : Exn → Pc

-- The call has not ended.
abbrev pub is_active : Pc → Bool
is_active Pc.done = false
is_active (Pc.refused _) = false
is_active _ = true

-- The call holds its token's entry in the blacklist.
abbrev pub holds : Pc → Bool
holds Pc.ready = false
holds (Pc.refused _) = false
holds _ = true

-- How a call goes on.
module _ {Server Spring : Type 0} where
  abbrev pub after_reserve : Result (Unit {0}) × Service Server Spring → Pc × Service Server Spring
  after_reserve (ok _, s) = (Pc.reserved, s)
  after_reserve (raise e, s) = (Pc.refused e, s)

  abbrev pub after_call : Result (Unit {0}) × Service Server Spring → Pc × Service Server Spring
  after_call (ok _, s) = (Pc.done, s)
  after_call (raise e, s) = (Pc.failing e, s)

  -- `raise` again, unless the release raises itself.
  abbrev pub after_release :
      Exn → Result (Unit {0}) × Service Server Spring → Pc × Service Server Spring
  after_release e (ok _, s) = (Pc.refused e, s)
  after_release e (raise x, s) = (Pc.refused x, s)

module _ {Server Spring : Type 0} (redis : Redis Server) (c : Settings)
    (post : Update → Exec Spring ℕ) where
  -- One turn of a call.
  unfoldable pub turn : Call → Pc → Service Server Spring → Pc × Service Server Spring
  unfolding reserve_token release_token call_spring_internal_reset value
  turn k Pc.ready s =
      after_reserve
        (reserve_token redis k.later k.claims.jti (max (k.claims.exp - k.at / ticks) 1) s)
  turn k Pc.reserved s =
      after_call
        (call_spring_internal_reset c post (value k.account_type) k.database_id k.password s)
  turn k (Pc.failing e) s = after_release e (release_token redis k.claims.jti s)
  turn k Pc.done s = (Pc.done, s)
  turn k (Pc.refused e) s = (Pc.refused e, s)

-- The blacklist is in Redis, and there is a client.
pub record IsConnected {Server Spring : Type 0} (s : Service Server Spring) : Type 0 where
  pub remote : is_some s.redis_url ≡ true
  pub connected : s.connected ≡ true

-- The calls, numbered, over one service.
pub record System (Server Spring : Type 0) : Type 0 where
  pub service : Service Server Spring
  pub pc : ℕ → Pc

module _ {Server Spring : Type 0} (redis : Redis Server) (c : Settings)
    (post : Update → Exec Spring ℕ) (calls : ℕ → Call) where
  -- The i-th call takes its turn.
  abbrev pub take_turn : ℕ → System Server Spring → System Server Spring
  take_turn i s =
      let (p, service) = turn redis c post (calls i) (s.pc i) s.service in
      record { service = service; pc = update s.pc i p }

  pub data Step (s : System Server Spring) : System Server Spring → Type 0 where
    pick : (i : ℕ) → is_active (s.pc i) ≡ true → IsConnected s.service → Step s (take_turn i s)

  abbrev pub initial : Service Server Spring → System Server Spring
  initial service = record { service = service; pc = λ _. Pc.ready }

  -- The states that the calls can come to, in any order of their turns.
  pub data Reach (service : Service Server Spring) : System Server Spring → Type 0 where
    start : Reach service (initial service)
    later : {s t : System Server Spring} → Reach service s → Step s t → Reach service t

  -- What a state can come to later.
  pub data Follows (s : System Server Spring) : System Server Spring → Type 0 where
    now : Follows s s
    next : {t u : System Server Spring} → Follows s t → Step t u → Follows s u
