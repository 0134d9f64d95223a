-- ===== src/Tests/Overlap.antt =====
-- Two calls of `confirm_reset` with one token that overlap, over a Redis server in memory.
use ms_auth_service.Prelude.{ℕ, ◌≡◌, ◌≢◌, ◌↔◌, refl, true, false, none, some, [], is_some, arith}
use ms_auth_service.Py.Int.{pos}
use ms_auth_service.Py.Dict.{Dict, lookup, insert}
use ms_auth_service.Redis.{Raw}
use ms_auth_service.Identity.{AccountType}
use ms_auth_service.PasswordReset.{Service}
use ms_auth_service.PasswordReset.Confirm.{blacklist_key}
use ms_auth_service.PasswordReset.Race.{
  Call, Pc, holds, turn, System, Step, initial, Reach, Follows, take_turn,
}
use ms_auth_service.PasswordReset.Race.{IsConnected}
use ms_auth_service.PasswordReset.Race.Safety.{update_once, updated_for_good, blacklisted_iff_held}
use ms_auth_service.Tests.Concrete.{redis, redis_reachable}
use ms_auth_service.Tests.Reset.{claims, settings, accept}

abbrev pub service : Service (Dict Raw) ℕ
service = record {
  redis_url = some "redis://";
  connected = true;
  blacklist_memory = [];
  server = [];
  spring = 0;
}

pub connected : IsConnected service
connected = record { remote = refl; connected = refl }

abbrev call : Call
call = record {
  at = 10_000_000_000;
  later = 10_000_000_000;
  claims = claims;
  account_type = AccountType.farm_owner;
  database_id = pos 4;
  password = "Abcdef1!";
}

abbrev calls : ℕ → Call
calls i = call

abbrev zero_state : System (Dict Raw) ℕ
zero_state = initial redis settings accept calls service

-- The first call reserves the token, the second one is refused, and the first one ends well.
abbrev end_state : System (Dict Raw) ℕ
end_state =
    take_turn redis settings accept calls 0
      (take_turn redis settings accept calls 1 (take_turn redis settings accept calls 0 zero_state))

connected' : {t : Dict Raw} → IsConnected (record service { server = t })
connected' = record { remote = refl; connected = refl }

reached : Reach redis settings accept calls service end_state
unfolding turn lookup insert
reached =
    Reach.later
      (Reach.later (Reach.later Reach.start (Step.pick 0 refl connected))
        (Step.pick 1 refl connected'))
      (Step.pick 0 refl connected')

free : lookup (blacklist_key "j") service.server ≡ none
unfolding lookup
free = refl

first_done : holds (end_state.pc 0) ≡ true
unfolding turn lookup
first_done = refl

one_update : end_state.service.spring ≡ 1
unfolding turn lookup insert
one_update = refl

differ : ◌≢◌ {A = ℕ} 0 1
differ = λ e. omega arith

update_once_example : holds (end_state.pc 1) ≡ false
update_once_example =
    update_once redis redis_reachable settings accept calls service end_state connected reached 0 1
      differ refl first_done

ended_well : end_state.pc 0 ≡ Pc.done
unfolding turn lookup
ended_well = refl

updated_for_good_example :
    (holds (end_state.pc 1) ≡ false)
    × ((take_turn redis settings accept calls 1 end_state).service.spring
        ≡ end_state.service.spring)
updated_for_good_example =
    updated_for_good redis redis_reachable settings accept calls service end_state end_state
      connected reached Follows.now 0 1 differ refl ended_well

blacklisted_iff_held_example :
    (is_some (lookup (blacklist_key "j") end_state.service.server) ≡ true)
    ↔ ((i : ℕ) × ((calls i).claims.jti ≡ "j") × (holds (end_state.pc i) ≡ true))
blacklisted_iff_held_example =
    blacklisted_iff_held redis redis_reachable settings accept calls service end_state "j" connected
      reached (free)
