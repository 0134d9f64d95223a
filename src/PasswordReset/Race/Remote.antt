-- ===== src/PasswordReset/Race/Remote.antt =====
-- One turn of a call of `confirm_reset` with the blacklist in a Redis server that can be reached:
-- what it does to the token's key, which is all that the calls share.
use ms_auth_service.Prelude.{
  ℕ, ◌-◌, ◌/◌, String, ◌≡◌, refl, inl, inr, true, false, Option, none, some, ◌==◌, if◌then◌else◌,
  max, arith, Option-cases,
}
use ms_auth_service.Py.Exec.{Result-cases, Exn, ok, raise, Exec}
use ms_auth_service.Redis.{Redis, Raw}
use ms_auth_service.Redis.Laws.{IsReachable, flag}
use ms_auth_service.RateLimit.Memory.{ticks}
use ms_auth_service.Identity.{value}
use ms_auth_service.PasswordReset.{Settings, Service, Update, token_used}
use ms_auth_service.PasswordReset.Confirm.{blacklist_key, reserve_token, release_token}
use ms_auth_service.PasswordReset.Confirm.Branches.{call_lem}
use ms_auth_service.PasswordReset.Race.{Call, Pc, is_active, turn, IsConnected, after_reserve}

-- The key of the call's token.
abbrev pub token_key : Call → String
token_key k = blacklist_key k.claims.jti

-- What a turn does to a map of keys, when the token's key is `key`.
pub data Turned (key : String) (m n : String → Option Raw) : Pc → Pc → Type 0 where
  reserves :
      m key ≡ none
      → ((j : String) → n j ≡ (if key == j then some flag else m j))
      → Turned key m n Pc.ready Pc.reserved
  refuses :
      (v : Raw)
      → m key ≡ some v
      → ((j : String) → n j ≡ m j)
      → Turned key m n Pc.ready (Pc.refused token_used)
  calls : ((j : String) → n j ≡ m j) → Turned key m n Pc.reserved Pc.done
  fails : (e : Exn) → ((j : String) → n j ≡ m j) → Turned key m n Pc.reserved (Pc.failing e)
  releases :
      (e : Exn)
      → ((j : String) → n j ≡ (if key == j then none else m j))
      → Turned key m n (Pc.failing e) (Pc.refused e)

module _ {Server Spring : Type 0} (redis : Redis Server) (law : IsReachable redis) where
  pub reserve_free :
      (now : ℕ) (jti : String) (ttl : ℕ) (t : Server) (s : Service Server Spring)
      → IsConnected s
      → redis.set_nx (blacklist_key jti) (max ttl 1) s.server ≡ (ok true, t)
      → reserve_token redis now jti ttl s ≡ (ok tt, record s { server = t })
  unfolding reserve_token
  reserve_free now jti ttl t s h e = rw (h.remote, h.connected, e) refl

  reserve_taken :
      (now : ℕ) (jti : String) (ttl : ℕ) (s : Service Server Spring)
      → IsConnected s
      → redis.set_nx (blacklist_key jti) (max ttl 1) s.server ≡ (ok false, s.server)
      → reserve_token redis now jti ttl s ≡ (raise token_used, s)
  unfolding reserve_token
  reserve_taken now jti ttl s h e = rw (h.remote, h.connected, e) refl

  -- A reservation does not reach the Spring service.
  pub reserve-spring :
      (k : Call) (s : Service Server Spring)
      → IsConnected s
      → (after_reserve (
          reserve_token redis k.later k.claims.jti
            (max (k.claims.exp - k.at / ticks) 1)
            s)).1.spring
        ≡ s.spring
  reserve-spring k s h =
      let ttl = max (k.claims.exp - k.at / ticks) 1 in
      elim (Option-cases (law.contents s.server (token_key k))) [
        | inl free ↦
            let (t, e, _) = law.set_nx_free (token_key k) (max ttl 1) s.server free in
            rw (reserve_free k.later k.claims.jti ttl t s h e) refl
        | inr (v, taken) ↦
            rw
              (reserve_taken k.later k.claims.jti ttl s h
                (law.set_nx_taken (token_key k) (max ttl 1) s.server v taken))
              refl
      ]

  release_remote :
      (jti : String) (t : Server) (s : Service Server Spring)
      → IsConnected s
      → redis.delete (blacklist_key jti) s.server ≡ (ok tt, t)
      → release_token redis jti s ≡ (ok tt, record s { server = t })
  unfolding release_token
  release_remote jti t s h e = rw (h.remote, h.connected, e) refl

  module _ (c : Settings) (post : Update → Exec Spring ℕ) (k : Call) (s : Service Server Spring)
      (h : IsConnected s) where
    abbrev Turns : Pc → Pc × Service Server Spring → Type 0
    Turns p (p', s') =
        Turned (token_key k) (law.contents s.server) (law.contents s'.server) p p' × IsConnected s'

    server-IsConnected : (t : Server) → IsConnected (record s { server = t })
    server-IsConnected t = record { remote = h.remote; connected = h.connected }

    spring-IsConnected : (w : Spring) → IsConnected (record s { spring = w })
    spring-IsConnected w = record { remote = h.remote; connected = h.connected }

    turn-ready : Turns Pc.ready (turn redis c post k Pc.ready s)
    unfolding turn
    turn-ready =
        let key = token_key k in
        let ttl = max (k.claims.exp - k.at / ticks) 1 in
        elim (Option-cases (law.contents s.server key)) [
          | inl free ↦
              let (t, e, after) = law.set_nx_free key (max ttl 1) s.server free in
              rw (reserve_free k.later k.claims.jti ttl t s h e)
                (Turned.reserves free after, server-IsConnected t)
          | inr (v, taken) ↦
              rw
                (reserve_taken k.later k.claims.jti ttl s h
                  (law.set_nx_taken key (max ttl 1) s.server v taken))
                (Turned.refuses v taken (λ j. refl), h)
        ]

    turn-reserved : Turns Pc.reserved (turn redis c post k Pc.reserved s)
    unfolding turn
    turn-reserved =
        let (r, w, e) = call_lem c post (value k.account_type) k.database_id k.password s in
        elim (Result-cases r) [
          | inl (u, r_eq) ↦ rw (e, r_eq) (Turned.calls (λ j. refl), spring-IsConnected w)
          | inr (x, r_eq) ↦ rw (e, r_eq) (Turned.fails x (λ j. refl), spring-IsConnected w)
        ]

    turn-failing : (x : Exn) → Turns (Pc.failing x) (turn redis c post k (Pc.failing x) s)
    unfolding turn
    turn-failing x =
        let (t, e, after) = law.delete_lem (token_key k) s.server in
        rw (release_remote k.claims.jti t s h e) (Turned.releases x after, server-IsConnected t)

    -- A call that has not ended takes its turn so.
    pub turn-Turns : (p : Pc) → is_active p ≡ true → Turns p (turn redis c post k p s)
    turn-Turns Pc.ready a = turn-ready
    turn-Turns Pc.reserved a = turn-reserved
    turn-Turns (Pc.failing x) a = turn-failing x
    turn-Turns Pc.done a = ground arith
    turn-Turns (Pc.refused x) a = ground arith
