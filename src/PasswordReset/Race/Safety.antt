-- ===== src/PasswordReset/Race/Safety.antt =====
-- Overlapping calls of `confirm_reset` with one token.
use text.Mathlib.TextLemmas.{append_cancel_left}
use ms_auth_service.Prelude.{
  ℕ, String, ◌≡◌, ap, ◌≢◌, ◌↔◌, inl, inr, true, false, none, is_some, Bool-cases, refl, eqb, arith,
}
use ms_auth_service.Py.Exec.{Exec}
use ms_auth_service.Redis.{Redis}
use ms_auth_service.Redis.Laws.{IsReachable}
use ms_auth_service.PasswordReset.{Settings, Service, Update}
use ms_auth_service.PasswordReset.Confirm.{blacklist_key}
use ms_auth_service.PasswordReset.Race.{
  Call, Pc, holds, is_active, turn, take_turn, System, Step, Reach, Follows,
}
use ms_auth_service.PasswordReset.Race.{IsConnected}
use ms_auth_service.PasswordReset.Race.Remote.{reserve-spring}
use ms_auth_service.PasswordReset.Race.Invariant.{Reach-IsSound}

module _ {Server Spring : Type 0} (redis : Redis Server) (law : IsReachable redis) (c : Settings)
    (post : Update → Exec Spring ℕ) (calls : ℕ → Call) (service : Service Server Spring)
    (s : System Server Spring) where
  -- With the blacklist in a Redis server that can be reached throughout and drops no key, and a
  -- client that is open: in every state that overlapping calls come to, when one call stands
  -- between its reservation and its end, or has ended well, no other call with that token does.
  -- Calls that failed and gave the token back are not counted.
  pub update_once :
      IsConnected service
      → Reach redis c post calls service s
      → (i j : ℕ) → i ≢ j
      → (calls i).claims.jti ≡ (calls j).claims.jti
      → holds (s.pc i) ≡ true
      → holds (s.pc j) ≡ false
  update_once h reach i j differ same hi =
      let (_, inv) = Reach-IsSound redis law c post calls service s h reach in
      let one = inv.unique i j hi in
      let key = ap blacklist_key same in
      elim (Bool-cases (holds (s.pc j))) [ inl hj ↦ absurd (differ (one hj key)) | inr e ↦ e ]

  Step-done :
      (i : ℕ) (t u : System Server Spring)
      → Step redis c post calls t u
      → t.pc i ≡ Pc.done
      → u.pc i ≡ Pc.done
  Step-done i t u (Step.pick j active _) e = elim (Bool-cases (eqb j i)) [
    | inl same ↦
        let one : j ≡ i = ground arith in
        let idle : is_active (t.pc i) ≡ false = rw e refl in
        let busy : is_active (t.pc i) ≡ true = rw one at active in ground (arith, busy, idle)
    | inr differ ↦ rw differ e
  ]

  Follows-done :
      (i : ℕ) (t : System Server Spring)
      → Follows redis c post calls s t
      → s.pc i ≡ Pc.done
      → t.pc i ≡ Pc.done
  Follows-done i t Follows.now e = e
  Follows-done i u (Follows.next {t = t} follows step) e =
      Step-done i t u step (Follows-done i t follows e)

  Follows-Reach :
      (t : System Server Spring)
      → Reach redis c post calls service s
      → Follows redis c post calls s t
      → Reach redis c post calls service t
  Follows-Reach t reach Follows.now = reach
  Follows-Reach u reach (Follows.next {t = t} follows step) =
      Reach.later (Follows-Reach t reach follows) step

  -- A call that holds nothing does not reach the Spring service in its next turn.
  turn-spring :
      (k : Call) (p : Pc) (v : Service Server Spring)
      → IsConnected v
      → holds p ≡ false
      → (turn redis c post k p v).1.spring ≡ v.spring
  unfolding turn
  turn-spring k Pc.ready v h idle = reserve-spring redis law k v h
  turn-spring k Pc.reserved v h idle = ground arith
  turn-spring k (Pc.failing x) v h idle = ground arith
  turn-spring k Pc.done v h idle = refl
  turn-spring k (Pc.refused x) v h idle = refl

  -- With the blacklist in a Redis server that can be reached throughout and drops no key, and a
  -- client that is open: once a call has ended well, in every state that the calls come to later, no
  -- other call with its token has reserved it, and the next turn of such a call leaves the Spring
  -- service as it is.
  pub updated_for_good :
      (t : System Server Spring)
      → IsConnected service
      → Reach redis c post calls service s
      → Follows redis c post calls s t
      → (i j : ℕ) → i ≢ j
      → (calls i).claims.jti ≡ (calls j).claims.jti
      → s.pc i ≡ Pc.done
      → (holds (t.pc j) ≡ false)
        × ((take_turn redis c post calls j t).service.spring ≡ t.service.spring)
  updated_for_good t h reach follows i j differ same done =
      let (still, inv) =
        Reach-IsSound redis law c post calls service t h (Follows-Reach t reach follows) in
      let held : holds (t.pc i) ≡ true = rw (Follows-done i t follows done) refl in
      let key = ap blacklist_key same in
      let idle : holds (t.pc j) ≡ false = elim (Bool-cases (holds (t.pc j))) [
        | inl hj ↦ absurd (differ (inv.unique i j held hj key))
        | inr e ↦ e
      ] in
      (idle, turn-spring (calls j) (t.pc j) t.service still idle)

  -- With the blacklist in a Redis server that can be reached throughout and drops no key, and a
  -- client that is open: a token that was not on the blacklist at the start is on it, in every
  -- state that overlapping calls come to, exactly when a call with that token holds it, which is
  -- from its reservation to its release, and for good when it ended well.
  pub blacklisted_iff_held :
      (jti : String)
      → IsConnected service
      → Reach redis c post calls service s
      → law.contents service.server (blacklist_key jti) ≡ none
      → (is_some (law.contents s.service.server (blacklist_key jti)) ≡ true)
        ↔ ((i : ℕ) × ((calls i).claims.jti ≡ jti) × (holds (s.pc i) ≡ true))
  blacklisted_iff_held jti h reach free =
      let (_, inv) = Reach-IsSound redis law c post calls service s h reach in
      (
        λ there.
            let (i, e, hold) = inv.held (blacklist_key jti) free there in
            (i, append_cancel_left "ouros:auth:password-reset:blacklist:" _ _ e, hold),
        λ (i, e, hold). let there = inv.present i hold in rw (ap blacklist_key e) at there,
      )
