-- ===== src/RateLimit/Check.antt =====
-- The loop of `check_credentials_attempt` and `check_password_reset_attempt` over memory, against
-- the attempts that the open windows hold.
use ms_auth_service.Prelude.{
  ℕ, suc, ◌+◌, ◌≤◌, ◌<◌, String, ◌≡◌, ◌≢◌, refl, Bool, true, false, ◌||◌, List, [], ◌∷◌, arith, leb,
  ltb, length, max,
}
use ms_auth_service.Py.Dict.{IsDict}
use ms_auth_service.Py.Exec.{Exn, ok, raise, raise_rate_limit}
use ms_auth_service.Redis.{Redis}
use ms_auth_service.RateLimit.{Rule, Limiter, Digests, rule_key, worst, consume, check_rules}
use ms_auth_service.RateLimit.Memory.{
  MemoryCounters, Increment, memory_max_entries, increment_memory,
}
use ms_auth_service.RateLimit.Memory.Bounds.{
  IsBounded, increment_memory-IsBounded, length-increment_memory-le, retry_after_positive,
}
use ms_auth_service.RateLimit.Memory.Counts.{
  attempts, increment_memory-attempts, increment_memory-attempts_ne,
}
use ms_auth_service.RateLimit.Fallback.{IsIsolated, increment_isolated}

-- What the loop does to the counters.
unfoldable pub consume_memory :
    Digests → (ℕ → ℕ) → ℕ → List Rule → ℕ → MemoryCounters → ℕ × MemoryCounters
consume_memory d clock i [] longest m = (longest, m)
consume_memory d clock i (rule ∷ rules) longest m =
    let (r, m') = increment_memory (rule_key d rule) rule.window_seconds (clock i) m in
    consume_memory d clock (suc i) rules (worst rule r longest) m'

-- Some rule's open window already holds as many attempts as the rule allows.
abbrev pub exceeded : Digests → (ℕ → ℕ) → ℕ → List Rule → MemoryCounters → Bool
exceeded d clock i [] m = false
exceeded d clock i (rule ∷ rules) m =
    leb rule.limit (attempts (clock i) (rule_key d rule) m) || exceeded d clock (suc i) rules m

abbrev pub NoKey : Digests → String → List Rule → Type 0
NoKey d key [] = Unit
NoKey d key (rule ∷ rules) = (key ≢ rule_key d rule) × NoKey d key rules

-- The rules count under different keys, and their windows are not empty.
abbrev pub AreDistinct : Digests → List Rule → Type 0
AreDistinct d [] = Unit
AreDistinct d (rule ∷ rules) =
    (0 < rule.window_seconds) × NoKey d (rule_key d rule) rules × AreDistinct d rules

module _ (d : Digests) (clock : ℕ → ℕ) (grows : (i j : ℕ) → i ≤ j → clock i ≤ clock j) where
  -- An increment of another key does not change what a later round finds.
  exceeded-increment_memory :
      (key : String) (w now i : ℕ) (rules : List Rule) (m : MemoryCounters)
      → now ≤ clock i
      → IsDict m.counters
      → length m.counters < memory_max_entries
      → NoKey d key rules
      → exceeded d clock i rules (increment_memory key w now m).1 ≡ exceeded d clock i rules m
  exceeded-increment_memory key w now i [] m le dict room other = refl
  exceeded-increment_memory key w now i (rule ∷ rules) m le dict room other =
      let later : clock i ≤ clock (suc i) = grows i (suc i) (omega arith) in
      cc (
        increment_memory-attempts_ne key (rule_key d rule) w now (clock i) m dict room le other.0,
        exceeded-increment_memory key w now (suc i) rules m (omega arith) dict room other.1,
      )

  worst_positive :
      (rule : Rule) (r : Increment) (longest : ℕ)
      → 1 ≤ r.retry_after
      → ltb 0 (worst rule r longest) ≡ (ltb rule.limit r.count || ltb 0 longest)
  unfolding worst
  worst_positive rule r longest h = ground arith

  consume_memory-exceeded :
      (i : ℕ) (rules : List Rule) (longest : ℕ) (m : MemoryCounters)
      → IsBounded m
      → length m.counters + length rules ≤ memory_max_entries
      → AreDistinct d rules
      → ltb 0 (consume_memory d clock i rules longest m).0
        ≡ (ltb 0 longest || exceeded d clock i rules m)
  unfolding consume_memory
  consume_memory-exceeded i [] longest m b room dist = ground arith
  consume_memory-exceeded i (rule ∷ rules) longest m b room dist =
      let key = rule_key d rule in
      let w = rule.window_seconds in
      let r = (increment_memory key w (clock i) m).0 in
      let m' = (increment_memory key w (clock i) m).1 in
      ground (
        arith,
        consume_memory-exceeded (suc i) rules (worst rule r longest) m'
            (increment_memory-IsBounded key w (clock i) m b)
            (omega (arith, length-increment_memory-le key w (clock i) m)) dist.2,
        worst_positive rule r longest (retry_after_positive key w (clock i) m),
        exceeded-increment_memory key w (clock i) (suc i) rules m (grows i (suc i) (omega arith))
            b.distinct (omega arith) dist.1,
        (increment_memory-attempts key w (clock i) m b.distinct dist.0).0,
      )

  module _ {Server : Type 0} (redis : Redis Server) where
    pub consume_isolated :
        (i : ℕ) (rules : List Rule) (longest : ℕ) (s : Limiter Server)
        → IsIsolated redis s
        → let (n, m) = consume_memory d clock i rules longest s.memory in
          (t : Server) × (consume redis d clock i rules longest s
            ≡ (ok n, record s { memory = m; server = t }))
    unfolding consume_memory consume
    consume_isolated i [] longest s h = (s.server, refl)
    consume_isolated i (rule ∷ rules) longest s h =
        let key = rule_key d rule in
        let w = rule.window_seconds in
        let (t, e) = increment_isolated redis key w (clock i) s h in
        let (r, m) = increment_memory key w (clock i) s.memory in
        let s' = record s { memory = m; server = t } in
        let (t', e') =
          consume_isolated (suc i) rules (worst rule r longest) s'
            (record { unconnected = h.unconnected; no_server = h.no_server }) in
        (t', rw e e')

    -- Without Redis, an attempt is refused exactly when some rule's open window already holds as
    -- many attempts as the rule allows, and then with a `Retry-After` of a second at least. This
    -- needs room for the rules' counters, a clock that does not go back, and rules that count
    -- under different keys.
    pub check_rules-exceeded :
        (rules : List Rule) (s : Limiter Server)
        → IsIsolated redis s
        → IsBounded s.memory
        → length s.memory.counters + length rules ≤ memory_max_entries
        → AreDistinct d rules
        → let r = (check_rules redis d clock rules s).0 in
          (exceeded d clock 0 rules s.memory ≡ false → r ≡ ok tt)
          × (exceeded d clock 0 rules s.memory ≡ true
              → (n : ℕ) × (r ≡ raise (Exn.rate_limit_exceeded n)) × (1 ≤ n))
    unfolding check_rules raise_rate_limit
    check_rules-exceeded rules s h b room dist =
        let n = (consume_memory d clock 0 rules 0 s.memory).0 in
        let (t, e) = consume_isolated 0 rules 0 s h in
        let p = consume_memory-exceeded 0 rules 0 s.memory b room dist in
        (λ q. ground (arith, e, p), λ q. (max n 1, ground (arith, e, p), omega arith))
