-- ===== src/RateLimit/Consume.antt =====
-- The counters of the rules of one attempt (app/core/rate_limit.py), without Redis.
use ms_auth_service.Prelude.{
  ℕ, suc, ◌+◌, ◌≤◌, ◌<◌, String, ◌≡◌, refl, ap, ◌∙◌, sym, Option, some, List, [], ◌∷◌, arith,
  length,
}
use ms_auth_service.Py.Dict.{lookup}
use ms_auth_service.Redis.{Redis}
use ms_auth_service.RateLimit.{Rule, Limiter, Digests, rule_key, worst, check_rules}
use ms_auth_service.RateLimit.Memory.{
  Counter, MemoryCounters, memory_max_entries, next_counter, increment_memory,
}
use ms_auth_service.RateLimit.Memory.Bounds.{
  IsBounded, increment_memory-IsBounded, length-increment_memory-le,
}
use ms_auth_service.RateLimit.Memory.Counts.{
  live, increment_memory-stored, increment_memory-attempts_ne,
}
use ms_auth_service.RateLimit.Fallback.{IsIsolated}
use ms_auth_service.RateLimit.Check.{consume_memory, NoKey, AreDistinct, consume_isolated}

-- The open counter of a key at time t.
abbrev pub open_at : ℕ → String → MemoryCounters → Option Counter
open_at t key m = live t (lookup key m.counters)

-- Between `m` and `m'` each rule's counter took one more attempt, at the time of its round, and
-- in the window that was open then or in a new one.
abbrev pub Counted :
    Digests → (ℕ → ℕ) → ℕ → ℕ → List Rule → MemoryCounters → MemoryCounters → Type 0
Counted d clock t i [] m m' = Unit
Counted d clock t i (rule ∷ rules) m m' =
    (open_at t (rule_key d rule) m'
      ≡ live t (
          some
            (next_counter (clock i) rule.window_seconds (open_at (clock i) (rule_key d rule) m))))
    × Counted d clock t (suc i) rules m m'

module _ (d : Digests) (clock : ℕ → ℕ) (grows : (i j : ℕ) → i ≤ j → clock i ≤ clock j) (t : ℕ)
    (later : (i : ℕ) → clock i ≤ t) where
  consume_memory_other :
      (key : String) (i : ℕ) (rules : List Rule) (longest : ℕ) (m : MemoryCounters)
      → IsBounded m
      → length m.counters + length rules ≤ memory_max_entries
      → NoKey d key rules
      → open_at t key (consume_memory d clock i rules longest m).1 ≡ open_at t key m
  unfolding consume_memory
  consume_memory_other key i [] longest m b room other = refl
  consume_memory_other key i (rule ∷ rules) longest m b room other =
      let k = rule_key d rule in
      let w = rule.window_seconds in
      let (r, m') = increment_memory k w (clock i) m in
      consume_memory_other key (suc i) rules (worst rule r longest) m'
        (increment_memory-IsBounded k w (clock i) m b)
        (omega (arith, length-increment_memory-le k w (clock i) m)) other.1
      ∙ increment_memory-attempts_ne k key w (clock i) t m b.distinct (omega arith) (later i)
          (λ e. other.0 (sym e))

  -- What was counted after an increment of another key was counted from before it too.
  Counted-increment_memory :
      (key : String) (w i j : ℕ) (rules : List Rule) (m m' : MemoryCounters)
      → i ≤ j
      → IsBounded m
      → length m.counters < memory_max_entries
      → NoKey d key rules
      → Counted d clock t j rules (increment_memory key w (clock i) m).1 m'
      → Counted d clock t j rules m m'
  Counted-increment_memory key w i j [] m m' le b room other h = tt
  Counted-increment_memory key w i j (rule ∷ rules) m m' le b room other h = (
    h.0
        ∙ ap (λ (o : Option Counter). live t (some (next_counter (clock j) rule.window_seconds o)))
            (increment_memory-attempts_ne key (rule_key d rule) w (clock i) (clock j) m b.distinct
              room (grows i j le) other.0),
    Counted-increment_memory key w i (suc j) rules m m' (omega arith) b room other.1 h.1,
  )

  consume_memory-Counted :
      (i : ℕ) (rules : List Rule) (longest : ℕ) (m : MemoryCounters)
      → IsBounded m
      → length m.counters + length rules ≤ memory_max_entries
      → AreDistinct d rules
      → Counted d clock t i rules m (consume_memory d clock i rules longest m).1
  unfolding consume_memory
  consume_memory-Counted i [] longest m b room dist = tt
  consume_memory-Counted i (rule ∷ rules) longest m b room dist =
      let k = rule_key d rule in
      let w = rule.window_seconds in
      let r = (increment_memory k w (clock i) m).0 in
      let m' = (increment_memory k w (clock i) m).1 in
      let b' : IsBounded m' = increment_memory-IsBounded k w (clock i) m b in
      let room' : length m'.counters + length rules ≤ memory_max_entries =
        omega (arith, length-increment_memory-le k w (clock i) m) in
      (
        consume_memory_other k (suc i) rules (worst rule r longest) m' b' room' dist.1
            ∙ ap (live t) (increment_memory-stored k w (clock i) m b.distinct),
        Counted-increment_memory k w i (suc i) rules m _ (omega arith) b (omega arith) dist.1
            (consume_memory-Counted (suc i) rules (worst rule r longest) m' b' room' dist.2),
      )

  -- Without Redis an attempt, refused or not, leaves every rule's counter with one attempt more,
  -- and nothing else of the limiter changes but the server.
  pub check_rules-Counted :
      {Server : Type 0} (redis : Redis Server) (rules : List Rule) (s : Limiter Server)
      → IsIsolated redis s
      → IsBounded s.memory
      → length s.memory.counters + length rules ≤ memory_max_entries
      → AreDistinct d rules
      → let s' = (check_rules redis d clock rules s).1 in
        Counted d clock t 0 rules s.memory s'.memory × (s'.limits ≡ s.limits) × IsIsolated redis s'
  unfolding check_rules
  check_rules-Counted redis rules s h b room dist =
      let (u, e) = consume_isolated d clock grows redis 0 rules 0 s h in
      rw e (
        consume_memory-Counted 0 rules 0 s.memory b room dist,
        refl,
        record { unconnected = h.unconnected; no_server = h.no_server },
      )
