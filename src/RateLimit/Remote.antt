-- ===== src/RateLimit/Remote.antt =====
-- `check_credentials_attempt` and `check_password_reset_attempt` of app/core/rate_limit.py with the
-- counters in Redis.
use ms_auth_service.Prelude.{
  ℕ, suc, ◌<◌, ◌≤◌, String, ◌≡◌, refl, ◌⊎◌, inl, inr, Bool, true, false, not, ◌||◌, Option, List,
  [], ◌∷◌, ◌==◌, if◌then◌else◌, eqb, leb, ltb, max, is_some, arith, Bool-cases, eq_iff,
}
use ms_auth_service.Py.Int.{ℤ, pos, negsuc}
use ms_auth_service.Py.Exec.{Exn, Result, ok, raise, raise_rate_limit}
use ms_auth_service.Redis.{Redis, eval}
use ms_auth_service.Redis.Laws.{IsCounting}
use ms_auth_service.RateLimit.{
  Rule, Limiter, Digests, digests, rule_key, at_least_one, worst, counter_script, connect,
  try_connect, increment_redis, fall_back, increment, consume, check_rules, credential_rules,
  password_reset_rules, check_credentials_attempt, check_password_reset_attempt,
}
use ms_auth_service.RateLimit.Memory.{Increment}
use ms_auth_service.RateLimit.Check.{NoKey, AreDistinct}
use ms_auth_service.RateLimit.Attempts.{
  credential_rules-AreDistinct, password_reset_rules-AreDistinct,
}

-- Some rule's counter already stands at its limit.
abbrev pub exceeded : (String → ℕ) → Digests → List Rule → Bool
exceeded counts d [] = false
exceeded counts d (rule ∷ rules) =
    leb rule.limit (counts (rule_key d rule)) || exceeded counts d rules

-- The key is that of one of the rules.
abbrev pub is_key : Digests → String → List Rule → Bool
is_key d k [] = false
is_key d k (rule ∷ rules) = rule_key d rule == k || is_key d k rules

exceeded_cong :
    (f g : String → ℕ) (d : Digests) (k : String) (rules : List Rule)
    → ((j : String) → f j ≡ (if k == j then suc (g j) else g j))
    → NoKey d k rules
    → exceeded f d rules ≡ exceeded g d rules
exceeded_cong f g d k [] after other = refl
exceeded_cong f g d k (rule ∷ rules) after other =
    let ih = exceeded_cong f g d k rules after other.1 in
    let at : f (rule_key d rule) ≡ g (rule_key d rule) =
      ground (arith, after (rule_key d rule), eq_iff k (rule_key d rule), other.0) in
    cc

is_key-NoKey :
    (d : Digests) (k : String) (rules : List Rule) → NoKey d k rules → is_key d k rules ≡ false
is_key-NoKey d k [] other = refl
is_key-NoKey d k (rule ∷ rules) other =
    ground (arith, is_key-NoKey d k rules other.1, eq_iff (rule_key d rule) k, other.0)

at_least_one_lem : (n : ℤ) → 0 < at_least_one n
unfolding at_least_one
at_least_one_lem (pos n) = omega arith
at_least_one_lem (negsuc n) = omega arith

worst_full :
    (rule : Rule) (count retry longest n : ℕ) (later before : Bool)
    → 0 < retry
    → ltb 0 n
      ≡ (ltb 0 (worst rule (record { count = suc count; retry_after = retry }) longest) || later)
    → later ≡ before
    → ltb 0 n ≡ (ltb 0 longest || (leb rule.limit count || before))
unfolding worst
worst_full rule count retry longest n later before positive e same = ground arith

-- There is a client.
pub record IsConnected {Server : Type 0} (s : Limiter Server) : Type 0 where
  pub connected : s.connected ≡ true

module _ {Server : Type 0} (redis : Redis Server) (law : IsCounting redis) where
  -- One more for one key.
  abbrev Counted : String → Server → Server → Type 0
  Counted k t t' =
      (j : String) → law.counts t' j ≡ (if k == j then suc (law.counts t j) else law.counts t j)

  counter_script_lem :
      (k : String) (w : ℕ) (t : Server)
      → 0 < w
      → (n : ℤ) × (t' : Server) × (eval redis (counter_script redis k w) t
          ≡ (ok (suc (law.counts t k), n), t'))
        × Counted k t t'
  unfolding counter_script
  counter_script_lem k w t positive =
      let (t1, incr, after1) = law.incr_lem k t in
      let (t2, expire, after2) = law.expire_lem k w t1 positive in
      let (n1, ttl1) = law.ttl_lem k t1 in
      let (n2, ttl2) = law.ttl_lem k t2 in
      elim (Bool-cases (eqb (suc (law.counts t k)) 1)) [
        | inl e ↦ (
          n2,
          t2,
          rw (law.send_lem t, incr, e, expire, ttl2, law.receive_lem t2) refl,
          λ j. cc (after1 j, after2 j),
        )
        | inr e ↦ (n1, t1, rw (law.send_lem t, incr, e, ttl1, law.receive_lem t1) refl, after1)
      ]

  increment_remote :
      (k : String) (w now : ℕ) (s : Limiter Server)
      → IsConnected s
      → 0 < w
      → (n : ℕ) × (t' : Server) × (0 < n)
        × (increment redis k w now s ≡ (
          ok (record { count = suc (law.counts s.server k); retry_after = n }),
          record s { server = t' },
        ))
        × Counted k s.server t'
  unfolding increment try_connect connect increment_redis fall_back
  increment_remote k w now s h positive =
      let (n, t', e, after) = counter_script_lem k w s.server positive in
      (
        at_least_one n,
        t',
        at_least_one_lem n,
        elim (Bool-cases (not (is_some s.redis_url))) [
          | inl u ↦ rw (h.connected, u, e) refl
          | inr u ↦ rw (h.connected, u, e) refl
        ],
        after,
      )

  -- Every rule's counter is one higher than before, and no other.
  abbrev pub AllCounted : Digests → List Rule → Server → Server → Type 0
  AllCounted d rules t t' =
      (j : String)
      → law.counts t' j ≡ (if is_key d j rules then suc (law.counts t j) else law.counts t j)

  all_counted :
      (d : Digests) (rule : Rule) (rules : List Rule) (t t1 t2 : Server)
      → NoKey d (rule_key d rule) rules
      → Counted (rule_key d rule) t t1
      → AllCounted d rules t1 t2
      → AllCounted d (rule ∷ rules) t t2
  all_counted d rule rules t t1 t2 other one rest j =
      let k = rule_key d rule in
      elim (Bool-cases (k == j)) [
        | inl e ↦
            let alone : is_key d j rules ≡ false =
              rw ((eq_iff k j).0 e) at (is_key-NoKey d k rules other) in
            ground (arith, one j, rest j)
        | inr e ↦ ground (arith, one j, rest j)
      ]

  consume_remote :
      (d : Digests) (clock : ℕ → ℕ) (i : ℕ) (rules : List Rule) (longest : ℕ) (s : Limiter Server)
      → IsConnected s
      → AreDistinct d rules
      → (n : ℕ) × (t : Server) × (consume redis d clock i rules longest s
          ≡ (ok n, record s { server = t }))
        × (ltb 0 n ≡ (ltb 0 longest || exceeded (law.counts s.server) d rules))
        × AllCounted d rules s.server t
  unfolding consume
  consume_remote d clock i [] longest s h dist = (longest, s.server, refl, ground arith, λ j. refl)
  consume_remote d clock i (rule ∷ rules) longest s h dist =
      let k = rule_key d rule in
      let (n, t1, positive, e, after) =
        increment_remote k rule.window_seconds (clock i) s h dist.0 in
      let r : Increment = record { count = suc (law.counts s.server k); retry_after = n } in
      let s1 = record s { server = t1 } in
      let (m, t2, e2, full, rest) =
        consume_remote d clock (suc i) rules (worst rule r longest) s1
          (record { connected = h.connected }) dist.2 in
      let same = exceeded_cong (law.counts t1) (law.counts s.server) d k rules after dist.1 in
      (
        m,
        t2,
        rw e e2,
        worst_full rule (law.counts s.server k) n longest m (exceeded (law.counts t1) d rules)
            (exceeded (law.counts s.server) d rules) positive full same,
        all_counted d rule rules s.server t1 t2 dist.1 after rest,
      )

  -- An attempt is refused exactly when a counter stood at its limit, and every counter counts it.
  abbrev pub IsDecided :
      List Rule → Digests → Limiter Server → Result (Unit {0}) × Limiter Server → Type 0
  IsDecided rules d s v =
      let full = exceeded (law.counts s.server) d rules in
      (((full ≡ false) × (v.0 ≡ ok tt))
        ⊎ ((full ≡ true) × ((n : ℕ) × (v.0 ≡ raise (Exn.rate_limit_exceeded n)) × (1 ≤ n))))
      × (v.1 ≡ record s { server = v.1.server })
      × AllCounted d rules s.server v.1.server

  check_rules_remote :
      (d : Digests) (clock : ℕ → ℕ) (rules : List Rule) (s : Limiter Server)
      → IsConnected s
      → AreDistinct d rules
      → IsDecided rules d s (check_rules redis d clock rules s)
  unfolding check_rules raise_rate_limit
  check_rules_remote d clock rules s h dist =
      let (n, t, e, full, counted) = consume_remote d clock 0 rules 0 s h dist in
      elim (Bool-cases (ltb 0 n)) [
        | inl p ↦ rw (e, p) (inr (ground arith, (max n 1, refl, omega arith)), refl, counted)
        | inr p ↦ rw (e, p) (inl (ground arith, refl), refl, counted)
      ]

  module _ (sha256 : String → String) (clock : ℕ → ℕ) (client : Option String) (email : String)
      (s : Limiter Server) where
    -- With Redis, while no counter expires: a login attempt is refused exactly when some rule's
    -- counter, of the caller's address or of the normalized email, already stands at its limit,
    -- and then with a `Retry-After` of a second at least. Refused or not, it counts once under
    -- each of the four rules and under no other key, and nothing else of the limiter changes. The
    -- burst window must not be empty.
    pub check_credentials_attempt_remote :
        IsConnected s
        → 0 < s.limits.ip_burst_window_seconds
        → IsDecided
            (credential_rules s.limits)
            (digests sha256 client email)
            s
            (check_credentials_attempt redis sha256 clock client email s)
    unfolding check_credentials_attempt
    check_credentials_attempt_remote h positive =
        let d = digests sha256 client email in
        check_rules_remote d clock (credential_rules s.limits) s h
          (credential_rules-AreDistinct d s.limits positive)

    -- The same of a password reset attempt and its two rules.
    pub check_password_reset_attempt_remote :
        IsConnected s
        → IsDecided password_reset_rules
            (digests sha256 client email)
            s
            (check_password_reset_attempt redis sha256 clock client email s)
    unfolding check_password_reset_attempt
    check_password_reset_attempt_remote h =
        let d = digests sha256 client email in
        check_rules_remote d clock password_reset_rules s h (password_reset_rules-AreDistinct d)
