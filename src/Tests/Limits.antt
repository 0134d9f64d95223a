-- ===== src/Tests/Limits.antt =====
-- The limiter without Redis, in its second second, with two attempts of an address counted.
use ms_auth_service.Prelude.{
  ℕ, ◌+◌, ◌-◌, ◌/◌, max, ◌≤◌, String, ◌≡◌, ◌⊎◌, inl, refl, true, false, none, some, [], ◌∷◌, arith,
  eq_iff,
}
use ms_auth_service.Py.Dict.{Dict, lookup, erase, IsDict}
use ms_auth_service.Py.Exec.{Exn, ok, raise}
use ms_auth_service.Redis.{Raw}
use ms_auth_service.RateLimit.Memory.{
  Counter, MemoryCounters, ticks, increment_memory, evict_soonest_expiring_entry,
}
use ms_auth_service.RateLimit.Memory.Bounds.{IsBounded, increment_memory-IsBounded}
use ms_auth_service.RateLimit.Memory.Counts.{
  EndsAt, attempts, live, increment_memory-attempts, increment_memory-attempts_ne,
}
use ms_auth_service.RateLimit.Memory.Eviction.{evict_soonest_expiring_entry_lem}
use ms_auth_service.RateLimit.{Limiter, digests, credential_rules, check_credentials_attempt}
use ms_auth_service.RateLimit.Fallback.{IsIsolated}
use ms_auth_service.RateLimit.Check.{exceeded}
use ms_auth_service.RateLimit.Attempts.{check_credentials_attempt-exceeded}
use ms_auth_service.Tests.Concrete.{redis}

abbrev two : Dict Counter
two =
    ("b", record { count = 1; expires_at = 9_000_000_000 })
    ∷ ("a", record { count = 2; expires_at = 5_000_000_000 })
    ∷ []

abbrev counted : MemoryCounters
counted = record { counters = two; operations = 2 }

two-IsDict : IsDict two
unfolding lookup
two-IsDict = (refl, (refl, tt))

counted-IsBounded : IsBounded counted
counted-IsBounded = record { distinct = two-IsDict; bounded = omega arith }

abbrev limiter : Limiter (Dict Raw)
limiter = record {
  redis_url = none;
  connected = false;
  memory = counted;
  limits = record {
    ip_burst = 3;
    ip_burst_window_seconds = 10;
    ip_per_minute = 5;
    ip_per_15_minutes = 20;
    email_per_15_minutes = 5;
  };
  server = [];
}

limiter-IsIsolated : IsIsolated redis limiter
limiter-IsIsolated = record { unconnected = refl; no_server = inl refl }

abbrev clock : ℕ → ℕ
clock i = 1_000_000_000

clock_grows : (i j : ℕ) → i ≤ j → clock i ≤ clock j
clock_grows i j h = omega arith

abbrev hash : String → String
hash s = s

check_credentials_attempt-exceeded_example :
    let r = (check_credentials_attempt redis hash clock (some "1.2.3.4") "a@x" limiter).0 in
    let full =
      exceeded
        (digests hash (some "1.2.3.4") "a@x")
        clock
        0
        (credential_rules limiter.limits)
        counted in
    ((full ≡ false) × (r ≡ ok tt))
    ⊎ ((full ≡ true) × ((n : ℕ) × (r ≡ raise (Exn.rate_limit_exceeded n)) × (1 ≤ n)))
check_credentials_attempt-exceeded_example =
    check_credentials_attempt-exceeded redis hash clock clock_grows (some "1.2.3.4") "a@x" limiter
      limiter-IsIsolated counted-IsBounded (omega arith) (omega arith)

increment_memory-IsBounded_example : IsBounded (increment_memory "c" 60 1_000_000_000 counted).1
increment_memory-IsBounded_example =
    increment_memory-IsBounded "c" 60 1_000_000_000 counted counted-IsBounded

increment_memory-attempts_example :
    let (r, m') = increment_memory "a" 60 1_000_000_000 counted in
    (r.count ≡ attempts 1_000_000_000 "a" counted + 1)
    × (attempts 1_000_000_000 "a" m' ≡ r.count)
    × ((c : Counter) × (lookup "a" m'.counters ≡ some c)
        × EndsAt 1_000_000_000 60 (live 1_000_000_000 (lookup "a" two)) c.expires_at
        × (r.retry_after ≡ max ((c.expires_at - 1_000_000_000) / ticks) 1))
increment_memory-attempts_example =
    increment_memory-attempts "a" 60 1_000_000_000 counted two-IsDict (omega arith)

increment_memory-attempts_ne_example :
    live 2_000_000_000 (lookup "b" (increment_memory "a" 60 1_000_000_000 counted).1.counters)
    ≡ live 2_000_000_000 (lookup "b" two)
increment_memory-attempts_ne_example =
    increment_memory-attempts_ne "a" "b" 60 1_000_000_000 2_000_000_000 counted two-IsDict
      (omega arith) (omega arith) (ground (arith, eq_iff "a" "b"))

evict_soonest_expiring_entry_lem_example :
    (victim : String) × (v : Counter) × (lookup victim two ≡ some v)
    × (evict_soonest_expiring_entry two ≡ erase victim two)
    × ((k : String) (c : Counter) → lookup k two ≡ some c → v.expires_at ≤ c.expires_at)
evict_soonest_expiring_entry_lem_example =
    evict_soonest_expiring_entry_lem two two-IsDict (ground arith)
