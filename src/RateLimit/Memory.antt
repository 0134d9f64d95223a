-- ===== src/RateLimit/Memory.antt =====
-- The in-process counters of `RateLimiter`: the part of `_increment` under `_memory_lock`,
-- `_cleanup_memory` and `_evict_soonest_expiring_entry`.
pub mod Bounds
pub mod Counts
pub mod Eviction
use ms_auth_service.Prelude.{
  ℕ, ◌+◌, ◌-◌, ◌*◌, ◌/◌, String, Bool, true, false, not, ◌&&◌, ◌||◌, Option, none, some, List, [],
  ◌∷◌, leb, ltb, if◌then◌else◌, length, is_some, max,
}
use ms_auth_service.Py.Dict.{Dict, lookup, insert, erase, keep}

-- The clock's ticks in a second.
abbrev pub ticks : ℕ
ticks = 1_000_000_000

abbrev pub memory_max_entries : ℕ
memory_max_entries = 10_000

abbrev pub memory_cleanup_interval : ℕ
memory_cleanup_interval = 128

-- A value of `_memory`: `(count, expires_at)`.
pub record Counter : Type 0 where
  pub count : ℕ
  pub expires_at : ℕ

-- `_memory` and `_memory_operations`
pub record MemoryCounters : Type 0 where
  pub counters : Dict Counter
  pub operations : ℕ

abbrev pub is_live : ℕ → Counter → Bool
is_live now c = ltb now c.expires_at

-- `_cleanup_memory`: deletes what has `expires_at <= now`.
pub cleanup_memory : ℕ → Dict Counter → Dict Counter
cleanup_memory now d = keep (λ c. not (leb c.expires_at now)) d

-- `min(self._memory, key=...)`: the first of the entries that expire soonest.
pub soonest_from : String → ℕ → Dict Counter → String
soonest_from best at [] = best
soonest_from best at ((k, c) ∷ d) =
    if ltb c.expires_at at then soonest_from k c.expires_at d else soonest_from best at d

-- `_evict_soonest_expiring_entry`
pub evict_soonest_expiring_entry : Dict Counter → Dict Counter
unfolding soonest_from
evict_soonest_expiring_entry [] = []
evict_soonest_expiring_entry ((k, c) ∷ d) = erase (soonest_from k c.expires_at d) ((k, c) ∷ d)

-- The new value of the key's counter; `monotonic()` is a whole number of ticks here, where the source
-- has a float.
pub next_counter : ℕ → ℕ → Option Counter → Counter
next_counter now window_seconds none = record {
  count = 1;
  expires_at = now + window_seconds * ticks;
}
next_counter now window_seconds (some c) =
    if leb c.expires_at now
    then record { count = 1; expires_at = now + window_seconds * ticks }
    else record { count = c.count + 1; expires_at = c.expires_at }

-- The operation counter and the periodic cleanup.
pub maintain : ℕ → MemoryCounters → MemoryCounters
maintain now m =
    let operations = m.operations + 1 in
    if leb memory_cleanup_interval operations || leb memory_max_entries (length m.counters)
    then record { counters = cleanup_memory now m.counters; operations = 0 }
    else record m { operations = operations }

-- Room for a key that is new.
pub make_room : String → Dict Counter → Dict Counter
make_room key d =
    if not (is_some (lookup key d)) && leb memory_max_entries (length d)
    then evict_soonest_expiring_entry d
    else d

-- What `_increment` returns: `(count, retry_after)`.
pub record Increment : Type 0 where
  pub count : ℕ
  pub retry_after : ℕ

-- The fallback of `_increment`, with `now = monotonic()`.
pub increment_memory : String → ℕ → ℕ → MemoryCounters → Increment × MemoryCounters
increment_memory key window_seconds now m =
    let m' = maintain now m in
    let c = next_counter now window_seconds (lookup key m'.counters) in
    let d = insert key c (make_room key m'.counters) in
    (
      record { count = c.count; retry_after = max ((c.expires_at - now) / ticks) 1 },
      record m' { counters = d },
    )
