-- ===== src/RateLimit/Memory/Bounds.antt =====
-- The size of the fallback map of app/core/rate_limit.py.
use ms_auth_service.Prelude.{
  ℕ, ◌+◌, ◌≤◌, ◌<◌, String, ◌≢◌, none, [], ◌∷◌, arith, eq_refl, ltb, length, Bool-cases, inl, inr,
}
use ms_auth_service.Py.Dict.{Dict, lookup, insert, IsDict}
use ms_auth_service.Py.Dict.Laws.{
  length-insert, length-keep-le, length-erase-lt, insert-IsDict, erase-IsDict, keep-IsDict,
}
use ms_auth_service.RateLimit.Memory.{
  Counter, MemoryCounters, memory_max_entries, cleanup_memory, soonest_from,
  evict_soonest_expiring_entry, maintain, make_room, next_counter, increment_memory,
}

-- The counters are a dictionary of at most 10,000 entries.
pub record IsBounded (m : MemoryCounters) : Type 0 where
  pub distinct : IsDict m.counters
  pub bounded : length m.counters ≤ memory_max_entries

lookup_head : (k : String) (c : Counter) (d : Dict Counter) → lookup k ((k, c) ∷ d) ≢ none
unfolding lookup
lookup_head k c d = rw eq_refl (λ p. cc)

lookup_tail :
    (j k : String) (c : Counter) (d : Dict Counter)
    → lookup j d ≢ none
    → lookup j ((k, c) ∷ d) ≢ none
unfolding lookup
lookup_tail j k c d h = ground arith

-- The key to evict is one of the map's.
soonest_from_found :
    (best : String) (at : ℕ) (d whole : Dict Counter)
    → lookup best whole ≢ none
    → ((k : String) → lookup k d ≢ none → lookup k whole ≢ none)
    → lookup (soonest_from best at d) whole ≢ none
unfolding soonest_from
soonest_from_found best at [] whole here sub = here
soonest_from_found best at ((k, c) ∷ d) whole here sub = elim (Bool-cases (ltb c.expires_at at)) [
  | inl e ↦ rw e (
      soonest_from_found k c.expires_at d whole (sub k (lookup_head k c d))
        (λ j h. sub j (lookup_tail j k c d h)))
  | inr e ↦ rw e (soonest_from_found best at d whole here (λ j h. sub j (lookup_tail j k c d h)))
]

pub length-evict_soonest_expiring_entry :
    (d : Dict Counter) → 0 < length d → length (evict_soonest_expiring_entry d) < length d
unfolding evict_soonest_expiring_entry
length-evict_soonest_expiring_entry [] h = absurd (omega arith)
length-evict_soonest_expiring_entry ((k, c) ∷ d) h = length-erase-lt _ ((k, c) ∷ d) (
    soonest_from_found k c.expires_at d ((k, c) ∷ d) (lookup_head k c d)
      (λ j h. lookup_tail j k c d h))

evict_soonest_expiring_entry-IsDict :
    (d : Dict Counter) → IsDict d → IsDict (evict_soonest_expiring_entry d)
unfolding evict_soonest_expiring_entry
evict_soonest_expiring_entry-IsDict [] h = h
evict_soonest_expiring_entry-IsDict ((k, c) ∷ d) h = erase-IsDict _ ((k, c) ∷ d) h

cleanup_memory-IsDict : (now : ℕ) (d : Dict Counter) → IsDict d → IsDict (cleanup_memory now d)
unfolding cleanup_memory
cleanup_memory-IsDict now d h = keep-IsDict _ d h

length-cleanup_memory : (now : ℕ) (d : Dict Counter) → length (cleanup_memory now d) ≤ length d
unfolding cleanup_memory
length-cleanup_memory now d = length-keep-le _ d

maintain-IsBounded : (now : ℕ) (m : MemoryCounters) → IsBounded m → IsBounded (maintain now m)
unfolding maintain
maintain-IsBounded now m h =
    ground
      (arith, cleanup_memory-IsDict now m.counters h.distinct, length-cleanup_memory now m.counters)

pub length-maintain-le :
    (now : ℕ) (m : MemoryCounters) → length (maintain now m).counters ≤ length m.counters
unfolding maintain
length-maintain-le now m = ground (arith, length-cleanup_memory now m.counters)

length-make_room-le : (key : String) (d : Dict Counter) → length (make_room key d) ≤ length d
unfolding make_room
length-make_room-le key d = ground (arith, length-evict_soonest_expiring_entry d)

make_room-IsDict : (key : String) (d : Dict Counter) → IsDict d → IsDict (make_room key d)
unfolding make_room
make_room-IsDict key d h = ground (arith, evict_soonest_expiring_entry-IsDict d h)

-- After room is made, one more entry fits.
insert_fits :
    (key : String) (c : Counter) (d : Dict Counter)
    → length d ≤ memory_max_entries
    → length (insert key c (make_room key d)) ≤ memory_max_entries
unfolding make_room
insert_fits key c d h = ground (
  arith,
  length-insert key c d,
  length-insert key c (evict_soonest_expiring_entry d),
  length-evict_soonest_expiring_entry d,
)

-- `_increment` keeps the map a dictionary of at most 10,000 entries.
pub increment_memory-IsBounded :
    (key : String) (window_seconds now : ℕ) (m : MemoryCounters)
    → IsBounded m
    → IsBounded (increment_memory key window_seconds now m).1
unfolding increment_memory
increment_memory-IsBounded key window_seconds now m h =
    let h' : IsBounded (maintain now m) = maintain-IsBounded now m h in
    record {
      distinct = insert-IsDict key _ _ (make_room-IsDict key _ h'.distinct);
      bounded = insert_fits key _ _ h'.bounded;
    }

-- One increment adds at most one entry to a map that has room.
pub length-increment_memory-le :
    (key : String) (window_seconds now : ℕ) (m : MemoryCounters)
    → length (increment_memory key window_seconds now m).1.counters ≤ length m.counters + 1
unfolding increment_memory
length-increment_memory-le key w now m = ground (
  arith,
  length-insert key (next_counter now w (lookup key (maintain now m).counters))
      (make_room key (maintain now m).counters),
  length-make_room-le key (maintain now m).counters,
  length-maintain-le now m,
)

pub retry_after_positive :
    (key : String) (w now : ℕ) (m : MemoryCounters)
    → 1 ≤ (increment_memory key w now m).0.retry_after
unfolding increment_memory
retry_after_positive key w now m = omega arith
