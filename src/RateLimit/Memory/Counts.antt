-- ===== src/RateLimit/Memory/Counts.antt =====
-- The fallback counters against an abstract view: how many attempts of a key its open window holds.
use ms_auth_service.Prelude.{
  ℕ, ◌+◌, ◌-◌, ◌*◌, ◌/◌, max, ◌⊎◌, inl, inr, Bool-cases, leb, ◌≤◌, ◌<◌, String, ◌≡◌, ◌≢◌, refl,
  Option, none, some, ap, arith, if◌then◌else◌, length,
}
use ms_auth_service.Py.Dict.{Dict, lookup, IsDict}
use ms_auth_service.Py.Dict.Laws.{lookup-insert_self, lookup-insert_ne, lookup-keep}
use ms_auth_service.RateLimit.Memory.{
  ticks, Counter, MemoryCounters, memory_max_entries, is_live, cleanup_memory, maintain, make_room,
  next_counter, increment_memory,
}
use ms_auth_service.RateLimit.Memory.Bounds.{length-maintain-le}

-- What is left of a counter when its window has closed.
abbrev pub live : ℕ → Option Counter → Option Counter
live now none = none
live now (some c) = if is_live now c then some c else none

-- The attempts that the key's open window holds.
abbrev pub attempts_of : Option Counter → ℕ
attempts_of none = 0
attempts_of (some c) = c.count

abbrev pub attempts : ℕ → String → MemoryCounters → ℕ
attempts now key m = attempts_of (live now (lookup key m.counters))

-- Seen at a time `t` not before the cleanup.
live-cleanup_memory :
    (now t : ℕ) (k : String) (d : Dict Counter)
    → IsDict d
    → now ≤ t
    → live t (lookup k (cleanup_memory now d)) ≡ live t (lookup k d)
unfolding cleanup_memory
live-cleanup_memory now t k d h le = rw (lookup-keep _ k d h) (ground arith)

live-maintain :
    (now t : ℕ) (k : String) (m : MemoryCounters)
    → IsDict m.counters
    → now ≤ t
    → live t (lookup k (maintain now m).counters) ≡ live t (lookup k m.counters)
unfolding maintain
live-maintain now t k m h le = ground (arith, live-cleanup_memory now t k m.counters h)

-- A closed window and a missing counter are the same to `next_counter`.
next_counter-live :
    (now w : ℕ) (o : Option Counter) → next_counter now w (live now o) ≡ next_counter now w o
unfolding next_counter
next_counter-live now w o = ground arith

next_counter_lem :
    (now w : ℕ) (o : Option Counter)
    → ((next_counter now w o).count ≡ attempts_of (live now o) + 1)
      × (0 < w → now < (next_counter now w o).expires_at)
unfolding next_counter
next_counter_lem now w o = ground arith

-- The cleanup does not change what is counted.
next_counter-maintain :
    (now w : ℕ) (k : String) (m : MemoryCounters)
    → IsDict m.counters
    → next_counter now w (lookup k (maintain now m).counters)
      ≡ next_counter now w (live now (lookup k m.counters))
next_counter-maintain now w k m h = rw (
  ← live-maintain now now k m h (omega arith),
  next_counter-live now w (lookup k (maintain now m).counters),
)

next_counter-IsLive :
    (now w : ℕ) (o : Option Counter)
    → 0 < w
    → live now (some (next_counter now w o)) ≡ some (next_counter now w o)
unfolding next_counter
next_counter-IsLive now w o p = ground (arith)

make_room_spare :
    (key : String) (d : Dict Counter) → length d < memory_max_entries → make_room key d ≡ d
unfolding make_room
make_room_spare key d h = ground arith

-- When a counter's window ends that was opened, or is still open.
abbrev pub EndsAt : (now window_seconds : ℕ) → Option Counter → ℕ → Type 0
EndsAt now window_seconds counter t =
    ((counter ≡ none) × (t ≡ now + window_seconds * ticks))
    ⊎ ((c : Counter) × (counter ≡ some c) × (t ≡ c.expires_at))

next_counter-EndsAt :
    (now w : ℕ) (o : Option Counter) → EndsAt now w (live now o) (next_counter now w o).expires_at
unfolding next_counter
next_counter-EndsAt now w none = inl (refl, refl)
next_counter-EndsAt now w (some c) = elim (Bool-cases (leb c.expires_at now)) [
  | inl e ↦ inl (ground arith, ground arith)
  | inr e ↦ inr (c, ground arith, ground arith)
]

-- What is stored for the key.
pub increment_memory-stored :
    (key : String) (window_seconds now : ℕ) (m : MemoryCounters)
    → IsDict m.counters
    → lookup key (increment_memory key window_seconds now m).1.counters
      ≡ some (next_counter now window_seconds (live now (lookup key m.counters)))
unfolding increment_memory
increment_memory-stored key w now m h =
    rw (next_counter-maintain now w key m h, lookup-insert_self) refl

-- An increment returns the attempts of the open window and one more, stores what it returns, and
-- leaves the counter open when the window is not empty. The stored counter's window ends when it
-- did before, if it was open, and else `window_seconds` from now; and `retry_after` is the whole
-- seconds until then, at least one.
pub increment_memory-attempts :
    (key : String) (window_seconds now : ℕ) (m : MemoryCounters)
    → IsDict m.counters
    → 0 < window_seconds
    → let (r, m') = increment_memory key window_seconds now m in
      (r.count ≡ attempts now key m + 1)
      × (attempts now key m' ≡ r.count)
      × ((c : Counter) × (lookup key m'.counters ≡ some c)
          × EndsAt now window_seconds (live now (lookup key m.counters)) c.expires_at
          × (r.retry_after ≡ max ((c.expires_at - now) / ticks) 1))
unfolding increment_memory
increment_memory-attempts key w now m h p =
    let o = live now (lookup key m.counters) in
    let ends : EndsAt now w o (next_counter now w o).expires_at =
      rw (next_counter-live now w (lookup key m.counters))
        (next_counter-EndsAt now w (lookup key m.counters)) in
    rw (next_counter-maintain now w key m h, lookup-insert_self)
      (
        ground (arith, next_counter_lem now w o),
        ap attempts_of (next_counter-IsLive now w o p),
        (next_counter now w o, refl, ends, refl),
      )

-- While the map is not full, an increment of one key leaves the counters of every other key that
-- are open at that time or later.
pub increment_memory-attempts_ne :
    (key k : String) (window_seconds now t : ℕ) (m : MemoryCounters)
    → IsDict m.counters
    → length m.counters < memory_max_entries
    → now ≤ t
    → key ≢ k
    → live t (lookup k (increment_memory key window_seconds now m).1.counters)
      ≡ live t (lookup k m.counters)
unfolding increment_memory
increment_memory-attempts_ne key k w now t m h room le ne =
    rw
      (
        lookup-insert_ne _ _ _ _ ne,
        make_room_spare key (maintain now m).counters (omega (arith, length-maintain-le now m)),
      )
      (live-maintain now t k m h le)
