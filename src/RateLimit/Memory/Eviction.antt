-- ===== src/RateLimit/Memory/Eviction.antt =====
-- What `_evict_soonest_expiring_entry` gives up.
use ms_auth_service.Prelude.{
  ℕ, ◌≤◌, String, ◌≡◌, ◌≢◌, refl, none, some, [], ◌∷◌, arith, eq_refl, eq_iff, ltb, ◌⊎◌, Bool-cases,
  inl, inr,
}
use ms_auth_service.Py.Dict.{Dict, IsDict, lookup, erase}
use ms_auth_service.RateLimit.Memory.{Counter, soonest_from, evict_soonest_expiring_entry}

-- No entry expires before `at`.
abbrev NoneBefore : ℕ → Dict Counter → Type 0
NoneBefore at [] = Unit
NoneBefore at ((k, c) ∷ d) = (at ≤ c.expires_at) × NoneBefore at d

NoneBefore-le : (a b : ℕ) (d : Dict Counter) → a ≤ b → NoneBefore b d → NoneBefore a d
NoneBefore-le a b [] le h = tt
NoneBefore-le a b ((k, c) ∷ d) le h = (omega arith, NoneBefore-le a b d le h.1)

NoneBefore-lookup :
    (at : ℕ) (d : Dict Counter) (k : String) (c : Counter)
    → NoneBefore at d
    → lookup k d ≡ some c
    → at ≤ c.expires_at
unfolding lookup
NoneBefore-lookup at [] k c h e = cc
NoneBefore-lookup at ((j, w) ∷ d) k c h e = ground (arith, NoneBefore-lookup at d k c h.1)

-- `u` is the time at which `victim`, one of the entries `d`, expires.
abbrev ExpiresAt : String → ℕ → Dict Counter → Type 0
ExpiresAt victim u d = (c : Counter) × (lookup victim d ≡ some c) × (c.expires_at ≡ u)

ExpiresAt-cons :
    (victim : String) (u : ℕ) (k : String) (c : Counter) (d : Dict Counter)
    → lookup k d ≡ none
    → ExpiresAt victim u d
    → ExpiresAt victim u ((k, c) ∷ d)
unfolding lookup
ExpiresAt-cons victim u k c d new (v, e, x) = (v, ground (arith, eq_iff k victim), x)

ExpiresAt-head :
    (k : String) (c : Counter) (d : Dict Counter) → ExpiresAt k c.expires_at ((k, c) ∷ d)
unfolding lookup
ExpiresAt-head k c d = (c, simp eq_refl, refl)

soonest_from_lem :
    (best : String) (at : ℕ) (d : Dict Counter)
    → IsDict d
    → (u : ℕ) × NoneBefore u d
      × (u ≤ at)
      × (((soonest_from best at d ≡ best) × (u ≡ at)) ⊎ ExpiresAt (soonest_from best at d) u d)
unfolding soonest_from
soonest_from_lem best at [] h = (at, tt, omega arith, inl (refl, refl))
soonest_from_lem best at ((k, c) ∷ d) h = elim (Bool-cases (ltb c.expires_at at)) [
  | inl e ↦
      let (u, n, le, o) = soonest_from_lem k c.expires_at d h.1 in
      rw e (
        u,
        (le, n),
        ground arith,
        elim o [
          | inl (p, q) ↦ inr (rw (p, q) (ExpiresAt-head k c d))
          | inr x ↦ inr (ExpiresAt-cons _ u k c d h.0 x)
        ],
      )
  | inr e ↦
      let (u, n, le, o) = soonest_from_lem best at d h.1 in
      rw e (
        u,
        (ground arith, n),
        le,
        elim o [ inl p ↦ inl p | inr x ↦ inr (ExpiresAt-cons _ u k c d h.0 x) ],
      )
]

-- From a dictionary that is not empty exactly one entry is deleted, and no entry of the dictionary
-- expires before it.
pub evict_soonest_expiring_entry_lem :
    (d : Dict Counter)
    → IsDict d
    → d ≢ []
    → (victim : String) × (v : Counter) × (lookup victim d ≡ some v)
      × (evict_soonest_expiring_entry d ≡ erase victim d)
      × ((k : String) (c : Counter) → lookup k d ≡ some c → v.expires_at ≤ c.expires_at)
unfolding evict_soonest_expiring_entry
evict_soonest_expiring_entry_lem [] h ne = absurd (ne refl)
evict_soonest_expiring_entry_lem ((k, c) ∷ d) h ne =
    let (u, n, le, o) = soonest_from_lem k c.expires_at d h.1 in
    let x : ExpiresAt (soonest_from k c.expires_at d) u ((k, c) ∷ d) = elim o [
      | inl (p, q) ↦ rw (p, q) (ExpiresAt-head k c d)
      | inr x ↦ ExpiresAt-cons _ u k c d h.0 x
    ] in
    (
      soonest_from k c.expires_at d,
      x.0,
      x.1,
      refl,
      λ j w e. omega (arith, x.2, NoneBefore-lookup u ((k, c) ∷ d) j w (le, n) e),
    )
