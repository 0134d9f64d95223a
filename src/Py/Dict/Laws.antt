-- ===== src/Py/Dict/Laws.antt =====
-- The laws of `Dict`: what `d.get(j)` answers after each operation, its size, and that no key
-- comes to stand twice.
use ms_auth_service.Prelude.{
  ◌+◌, ◌≤◌, ◌<◌, String, ◌≡◌, refl, ◌≢◌, Bool, Option, none, some, [], ◌∷◌, arith, ◌==◌, eq_iff,
  eq_refl, if◌then◌else◌, length, Bool-cases, inl, inr, is_some,
}
use ms_auth_service.Py.Dict.{Dict, lookup, insert, erase, keep, IsDict}

module _ {ℓ} {V : Type ℓ} where
  pub lookup-insert :
      (k j : String) (v : V) (d : Dict V)
      → lookup j (insert k v d) ≡ (if k == j then some v else lookup j d)
  unfolding lookup insert
  lookup-insert k j v [] = refl
  lookup-insert k j v ((i, w) ∷ d) =
      ground (arith, eq_iff k j, eq_iff i k, eq_iff i j, lookup-insert k j v d)

  pub lookup-insert_self : (k : String) (v : V) (d : Dict V) → lookup k (insert k v d) ≡ some v
  lookup-insert_self k v d = simp (lookup-insert, eq_refl)

  pub lookup-insert_ne :
      (k j : String) (v : V) (d : Dict V) → k ≢ j → lookup j (insert k v d) ≡ lookup j d
  lookup-insert_ne k j v d h = rw lookup-insert (ground (arith, eq_iff k j))

  pub lookup-erase :
      (k j : String) (d : Dict V) → lookup j (erase k d) ≡ (if k == j then none else lookup j d)
  unfolding lookup erase
  lookup-erase k j [] = ground arith
  lookup-erase k j ((i, w) ∷ d) =
      ground (arith, eq_iff k j, eq_iff i k, eq_iff i j, lookup-erase k j d)

  pub lookup-erase_self : (k : String) (d : Dict V) → lookup k (erase k d) ≡ none
  lookup-erase_self k d = simp (lookup-erase, eq_refl)

  pub lookup-erase_ne : (k j : String) (d : Dict V) → k ≢ j → lookup j (erase k d) ≡ lookup j d
  lookup-erase_ne k j d h = rw lookup-erase (ground (arith, eq_iff k j))

  -- What `keep` leaves of a value that is found.
  abbrev pub kept : (V → Bool) → Option V → Option V
  kept p none = none
  kept p (some v) = if p v then some v else none

  pub lookup-keep-none :
      (p : V → Bool) (j : String) (d : Dict V) → lookup j d ≡ none → lookup j (keep p d) ≡ none
  unfolding lookup keep
  lookup-keep-none p j [] h = refl
  lookup-keep-none p j ((i, w) ∷ d) h = ground (arith, lookup-keep-none p j d)

  pub lookup-keep :
      (p : V → Bool) (j : String) (d : Dict V)
      → IsDict d
      → lookup j (keep p d) ≡ kept p (lookup j d)
  unfolding lookup keep
  lookup-keep p j [] h = refl
  lookup-keep p j ((i, w) ∷ d) h =
      ground (arith, eq_iff i j, lookup-keep p j d h.1, lookup-keep-none p j d)

  pub insert-IsDict : (k : String) (v : V) (d : Dict V) → IsDict d → IsDict (insert k v d)
  unfolding lookup insert
  insert-IsDict k v [] h = (refl, tt)
  insert-IsDict k v ((i, w) ∷ d) h = elim (Bool-cases (i == k)) [
    | inl e ↦ rw e (let e' : i ≡ k = (eq_iff i k).0 e in rw (← e') h)
    | inr e ↦
        rw e
          (ground (arith, lookup-insert k i v d, eq_iff k i, eq_iff i k), insert-IsDict k v d h.1)
  ]

  pub erase-IsDict : (k : String) (d : Dict V) → IsDict d → IsDict (erase k d)
  unfolding lookup erase
  erase-IsDict k [] h = tt
  erase-IsDict k ((i, w) ∷ d) h = elim (Bool-cases (i == k)) [
    | inl e ↦ rw e (erase-IsDict k d h.1)
    | inr e ↦ rw e (ground (arith, lookup-erase k i d), erase-IsDict k d h.1)
  ]

  pub keep-IsDict : (p : V → Bool) (d : Dict V) → IsDict d → IsDict (keep p d)
  unfolding lookup keep
  keep-IsDict p [] h = tt
  keep-IsDict p ((i, w) ∷ d) h = elim (Bool-cases (p w)) [
    | inl e ↦ rw e (lookup-keep-none p i d h.0, keep-IsDict p d h.1)
    | inr e ↦ rw e (keep-IsDict p d h.1)
  ]

  pub length-insert :
      (k : String) (v : V) (d : Dict V)
      → length (insert k v d) ≡ (if is_some (lookup k d) then length d else length d + 1)
  unfolding lookup insert
  length-insert k v [] = ground arith
  length-insert k v ((i, w) ∷ d) = ground (arith, length-insert k v d)

  pub length-keep-le : (p : V → Bool) (d : Dict V) → length (keep p d) ≤ length d
  unfolding keep
  length-keep-le p [] = omega arith
  length-keep-le p ((i, w) ∷ d) = ground (arith, length-keep-le p d)

  pub length-erase-le : (k : String) (d : Dict V) → length (erase k d) ≤ length d
  unfolding erase
  length-erase-le k [] = omega arith
  length-erase-le k ((i, w) ∷ d) = ground (arith, length-erase-le k d)

  pub length-erase-lt :
      (k : String) (d : Dict V) → lookup k d ≢ none → length (erase k d) < length d
  unfolding lookup erase
  length-erase-lt k [] h = absurd (h refl)
  length-erase-lt k ((i, w) ∷ d) h = ground (arith, length-erase-lt k d, length-erase-le k d)

pub ruleset dict_laws = (lookup-insert_self, lookup-insert_ne, lookup-erase_self, lookup-erase_ne)
