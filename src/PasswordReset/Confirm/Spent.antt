-- ===== src/PasswordReset/Confirm/Spent.antt =====
-- What `update_password` keeps of the blacklist in memory.
use ms_auth_service.Prelude.{
  ℕ, ◌+◌, ◌-◌, ◌*◌, ◌/◌, ◌≤◌, ◌<◌, String, ◌≡◌, ◌≢◌, sym, ap, ◌∙◌, inl, inr, Bool, not, Option,
  none, some, arith, leb, max, Option-cases,
}
use ms_auth_service.Py.Int.{ℤ}
use ms_auth_service.Py.Dict.{Dict, IsDict, lookup}
use ms_auth_service.Py.Dict.Laws.{
  lookup-insert_ne, lookup-erase_ne, lookup-insert_self, lookup-keep, kept, keep-IsDict,
  insert-IsDict, erase-IsDict,
}
use ms_auth_service.Py.Exec.{Result-cases, Result, ok, Exec}
use ms_auth_service.Redis.{Redis}
use ms_auth_service.RateLimit.Memory.{ticks}
use ms_auth_service.Identity.{AccountType, value}
use ms_auth_service.PasswordReset.{Settings, Service, Claims, Update, cleanup_blacklist_memory}
use ms_auth_service.PasswordReset.Confirm.{update_password}
use ms_auth_service.PasswordReset.Confirm.Branches.{
  IsLocal, IsSpent, swept, reserved, call_lem, update_used, update_done, update_failed,
}

lookup-swept :
    (now : ℕ) (k : String) (b : Dict ℕ)
    → IsDict b
    → lookup k (cleanup_blacklist_memory now b) ≡ kept (λ e. not (leb e now)) (lookup k b)
unfolding cleanup_blacklist_memory
lookup-swept now k b h = lookup-keep (λ e. not (leb e now)) k b h

swept-IsDict : (now : ℕ) (b : Dict ℕ) → IsDict b → IsDict (cleanup_blacklist_memory now b)
unfolding cleanup_blacklist_memory
swept-IsDict now b h = keep-IsDict (λ e. not (leb e now)) b h

-- A whole number of seconds is at most the time.
seconds_le : (at : ℕ) → (at / ticks) * ticks ≤ at
seconds_le at = omega arith

-- The entry that a reservation makes outlives the token.
reserved_long :
    (at later exp : ℕ) → at ≤ later → exp * ticks ≤ later + max (exp - at / ticks) 1 * ticks
reserved_long at later exp h = let q = seconds_le at in omega arith

module _ {Server Spring : Type 0} where
  pub spent_swept :
      (claims : Claims) (now : ℕ) (s : Service Server Spring)
      → IsLocal s
      → IsSpent claims s
      → now < claims.exp * ticks
      → (e : ℕ) × (lookup claims.jti (cleanup_blacklist_memory now s.blacklist_memory) ≡ some e)
        × (claims.exp * ticks ≤ e)
  spent_swept claims now s l (e, found, long) h = (
    e,
    rw (lookup-swept now claims.jti s.blacklist_memory l.blacklist, found) (ground arith),
    long,
  )

  -- Local and spent, in one.
  abbrev pub Stays : Claims → Service Server Spring → Type 0
  Stays claims s = IsLocal s × IsSpent claims s

  module _ (redis : Redis Server) (c : Settings) (post : Update → Exec Spring ℕ)
      (encode : Claims → String → String) (decode : ℕ → String → String → Result Claims)
      (decimal : ℕ → Bool) (parse : String → Option ℤ) where
    fresh :
        (claims other : Claims) (b : Dict ℕ) (e : ℕ)
        → lookup claims.jti b ≡ some e
        → lookup other.jti b ≡ none
        → other.jti ≢ claims.jti
    fresh claims other b e found free same =
        let clash : some e ≡ none = sym found ∙ (ap (λ j. lookup j b) (sym same) ∙ free) in
        ground arith

    pub update-Stays :
        (claims : Claims) (at later : ℕ) (other : Claims) (t : AccountType) (n : ℤ) (p : String)
        (s : Service Server Spring)
        → Stays claims s
        → later < claims.exp * ticks
        → Stays claims
            (update_password c post redis encode decode decimal parse at later other t n p s).1
    update-Stays claims at later other t n p s (l, spent) h =
        let (e, found, long) = spent_swept claims later s l spent h in
        let sw : IsDict (swept later s) = swept-IsDict later s.blacklist_memory l.blacklist in
        let r = reserved at later other s in
        let (a, w, call) = call_lem c post (value t) n p r in
        elim (Option-cases (lookup other.jti (swept later s))) [
          | inr (e', used) ↦
              rw
                (update_used redis c post encode decode decimal parse at later other t n p e' s
                  l.local used)
                (record { local = l.local; blacklist = sw }, (e, found, long))
          | inl free ↦
              let ne = fresh claims other (swept later s) e found free in
              let v = later + max (other.exp - at / ticks) 1 * ticks in
              let ins = insert-IsDict other.jti v (swept later s) sw in
              let still : lookup claims.jti r.blacklist_memory ≡ some e =
                lookup-insert_ne other.jti claims.jti v (swept later s) ne ∙ found in
              elim (Result-cases a) [
                | inl (x, a_eq) ↦
                    rw
                      (update_done redis c post encode decode decimal parse at later other t n p w s
                        l.local free (call ∙ ap (λ b. (b, record r { spring = w })) a_eq))
                      (record { local = l.local; blacklist = ins }, (e, still, long))
                | inr (x, a_eq) ↦
                    rw
                      (update_failed redis c post encode decode decimal parse at later other t n p x
                        w s l.local free (call ∙ ap (λ b. (b, record r { spring = w })) a_eq))
                      (
                        record {
                          local = l.local;
                          blacklist = erase-IsDict other.jti r.blacklist_memory ins;
                        },
                        (
                          e,
                          lookup-erase_ne other.jti claims.jti r.blacklist_memory ne ∙ still,
                          long,
                        ),
                      )
              ]
        ]

    pub update-IsSpent :
        (at later : ℕ) (claims : Claims) (t : AccountType) (n : ℤ) (p : String)
        (s s' : Service Server Spring)
        → IsLocal s
        → at ≤ later
        → update_password c post redis encode decode decimal parse at later claims t n p s
          ≡ (ok tt, s')
        → Stays claims s'
    update-IsSpent at later claims t n p s s' l h e =
        let sw : IsDict (swept later s) = swept-IsDict later s.blacklist_memory l.blacklist in
        let r = reserved at later claims s in
        let v = later + max (claims.exp - at / ticks) 1 * ticks in
        let (a, w, call) = call_lem c post (value t) n p r in
        elim (Option-cases (lookup claims.jti (swept later s))) [
          | inr (e', used) ↦
              let u =
                update_used redis c post encode decode decimal parse at later claims t n p e' s
                  l.local used in
              ground (arith, sym u ∙ e)
          | inl free ↦ elim (Result-cases a) [
            | inr (x, a_eq) ↦
                let u =
                  update_failed redis c post encode decode decimal parse at later claims t n p x w s
                    l.local free (call ∙ ap (λ b. (b, record r { spring = w })) a_eq) in
                ground (arith, sym u ∙ e)
            | inl (x, a_eq) ↦
                let u =
                  update_done redis c post encode decode decimal parse at later claims t n p w s
                    l.local free (call ∙ ap (λ b. (b, record r { spring = w })) a_eq) in
                let same : record r { spring = w } ≡ s' = ap (λ y. y.1) (sym u ∙ e) in
                rw (sym same) (
                  record {
                    local = l.local;
                    blacklist = insert-IsDict claims.jti v (swept later s) sw;
                  },
                  (
                    v,
                    lookup-insert_self claims.jti v (swept later s),
                    reserved_long at later claims.exp h,
                  ),
                )
          ]
        ]
