-- ===== src/Database/Connect.antt =====
-- Calls of `connect` of app/core/database.py that overlap. A call runs from one `await` to the next:
-- it looks for a pool, waits for `_connect_lock`, looks again, and waits for `create_pool`.
use ms_auth_service.Prelude.{ℕ, suc, ◌≡◌, refl, ap, Bool, true, false, if◌then◌else◌, update, arith}

-- Where a call stands.
pub data Pc : Type 0 where
  entered waiting creating done failed : Pc

-- `_pool` and `_connect_lock`, and how many pools asyncpg has made.
pub record Pool : Type 0 where
  pub pooled : Bool
  pub locked : Bool
  pub created : ℕ
  pub pc : ℕ → Pc

abbrev moved : Pool → ℕ → Pc → Pool
moved s i p = record s { pc = update s.pc i p }

-- One call goes on to its next `await`, or to its end.
pub data Step (s : Pool) : Pool → Type 0 where
  -- `if self._pool is not None: return`
  finds :
      (i : ℕ)
      → s.pc i ≡ Pc.entered
      → s.pooled ≡ true
      → Step s (record s { pc = update s.pc i Pc.done })
  -- The lock is free, and so the pool is still missing.
  locks :
      (i : ℕ)
      → s.pc i ≡ Pc.entered
      → s.pooled ≡ false
      → s.locked ≡ false
      → Step s (record s { locked = true; pc = update s.pc i Pc.creating })
  -- The lock is taken, or others wait for it.
  waits :
      (i : ℕ)
      → s.pc i ≡ Pc.entered
      → s.pooled ≡ false
      → Step s (record s { pc = update s.pc i Pc.waiting })
  -- The lock is given to a waiting call, which finds a pool now, or does not.
  finds_later :
      (i : ℕ)
      → s.pc i ≡ Pc.waiting
      → s.locked ≡ false
      → s.pooled ≡ true
      → Step s (record s { pc = update s.pc i Pc.done })
  locks_later :
      (i : ℕ)
      → s.pc i ≡ Pc.waiting
      → s.locked ≡ false
      → s.pooled ≡ false
      → Step s (record s { locked = true; pc = update s.pc i Pc.creating })
  -- `create_pool` answers a pool, or raises; either way the lock is given back.
  creates :
      (i : ℕ)
      → s.pc i ≡ Pc.creating
      → Step s (record {
        pooled = true;
        locked = false;
        created = suc s.created;
        pc = update s.pc i Pc.done;
      })
  fails :
      (i : ℕ)
      → s.pc i ≡ Pc.creating
      → Step s (record s { locked = false; pc = update s.pc i Pc.failed })

abbrev pub initial : Pool
initial = record { pooled = false; locked = false; created = 0; pc = λ i. Pc.entered }

pub data Reach : Pool → Type 0 where
  start : Reach initial
  later : {s t : Pool} → Reach s → Step s t → Reach t

abbrev is_creating : Pc → Bool
is_creating Pc.creating = true
is_creating _ = false

-- Who creates has the lock, alone, and there is no pool then.
record Inv (s : Pool) : Type 0 where
  count : s.created ≡ (if s.pooled then 1 else 0)
  missing : (i : ℕ) → is_creating (s.pc i) ≡ true → s.pooled ≡ false
  held : (i : ℕ) → is_creating (s.pc i) ≡ true → s.locked ≡ true
  alone : (i j : ℕ) → is_creating (s.pc i) ≡ true → is_creating (s.pc j) ≡ true → i ≡ j

Step-Inv : {s t : Pool} → Step s t → Inv s → Inv t
Step-Inv (Step.finds i at pooled) inv = record {
  count = inv.count;
  missing = λ j c. ground (arith, inv.missing j);
  held = λ j c. ground (arith, inv.held j);
  alone = λ j k c d. ground (arith, inv.alone j k);
}
Step-Inv (Step.locks i at pooled locked) inv = record {
  count = inv.count;
  missing = λ j c. pooled;
  held = λ j c. refl;
  alone = λ j k c d. ground (arith, inv.held j, inv.held k);
}
Step-Inv (Step.waits i at pooled) inv = record {
  count = inv.count;
  missing = λ j c. pooled;
  held = λ j c. ground (arith, inv.held j);
  alone = λ j k c d. ground (arith, inv.alone j k);
}
Step-Inv (Step.finds_later i at locked pooled) inv = record {
  count = inv.count;
  missing = λ j c. ground (arith, inv.missing j);
  held = λ j c. ground (arith, inv.held j);
  alone = λ j k c d. ground (arith, inv.alone j k);
}
Step-Inv (Step.locks_later i at locked pooled) inv = record {
  count = inv.count;
  missing = λ j c. pooled;
  held = λ j c. refl;
  alone = λ j k c d. ground (arith, inv.held j, inv.held k);
}
Step-Inv {s} (Step.creates i at) inv =
    let missing : s.pooled ≡ false = inv.missing i (ap is_creating at) in
    record {
      count = ground (arith, inv.count);
      missing = λ j c. ground (arith, inv.alone i j);
      held = λ j c. ground (arith, inv.alone i j);
      alone = λ j k c d. ground (arith, inv.alone j k);
    }
Step-Inv (Step.fails i at) inv = record {
  count = inv.count;
  missing = λ j c. inv.missing i (ap is_creating at);
  held = λ j c. ground (arith, inv.alone i j);
  alone = λ j k c d. ground (arith, inv.alone j k);
}

Reach-Inv : {s : Pool} → Reach s → Inv s
Reach-Inv Reach.start = record {
  count = refl;
  missing = λ i c. ground arith;
  held = λ i c. ground arith;
  alone = λ i j c d. ground arith;
}
Reach-Inv (Reach.later r step) = Step-Inv step (Reach-Inv r)

-- However calls of `connect` overlap, and whichever attempts to make a pool fail: one pool is made at
-- most, and it has been made exactly when `_pool` holds it.
pub connect_once : (s : Pool) → Reach s → s.created ≡ (if s.pooled then 1 else 0)
connect_once s r = let inv = Reach-Inv r in inv.count
