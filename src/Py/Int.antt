-- ===== src/Py/Int.antt =====
-- Python's integers over the native numbers: `negsuc n` is -(n + 1).
use ms_auth_service.Prelude.{ℕ, zero, suc, ◌+◌, Bool, true, false, leb}

pub data ℤ : Type 0 where
  pos : ℕ → ℤ
  negsuc : ℕ → ℤ

-- `a + 1`
abbrev pub add_one : ℤ → ℤ
add_one (pos n) = pos (n + 1)
add_one (negsuc zero) = pos 0
add_one (negsuc (suc n)) = negsuc n

-- `a <= n` for a number n that is not negative.
abbrev pub le_nat : ℤ → ℕ → Bool
le_nat (pos a) n = leb a n
le_nat (negsuc a) n = true

-- `n <= a` for a number n that is not negative.
abbrev pub ge_nat : ℤ → ℕ → Bool
ge_nat (pos a) n = leb n a
ge_nat (negsuc a) n = false
