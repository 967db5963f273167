-- ===== src/Restart/Word.antt =====
-- Saturating arithmetic of u64 and u128.
use satrap.Prelude.{ℕ, ◌+◌, ◌-◌, ◌*◌, ◌^◌, min}

abbrev pub u64_max : ℕ
u64_max = 2 ^ 64 - 1

abbrev pub u128_max : ℕ
u128_max = 2 ^ 128 - 1

abbrev pub sat_add : ℕ → ℕ → ℕ
sat_add a b = min (a + b) u64_max

abbrev pub sat_mul : ℕ → ℕ → ℕ
sat_mul a b = min (a * b) u64_max

abbrev pub sat_mul_u128 : ℕ → ℕ → ℕ
sat_mul_u128 a b = min (a * b) u128_max
