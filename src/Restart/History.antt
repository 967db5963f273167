-- ===== src/Restart/History.antt =====
-- The values that a restart policy has seen, newest first.
use satrap.Prelude.{ℕ, zero, suc, ◌+◌, ◌≤◌, ◌<◌, length, List, [], ◌∷◌, ◌≡◌, refl, arith, get_or}

-- The sum of the newest `n` values.
abbrev pub newest_sum : ℕ → List ℕ → ℕ
newest_sum zero h = 0
newest_sum (suc n) [] = 0
newest_sum (suc n) (x ∷ h) = x + newest_sum n h

pub newest_sum-suc : (n : ℕ) (h : List ℕ) → newest_sum (suc n) h ≡ newest_sum n h + get_or h n 0
newest_sum-suc zero [] = refl
newest_sum-suc zero (x ∷ h) = omega arith
newest_sum-suc (suc n) [] = refl
newest_sum-suc (suc n) (x ∷ h) = omega (arith, newest_sum-suc n h)

-- There are no values before the first.
pub get_or_out : (h : List ℕ) (i : ℕ) → length h ≤ i → get_or h i 0 ≡ 0
get_or_out [] i k = refl
get_or_out (x ∷ h) zero k = elim k [ ]
get_or_out (x ∷ h) (suc i) k = get_or_out h i (omega arith)

pub get_or-le-newest_sum : (n i : ℕ) (h : List ℕ) → i < n → get_or h i 0 ≤ newest_sum n h
get_or-le-newest_sum zero i h k = elim k [ ]
get_or-le-newest_sum (suc n) i [] k = omega arith
get_or-le-newest_sum (suc n) zero (x ∷ h) k = omega arith
get_or-le-newest_sum (suc n) (suc i) (x ∷ h) k =
    omega (arith, get_or-le-newest_sum n i h (omega arith))
