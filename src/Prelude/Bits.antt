-- ===== src/Prelude/Bits.antt =====
-- The bitwise operations of machine words as arithmetic: one equation for the lowest binary digit,
-- then the laws for a word put together from two fields.
use Prim.Native.Nat.{
  ℕ, zero, suc, ◌+◌, ◌-◌, ◌*◌, ◌/◌, ◌%◌, ◌^◌, ◌≤◌, ◌<◌, min, max, digits, bitwise, bit_and, bit_or,
  bit_xor, bit_and-bitwise, bit_or-bitwise, bit_xor-bitwise, differ,
}
use mathlib.Core.Path.{◌≡◌, refl, ap}
use mathlib.Core.Logic.{◌⊎◌, inl, inr}
use native.Mathlib.Decide.{ℕ_discrete}
use native.Mathlib.Nat.{
  mul_comm, mul_left_comm, pow-suc, one-le-pow, div-div-eq-div-mul, div-mul-le_self, mod_def,
}
use native.Mathlib.Omega.{arith}

-- Any fuel from the first operand on gives the same digits.
module _ (z : ℕ → ℕ) (f : ℕ → ℕ → ℕ) where
  digits_enough : (n m a b : ℕ) → a ≤ n → a ≤ m → digits z f n a b ≡ digits z f m a b
  digits_enough zero zero a b p q = refl
  digits_enough zero (suc m) zero b p q = refl
  digits_enough (suc n) zero zero b p q = refl
  digits_enough (suc n) (suc m) zero b p q = refl
  digits_enough zero m (suc a) b p q = elim p [ ]
  digits_enough (suc n) zero (suc a) b p q = elim q [ ]
  digits_enough (suc n) (suc m) (suc a) b p q =
      let below : suc a / 2 ≤ a = omega arith in
      rw (digits_enough n m (suc a / 2) (b / 2) (omega arith) (omega arith))

  lowest_digit :
      (a b : ℕ)
      → bitwise z f (suc a) b ≡ bitwise z f (suc a / 2) (b / 2) * 2 + f (suc a % 2) (b % 2)
  lowest_digit a b =
      let half : suc a / 2 ≤ a = omega arith in
      rw (digits_enough a (suc a / 2) (suc a / 2) (b / 2) half (omega arith))

pub bit_or_digit : (a b : ℕ) → bit_or a b ≡ bit_or (a / 2) (b / 2) * 2 + max (a % 2) (b % 2)
bit_or_digit zero b = simp bit_or-bitwise (omega arith)
bit_or_digit (suc a) b = simp bit_or-bitwise (lowest_digit (λ y. y) max a b)

pub bit_and_digit : (a b : ℕ) → bit_and a b ≡ bit_and (a / 2) (b / 2) * 2 + min (a % 2) (b % 2)
bit_and_digit zero b = simp bit_and-bitwise (omega arith)
bit_and_digit (suc a) b = simp bit_and-bitwise (lowest_digit (λ y. 0) min a b)

pub bit_xor_digit : (a b : ℕ) → bit_xor a b ≡ bit_xor (a / 2) (b / 2) * 2 + differ (a % 2) (b % 2)
bit_xor_digit zero b = simp bit_xor-bitwise (omega arith)
bit_xor_digit (suc a) b = simp bit_xor-bitwise (lowest_digit (λ y. y) differ a b)

-- Induction on the binary digits.
halving_below {ℓ} :
    (P : ℕ → Type ℓ) → P 0 → ((n : ℕ) → P (suc n / 2) → P (suc n)) → (k n : ℕ) → n ≤ k → P n
halving_below P base step k zero h = base
halving_below P base step zero (suc n) h = elim h [ ]
halving_below P base step (suc k) (suc n) h =
    step n (halving_below P base step k (suc n / 2) (omega arith))

pub halving {ℓ} : (P : ℕ → Type ℓ) → P 0 → ((n : ℕ) → P (suc n / 2) → P (suc n)) → (n : ℕ) → P n
halving P base step n = halving_below P base step n n (omega arith)

pub bit_or-zero : (a : ℕ) → bit_or a 0 ≡ a
bit_or-zero = halving _ refl (λ n ih. omega (arith, bit_or_digit (suc n) 0, ih))

pub bit_and-zero : (a : ℕ) → bit_and a 0 ≡ 0
bit_and-zero = halving _ refl (λ n ih. omega (arith, bit_and_digit (suc n) 0, ih))

differ-zero : (x : ℕ) → differ x 0 ≡ x
differ-zero zero = refl
differ-zero (suc x) = refl

pub bit_xor-zero : (a : ℕ) → bit_xor a 0 ≡ a
bit_xor-zero =
    halving _ refl (λ n ih. ground (arith, bit_xor_digit (suc n) 0, differ-zero (suc n % 2), ih))

pub bit_or-one_even : (a : ℕ) → bit_or (a * 2) 1 ≡ a * 2 + 1
bit_or-one_even a =
    let half : a * 2 / 2 ≡ a = omega arith in ground (arith, bit_or_digit (a * 2) 1, bit_or-zero a)

pub bit_and-one : (a : ℕ) → bit_and a 1 ≡ a % 2
bit_and-one a = omega (arith, bit_and_digit a 1, bit_and-zero (a / 2))

parity : (a : ℕ) → (a % 2 ≡ 0) ⊎ (a % 2 ≡ 1)
parity a = elim (ℕ_discrete (a % 2) 0) [ yes p ↦ inl p | no p ↦ inr (omega arith) ]

-- An exclusive or with one steps up from an even number and down from an odd one.
pub bit_xor-one : (a : ℕ) → bit_xor a 1 + a % 2 ≡ a / 2 * 2 + 1
bit_xor-one a = elim (parity a) [
  | inl e ↦ omega (arith, rw e at (bit_xor_digit a 1), bit_xor-zero (a / 2))
  | inr e ↦ omega (arith, rw e at (bit_xor_digit a 1), bit_xor-zero (a / 2))
]

mul-two-pow : (q k : ℕ) → q * 2 ^ suc k ≡ 2 * (q * 2 ^ k)
mul-two-pow q k = omega (arith, ap (λ (t : ℕ). q * t) (pow-suc 2 k))

-- An or with a field below bit `k` is a sum.
pub bit_or_low : (k q r : ℕ) → r < 2 ^ k → bit_or (q * 2 ^ k) r ≡ q * 2 ^ k + r
bit_or_low zero q r h = ground (arith, bit_or-zero q)
bit_or_low (suc k) q r h = ground (
  arith,
  bit_or_digit (q * 2 ^ suc k) r,
  mul-two-pow q k,
  pow-suc 2 k,
  bit_or_low k q (r / 2) (omega (arith, pow-suc 2 k)),
)

-- The same with the operands in the other order.
pub bit_or_high : (k q r : ℕ) → r < 2 ^ k → bit_or r (q * 2 ^ k) ≡ q * 2 ^ k + r
bit_or_high zero q zero h = ground (arith, bit_or-bitwise 0 (q * 1))
bit_or_high zero q (suc r) h = absurd (omega arith)
bit_or_high (suc k) q r h = ground (
  arith,
  bit_or_digit r (q * 2 ^ suc k),
  mul-two-pow q k,
  pow-suc 2 k,
  bit_or_high k q (r / 2) (omega (arith, pow-suc 2 k)),
)

-- The lowest digit of a remainder by an even number.
mod-even : (a m : ℕ) → 0 < m → a % (2 * m) ≡ a / 2 % m * 2 + a % 2
mod-even a m h =
    rw (mod_def a (2 * m), ← div-div-eq-div-mul, mod_def (a / 2) m)
      (omega (arith, div-mul-le_self (a / 2) m))

-- A mask of `k` ones is the remainder.
pub bit_and_mask : (k a : ℕ) → bit_and a (2 ^ k - 1) ≡ a % 2 ^ k
bit_and_mask zero a = rw bit_and-zero (omega arith)
bit_and_mask (suc k) a =
    let half : (2 ^ suc k - 1) / 2 ≡ 2 ^ k - 1 =
      omega (arith, pow-suc 2 k, one-le-pow k 2 (omega arith)) in
    let low : (2 ^ suc k - 1) % 2 ≡ 1 = omega (arith, pow-suc 2 k, one-le-pow k 2 (omega arith)) in
    rw
      (
        bit_and_digit a (2 ^ suc k - 1),
        half,
        low,
        bit_and_mask k (a / 2),
        pow-suc 2 k,
        mul_comm (2 ^ k) 2,
      )
      (omega (arith, mod-even a (2 ^ k) (one-le-pow k 2 (omega arith))))

-- A mask of one bit reads that bit.
pub bit_and_bit : (k a : ℕ) → bit_and a (2 ^ k) ≡ a / 2 ^ k % 2 * 2 ^ k
bit_and_bit zero a = omega (arith, bit_and-one a)
bit_and_bit (suc k) a =
    let half : 2 ^ suc k / 2 ≡ 2 ^ k = omega (arith, pow-suc 2 k) in
    let low : 2 ^ suc k % 2 ≡ 0 = omega (arith, pow-suc 2 k) in
    rw
      (
        bit_and_digit a (2 ^ suc k),
        half,
        low,
        bit_and_bit k (a / 2),
        div-div-eq-div-mul,
        pow-suc 2 k,
        mul_comm (2 ^ k) 2,
      )
      (omega (arith, mul_left_comm (a / (2 * 2 ^ k) % 2) 2 (2 ^ k)))
