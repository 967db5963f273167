-- ===== src/Bitvec/Number.antt =====
-- The numbers that lists of bits stand for, lowest bit first, and the arithmetic of the circuits of
-- src/smt/bitvec.rs on bits.
use satrap.Prelude.{
  ℕ, zero, suc, ◌+◌, ◌*◌, ◌/◌, ◌%◌, ◌^◌, ◌≤◌, ◌<◌, Bool, true, false, not, ◌&&◌, ◌||◌, beq, List,
  [], ◌∷◌, ◌++◌, length, replicate, map, ltb, leb, ◌==◌, ◌≡◌, refl, sym, ap, ◌∙◌, subst, arith,
}
use native.Mathlib.Nat.{
  pow-suc, one-le-pow, mod-eq_of_lt, add-mul-mod_self_left, div-add-mod, mod-lt,
  mul-lt-mul_of_pos_left,
}

abbrev pub bit : Bool → ℕ
bit true = 1
bit false = 0

abbrev pub number : List Bool → ℕ
number [] = 0
number (b ∷ bs) = bit b + 2 * number bs

pub bit-le : (b : Bool) → bit b ≤ 1
bit-le true = omega arith
bit-le false = omega arith

pub two_pow-pos : (n : ℕ) → 1 ≤ 2 ^ n
two_pow-pos n = one-le-pow n 2 (omega arith)

pub double_pow : (n k : ℕ) → 2 ^ suc n * k ≡ 2 * (2 ^ n * k)
double_pow n k = omega (arith, ap (λ (t : ℕ). t * k) (pow-suc 2 n))

pub number-lt : (bs : List Bool) → number bs < 2 ^ length bs
number-lt [] = omega arith
number-lt (b ∷ bs) = omega (arith, number-lt bs, bit-le b, pow-suc 2 (length bs))

-- What is left of a number that is a remainder with some multiple of the modulus.
pub mod_unique : (m v q r : ℕ) → r + m * q ≡ v → r < m → r ≡ v % m
mod_unique m v q r h k =
    sym (ap (λ x. x % m) (sym h) ∙ add-mul-mod_self_left r m q ∙ mod-eq_of_lt k)

-- The full adder: the sum of three bits, and its carry, as the circuit makes them.
abbrev pub full_sum : Bool → Bool → Bool → Bool
full_sum x y c = not (beq (not (beq x y)) c)

abbrev pub full_carry : Bool → Bool → Bool → Bool
full_carry x y c = (x && y) || (not (beq x y) && c)

full_adder :
    (x y c : Bool) → bit (full_sum x y c) + 2 * bit (full_carry x y c) ≡ bit x + bit y + bit c
full_adder true true true = refl
full_adder true true false = refl
full_adder true false true = refl
full_adder true false false = refl
full_adder false true true = refl
full_adder false true false = refl
full_adder false false true = refl
full_adder false false false = refl

abbrev pub sum : Bool → List Bool → List Bool → List Bool
sum c [] ys = []
sum c (x ∷ xs) [] = []
sum c (x ∷ xs) (y ∷ ys) = full_sum x y c ∷ sum (full_carry x y c) xs ys

abbrev pub last_carry : Bool → List Bool → List Bool → Bool
last_carry c [] ys = c
last_carry c (x ∷ xs) [] = c
last_carry c (x ∷ xs) (y ∷ ys) = last_carry (full_carry x y c) xs ys

pub length-sum :
    (c : Bool) (xs ys : List Bool) → length xs ≡ length ys → length (sum c xs ys) ≡ length xs
length-sum c [] ys h = refl
length-sum c (x ∷ xs) [] h = absurd (omega arith)
length-sum c (x ∷ xs) (y ∷ ys) h = ap suc (length-sum (full_carry x y c) xs ys (omega arith))

-- The sum and the carry make up the numbers.
pub number-sum :
    (c : Bool) (xs ys : List Bool)
    → length xs ≡ length ys
    → number (sum c xs ys) + 2 ^ length xs * bit (last_carry c xs ys)
      ≡ number xs + number ys + bit c
number-sum c [] [] h = omega arith
number-sum c [] (y ∷ ys) h = absurd (omega arith)
number-sum c (x ∷ xs) [] h = absurd (omega arith)
number-sum c (x ∷ xs) (y ∷ ys) h =
    let rest = number-sum (full_carry x y c) xs ys (omega arith) in
    omega (
      arith,
      rest,
      full_adder x y c,
      double_pow (length xs) (bit (last_carry (full_carry x y c) xs ys)),
    )

pub length-map : (f : Bool → Bool) (xs : List Bool) → length (map f xs) ≡ length xs
length-map f [] = refl
length-map f (x ∷ xs) = ap suc (length-map f xs)

bit-not : (b : Bool) → bit (not b) + bit b ≡ 1
bit-not true = refl
bit-not false = refl

-- The complement of all bits.
pub number-not : (xs : List Bool) → number (map not xs) + number xs + 1 ≡ 2 ^ length xs
number-not [] = refl
number-not (x ∷ xs) = omega (arith, number-not xs, bit-not x, pow-suc 2 (length xs))

pub number-replicate : (n : ℕ) → number (replicate n false) ≡ 0
number-replicate zero = refl
number-replicate (suc n) = omega (arith, number-replicate n)

pub length-replicate {ℓ} : {A : Type ℓ} (n : ℕ) (a : A) → length (replicate n a) ≡ n
length-replicate zero a = refl
length-replicate (suc n) a = ap suc (length-replicate n a)

pub number-append : (xs ys : List Bool) → number (xs ++ ys) ≡ number xs + 2 ^ length xs * number ys
number-append [] ys = omega arith
number-append (x ∷ xs) ys = omega (arith, number-append xs ys, double_pow (length xs) (number ys))

-- The comparison from the highest bit on.
abbrev pub same : List Bool → List Bool → Bool
same [] ys = true
same (x ∷ xs) [] = true
same (x ∷ xs) (y ∷ ys) = same xs ys && beq x y

abbrev pub below : List Bool → List Bool → Bool
below [] ys = false
below (x ∷ xs) [] = false
below (x ∷ xs) (y ∷ ys) = below xs ys || (same xs ys && (not x && y))

-- It compares the numbers.
pub below_same :
    (xs ys : List Bool)
    → length xs ≡ length ys
    → (below xs ys ≡ ltb (number xs) (number ys)) × (same xs ys ≡ (number xs == number ys))
below_same [] [] h = (refl, refl)
below_same [] (y ∷ ys) h = absurd (omega arith)
below_same (x ∷ xs) [] h = absurd (omega arith)
below_same (x ∷ xs) (y ∷ ys) h =
    let (p, q) = below_same xs ys (omega arith) in rw (p, q) (digit x y (number xs) (number ys))
  where
    digit :
        (x y : Bool) (a b : ℕ)
        → (ltb a b || ((a == b) && (not x && y)) ≡ ltb (bit x + 2 * a) (bit y + 2 * b))
          × ((a == b) && beq x y ≡ (bit x + 2 * a == bit y + 2 * b))
    digit true true a b = (ground arith, ground arith)
    digit true false a b = (ground arith, ground arith)
    digit false true a b = (ground arith, ground arith)
    digit false false a b = (ground arith, ground arith)

sum-lt :
    (c : Bool) (xs ys : List Bool) → length xs ≡ length ys → number (sum c xs ys) < 2 ^ length xs
sum-lt c xs ys h =
    subst (λ n. number (sum c xs ys) < 2 ^ n) (length-sum c xs ys h) (number-lt (sum c xs ys))

pub sum_mod :
    (xs ys : List Bool)
    → length xs ≡ length ys
    → number (sum false xs ys) ≡ (number xs + number ys) % 2 ^ length xs
sum_mod xs ys h =
    mod_unique (2 ^ length xs) _ (bit (last_carry false xs ys)) _
      (omega (arith, number-sum false xs ys h)) (sum-lt false xs ys h)

carry_test : (c : Bool) (s m t : ℕ) → s + m * bit c ≡ t → s < m → c ≡ leb m t
carry_test true s m t h k = let over : m ≤ t = omega arith in ground arith
carry_test false s m t h k = let under : t < m = omega arith in ground arith

pub carry_leb :
    (xs ys : List Bool)
    → length xs ≡ length ys
    → last_carry false xs ys ≡ leb (2 ^ length xs) (number xs + number ys)
carry_leb xs ys h =
    carry_test _ (number (sum false xs ys)) _ _ (omega (arith, number-sum false xs ys h))
      (sum-lt false xs ys h)

-- The lowest bit of a remainder by a power of two.
pub digit_mod : (n b v : ℕ) → b ≤ 1 → b + 2 * (v % 2 ^ n) ≡ (b + 2 * v) % 2 ^ suc n
digit_mod n b v h =
    let high = div-add-mod v (2 ^ n) in
    let low = mod-lt v (two_pow-pos n) in
    mod_unique (2 ^ suc n) (b + 2 * v) (v / 2 ^ n) _ (omega (arith, high, double_pow n (v / 2 ^ n)))
      (omega (arith, low, h, pow-suc 2 n))

pub two_pow_add : (i k : ℕ) → 2 ^ (i + k) ≡ 2 ^ i * 2 ^ k
two_pow_add zero k = let e : 0 + k ≡ k = omega arith in ap (λ n. 2 ^ n) e ∙ omega arith
two_pow_add (suc i) k =
    let e : suc i + k ≡ suc (i + k) = omega arith in
    ap (λ n. 2 ^ n) e ∙ omega (arith, pow-suc 2 (i + k), two_pow_add i k, double_pow i (2 ^ k))

-- A remainder that is shifted within the width.
pub shift_mod : (i k x : ℕ) → 2 ^ i * (x % 2 ^ k) ≡ (2 ^ i * x) % 2 ^ (i + k)
shift_mod i k x =
    let high = div-add-mod x (2 ^ k) in
    let low = mod-lt x (two_pow-pos k) in
    rw (two_pow_add i k) (
      mod_unique (2 ^ i * 2 ^ k) (2 ^ i * x) (x / 2 ^ k) _ (omega (arith, ap (λ t. 2 ^ i * t) high))
        (mul-lt-mul_of_pos_left low (two_pow-pos i)))
