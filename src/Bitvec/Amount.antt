-- ===== src/Bitvec/Amount.antt =====
-- What the shifts of src/smt/bitvec.rs do to a number, by any amount.
use satrap.Prelude.{
  ℕ, suc, ◌+◌, ◌-◌, ◌*◌, ◌/◌, ◌%◌, ◌^◌, ◌≤◌, ◌<◌, Bool, true, false, if◌then◌else◌, ltb, ◌&&◌, ◌≡◌,
  sym, ap, ◌∙◌, subst, arith, Bool-cases, inl, inr,
}
use native.Mathlib.Nat.{
  pow-le-pow_right, mul-add-div, div-eq_of_lt, div-div-eq-div-mul, div-le_self, div-lt_iff_lt-mul,
  mod-eq_of_lt, mul-mod_right, mod-lt, div-add-mod,
}
use satrap.Terms.{u32_limit}
use satrap.Bitvec.Number.{two_pow-pos, two_pow_add, mod_unique}

-- The number `v` of `w` bits, `n` places to the left.
abbrev pub shifted_left : ℕ → ℕ → ℕ → ℕ
shifted_left w n v = (v * 2 ^ n) % 2 ^ w

-- The number, `n` places to the right; where `x` holds, ones come in at the top.
abbrev pub shifted_right : ℕ → Bool → ℕ → ℕ → ℕ
shifted_right w x n v = if x then 2 ^ w - 1 - (2 ^ w - 1 - v) / 2 ^ n else v / 2 ^ n

pub shifted_left_zero : (w v : ℕ) → v < 2 ^ w → shifted_left w 0 v ≡ v
shifted_left_zero w v h =
    let same : v * 1 ≡ v = omega arith in ap (λ x. x % 2 ^ w) same ∙ mod-eq_of_lt h

-- Two shifts are one.
pub shifted_left_add :
    (w m n v : ℕ) → shifted_left w n (shifted_left w m v) ≡ shifted_left w (m + n) v
shifted_left_add w m n v =
    let p = div-add-mod (v * 2 ^ m) (2 ^ w) in
    let q = div-add-mod ((v * 2 ^ m) % 2 ^ w * 2 ^ n) (2 ^ w) in
    mod_unique (2 ^ w) _ ((v * 2 ^ m) / 2 ^ w * 2 ^ n + (v * 2 ^ m) % 2 ^ w * 2 ^ n / 2 ^ w) _
      (omega (arith, q, ap (λ x. x * 2 ^ n) p, ap (λ x. v * x) (two_pow_add m n)))
      (mod-lt ((v * 2 ^ m) % 2 ^ w * 2 ^ n) (two_pow-pos w))

pub shifted_right_zero : (w : ℕ) (x : Bool) (v : ℕ) → v < 2 ^ w → shifted_right w x 0 v ≡ v
shifted_right_zero w true v h = omega arith
shifted_right_zero w false v h = omega arith

pub shifted_right_add :
    (w : ℕ) (x : Bool) (m n v : ℕ)
    → shifted_right w x n (shifted_right w x m v) ≡ shifted_right w x (m + n) v
shifted_right_add w true m n v =
    let small = div-le_self (2 ^ w - 1 - v) (2 ^ m) in
    let back : 2 ^ w - 1 - (2 ^ w - 1 - (2 ^ w - 1 - v) / 2 ^ m) ≡ (2 ^ w - 1 - v) / 2 ^ m =
      omega arith in
    ap (λ y. 2 ^ w - 1 - y / 2 ^ n) back
    ∙ ap (λ y. 2 ^ w - 1 - y)
        (div-div-eq-div-mul (2 ^ w - 1 - v) (2 ^ m) (2 ^ n)
          ∙ ap (λ y. (2 ^ w - 1 - v) / y) (sym (two_pow_add m n)))
shifted_right_add w false m n v =
    div-div-eq-div-mul v (2 ^ m) (2 ^ n) ∙ ap (λ y. v / y) (sym (two_pow_add m n))

-- Shifts by the width or more.
pub shifted_left_out : (w n v : ℕ) → w ≤ n → 0 ≡ shifted_left w n v
shifted_left_out w n v le =
    let split : w + (n - w) ≡ n = omega arith in
    let power : 2 ^ w * (v * 2 ^ (n - w)) ≡ v * 2 ^ n =
      omega (arith, ap (λ k. v * 2 ^ k) split, ap (λ x. v * x) (two_pow_add w (n - w))) in
    sym (ap (λ x. x % 2 ^ w) (sym power) ∙ mul-mod_right (2 ^ w) (v * 2 ^ (n - w)))

pub shifted_right_out :
    (w : ℕ) (x : Bool) (n v : ℕ)
    → w ≤ n
    → v < 2 ^ w
    → (if x then 2 ^ w - 1 else 0) ≡ shifted_right w x n v
shifted_right_out w true n v le h =
    let more : 2 ^ w ≤ 2 ^ n = pow-le-pow_right (omega arith) le in
    let none_ : (2 ^ w - 1 - v) / 2 ^ n ≡ 0 = div-eq_of_lt (omega (arith, two_pow-pos w)) in
    omega arith
shifted_right_out w false n v le h =
    let more : 2 ^ w ≤ 2 ^ n = pow-le-pow_right (omega arith) le in sym (div-eq_of_lt (omega arith))

filled :
    (a c q r : ℕ)
    → q < a
    → r ≤ c
    → q + a * c ≡ a * suc c - 1 - (a * suc c - 1 - (suc c * q + r)) / suc c
filled a c q r h k =
    let e : ℕ = a - suc q in
    let split : a ≡ q + 1 + e = omega arith in
    let whole : a * suc c ≡ (q + 1 + e) * suc c = ap (λ x. x * suc c) split in
    let top : a * suc c - 1 - (suc c * q + r) ≡ suc c * e + (c - r) = omega (arith, whole) in
    let quotient : (a * suc c - 1 - (suc c * q + r)) / suc c ≡ e =
      ap (λ x. x / suc c) top
      ∙ mul-add-div (omega arith) e (c - r)
      ∙ ap (λ x. e + x) (div-eq_of_lt (omega arith))
      ∙ omega arith in
    omega (arith, quotient, whole)

-- The bits that stay, and those that come in at the top.
pub shifted_right_in :
    (m n : ℕ) (x : Bool) (v : ℕ)
    → v < 2 ^ (m + n)
    → v / 2 ^ n + 2 ^ m * (if x then 2 ^ n - 1 else 0) ≡ shifted_right (m + n) x n v
shifted_right_in m n false v h = omega arith
shifted_right_in m n true v h =
    let one_more : suc (2 ^ n - 1) ≡ 2 ^ n = omega (arith, two_pow-pos n) in
    let split = div-add-mod v (2 ^ n) in
    let low = mod-lt v (two_pow-pos n) in
    let wide : 2 ^ (m + n) ≡ 2 ^ m * 2 ^ n = two_pow_add m n in
    let high : v / 2 ^ n < 2 ^ m = (div-lt_iff_lt-mul (two_pow-pos n)).1 (omega (arith, wide)) in
    let back : suc (2 ^ n - 1) * (v / 2 ^ n) + v % 2 ^ n ≡ v =
      ap (λ x. x * (v / 2 ^ n) + v % 2 ^ n) one_more ∙ split in
    rw wide (
      subst (λ b. v / 2 ^ n + 2 ^ m * (2 ^ n - 1) ≡ 2 ^ m * b - 1 - (2 ^ m * b - 1 - v) / b)
        one_more
        (filled (2 ^ m) (2 ^ n - 1) (v / 2 ^ n) (v % 2 ^ n) high (omega arith)
          ∙ ap
              (λ y.
                2 ^ m * suc (2 ^ n - 1) - 1 - (2 ^ m * suc (2 ^ n - 1) - 1 - y) / suc (2 ^ n - 1))
              back))

-- A candidate that is not moved is shifted by the width or more.
pub index_out : (w i : ℕ) → w < u32_limit → (ltb i 64 && ltb (2 ^ i) w) ≡ false → w ≤ 2 ^ i
index_out w i lt h = elim (Bool-cases (ltb i 64)) [
  | inl e ↦ ground arith
  | inr e ↦
      let big : 2 ^ 64 ≤ 2 ^ i = pow-le-pow_right (omega arith) {i = 64} (ground arith) in
      omega arith
]
