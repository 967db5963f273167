-- ===== src/Bitvec/Decimal.antt =====
-- `bitvec_from_decimal` of src/smt/bitvec.rs: halving the digits gives the bits of their number.
use satrap.Prelude.{
  ℕ, zero, suc, ◌+◌, ◌-◌, ◌*◌, ◌/◌, ◌%◌, ◌^◌, ◌≤◌, ◌<◌, Bool, true, false, not, Option, some, List,
  [], ◌∷◌, ◌++◌, length, length-append, replicate, map, any, all, ltb, ◌==◌, ◌≡◌, ◌⊎◌, refl, sym,
  ap, ◌∙◌, subst, arith, Bool-cases, inl, inr,
}
use native.Mathlib.Nat.{pow-suc, pow-le-pow_right}
use satrap.Terms.{TermStore, err, bool_constant, does_not_fit}
use satrap.Terms.Good.{IsGood}
use satrap.Terms.Post.{Grows}
use satrap.Terms.Value.{AreTerms}
use satrap.Bitvec.{max_bitvector_width}
use satrap.Bitvec.Number.{
  bit, number, number-lt, number-append, number-replicate, length-replicate, two_pow-pos,
  two_pow_add,
}
use satrap.Bitvec.Gates.{constant, Word, Word-cast}
use satrap.Bitvec.Access.{IsWord, make_bitvec-IsWord}
use satrap.Bitvec.Products.{check_width_fits}
use satrap.Bitvec.Literals.{
  halve, drain, value_bits, is_digit, leading_zero, resized, bitvec_from_decimal,
}

-- The number of digits, highest first, behind a number.
abbrev pub decimal : ℕ → List ℕ → ℕ
decimal n [] = n
decimal n (d ∷ ds) = decimal (n * 10 + d) ds

abbrev value : ℕ → ℕ
value byte = byte - b'0'

-- The number that the bytes of a numeral stand for.
abbrev pub numeral : List ℕ → ℕ
numeral text = decimal 0 (map value text)

halve_lem :
    (q c : ℕ) (ds : List ℕ)
    → c ≤ 1
    → (2 * decimal q (halve c ds).0 + (halve c ds).1 ≡ decimal (2 * q + c) ds)
      × ((halve c ds).1 ≤ 1)
unfolding halve
halve_lem q c [] h = (refl, h)
halve_lem q c (d ∷ ds) h =
    let (whole, low) = halve_lem (q * 10 + (c * 10 + d) / 2) ((c * 10 + d) % 2) ds (omega arith) in
    (whole ∙ ap (λ n. decimal n ds) (omega arith), low)

decimal-drain : (ds : List ℕ) → decimal 0 (drain ds) ≡ decimal 0 ds
decimal-drain [] = refl
decimal-drain (zero ∷ ds) = decimal-drain ds
decimal-drain (suc d ∷ ds) = refl

decimal-ge : (n : ℕ) (ds : List ℕ) → n ≤ decimal n ds
decimal-ge n [] = omega arith
decimal-ge n (d ∷ ds) = let h = decimal-ge (n * 10 + d) ds in omega arith

abbrev nonzero : List ℕ → Bool
nonzero ds = any (λ d. not (d == 0)) ds

nonzero-decimal : (n : ℕ) (ds : List ℕ) → nonzero ds ≡ true → 0 < decimal n ds
nonzero-decimal n [] h = absurd (ground (arith, h))
nonzero-decimal n (zero ∷ ds) h = nonzero-decimal (n * 10 + 0) ds h
nonzero-decimal n (suc d ∷ ds) h = let k = decimal-ge (n * 10 + suc d) ds in omega arith

zeros_decimal : (ds : List ℕ) → nonzero ds ≡ false → decimal 0 ds ≡ 0
zeros_decimal [] h = refl
zeros_decimal (zero ∷ ds) h = zeros_decimal ds h
zeros_decimal (suc d ∷ ds) h = absurd (ground (arith, h))

-- The bits of a number, without a zero at the top.
record Bits (v : ℕ) (r : Option (List Bool)) : Type 0 where
  bits : List Bool
  result : r ≡ some bits
  value : number bits ≡ v
  top : (length bits ≡ 0) ⊎ (2 ^ length bits ≤ 2 * number bits)

halved : (c : ℕ) → c ≤ 1 → bit (not (c == 0)) ≡ c
halved zero h = refl
halved (suc zero) h = refl
halved (suc (suc c)) h = absurd (omega arith)

push_top :
    (b : Bool) (bs : List Bool)
    → 0 < number (b ∷ bs)
    → (length bs ≡ 0) ⊎ (2 ^ length bs ≤ 2 * number bs)
    → 2 ^ length (b ∷ bs) ≤ 2 * number (b ∷ bs)
push_top b [] h k = omega (arith, h)
push_top b (c ∷ bs) h (inl k) = absurd (omega arith)
push_top b (c ∷ bs) h (inr k) = omega (arith, k, pow-suc 2 (suc (length bs)))

value_bits-Bits :
    (fuel : ℕ) (ds : List ℕ) → decimal 0 ds < 2 ^ fuel → Bits (decimal 0 ds) (value_bits fuel ds)
unfolding value_bits
value_bits-Bits zero ds h = elim (Bool-cases (nonzero ds)) [
  | inl e ↦ absurd (let k = nonzero-decimal 0 ds e in omega arith)
  | inr e ↦
      rw e (record { bits = []; result = refl; value = sym (zeros_decimal ds e); top = inl refl })
]
value_bits-Bits (suc fuel) ds h = elim (Bool-cases (nonzero ds)) [
  | inr e ↦
      rw e (record { bits = []; result = refl; value = sym (zeros_decimal ds e); top = inl refl })
  | inl e ↦
      let (whole, low) = halve_lem 0 0 ds (omega arith) in
      let same = decimal-drain (halve 0 ds).0 in
      let rest =
        value_bits-Bits fuel (drain (halve 0 ds).0) (omega (arith, whole, same, pow-suc 2 fuel)) in
      let digit = halved (halve 0 ds).1 low in
      let more = nonzero-decimal 0 ds e in
      rw (e, rest.result)
        (record {
          bits = not ((halve 0 ds).1 == 0) ∷ rest.bits;
          result = refl;
          value = omega (arith, whole, same, rest.value, digit);
          top = inr (push_top _ rest.bits (omega (arith, whole, same, rest.value, digit)) rest.top);
        })
]

-- A numeral of `k` digits is below the `k`-th power of sixteen.
decimal-lt :
    (n m : ℕ) (text : List ℕ)
    → all is_digit text ≡ true
    → n < 2 ^ m
    → decimal n (map value text) < 2 ^ (m + 4 * length text)
decimal-lt n m [] h k = subst (λ e. n < 2 ^ e) (omega arith) k
decimal-lt n m (d ∷ ds) h k =
    let digit : d - b'0' ≤ 9 = ground arith in
    let others : all is_digit ds ≡ true = ground arith in
    let power : 2 ^ (m + 4) ≡ 2 ^ m * 2 ^ 4 = two_pow_add m 4 in
    subst (λ e. decimal (n * 10 + (d - b'0')) (map value ds) < 2 ^ e) (omega arith)
      (decimal-lt (n * 10 + (d - b'0')) (m + 4) ds others (omega (arith, power)))

-- A number with a bit at the top that is below a power of two has no more bits.
width_fits :
    (bs : List Bool) (w : ℕ)
    → (length bs ≡ 0) ⊎ (2 ^ length bs ≤ 2 * number bs)
    → ltb w (length bs) ≡ not (ltb (number bs) (2 ^ w))
width_fits bs w (inl k) =
    let small : number bs < 2 ^ length bs = number-lt bs in
    let one : 2 ^ length bs ≡ 1 = ap (λ n. 2 ^ n) k in let pos = two_pow-pos w in ground arith
width_fits bs w (inr k) = elim (Bool-cases (ltb w (length bs))) [
  | inl e ↦
      let more : 2 ^ suc w ≤ 2 ^ length bs =
        pow-le-pow_right {n = 2} (omega arith) {i = suc w} (ground arith) in
      let big : 2 ^ w ≤ number bs = omega (arith, pow-suc 2 w) in ground arith
  | inr e ↦
      let more : 2 ^ length bs ≤ 2 ^ w =
        pow-le-pow_right {n = 2} (omega arith) {j = w} (ground arith) in
      let small = number-lt bs in ground arith
]

module _ (ρ V : ℕ → Bool) (s : TermStore) (g : IsGood s) where
  constants : (bs : List Bool) → AreTerms ρ V s (map bool_constant bs) bs
  constants [] = tt
  constants (b ∷ bs) = (constant ρ V g b, constants bs)

  padded :
      (bs : List Bool) (w : ℕ)
      → length bs ≤ w
      → Word ρ V s (map bool_constant (bs ++ replicate (w - length bs) false)) w (number bs)
  padded bs w le = record {
    bits = bs ++ replicate (w - length bs) false;
    terms = constants (bs ++ replicate (w - length bs) false);
    size =
        let p = length-append bs (replicate (w - length bs) false) in
        omega (arith, p, length-replicate (w - length bs) false);
    value =
        number-append bs (replicate (w - length bs) false)
        ∙ rw (number-replicate (w - length bs)) (omega arith);
  }

  module _ (d : ℕ) (ds : List ℕ) (w : ℕ) (pos : 0 < w) (le : w ≤ max_bitvector_width)
      (digits : all is_digit (d ∷ ds) ≡ true) (plain : leading_zero (d ∷ ds) ≡ false) where
    numeral_bits : Bits (numeral (d ∷ ds)) (value_bits (4 * length (d ∷ ds)) (map value (d ∷ ds)))
    numeral_bits = value_bits-Bits (4 * length (d ∷ ds)) (map value (d ∷ ds)) (
        subst (λ e. numeral (d ∷ ds) < 2 ^ e) (omega arith)
          (decimal-lt 0 0 (d ∷ ds) digits (omega arith)))

    no_room : ltb w (length numeral_bits.bits) ≡ not (ltb (numeral (d ∷ ds)) (2 ^ w))
    no_room =
        width_fits numeral_bits.bits w numeral_bits.top
        ∙ ap (λ v. not (ltb v (2 ^ w))) numeral_bits.value

    pub bitvec_from_decimal_fits :
        numeral (d ∷ ds) < 2 ^ w
        → Grows s (λ t s'. IsWord ρ V s' t w (numeral (d ∷ ds))) (bitvec_from_decimal (d ∷ ds) w s)
    unfolding bitvec_from_decimal resized
    bitvec_from_decimal_fits small =
        let test = no_room in
        let room : ltb w (length numeral_bits.bits) ≡ false = ground arith in
        rw (check_width_fits s w pos le, digits, plain, numeral_bits.result, room)
          (make_bitvec-IsWord ρ V s _ w _ g pos (omega arith)
            (Word-cast ρ V numeral_bits.value (padded numeral_bits.bits w (ground arith))))

    pub bitvec_from_decimal_large :
        2 ^ w ≤ numeral (d ∷ ds) → bitvec_from_decimal (d ∷ ds) w s ≡ (err does_not_fit, s)
    unfolding bitvec_from_decimal resized
    bitvec_from_decimal_large large =
        let test = no_room in
        let full : ltb w (length numeral_bits.bits) ≡ true = ground arith in
        rw (check_width_fits s w pos le, digits, plain, numeral_bits.result, full) refl
