-- ===== src/Bitvec/Products.antt =====
-- `bvumulo` of src/smt/bitvec.rs: a product that does not fit.
use satrap.Prelude.{
  ℕ, zero, suc, ◌+◌, ◌-◌, ◌*◌, ◌/◌, ◌%◌, ◌^◌, ◌≤◌, ◌<◌, Bool, true, false, not, List, ◌++◌, length,
  replicate, leb, ltb, ◌==◌, ◌≡◌, refl, sym, subst, arith, Bool-cases, inl, inr,
}
use native.Mathlib.Nat.{mod-eq_of_lt, mul-le-mul, div-eq_of_lt, le-div_iff_mul-le}
use satrap.Terms.{err, work_limit, TermStore, ok, false_term, u32_limit}
use satrap.Terms.Good.{IsGood}
use satrap.Terms.Post.{Grows, chain, mono}
use satrap.Terms.Value.{IsTerm}
use satrap.Bitvec.{
  multiply_bits, check_width, check_quadratic, max_bitvector_width, max_quadratic_lowering_work,
}
use satrap.Bitvec.Number.{two_pow-pos, two_pow_add}
use satrap.Bitvec.Gates.{not_gate, Word, Word-cast, Word-lt, Word-length}
use satrap.Bitvec.Multiply.{multiply_bits-Word}
use satrap.Bitvec.Order.{is_zero_bits-IsTerm}
use satrap.Bitvec.Access.{IsWord, bitvec_bits_then, require_same_bv_width_then}
use satrap.Bitvec.Words.{drop}
use satrap.Bitvec.Compare.{bvumulo, full_width_of}
use satrap.Bitvec.Parts.{extended, high-Word}

pub check_width_fits :
    (s : TermStore) (n : ℕ) → 0 < n → n ≤ max_bitvector_width → check_width n s ≡ (ok tt, s)
unfolding check_width
check_width_fits s zero pos le = absurd (omega arith)
check_width_fits s (suc n) pos le = ground arith

module _ (ρ V : ℕ → Bool) where
  high_test : (v m : ℕ) → 1 ≤ m → not (v / m == 0) ≡ leb m v
  high_test v m pos = elim (Bool-cases (leb m v)) [
    | inl e ↦
        let le : m ≤ v = ground arith in
        let some_ : 1 ≤ v / m = (le-div_iff_mul-le pos).1 (omega arith) in ground arith
    | inr e ↦
        let lt : v < m = ground arith in let none_ : v / m ≡ 0 = div-eq_of_lt lt in ground arith
  ]

  product-lt : (a b m : ℕ) → a < m → b < m → a * b < m * m
  product-lt a b m h k =
      let le : suc a * suc b ≤ m * m = mul-le-mul (omega arith) (omega arith) in omega arith

  full_width_of_lem :
      (s : TermStore) (w : ℕ)
      → 0 < w
      → w * 2 ≤ max_bitvector_width
      → full_width_of w s ≡ (ok (w * 2), s)
  full_width_of_lem s w pos le =
      let small : leb u32_limit (w * 2) ≡ false = ground arith in
      rw (small, check_width_fits s (w * 2) (omega arith) le) refl

  -- A word of `w` bits in twice as many.
  doubled :
      (s : TermStore) (ts : List ℕ) (w v : ℕ)
      → IsGood s
      → Word ρ V s ts w v
      → Word ρ V s (ts ++ replicate (w * 2 - length ts) false_term) (w + w) v
  doubled s ts w v g h =
      let rest : length ts + (w * 2 - length ts) ≡ w + w =
        let k = Word-length ρ V h in omega (arith, k) in
      let more : w + (w * 2 - length ts) ≡ w + w = let k = Word-length ρ V h in omega (arith, k) in
      subst (λ n. Word ρ V s (ts ++ replicate (w * 2 - length ts) false_term) n v) more
        (extended ρ V s ts w (w * 2 - length ts) v g h)

  pub bvumulo_lem :
      (s : TermStore) (t u w a b : ℕ)
      → IsGood s
      → w * 2 ≤ max_bitvector_width
      → w * w ≤ max_quadratic_lowering_work
      → 0 < w
      → IsWord ρ V s t w a
      → IsWord ρ V s u w b
      → Grows s (λ r s'. IsTerm ρ V s' r (leb (2 ^ w) (a * b))) (bvumulo t u s)
  unfolding bvumulo check_quadratic
  bvumulo_lem s t u w a b g le work pos h k =
      let cheap : ltb max_quadratic_lowering_work (w * w) ≡ false = ground arith in
      let two : w * 2 ≡ w + w = omega arith in
      let whole : a * b % 2 ^ (w + w) ≡ a * b = mod-eq_of_lt (
        subst (λ x. a * b < x) (sym (two_pow_add w w))
          (product-lt a b (2 ^ w) (Word-lt ρ V h.word) (Word-lt ρ V k.word))) in
      rw
        (
          require_same_bv_width_then ρ V s t u w a b _ h k,
          cheap,
          full_width_of_lem s w pos le,
          bitvec_bits_then ρ V s t w a _ h,
          bitvec_bits_then ρ V s u w b _ k,
        )
        (chain
          (subst
            (λ n.
              Grows s (λ r s'. Word ρ V s' r (w + w) (a * b % 2 ^ (w + w)))
                (multiply_bits (h.bits ++ replicate (w * 2 - length h.bits) false_term)
                  (k.bits ++ replicate (w * 2 - length k.bits) false_term) n s))
            (sym two)
            (multiply_bits-Word ρ V s _ _ (w + w) (w + w) (w + w) a b g (omega arith)
              (doubled s h.bits w a g h.word) (doubled s k.bits w b g k.word)))
          (λ r s₁ e₁ hr.
            chain
              (is_zero_bits-IsTerm ρ V s₁ (drop w r) w _ e₁.good
                (high-Word ρ V s₁ r w w (a * b) (Word-cast ρ V whole hr)))
              (λ z s₂ e₂ hz. mono (not_gate ρ V e₂.good hz) (λ o s₃ ho. (
                ho.0,
                subst (λ v. IsTerm ρ V s₃ o v) (high_test (a * b) (2 ^ w) (two_pow-pos w)) ho.1,
              )))))

  -- Above the limit on the work there is an error, and nothing is made.
  pub bvumulo_large :
      (s : TermStore) (t u w a b : ℕ)
      → max_quadratic_lowering_work < w * w
      → IsWord ρ V s t w a
      → IsWord ρ V s u w b
      → bvumulo t u s ≡ (err work_limit, s)
  unfolding bvumulo check_quadratic
  bvumulo_large s t u w a b large h k =
      let costly : ltb max_quadratic_lowering_work (w * w) ≡ true = ground arith in
      rw (require_same_bv_width_then ρ V s t u w a b _ h k, costly) refl
