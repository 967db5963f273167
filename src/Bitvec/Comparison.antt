-- ===== src/Bitvec/Comparison.antt =====
-- The comparisons and the predicates for overflow of src/smt/bitvec.rs, as statements about numbers.
use satrap.Prelude.{
  ℕ, suc, ◌+◌, ◌-◌, ◌*◌, ◌^◌, ◌<◌, Bool, not, beq, List, leb, ltb, if◌then◌else◌, ◌≡◌, subst, arith,
}
use native.Mathlib.Nat.{pow-suc}
use satrap.Terms.{TermStore}
use satrap.Terms.Good.{IsGood}
use satrap.Terms.Post.{Grows, chain, mono}
use satrap.Terms.Value.{IsTerm}
use satrap.Terms.Branch.{ite-Grows}
use satrap.Bitvec.Gates.{keep, done, not_gate, xor_gate, Word, Word-mono, Word-lt, ◌⊳◌}
use satrap.Bitvec.Adder.{add_bits-Word}
use satrap.Bitvec.Order.{unsigned_less_than_bits-IsTerm}
use satrap.Bitvec.Access.{IsWord, bitvec_bits_then, require_same_bv_width_then, sign_of_lem}
use satrap.Bitvec.Division.{is_minus}
use satrap.Bitvec.Compare.{bvult, bvule, bvslt, bvsle, bvuaddo}

-- The signed number of a word of `suc n` bits, plus `2 ^ n`.
abbrev pub offset : ℕ → ℕ → ℕ
offset n a = if is_minus n a then a - 2 ^ n else a + 2 ^ n

module _ (ρ V : ℕ → Bool) where
  pub bvult_lem :
      (s : TermStore) (t u w a b : ℕ)
      → IsGood s
      → IsWord ρ V s t w a
      → IsWord ρ V s u w b
      → Grows s (λ r s'. IsTerm ρ V s' r (ltb a b)) (bvult t u s)
  unfolding bvult
  bvult_lem s t u w a b g h k =
      rw
        (
          require_same_bv_width_then ρ V s t u w a b _ h k,
          bitvec_bits_then ρ V s t w a _ h,
          bitvec_bits_then ρ V s u w b _ k,
        )
        (unsigned_less_than_bits-IsTerm ρ V s h.bits k.bits w a b g h.word k.word)

  pub bvule_lem :
      (s : TermStore) (t u w a b : ℕ)
      → IsGood s
      → IsWord ρ V s t w a
      → IsWord ρ V s u w b
      → Grows s (λ r s'. IsTerm ρ V s' r (leb a b)) (bvule t u s)
  unfolding bvule
  bvule_lem s t u w a b g h k = chain (bvult_lem s u t w b a g k h) (λ r s₁ e₁ hr.
      mono (not_gate ρ V e₁.good hr)
        (λ r' s₂ hr'. (hr'.0, subst (λ x. IsTerm ρ V s₂ r' x) flip hr'.1)))
    where
      flip : not (ltb b a) ≡ leb a b
      flip = ground arith

  pub half-lt : {s : TermStore} {ts : List ℕ} {n v : ℕ} → Word ρ V s ts (suc n) v → v < 2 * 2 ^ n
  half-lt {n = n} w = let b = Word-lt ρ V w in omega (arith, b, pow-suc 2 n)

  signed_less :
      (a b m : ℕ)
      → a < 2 * m
      → b < 2 * m
      → (if not (beq (leb m a) (leb m b)) then leb m a else ltb a b)
        ≡ ltb (if leb m a then a - m else a + m) (if leb m b then b - m else b + m)
  signed_less a b m h k = ground arith

  pub bvslt_lem :
      (s : TermStore) (t u n a b : ℕ)
      → IsGood s
      → IsWord ρ V s t (suc n) a
      → IsWord ρ V s u (suc n) b
      → Grows s (λ r s'. IsTerm ρ V s' r (ltb (offset n a) (offset n b))) (bvslt t u s)
  unfolding bvslt
  bvslt_lem s t u n a b g h k =
      let (x, hx, is_x) = sign_of_lem ρ V s h.bits n a h.word in
      let (y, hy, is_y) = sign_of_lem ρ V s k.bits n b k.word in
      rw
        (
          require_same_bv_width_then ρ V s t u (suc n) a b _ h k,
          bitvec_bits_then ρ V s t (suc n) a _ h,
          bitvec_bits_then ρ V s u (suc n) b _ k,
          is_x,
          is_y,
        )
        (chain (xor_gate ρ V g hx hy) (λ d s₁ e₁ hd.
          chain
            (unsigned_less_than_bits-IsTerm ρ V s₁ h.bits k.bits (suc n) a b e₁.good
              (Word-mono ρ V e₁ h.word) (Word-mono ρ V e₁ k.word))
            (λ o s₂ e₂ ho.
              mono
                (ite-Grows ρ V s₂ e₂.good d x o _ _ _ (keep ρ V e₂ hd) (keep ρ V (e₁ ⊳ e₂) hx) ho)
                (λ r s₃ hr. (
                  hr.0,
                  subst (λ v. IsTerm ρ V s₃ r v)
                      (signed_less a b (2 ^ n) (half-lt h.word) (half-lt k.word)) hr.1,
                )))))

  pub bvsle_lem :
      (s : TermStore) (t u n a b : ℕ)
      → IsGood s
      → IsWord ρ V s t (suc n) a
      → IsWord ρ V s u (suc n) b
      → Grows s (λ r s'. IsTerm ρ V s' r (leb (offset n a) (offset n b))) (bvsle t u s)
  unfolding bvsle
  bvsle_lem s t u n a b g h k = chain (bvslt_lem s u t n b a g k h) (λ r s₁ e₁ hr.
      mono (not_gate ρ V e₁.good hr) (λ r' s₂ hr'.
        (hr'.0, subst (λ x. IsTerm ρ V s₂ r' x) (flip (offset n a) (offset n b)) hr'.1)))
    where
      flip : (p q : ℕ) → not (ltb q p) ≡ leb p q
      flip p q = ground arith

  pub bvuaddo_lem :
      (s : TermStore) (t u w a b : ℕ)
      → IsGood s
      → IsWord ρ V s t w a
      → IsWord ρ V s u w b
      → Grows s (λ r s'. IsTerm ρ V s' r (leb (2 ^ w) (a + b))) (bvuaddo t u s)
  unfolding bvuaddo
  bvuaddo_lem s t u w a b g h k =
      rw
        (
          require_same_bv_width_then ρ V s t u w a b _ h k,
          bitvec_bits_then ρ V s t w a _ h,
          bitvec_bits_then ρ V s u w b _ k,
        )
        (chain (add_bits-Word ρ V s h.bits k.bits w a b g h.word k.word)
          (λ r s₁ e₁ hr. done ρ V e₁.good hr.1))
