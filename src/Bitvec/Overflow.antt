-- ===== src/Bitvec/Overflow.antt =====
-- The predicates for signed overflow, and for a product that does not fit, of src/smt/bitvec.rs.
use satrap.Prelude.{
  ℕ, suc, ◌+◌, ◌-◌, ◌*◌, ◌%◌, ◌^◌, ◌≤◌, ◌<◌, Bool, not, ◌&&◌, beq, leb, ltb, if◌then◌else◌, ◌≡◌,
  ◌⊎◌, subst, arith, Bool-cases, inl, inr,
}
use native.Mathlib.Nat.{pow-suc, mod-eq_of_lt, mod-eq-sub-mod}
use satrap.Terms.{TermStore}
use satrap.Terms.Good.{IsGood}
use satrap.Terms.Post.{Grows, chain, mono}
use satrap.Terms.Value.{IsTerm}
use satrap.Bitvec.Gates.{keep, and_gate, iff_gate, xor_gate, Word-mono}
use satrap.Bitvec.Adder.{add_bits-Word, subtract_bits-Word}
use satrap.Bitvec.Access.{IsWord, bitvec_bits_then, require_same_bv_width_then, sign_of_lem}
use satrap.Bitvec.Comparison.{offset, half-lt}
use satrap.Bitvec.Compare.{bvsaddo, bvssubo}

-- Does a signed number that is given with the offset `2 * 2 ^ n` fit in the word?
abbrev pub sum_fits : ℕ → ℕ → ℕ → Bool
sum_fits n a b = leb (2 ^ n) (offset n a + offset n b) && ltb (offset n a + offset n b) (3 * 2 ^ n)

abbrev pub difference_fits : ℕ → ℕ → ℕ → Bool
difference_fits n a b =
    leb (offset n b) (offset n a + 2 ^ n) && ltb (offset n a) (offset n b + 2 ^ n)

signed_sum :
    (a b r m : ℕ)
    → a < 2 * m
    → b < 2 * m
    → r < 2 * m
    → (r ≡ a + b) ⊎ (r + 2 * m ≡ a + b)
    → beq (leb m a) (leb m b) && not (beq (leb m a) (leb m r))
      ≡ not (
          leb m ((if leb m a then a - m else a + m) + (if leb m b then b - m else b + m))
          && ltb ((if leb m a then a - m else a + m) + (if leb m b then b - m else b + m)) (3 * m))
signed_sum a b r m ha hb hr (inl e) = ground arith
signed_sum a b r m ha hb hr (inr e) = ground arith

signed_difference :
    (a b r m : ℕ)
    → a < 2 * m
    → b < 2 * m
    → r < 2 * m
    → (r + b ≡ a) ⊎ (r + b ≡ a + 2 * m)
    → not (beq (leb m a) (leb m b)) && not (beq (leb m a) (leb m r))
      ≡ not (
          leb (if leb m b then b - m else b + m) ((if leb m a then a - m else a + m) + m)
          && ltb (if leb m a then a - m else a + m) ((if leb m b then b - m else b + m) + m))
signed_difference a b r m ha hb hr (inl e) = ground arith
signed_difference a b r m ha hb hr (inr e) = ground arith

-- A sum that is reduced once at most.
pub reduced_once : (x m : ℕ) → x < 2 * m → (x % m ≡ x) ⊎ (x % m + m ≡ x)
reduced_once x m h = elim (Bool-cases (ltb x m)) [
  | inl e ↦ let lt : x < m = ground arith in inl (mod-eq_of_lt lt)
  | inr e ↦
      let le : m ≤ x = ground arith in
      let low : x - m < m = omega arith in
      let once = mod-eq-sub-mod le in let rest = mod-eq_of_lt low in inr (omega (arith, once, rest))
]

module _ (ρ V : ℕ → Bool) (s : TermStore) (n t u a b : ℕ) (g : IsGood s)
    (h : IsWord ρ V s t (suc n) a) (k : IsWord ρ V s u (suc n) b) where
  a-lt : a < 2 * 2 ^ n
  a-lt = half-lt ρ V h.word

  b-lt : b < 2 * 2 ^ n
  b-lt = half-lt ρ V k.word

  modulus : 2 ^ suc n ≡ 2 * 2 ^ n
  modulus = omega (arith, pow-suc 2 n)

  sum_cases : ((a + b) % 2 ^ suc n ≡ a + b) ⊎ ((a + b) % 2 ^ suc n + 2 * 2 ^ n ≡ a + b)
  sum_cases =
      rw modulus (reduced_once (a + b) (2 * 2 ^ n) (let p = a-lt in let q = b-lt in omega arith))

  pub bvsaddo_lem : Grows s (λ r s'. IsTerm ρ V s' r (not (sum_fits n a b))) (bvsaddo t u s)
  unfolding bvsaddo
  bvsaddo_lem =
      let (x, hx, is_x) = sign_of_lem ρ V s h.bits n a h.word in
      let (y, hy, is_y) = sign_of_lem ρ V s k.bits n b k.word in
      rw
        (
          require_same_bv_width_then ρ V s t u (suc n) a b _ h k,
          bitvec_bits_then ρ V s t (suc n) a _ h,
          bitvec_bits_then ρ V s u (suc n) b _ k,
        )
        (chain (add_bits-Word ρ V s h.bits k.bits (suc n) a b g h.word k.word) (λ r s₁ e₁ hr.
          let (z, hz, is_z) = sign_of_lem ρ V s₁ r.0 n _ hr.0 in
          let (x₁, hx₁, is_x₁) = sign_of_lem ρ V s₁ h.bits n a (Word-mono ρ V e₁ h.word) in
          let (y₁, hy₁, is_y₁) = sign_of_lem ρ V s₁ k.bits n b (Word-mono ρ V e₁ k.word) in
          rw (is_x₁, is_y₁, is_z)
            (chain (iff_gate ρ V e₁.good hx₁ hy₁) (λ p s₂ e₂ hp.
              chain (xor_gate ρ V e₂.good (keep ρ V e₂ hx₁) (keep ρ V e₂ hz)) (λ q s₃ e₃ hq.
                mono (and_gate ρ V e₃.good (keep ρ V e₃ hp) hq) (λ o s₄ ho. (
                  ho.0,
                  subst (λ v. IsTerm ρ V s₄ o v)
                      (signed_sum a b ((a + b) % 2 ^ suc n) (2 ^ n) a-lt b-lt (half-lt ρ V hr.0)
                        sum_cases)
                      ho.1,
                )))))))

  difference_cases :
      ((a + (2 ^ suc n - b)) % 2 ^ suc n + b ≡ a)
      ⊎ ((a + (2 ^ suc n - b)) % 2 ^ suc n + b ≡ a + 2 * 2 ^ n)
  difference_cases =
      let p = a-lt in
      let q = b-lt in
      rw modulus (elim (reduced_once (a + (2 * 2 ^ n - b)) (2 * 2 ^ n) (omega arith)) [
        | inl e ↦ inr (omega arith)
        | inr e ↦ inl (omega arith)
      ])

  pub bvssubo_lem : Grows s (λ r s'. IsTerm ρ V s' r (not (difference_fits n a b))) (bvssubo t u s)
  unfolding bvssubo
  bvssubo_lem =
      rw
        (
          require_same_bv_width_then ρ V s t u (suc n) a b _ h k,
          bitvec_bits_then ρ V s t (suc n) a _ h,
          bitvec_bits_then ρ V s u (suc n) b _ k,
        )
        (chain (subtract_bits-Word ρ V s h.bits k.bits (suc n) a b g (omega arith) h.word k.word)
          (λ r s₁ e₁ hr.
            let (z, hz, is_z) = sign_of_lem ρ V s₁ r n _ hr in
            let (x, hx, is_x) = sign_of_lem ρ V s₁ h.bits n a (Word-mono ρ V e₁ h.word) in
            let (y, hy, is_y) = sign_of_lem ρ V s₁ k.bits n b (Word-mono ρ V e₁ k.word) in
            rw (is_x, is_y, is_z)
              (chain (xor_gate ρ V e₁.good hx hy) (λ p s₂ e₂ hp.
                chain (xor_gate ρ V e₂.good (keep ρ V e₂ hx) (keep ρ V e₂ hz)) (λ q s₃ e₃ hq.
                  mono (and_gate ρ V e₃.good (keep ρ V e₃ hp) hq) (λ o s₄ ho. (
                    ho.0,
                    subst (λ v. IsTerm ρ V s₄ o v)
                        (signed_difference a b ((a + (2 ^ suc n - b)) % 2 ^ suc n) (2 ^ n) a-lt b-lt
                          (half-lt ρ V hr) difference_cases)
                        ho.1,
                  )))))))
