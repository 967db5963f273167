-- ===== src/Bitvec/Sums.antt =====
-- Negation, addition, subtraction and multiplication of src/smt/bitvec.rs on terms are arithmetic
-- modulo the power of two of the width.
use satrap.Prelude.{
  ℕ, ◌+◌, ◌-◌, ◌*◌, ◌/◌, ◌%◌, ◌^◌, ◌≤◌, ◌<◌, Bool, false, List, [], ◌∷◌, ltb, ◌≡◌, sym, ap, ◌∙◌,
  arith, ==_refl,
}
use native.Mathlib.Nat.{mod-add-mod, mod-eq_of_lt, div-add-mod, add-mul-mod_self_left}
use satrap.Terms.{TermStore, u32_limit}
use satrap.Terms.Good.{IsGood, Extends}
use satrap.Terms.Post.{Grows, chain}
use satrap.Bitvec.{check_quadratic, max_quadratic_lowering_work}
use satrap.Bitvec.Gates.{done, Word, Word-cast, Word-lt}
use satrap.Bitvec.Adder.{add_bits-Word, negate_bits-Word, subtract_bits-Word}
use satrap.Bitvec.Multiply.{multiply_bits-Word}
use satrap.Bitvec.Access.{
  IsWord, IsWord-mono, bitvec_bits_then, bitvec_width_then, require_same_bv_width_then,
  make_bitvec-IsWord,
}
use satrap.Bitvec.Arithmetic.{bvneg, add_onto, bvadd, bvsub, multiply_onto, bvmul}

abbrev pub total : ℕ → List ℕ → ℕ
total a [] = a
total a (b ∷ bs) = total (a + b) bs

abbrev pub product : ℕ → List ℕ → ℕ
product a [] = a
product a (b ∷ bs) = product (a * b) bs

mod-mul : (a b m : ℕ) → (a % m * b) % m ≡ (a * b) % m
mod-mul a b m =
    let whole : a % m * b + m * (a / m * b) ≡ a * b =
      omega (arith, ap (λ x. x * b) (div-add-mod a m)) in
    sym (add-mul-mod_self_left (a % m * b) m (a / m * b)) ∙ ap (λ x. x % m) whole

module _ (ρ V : ℕ → Bool) where
  -- Terms that stand for the numbers, all of one width.
  abbrev pub AreWords : TermStore → ℕ → List ℕ → List ℕ → Type 0
  AreWords s w [] [] = Unit
  AreWords s w [] (v ∷ vs) = ⊥
  AreWords s w (t ∷ ts) [] = ⊥
  AreWords s w (t ∷ ts) (v ∷ vs) = IsWord ρ V s t w v × AreWords s w ts vs

  AreWords-mono :
      (s s' : TermStore) (w : ℕ) (ts vs : List ℕ)
      → Extends s s'
      → AreWords s w ts vs
      → AreWords s' w ts vs
  AreWords-mono s s' w [] [] e h = tt
  AreWords-mono s s' w [] (v ∷ vs) e h = elim h [ ]
  AreWords-mono s s' w (t ∷ ts) [] e h = elim h [ ]
  AreWords-mono s s' w (t ∷ ts) (v ∷ vs) e (h, k) =
      (IsWord-mono ρ V e h, AreWords-mono s s' w ts vs e k)

  add_onto-Word :
      (s : TermStore) (w a : ℕ) (result ts vs : List ℕ)
      → IsGood s
      → Word ρ V s result w (a % 2 ^ w)
      → AreWords s w ts vs
      → Grows s (λ r s'. Word ρ V s' r w (total a vs % 2 ^ w)) (add_onto w result ts s)
  unfolding add_onto
  add_onto-Word s w a result [] [] g h k = done ρ V g h
  add_onto-Word s w a result [] (v ∷ vs) g h k = elim k [ ]
  add_onto-Word s w a result (t ∷ ts) [] g h k = elim k [ ]
  add_onto-Word s w a result (t ∷ ts) (v ∷ vs) g h (k, l) =
      rw (bitvec_width_then ρ V s t w v _ k, ==_refl w, bitvec_bits_then ρ V s t w v _ k)
        (chain (add_bits-Word ρ V s result k.bits w _ v g h k.word) (λ sum s₁ e₁ hs.
          add_onto-Word s₁ w (a + v) sum.0 ts vs e₁.good
            (Word-cast ρ V (mod-add-mod a (2 ^ w) v) hs.0) (AreWords-mono s s₁ w ts vs e₁ l)))

  pub bvadd_lem :
      (s : TermStore) (w : ℕ) (t u : ℕ) (ts : List ℕ) (a b : ℕ) (vs : List ℕ)
      → IsGood s
      → 0 < w
      → w < u32_limit
      → AreWords s w (t ∷ u ∷ ts) (a ∷ b ∷ vs)
      → Grows s (λ r s'. IsWord ρ V s' r w (total (a + b) vs % 2 ^ w)) (bvadd (t ∷ u ∷ ts) s)
  unfolding bvadd
  bvadd_lem s w t u ts a b vs g pos lt (h, k) =
      rw (bitvec_width_then ρ V s t w a _ h, bitvec_bits_then ρ V s t w a _ h)
        (chain
          (add_onto-Word s w a h.bits (u ∷ ts) (b ∷ vs) g
            (Word-cast ρ V (sym (mod-eq_of_lt (Word-lt ρ V h.word))) h.word) k)
          (λ r s₁ e₁ hr. make_bitvec-IsWord ρ V s₁ r w _ e₁.good pos lt hr))

  pub bvneg_lem :
      (s : TermStore) (w t a : ℕ)
      → IsGood s
      → 0 < w
      → w < u32_limit
      → IsWord ρ V s t w a
      → Grows s (λ r s'. IsWord ρ V s' r w ((2 ^ w - a) % 2 ^ w)) (bvneg t s)
  unfolding bvneg
  bvneg_lem s w t a g pos lt h = rw (bitvec_bits_then ρ V s t w a _ h) (
      chain (negate_bits-Word ρ V s h.bits w a g pos h.word)
        (λ r s₁ e₁ hr. make_bitvec-IsWord ρ V s₁ r w _ e₁.good pos lt hr))

  pub bvsub_lem :
      (s : TermStore) (w t u a b : ℕ)
      → IsGood s
      → 0 < w
      → w < u32_limit
      → IsWord ρ V s t w a
      → IsWord ρ V s u w b
      → Grows s (λ r s'. IsWord ρ V s' r w ((a + (2 ^ w - b)) % 2 ^ w)) (bvsub t u s)
  unfolding bvsub
  bvsub_lem s w t u a b g pos lt h k =
      rw
        (
          require_same_bv_width_then ρ V s t u w a b _ h k,
          bitvec_bits_then ρ V s t w a _ h,
          bitvec_bits_then ρ V s u w b _ k,
        )
        (chain (subtract_bits-Word ρ V s h.bits k.bits w a b g pos h.word k.word)
          (λ r s₁ e₁ hr. make_bitvec-IsWord ρ V s₁ r w _ e₁.good pos lt hr))

  multiply_onto-Word :
      (s : TermStore) (w a : ℕ) (result ts vs : List ℕ)
      → IsGood s
      → Word ρ V s result w (a % 2 ^ w)
      → AreWords s w ts vs
      → Grows s (λ r s'. Word ρ V s' r w (product a vs % 2 ^ w)) (multiply_onto w result ts s)
  unfolding multiply_onto
  multiply_onto-Word s w a result [] [] g h k = done ρ V g h
  multiply_onto-Word s w a result [] (v ∷ vs) g h k = elim k [ ]
  multiply_onto-Word s w a result (t ∷ ts) [] g h k = elim k [ ]
  multiply_onto-Word s w a result (t ∷ ts) (v ∷ vs) g h (k, l) =
      rw (bitvec_width_then ρ V s t w v _ k, ==_refl w, bitvec_bits_then ρ V s t w v _ k)
        (chain (multiply_bits-Word ρ V s result k.bits w w w _ v g (omega arith) h k.word)
          (λ r s₁ e₁ hr.
            multiply_onto-Word s₁ w (a * v) r ts vs e₁.good (Word-cast ρ V (mod-mul a v (2 ^ w)) hr)
              (AreWords-mono s s₁ w ts vs e₁ l)))

  pub bvmul_lem :
      (s : TermStore) (w : ℕ) (t u : ℕ) (ts : List ℕ) (a b : ℕ) (vs : List ℕ)
      → IsGood s
      → 0 < w
      → w < u32_limit
      → w * w ≤ max_quadratic_lowering_work
      → AreWords s w (t ∷ u ∷ ts) (a ∷ b ∷ vs)
      → Grows s (λ r s'. IsWord ρ V s' r w (product (a * b) vs % 2 ^ w)) (bvmul (t ∷ u ∷ ts) s)
  unfolding bvmul check_quadratic
  bvmul_lem s w t u ts a b vs g pos lt work (h, k) =
      let cheap : ltb max_quadratic_lowering_work (w * w) ≡ false = ground arith in
      rw (bitvec_width_then ρ V s t w a _ h, cheap, bitvec_bits_then ρ V s t w a _ h)
        (chain
          (multiply_onto-Word s w a h.bits (u ∷ ts) (b ∷ vs) g
            (Word-cast ρ V (sym (mod-eq_of_lt (Word-lt ρ V h.word))) h.word) k)
          (λ r s₁ e₁ hr. make_bitvec-IsWord ρ V s₁ r w _ e₁.good pos lt hr))
