-- ===== src/Bitvec/MinusOne.antt =====
-- `bvsdivo` of src/smt/bitvec.rs: the one quotient of signed numbers that does not fit.
use satrap.Prelude.{
  ℕ, suc, ◌-◌, ◌^◌, Bool, true, false, ◌&&◌, beq, List, [], ◌∷◌, length, map, ◌==◌, ◌≡◌, refl, ap,
  ◌∙◌, subst, arith,
}
use native.Mathlib.Nat.{pow-suc}
use satrap.Terms.{TermStore}
use satrap.Terms.Good.{IsGood, Extends-trans}
use satrap.Terms.Post.{Grows, chain, mono}
use satrap.Terms.Value.{IsTerm, AreTerms}
use satrap.Terms.Branch.{conjunction, and_all}
use satrap.Bitvec.Number.{number, two_pow-pos}
use satrap.Bitvec.Gates.{keep, keeps, done, iff_gate, and_gate, constant}
use satrap.Bitvec.Access.{IsWord, IsWord-mono, bitvec_bits_then, require_same_bv_width_then}
use satrap.Bitvec.Least.{bvnego_lem}
use satrap.Bitvec.Compare.{bvsdivo, iff_each}

abbrev are_set : List Bool → List Bool
are_set bs = map (λ b. beq b true) bs

ones_test : (bs : List Bool) → conjunction (are_set bs) ≡ (number bs == 2 ^ length bs - 1)
ones_test [] = refl
ones_test (true ∷ bs) =
    let double = pow-suc 2 (length bs) in
    let pos = two_pow-pos (length bs) in ones_test bs ∙ ground arith
ones_test (false ∷ bs) =
    let double = pow-suc 2 (length bs) in let pos = two_pow-pos (length bs) in ground arith

module _ (ρ V : ℕ → Bool) where
  iff_each-Grows :
      (s : TermStore) (ts : List ℕ) (bs : List Bool) (t : ℕ)
      → IsGood s
      → IsTerm ρ V s t true
      → AreTerms ρ V s ts bs
      → Grows s (λ us s'. AreTerms ρ V s' us (are_set bs)) (iff_each ts t s)
  unfolding iff_each
  iff_each-Grows s [] [] t g c h = done ρ V g tt
  iff_each-Grows s [] (b ∷ bs) t g c h = elim h [ ]
  iff_each-Grows s (u ∷ us) [] t g c h = elim h [ ]
  iff_each-Grows s (u ∷ us) (b ∷ bs) t g c (h, k) = chain (iff_gate ρ V g h c) (λ n s₁ e₁ hn.
      chain (iff_each-Grows s₁ us bs t e₁.good (keep ρ V e₁ c) (keeps ρ V us bs e₁ k))
        (λ ns s₂ e₂ hns. done ρ V e₂.good (keep ρ V e₂ hn, hns)))

  pub bvsdivo_lem :
      (s : TermStore) (t u n a b : ℕ)
      → IsGood s
      → IsWord ρ V s t (suc n) a
      → IsWord ρ V s u (suc n) b
      → Grows s (λ r s'. IsTerm ρ V s' r ((a == 2 ^ n) && (b == 2 ^ suc n - 1))) (bvsdivo t u s)
  unfolding bvsdivo
  bvsdivo_lem s t u n a b g h k = rw (require_same_bv_width_then ρ V s t u (suc n) a b _ h k) (
      chain (bvnego_lem ρ V s t n a g h) (λ m s₁ e₁ hm.
        let k₁ = IsWord-mono ρ V e₁ k in
        rw (bitvec_bits_then ρ V s₁ u (suc n) b _ k₁) (
          chain
            (iff_each-Grows s₁ k₁.bits k₁.word.bits _ e₁.good (constant ρ V e₁.good true)
              k₁.word.terms)
            (λ us s₂ e₂ hs.
              chain (and_all ρ V s₂ e₂.good us (are_set k₁.word.bits) hs) (λ o s₃ e₃ ho.
                mono (and_gate ρ V e₃.good (keep ρ V (Extends-trans s₁ s₂ s₃ e₂ e₃) hm) ho)
                  (λ r s₄ hr. (
                    hr.0,
                    subst (λ x. IsTerm ρ V s₄ r ((a == 2 ^ n) && x))
                        (ones_test k₁.word.bits
                          ∙ ap (λ x. x == 2 ^ length k₁.word.bits - 1) k₁.word.value
                          ∙ ap (λ (m : ℕ). b == 2 ^ m - 1) k₁.word.size)
                        hr.1,
                  )))))))
