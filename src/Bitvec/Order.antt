-- ===== src/Bitvec/Order.antt =====
-- Comparison, the test for zero and the choice between words of src/smt/bitvec.rs, as arithmetic.
use satrap.Prelude.{
  ℕ, ◌-◌, ◌%◌, ◌^◌, ◌<◌, Bool, true, false, not, List, [], ◌∷◌, map, ltb, ◌==◌, if◌then◌else◌, ◌≡◌,
  refl, sym, ap, ◌∙◌, subst, arith,
}
use satrap.Terms.{TermStore}
use satrap.Terms.Good.{IsGood, Extends-trans}
use satrap.Terms.Post.{Grows, chain, mono}
use satrap.Terms.Value.{IsTerm, AreTerms}
use satrap.Terms.Branch.{conjunction, and_all}
use satrap.Bitvec.{less_from, unsigned_less_than_bits, select_bits, is_zero_bits, absolute_bits}
use satrap.Bitvec.Number.{number, below, same, below_same}
use satrap.Bitvec.Gates.{
  keep, done, iff_gate, and_gate, or_gate, not_gate, constant, not_each-Grows, select-Grows,
  select_lem, Word, Word-mono,
}
use satrap.Bitvec.Adder.{negate_bits-Word}

module _ (ρ V : ℕ → Bool) where
  less_from-Grows :
      (s : TermStore) (ts us : List ℕ) (xs ys : List Bool)
      → IsGood s
      → AreTerms ρ V s ts xs
      → AreTerms ρ V s us ys
      → Grows s
          (λ r s'. IsTerm ρ V s' r.0 (below xs ys) × IsTerm ρ V s' r.1 (same xs ys))
          (less_from ts us s)
  unfolding less_from
  less_from-Grows s [] us [] ys g h k = done ρ V g (constant ρ V g false, constant ρ V g true)
  less_from-Grows s [] us (x ∷ xs) ys g h k = elim h [ ]
  less_from-Grows s (l ∷ ls) us [] ys g h k = elim h [ ]
  less_from-Grows s (l ∷ ls) [] (x ∷ xs) [] g h k =
      done ρ V g (constant ρ V g false, constant ρ V g true)
  less_from-Grows s (l ∷ ls) [] (x ∷ xs) (y ∷ ys) g h k = elim k [ ]
  less_from-Grows s (l ∷ ls) (r ∷ rs) (x ∷ xs) [] g h k = elim k [ ]
  less_from-Grows s (l ∷ ls) (r ∷ rs) (x ∷ xs) (y ∷ ys) g (hl, h) (hr, k) =
      chain (less_from-Grows s ls rs xs ys g h k) (λ w s₁ e₁ hw.
        chain (not_gate ρ V e₁.good (keep ρ V e₁ hl)) (λ n s₂ e₂ hn.
          let f₂ = Extends-trans s s₁ s₂ e₁ e₂ in
          chain (and_gate ρ V e₂.good hn (keep ρ V f₂ hr)) (λ a s₃ e₃ ha.
            let f₃ = Extends-trans s s₂ s₃ f₂ e₃ in
            let w₃ = Extends-trans s₁ s₂ s₃ e₂ e₃ in
            chain (and_gate ρ V e₃.good (keep ρ V w₃ hw.1) ha) (λ d s₄ e₄ hd.
              let f₄ = Extends-trans s s₃ s₄ f₃ e₄ in
              let w₄ = Extends-trans s₁ s₃ s₄ w₃ e₄ in
              chain (or_gate ρ V e₄.good (keep ρ V w₄ hw.0) hd) (λ o s₅ e₅ ho.
                let f₅ = Extends-trans s s₄ s₅ f₄ e₅ in
                let w₅ = Extends-trans s₁ s₄ s₅ w₄ e₅ in
                chain (iff_gate ρ V e₅.good (keep ρ V f₅ hl) (keep ρ V f₅ hr)) (λ q s₆ e₆ hq.
                  let w₆ = Extends-trans s₁ s₅ s₆ w₅ e₆ in
                  chain (and_gate ρ V e₆.good (keep ρ V w₆ hw.1) hq) (λ p s₇ e₇ hp.
                    done ρ V e₇.good (keep ρ V (Extends-trans s₅ s₆ s₇ e₆ e₇) ho, hp))))))))

  -- The comparison circuit compares the numbers.
  pub unsigned_less_than_bits-IsTerm :
      (s : TermStore) (ts us : List ℕ) (n a b : ℕ)
      → IsGood s
      → Word ρ V s ts n a
      → Word ρ V s us n b
      → Grows s (λ r s'. IsTerm ρ V s' r (ltb a b)) (unsigned_less_than_bits ts us s)
  unfolding unsigned_less_than_bits
  unsigned_less_than_bits-IsTerm s ts us n a b g w v =
      chain (less_from-Grows s ts us w.bits v.bits g w.terms v.terms) (λ r s₁ e₁ h.
        done ρ V e₁.good (
          subst (λ x. IsTerm ρ V s₁ r.0 x)
            ((below_same w.bits v.bits (w.size ∙ sym v.size)).0
              ∙ ap (λ x. ltb x (number v.bits)) w.value
              ∙ ap (λ x. ltb a x) v.value)
            h.0))

  pub select_bits-Word :
      (s : TermStore) (c : ℕ) (x : Bool) (ts us : List ℕ) (n a b : ℕ)
      → IsGood s
      → IsTerm ρ V s c x
      → Word ρ V s ts n a
      → Word ρ V s us n b
      → Grows s (λ r s'. Word ρ V s' r n (if x then a else b)) (select_bits c ts us s)
  unfolding select_bits
  select_bits-Word s c x ts us n a b g h w v =
      mono (select-Grows ρ V s c x ts us w.bits v.bits g h w.terms v.terms) (λ r s' k. (
        k.0,
        choose x (
            subst (λ bs. AreTerms ρ V s' r bs) (select_lem x w.bits v.bits (w.size ∙ sym v.size))
              k.1),
      ))
    where
      choose :
          {s' : TermStore} {r : List ℕ} (x : Bool)
          → AreTerms ρ V s' r (if x then w.bits else v.bits)
          → Word ρ V s' r n (if x then a else b)
      choose true k = record { bits = w.bits; terms = k; size = w.size; value = w.value }
      choose false k = record { bits = v.bits; terms = k; size = v.size; value = v.value }

  zero_test_lem : (bs : List Bool) → conjunction (map not bs) ≡ (number bs == 0)
  zero_test_lem [] = refl
  zero_test_lem (true ∷ bs) = ground arith
  zero_test_lem (false ∷ bs) = zero_test_lem bs ∙ ground arith

  pub is_zero_bits-IsTerm :
      (s : TermStore) (ts : List ℕ) (n a : ℕ)
      → IsGood s
      → Word ρ V s ts n a
      → Grows s (λ r s'. IsTerm ρ V s' r (a == 0)) (is_zero_bits ts s)
  unfolding is_zero_bits
  is_zero_bits-IsTerm s ts n a g w = chain (not_each-Grows ρ V s ts w.bits g w.terms) (λ us s₁ e₁ h.
      mono (and_all ρ V s₁ e₁.good us (map not w.bits) h) (λ r s₂ k. (
        k.0,
        subst (λ x. IsTerm ρ V s₂ r x) (zero_test_lem w.bits ∙ ap (λ x. x == 0) w.value) k.1,
      )))

  -- The magnitude of a word whose sign is given.
  pub absolute_bits-Word :
      (s : TermStore) (c : ℕ) (x : Bool) (ts : List ℕ) (n a : ℕ)
      → IsGood s
      → 0 < n
      → IsTerm ρ V s c x
      → Word ρ V s ts n a
      → Grows s
          (λ r s'. Word ρ V s' r n (if x then (2 ^ n - a) % 2 ^ n else a))
          (absolute_bits ts c s)
  unfolding absolute_bits
  absolute_bits-Word s c x ts n a g pos h w =
      chain (negate_bits-Word ρ V s ts n a g pos w) (λ r s₁ e₁ k.
        select_bits-Word s₁ c x r ts n _ a e₁.good (keep ρ V e₁ h) k (Word-mono ρ V e₁ w))
