-- ===== src/Bitvec/Adder.antt =====
-- The adder, negation and subtraction of src/smt/bitvec.rs, and comparison, as arithmetic.
use satrap.Prelude.{
  ℕ, ◌+◌, ◌-◌, ◌%◌, ◌^◌, ◌<◌, Bool, true, false, not, List, [], ◌∷◌, length, replicate, map, leb,
  ◌≡◌, sym, ap, ◌∙◌, subst, arith,
}
use native.Mathlib.Nat.{add-mod-mod}
use satrap.Terms.{TermStore, false_term}
use satrap.Terms.Good.{IsGood, Extends-trans}
use satrap.Terms.Post.{Grows, chain, mono}
use satrap.Terms.Value.{IsTerm, AreTerms}
use satrap.Bitvec.{add_from, add_bits, one_bits, negate_bits, subtract_bits}
use satrap.Bitvec.Number.{
  number, number-not, number-replicate, length-sum, length-map, length-replicate, sum, last_carry,
  full_carry, sum_mod, carry_leb,
}
use satrap.Bitvec.Gates.{
  keep, keeps, done, xor_gate, and_gate, or_gate, constant, false_bits, not_each-Grows, Word,
  Word-mono, Word-cast, Word-length, Word-lt,
}

module _ (ρ V : ℕ → Bool) where
  add_from-Grows :
      (s : TermStore) (t : ℕ) (ts us : List ℕ) (c : Bool) (xs ys : List Bool)
      → IsGood s
      → IsTerm ρ V s t c
      → AreTerms ρ V s ts xs
      → AreTerms ρ V s us ys
      → Grows s
          (λ r s'. AreTerms ρ V s' r.0 (sum c xs ys) × IsTerm ρ V s' r.1 (last_carry c xs ys))
          (add_from t ts us s)
  unfolding add_from
  add_from-Grows s t [] us c [] ys g hc h k = done ρ V g (tt, hc)
  add_from-Grows s t [] us c (x ∷ xs) ys g hc h k = elim h [ ]
  add_from-Grows s t (l ∷ ls) us c [] ys g hc h k = elim h [ ]
  add_from-Grows s t (l ∷ ls) [] c (x ∷ xs) [] g hc h k = done ρ V g (tt, hc)
  add_from-Grows s t (l ∷ ls) [] c (x ∷ xs) (y ∷ ys) g hc h k = elim k [ ]
  add_from-Grows s t (l ∷ ls) (r ∷ rs) c (x ∷ xs) [] g hc h k = elim k [ ]
  add_from-Grows s t (l ∷ ls) (r ∷ rs) c (x ∷ xs) (y ∷ ys) g hc (hl, h) (hr, k) =
      chain (xor_gate ρ V g hl hr) (λ p s₁ e₁ hp.
        chain (xor_gate ρ V e₁.good hp (keep ρ V e₁ hc)) (λ o s₂ e₂ ho.
          let f = Extends-trans s s₁ s₂ e₁ e₂ in
          chain (and_gate ρ V e₂.good (keep ρ V f hl) (keep ρ V f hr)) (λ a s₃ e₃ ha.
            let f' = Extends-trans s s₂ s₃ f e₃ in
            let b = Extends-trans s₁ s₂ s₃ e₂ e₃ in
            chain (and_gate ρ V e₃.good (keep ρ V b hp) (keep ρ V f' hc)) (λ q s₄ e₄ hq.
              chain (or_gate ρ V e₄.good (keep ρ V e₄ ha) hq) (λ n s₅ e₅ hn.
                let to₅ = Extends-trans s s₄ s₅ (Extends-trans s s₃ s₄ f' e₄) e₅ in
                chain
                  (add_from-Grows s₅ n ls rs (full_carry x y c) xs ys e₅.good hn
                    (keeps ρ V ls xs to₅ h) (keeps ρ V rs ys to₅ k))
                  (λ w s₆ e₆ hw.
                    let last =
                      Extends-trans s₂ s₅ s₆
                        (Extends-trans s₂ s₄ s₅ (Extends-trans s₂ s₃ s₄ e₃ e₄) e₅) e₆ in
                    done ρ V e₆.good ((keep ρ V last ho, hw.0), hw.1)))))))

  -- The adder adds: the sum modulo the power of two, and whether it overflows.
  pub add_bits-Word :
      (s : TermStore) (ts us : List ℕ) (n a b : ℕ)
      → IsGood s
      → Word ρ V s ts n a
      → Word ρ V s us n b
      → Grows s
          (λ r s'. Word ρ V s' r.0 n ((a + b) % 2 ^ n) × IsTerm ρ V s' r.1 (leb (2 ^ n) (a + b)))
          (add_bits ts us s)
  unfolding add_bits
  add_bits-Word s ts us n a b g w v =
      mono
        (add_from-Grows s false_term ts us false w.bits v.bits g (constant ρ V g false) w.terms
          v.terms)
        (λ r s' h.
          let size : length w.bits ≡ length v.bits = w.size ∙ sym v.size in
          let total : number w.bits + number v.bits ≡ a + b = omega (arith, w.value, v.value) in
          (
            h.0,
            (
              record {
                bits = sum false w.bits v.bits;
                terms = h.1.0;
                size = length-sum false w.bits v.bits size ∙ w.size;
                value =
                    sum_mod w.bits v.bits size
                    ∙ ap (λ x. x % 2 ^ length w.bits) total
                    ∙ ap (λ m. (a + b) % 2 ^ m) w.size;
              },
              subst (λ x. IsTerm ρ V s' r.1 x)
                  (carry_leb w.bits v.bits size
                    ∙ ap (λ x. leb (2 ^ length w.bits) x) total
                    ∙ ap (λ m. leb (2 ^ m) (a + b)) w.size)
                  h.1.1,
            ),
          ))

  one-Word :
      (s : TermStore) (t : ℕ) (ts : List ℕ) (n : ℕ)
      → IsGood s
      → length ts + 1 ≡ n
      → Grows s (λ us s'. Word ρ V s' us n 1) (one_bits (t ∷ ts) s)
  one-Word s t ts n g h = done ρ V g (record {
    bits = true ∷ replicate (length ts) false;
    terms = (constant ρ V g true, false_bits ρ V g (length ts));
    size = let k = length-replicate (length ts) false in omega (arith, k);
    value = omega (arith, number-replicate (length ts));
  })

  -- Negation gives the complement to the power of two.
  pub negate_bits-Word :
      (s : TermStore) (ts : List ℕ) (n a : ℕ)
      → IsGood s
      → 0 < n
      → Word ρ V s ts n a
      → Grows s (λ us s'. Word ρ V s' us n ((2 ^ n - a) % 2 ^ n)) (negate_bits ts s)
  unfolding negate_bits
  negate_bits-Word s [] n a g pos w = absurd (let k = Word-length ρ V w in omega (arith, k))
  negate_bits-Word s (t ∷ ts) n a g pos w =
      chain (not_each-Grows ρ V s (t ∷ ts) w.bits g w.terms) (λ inverted s₁ e₁ hi.
        chain (one-Word s₁ t ts n e₁.good (let k = Word-length ρ V w in omega (arith, k)))
          (λ one s₂ e₂ ho.
            chain
              (add_bits-Word s₂ inverted one n (2 ^ n - a - 1) 1 e₂.good
                (Word-mono ρ V e₂ (record {
                  bits = map not w.bits;
                  terms = hi;
                  size = length-map not w.bits ∙ w.size;
                  value =
                      let whole : 2 ^ length w.bits ≡ 2 ^ n = ap (λ m. 2 ^ m) w.size in
                      omega (arith, number-not w.bits, w.value, whole);
                }))
                ho)
              (λ r s₃ e₃ hr.
                let below : a < 2 ^ n = Word-lt ρ V w in
                let whole : 2 ^ n - a - 1 + 1 ≡ 2 ^ n - a = omega arith in
                done ρ V e₃.good (Word-cast ρ V (ap (λ x. x % 2 ^ n) whole) hr.0))))

  pub subtract_bits-Word :
      (s : TermStore) (ts us : List ℕ) (n a b : ℕ)
      → IsGood s
      → 0 < n
      → Word ρ V s ts n a
      → Word ρ V s us n b
      → Grows s (λ r s'. Word ρ V s' r n ((a + (2 ^ n - b)) % 2 ^ n)) (subtract_bits ts us s)
  unfolding subtract_bits
  subtract_bits-Word s ts us n a b g pos w v =
      chain (negate_bits-Word s us n b g pos v) (λ negated s₁ e₁ hn.
        chain (add_bits-Word s₁ ts negated n a _ e₁.good (Word-mono ρ V e₁ w) hn)
          (λ r s₂ e₂ hr. done ρ V e₂.good (Word-cast ρ V (add-mod-mod a (2 ^ n - b) (2 ^ n)) hr.0)))
