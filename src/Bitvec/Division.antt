-- ===== src/Bitvec/Division.antt =====
-- The divisions of src/smt/bitvec.rs on terms, as the SMT-LIB standard defines them.
use satrap.Prelude.{
  ℕ, suc, ◌+◌, ◌-◌, ◌*◌, ◌%◌, ◌^◌, ◌≤◌, ◌<◌, Bool, not, ◌&&◌, beq, List, leb, ◌==◌, if◌then◌else◌,
  arith,
}
use satrap.Terms.{TermStore, u32_limit, Action, ◌>>=◌}
use satrap.Terms.Good.{IsGood, Extends, Extends-trans}
use satrap.Terms.Post.{Grows, chain}
use satrap.Terms.Value.{IsTerm}
use satrap.Bitvec.{max_quadratic_lowering_work, absolute_bits, unsigned_divide_bits}
use satrap.Bitvec.Gates.{keep, xor_gate, Word, Word-mono}
use satrap.Bitvec.Adder.{negate_bits-Word}
use satrap.Bitvec.Order.{select_bits-Word, absolute_bits-Word}
use satrap.Bitvec.Remainder.{quotient, remainder}
use satrap.Bitvec.Divide.{unsigned_divide_bits-Word}
use satrap.Bitvec.Access.{
  IsWord, bitvec_bits_then, require_same_bv_width_then, make_bitvec-IsWord, sign_of_lem,
}
use satrap.Bitvec.Arithmetic.{bvudiv, bvurem, bvsdiv, bvsrem}

-- Words have `suc n` bits, so a number is negative from `2 ^ n` on.
abbrev pub is_minus : ℕ → ℕ → Bool
is_minus n a = leb (2 ^ n) a

abbrev pub negated : ℕ → ℕ → ℕ
negated w a = (2 ^ w - a) % 2 ^ w

abbrev pub magnitude : ℕ → ℕ → ℕ
magnitude n a = if is_minus n a then negated (suc n) a else a

-- The signed quotient is rounded to zero.
abbrev pub signed_quotient : ℕ → ℕ → ℕ → ℕ
signed_quotient n a b =
    let q = quotient (suc n) (magnitude n a) (magnitude n b) in
    if not (beq (is_minus n a) (is_minus n b)) then negated (suc n) q else q

-- Its remainder has the sign of the dividend.
abbrev pub signed_remainder : ℕ → ℕ → ℕ → ℕ
signed_remainder n a b =
    let r = remainder (magnitude n a) (magnitude n b) in
    if is_minus n a then negated (suc n) r else r

-- The remainder with the sign of the divisor, from the remainder `u` of the magnitudes.
abbrev pub modulo : ℕ → Bool → Bool → ℕ → ℕ → ℕ
modulo w x y b u =
    if u == 0
    then u
    else if not x && not y
    then u
    else if x && not y
    then (negated w u + b) % 2 ^ w
    else if not x && y
    then (u + b) % 2 ^ w
    else negated w u

abbrev pub signed_modulo : ℕ → ℕ → ℕ → ℕ
signed_modulo n a b =
    modulo (suc n) (is_minus n a) (is_minus n b) b (remainder (magnitude n a) (magnitude n b))

module _ (ρ V : ℕ → Bool) where
  module _ (s : TermStore) (n t u a b : ℕ) (g : IsGood s) (lt : suc n < u32_limit)
      (work : suc n * suc n ≤ max_quadratic_lowering_work) (h : IsWord ρ V s t (suc n) a)
      (k : IsWord ρ V s u (suc n) b) where
    pub bvudiv_lem : Grows s (λ r s'. IsWord ρ V s' r (suc n) (quotient (suc n) a b)) (bvudiv t u s)
    unfolding bvudiv
    bvudiv_lem =
        rw
          (
            require_same_bv_width_then ρ V s t u (suc n) a b _ h k,
            bitvec_bits_then ρ V s t (suc n) a _ h,
            bitvec_bits_then ρ V s u (suc n) b _ k,
          )
          (chain (unsigned_divide_bits-Word ρ V s h.bits k.bits (suc n) a b g work h.word k.word)
            (λ r s₁ e₁ hr. make_bitvec-IsWord ρ V s₁ r.0 (suc n) _ e₁.good (omega arith) lt hr.0))

    pub bvurem_lem : Grows s (λ r s'. IsWord ρ V s' r (suc n) (remainder a b)) (bvurem t u s)
    unfolding bvurem
    bvurem_lem =
        rw
          (
            require_same_bv_width_then ρ V s t u (suc n) a b _ h k,
            bitvec_bits_then ρ V s t (suc n) a _ h,
            bitvec_bits_then ρ V s u (suc n) b _ k,
          )
          (chain (unsigned_divide_bits-Word ρ V s h.bits k.bits (suc n) a b g work h.word k.word)
            (λ r s₁ e₁ hr. make_bitvec-IsWord ρ V s₁ r.1 (suc n) _ e₁.good (omega arith) lt hr.1))

    -- The magnitudes of both operands and their division; `finish` makes the result.
    pub divided_then :
        {A : Type 0} {Q : A → TermStore → Type 0} (x y : ℕ) (finish : List ℕ × List ℕ → Action A)
        → IsTerm ρ V s x (is_minus n a)
        → IsTerm ρ V s y (is_minus n b)
        → ((r : List ℕ × List ℕ) (s' : TermStore)
            → Extends s s'
            → Word ρ V s' r.0 (suc n) (quotient (suc n) (magnitude n a) (magnitude n b))
            → Word ρ V s' r.1 (suc n) (remainder (magnitude n a) (magnitude n b))
            → Grows s' Q (finish r s'))
        → Grows s Q (
            (absolute_bits h.bits x
                >>= (λ p. absolute_bits k.bits y >>= (λ q. unsigned_divide_bits p q >>= finish)))
              s)
    divided_then x y finish hx hy next =
        chain (absolute_bits-Word ρ V s x _ h.bits (suc n) a g (omega arith) hx h.word)
          (λ p s₁ e₁ hp.
            chain
              (absolute_bits-Word ρ V s₁ y _ k.bits (suc n) b e₁.good (omega arith) (keep ρ V e₁ hy)
                (Word-mono ρ V e₁ k.word))
              (λ q s₂ e₂ hq.
                chain
                  (unsigned_divide_bits-Word ρ V s₂ p q (suc n) _ _ e₂.good work
                    (Word-mono ρ V e₂ hp) hq)
                  (λ r s₃ e₃ hr.
                    next r s₃ (Extends-trans s s₂ s₃ (Extends-trans s s₁ s₂ e₁ e₂) e₃) hr.0 hr.1)))

    pub bvsdiv_lem :
        Grows s (λ r s'. IsWord ρ V s' r (suc n) (signed_quotient n a b)) (bvsdiv t u s)
    unfolding bvsdiv
    bvsdiv_lem =
        let (x, hx, is_x) = sign_of_lem ρ V s h.bits n a h.word in
        let (y, hy, is_y) = sign_of_lem ρ V s k.bits n b k.word in
        rw
          (
            require_same_bv_width_then ρ V s t u (suc n) a b _ h k,
            bitvec_bits_then ρ V s t (suc n) a _ h,
            bitvec_bits_then ρ V s u (suc n) b _ k,
            is_x,
            is_y,
          )
          (divided_then x y _ hx hy (λ r s₁ e₁ hq hr.
            chain (xor_gate ρ V e₁.good (keep ρ V e₁ hx) (keep ρ V e₁ hy)) (λ z s₂ e₂ hz.
              chain
                (negate_bits-Word ρ V s₂ r.0 (suc n) _ e₂.good (omega arith) (Word-mono ρ V e₂ hq))
                (λ m s₃ e₃ hm.
                  chain
                    (select_bits-Word ρ V s₃ z _ m r.0 (suc n) _ _ e₃.good (keep ρ V e₃ hz) hm
                      (Word-mono ρ V (Extends-trans s₁ s₂ s₃ e₂ e₃) hq))
                    (λ o s₄ e₄ ho.
                      make_bitvec-IsWord ρ V s₄ o (suc n) _ e₄.good (omega arith) lt ho)))))

    pub bvsrem_lem :
        Grows s (λ r s'. IsWord ρ V s' r (suc n) (signed_remainder n a b)) (bvsrem t u s)
    unfolding bvsrem
    bvsrem_lem =
        let (x, hx, is_x) = sign_of_lem ρ V s h.bits n a h.word in
        let (y, hy, is_y) = sign_of_lem ρ V s k.bits n b k.word in
        rw
          (
            require_same_bv_width_then ρ V s t u (suc n) a b _ h k,
            bitvec_bits_then ρ V s t (suc n) a _ h,
            bitvec_bits_then ρ V s u (suc n) b _ k,
            is_x,
            is_y,
          )
          (divided_then x y _ hx hy (λ r s₁ e₁ hq hr.
            chain (negate_bits-Word ρ V s₁ r.1 (suc n) _ e₁.good (omega arith) hr) (λ m s₂ e₂ hm.
              chain
                (select_bits-Word ρ V s₂ x _ m r.1 (suc n) _ _ e₂.good
                  (keep ρ V (Extends-trans s s₁ s₂ e₁ e₂) hx) hm (Word-mono ρ V e₂ hr))
                (λ o s₃ e₃ ho. make_bitvec-IsWord ρ V s₃ o (suc n) _ e₃.good (omega arith) lt ho))))
