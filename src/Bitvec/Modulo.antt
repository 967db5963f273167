-- ===== src/Bitvec/Modulo.antt =====
-- `bvsmod` of src/smt/bitvec.rs: the remainder with the sign of the divisor.
use satrap.Prelude.{ℕ, suc, ◌+◌, ◌*◌, ◌%◌, ◌^◌, ◌≤◌, ◌<◌, Bool, not, ◌&&◌, List, ◌==◌, arith}
use satrap.Terms.{TermStore, u32_limit, ◌>>=◌}
use satrap.Terms.Good.{IsGood}
use satrap.Terms.Post.{Grows, chain}
use satrap.Terms.Value.{IsTerm}
use satrap.Bitvec.{max_quadratic_lowering_work, select_bits}
use satrap.Bitvec.Gates.{keep, not_gate, and_gate, Word, Word-mono, ◌⊳◌}
use satrap.Bitvec.Adder.{add_bits-Word, negate_bits-Word}
use satrap.Bitvec.Order.{select_bits-Word, is_zero_bits-IsTerm}
use satrap.Bitvec.Access.{
  IsWord, bitvec_bits_then, require_same_bv_width_then, make_bitvec-IsWord, sign_of_lem,
}
use satrap.Bitvec.Arithmetic.{bvsmod, modulo_of}
use satrap.Bitvec.Division.{negated, modulo, signed_modulo, divided_then}

module _ (ρ V : ℕ → Bool) where
  -- The cascade of choices at the end.
  selected :
      (s : TermStore) (z dp dn bp : ℕ) (m np pn rem : List ℕ) (w : ℕ) (p q : Bool) (b u : ℕ)
      → IsGood s
      → IsTerm ρ V s dp (not p && q)
      → IsTerm ρ V s dn (p && not q)
      → IsTerm ρ V s bp (not p && not q)
      → IsTerm ρ V s z (u == 0)
      → Word ρ V s np w ((negated w u + b) % 2 ^ w)
      → Word ρ V s pn w ((u + b) % 2 ^ w)
      → Word ρ V s m w (negated w u)
      → Word ρ V s rem w u
      → Grows s
          (λ r s'. Word ρ V s' r w (modulo w p q b u))
          ((select_bits dp pn m >>= (λ first.
              select_bits dn np first
              >>= (λ second. select_bits bp rem second >>= (λ third. select_bits z rem third))))
            s)
  selected s z dp dn bp m np pn rem w p q b u g hdp hdn hbp hz hnp hpn hm hu =
      chain (select_bits-Word ρ V s dp _ pn m w _ _ g hdp hpn hm) (λ f s₁ e₁ hf.
        chain
          (select_bits-Word ρ V s₁ dn _ np f w _ _ e₁.good (keep ρ V e₁ hdn) (Word-mono ρ V e₁ hnp)
            hf)
          (λ f' s₂ e₂ hf'.
            let to₂ = e₁ ⊳ e₂ in
            chain
              (select_bits-Word ρ V s₂ bp _ rem f' w _ _ e₂.good (keep ρ V to₂ hbp)
                (Word-mono ρ V to₂ hu) hf')
              (λ f'' s₃ e₃ hf''.
                let to₃ = to₂ ⊳ e₃ in
                select_bits-Word ρ V s₃ z _ rem f'' w _ _ e₃.good (keep ρ V to₃ hz)
                  (Word-mono ρ V to₃ hu) hf'')))

  modulo_of-Word :
      (s : TermStore) (w x y : ℕ) (p q : Bool) (divisor rem : List ℕ) (b u : ℕ)
      → IsGood s
      → 0 < w
      → IsTerm ρ V s x p
      → IsTerm ρ V s y q
      → Word ρ V s divisor w b
      → Word ρ V s rem w u
      → Grows s (λ r s'. Word ρ V s' r w (modulo w p q b u)) (modulo_of x y divisor rem s)
  unfolding modulo_of
  modulo_of-Word s w x y p q divisor rem b u g pos hx hy hb hu =
      chain (is_zero_bits-IsTerm ρ V s rem w u g hu) (λ z s₁ e₁ hz.
        chain (negate_bits-Word ρ V s₁ rem w u e₁.good pos (Word-mono ρ V e₁ hu)) (λ m s₂ e₂ hm.
          let to₂ = e₁ ⊳ e₂ in
          chain (add_bits-Word ρ V s₂ m divisor w _ b e₂.good hm (Word-mono ρ V to₂ hb))
            (λ np s₃ e₃ hnp.
              let to₃ = to₂ ⊳ e₃ in
              chain
                (add_bits-Word ρ V s₃ rem divisor w u b e₃.good (Word-mono ρ V to₃ hu)
                  (Word-mono ρ V to₃ hb))
                (λ pn s₄ e₄ hpn.
                  let to₄ = to₃ ⊳ e₄ in
                  chain (not_gate ρ V e₄.good (keep ρ V to₄ hx)) (λ nx s₅ e₅ hnx.
                    let to₅ = to₄ ⊳ e₅ in
                    chain (not_gate ρ V e₅.good (keep ρ V to₅ hy)) (λ ny s₆ e₆ hny.
                      let to₆ = to₅ ⊳ e₆ in
                      chain (and_gate ρ V e₆.good (keep ρ V e₆ hnx) hny) (λ bp s₇ e₇ hbp.
                        let to₇ = to₆ ⊳ e₇ in
                        chain (and_gate ρ V e₇.good (keep ρ V to₇ hx) (keep ρ V e₇ hny))
                          (λ dn s₈ e₈ hdn.
                            let to₈ = to₇ ⊳ e₈ in
                            chain
                              (and_gate ρ V e₈.good (keep ρ V (e₆ ⊳ e₇ ⊳ e₈) hnx) (keep ρ V to₈ hy))
                              (λ dp s₉ e₉ hdp.
                                let last = e₅ ⊳ e₆ ⊳ e₇ ⊳ e₈ ⊳ e₉ in
                                selected s₉ z dp dn bp m np.0 pn.0 rem w p q b u e₉.good hdp
                                  (keep ρ V e₉ hdn) (keep ρ V (e₈ ⊳ e₉) hbp)
                                  (keep ρ V (e₂ ⊳ e₃ ⊳ e₄ ⊳ last) hz)
                                  (Word-mono ρ V (e₄ ⊳ last) hnp.0) (Word-mono ρ V last hpn.0)
                                  (Word-mono ρ V (e₃ ⊳ e₄ ⊳ last) hm)
                                  (Word-mono ρ V (to₈ ⊳ e₉) hu))))))))))

  pub bvsmod_lem :
      (s : TermStore) (n t u a b : ℕ)
      → IsGood s
      → suc n < u32_limit
      → suc n * suc n ≤ max_quadratic_lowering_work
      → IsWord ρ V s t (suc n) a
      → IsWord ρ V s u (suc n) b
      → Grows s (λ r s'. IsWord ρ V s' r (suc n) (signed_modulo n a b)) (bvsmod t u s)
  unfolding bvsmod
  bvsmod_lem s n t u a b g lt work h k =
      let (x, hx, is_x) = sign_of_lem ρ V s h.bits n a h.word in
      let (y, hy, is_y) = sign_of_lem ρ V s k.bits n b k.word in
      rw
        (
          require_same_bv_width_then ρ V s t u (suc n) a b _ h k,
          bitvec_bits_then ρ V s t (suc n) a _ h,
          bitvec_bits_then ρ V s u (suc n) b _ k,
          is_x,
          is_y,
        )
        (divided_then ρ V s n t u a b g lt work h k x y _ hx hy (λ r s₁ e₁ hq hr.
          chain
            (modulo_of-Word s₁ (suc n) x y _ _ k.bits r.1 b _ e₁.good (omega arith) (keep ρ V e₁ hx)
              (keep ρ V e₁ hy) (Word-mono ρ V e₁ k.word) hr)
            (λ o s₂ e₂ ho. make_bitvec-IsWord ρ V s₂ o (suc n) _ e₂.good (omega arith) lt ho)))
