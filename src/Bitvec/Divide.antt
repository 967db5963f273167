-- ===== src/Bitvec/Divide.antt =====
-- The divider of src/smt/bitvec.rs divides; by zero it gives all ones and the dividend.
use satrap.Prelude.{
  ℕ, suc, ◌+◌, ◌-◌, ◌*◌, ◌%◌, ◌^◌, ◌≤◌, ◌<◌, Bool, true, false, not, List, [], ◌∷◌, ◌++◌, length,
  length-append, ltb, leb, if◌then◌else◌, ◌≡◌, refl, sym, ap, ◌∙◌, subst, arith, Bool-cases, inl,
  inr,
}
use native.Mathlib.Nat.{pow-le-pow_right, mul-le-mul}
use satrap.Terms.{TermStore, false_term, u32_limit}
use satrap.Terms.Good.{IsGood, Extends-trans}
use satrap.Terms.Post.{Grows, chain, mono}
use satrap.Terms.Value.{AreTerms}
use satrap.Bitvec.{
  drop_last, divide_from, unsigned_divide_bits, check_quadratic, max_quadratic_lowering_work,
}
use satrap.Bitvec.Number.{bit, bit-le, number, number-lt, number-append, mod_unique}
use satrap.Bitvec.Gates.{
  keep, done, not_gate, constant, AreTerms-append, Word, Word-mono, Word-cast, Word-lt, Word-length,
  zero_word,
}
use satrap.Bitvec.Adder.{subtract_bits-Word}
use satrap.Bitvec.Order.{unsigned_less_than_bits-IsTerm, select_bits-Word}
use satrap.Bitvec.Remainder.{
  Divides, divide_step, drop_last-Word, cons-Word, quotient, remainder, Divides-values,
}

module _ (ρ V : ℕ → Bool) where
  -- The parts of a division: words for a quotient and a remainder.
  abbrev pub Division : TermStore → ℕ → ℕ → ℕ → ℕ → List ℕ × List ℕ → Type 0
  Division s k w a d result =
      (q : ℕ) × (r : ℕ) × Divides k a d q r × Word ρ V s result.0 k q × Word ρ V s result.1 w r

  difference : (m x d : ℕ) → d ≤ x → x < m → x - d ≡ (x + (m - d)) % m
  difference m x d h k = mod_unique m (x + (m - d)) 1 (x - d) (omega arith) (omega arith)

  -- The remainder of a part of the dividend fits in one bit less.
  remainder-lt :
      (w d q r : ℕ) (bs : List Bool)
      → length bs ≤ w
      → Divides (length bs) (number bs) d q r
      → r < 2 ^ w
  remainder-lt w d q r bs le p =
      let more : 2 ^ length bs ≤ 2 ^ w = pow-le-pow_right (omega arith) le in
      omega (arith, p.whole, number-lt bs, more)

  subtracted-Word :
      {s : TermStore} {ts : List ℕ} {n x : ℕ} (d : ℕ) (fits : Bool)
      → fits ≡ not (ltb x d)
      → x < 2 ^ n
      → Word ρ V s ts n (if fits then (x + (2 ^ n - d)) % 2 ^ n else x)
      → Word ρ V s ts n (if fits then x - d else x)
  subtracted-Word {n = n} {x = x} d true h k w =
      let le : d ≤ x = ground arith in Word-cast ρ V (sym (difference (2 ^ n) x d le k)) w
  subtracted-Word d false h k w = w

  divide_from-Division :
      (s : TermStore) (ext : List ℕ) (w d : ℕ) (ts : List ℕ) (bs : List Bool)
      → IsGood s
      → d < 2 ^ w
      → length bs ≤ w
      → Word ρ V s ext (suc w) d
      → AreTerms ρ V s ts bs
      → Grows s
          (λ result s'. Division s' (length bs) (suc w) (number bs) d result)
          (divide_from ext w ts s)
  unfolding divide_from
  divide_from-Division s ext w d [] [] g lt le e h = done ρ V g (
    0,
    0,
    record { whole = omega arith; small = λ pos. pos; by_zero = λ z. refl },
    record { bits = []; terms = tt; size = refl; value = refl },
    zero_word ρ V g (suc w),
  )
  divide_from-Division s ext w d [] (b ∷ bs) g lt le e h = elim h [ ]
  divide_from-Division s ext w d (t ∷ ts) [] g lt le e h = elim h [ ]
  divide_from-Division s ext w d (t ∷ ts) (b ∷ bs) g lt le e (ht, h) =
      chain (divide_from-Division s ext w d ts bs g lt (omega arith) e h)
        (λ hi s₁ e₁ (q, r, p, wq, wr).
          let x : ℕ = bit b + 2 * r in
          let fits : Bool = not (ltb x d) in
          let small : r < 2 ^ w = remainder-lt w d q r bs (omega arith) p in
          let shifted =
            cons-Word ρ V s₁ t b (drop_last hi.1) w r (keep ρ V e₁ ht)
              (drop_last-Word ρ V s₁ hi.1 w r small wr) in
          let ext₁ = Word-mono ρ V e₁ e in
          chain (unsigned_less_than_bits-IsTerm ρ V s₁ _ ext (suc w) x d e₁.good shifted ext₁)
            (λ less s₂ e₂ hl. chain (not_gate ρ V e₂.good hl) (λ ge s₃ e₃ hg.
              let f₃ = Extends-trans s₁ s₂ s₃ e₂ e₃ in
              chain
                (subtract_bits-Word ρ V s₃ _ ext (suc w) x d e₃.good (omega arith)
                  (Word-mono ρ V f₃ shifted) (Word-mono ρ V f₃ ext₁))
                (λ sub s₄ e₄ hs.
                  let f₄ = Extends-trans s₁ s₃ s₄ f₃ e₄ in
                  chain
                    (select_bits-Word ρ V s₄ ge fits sub _ (suc w) _ x e₄.good (keep ρ V e₄ hg) hs
                      (Word-mono ρ V f₄ shifted))
                    (λ rem s₅ e₅ hr.
                      let f₅ = Extends-trans s₁ s₄ s₅ f₄ e₅ in
                      done ρ V e₅.good (
                        bit fits + 2 * q,
                        (if fits then x - d else x),
                        divide_step (length bs) (number bs) d q r (bit b) fits (bit-le b) refl p,
                        cons-Word ρ V s₅ ge fits hi.0 (length bs) q
                            (keep ρ V (Extends-trans s₃ s₄ s₅ e₄ e₅) hg) (Word-mono ρ V f₅ wq),
                        subtracted-Word d fits refl (Word-lt ρ V shifted) hr,
                      ))))))

  pub work_width : (w : ℕ) → w * w ≤ max_quadratic_lowering_work → w ≤ 4000
  work_width w h = elim (Bool-cases (leb w 4000)) [
    | inl e ↦ ground arith
    | inr e ↦
        let big : 4001 ≤ w = ground arith in
        let more : 4001 * 4001 ≤ w * w = mul-le-mul big big in absurd (omega arith)
  ]

  -- The whole divider, within its limit on the work.
  pub unsigned_divide_bits-Division :
      (s : TermStore) (ts us : List ℕ) (w a d : ℕ)
      → IsGood s
      → w * w ≤ max_quadratic_lowering_work
      → Word ρ V s ts w a
      → Word ρ V s us w d
      → Grows s (λ result s'. Division s' w w a d result) (unsigned_divide_bits ts us s)
  unfolding unsigned_divide_bits check_quadratic
  unsigned_divide_bits-Division s ts us w a d g work p v =
      let size : length ts ≡ w = Word-length ρ V p in
      let short : w ≤ 4000 = work_width w work in
      let fits : leb u32_limit (length ts) ≡ false = ground arith in
      let cheap : ltb max_quadratic_lowering_work (length ts * length ts) ≡ false =
        let same : length ts * length ts ≡ w * w = ap (λ n. n * n) size in ground arith in
      rw (fits, cheap, size)
        (chain
          (divide_from-Division s (us ++ false_term ∷ []) w d ts p.bits g (Word-lt ρ V v)
            (omega (arith, p.size)) ext p.terms)
          (λ result s₁ e₁ (q, r, parts, wq, wr).
            let parts' : Divides w a d q r =
              subst (λ k. Divides k a d q r) p.size
                (subst (λ x. Divides (length p.bits) x d q r) p.value parts) in
            let small : r < 2 ^ w = remainder-lt w d q r p.bits (omega (arith, p.size)) parts in
            done ρ V e₁.good (
              q,
              r,
              parts',
              subst (λ k. Word ρ V s₁ result.0 k q) p.size wq,
              drop_last-Word ρ V s₁ result.1 w r small wr,
            )))
    where
      ext : Word ρ V s (us ++ false_term ∷ []) (suc w) d
      ext = record {
        bits = v.bits ++ false ∷ [];
        terms =
            AreTerms-append ρ V s us (false_term ∷ []) v.bits (false ∷ []) v.terms
              (constant ρ V g false, tt);
        size = let k = length-append v.bits (false ∷ []) in omega (arith, k, v.size);
        value = number-append v.bits (false ∷ []) ∙ omega (arith, v.value);
      }

pub unsigned_divide_bits-Word :
    (ρ V : ℕ → Bool) (s : TermStore) (ts us : List ℕ) (w a d : ℕ)
    → IsGood s
    → w * w ≤ max_quadratic_lowering_work
    → Word ρ V s ts w a
    → Word ρ V s us w d
    → Grows s
        (λ r s'. Word ρ V s' r.0 w (quotient w a d) × Word ρ V s' r.1 w (remainder a d))
        (unsigned_divide_bits ts us s)
unsigned_divide_bits-Word ρ V s ts us w a d g work h k =
    mono (unsigned_divide_bits-Division ρ V s ts us w a d g work h k)
      (λ result s' (e, (q, r, p, wq, wr)).
        let (is_quotient, is_remainder) = Divides-values w a d q r p in
        (e, (Word-cast ρ V is_quotient wq, Word-cast ρ V is_remainder wr)))
