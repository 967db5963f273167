-- ===== src/Bitvec/Least.antt =====
-- `bvnego` of src/smt/bitvec.rs: the one number whose negation does not fit.
use satrap.Prelude.{
  ℕ, suc, ◌+◌, ◌*◌, ◌%◌, ◌^◌, ◌≤◌, ◌<◌, Bool, true, false, ◌&&◌, List, [], ◌∷◌, length, leb, ◌==◌,
  ◌≡◌, refl, ap, ◌∙◌, subst, arith, Bool-cases, inl, inr,
}
use native.Mathlib.Nat.{pow-suc, mod-eq_of_lt, mod-lt}
use satrap.Terms.{TermStore}
use satrap.Terms.Good.{IsGood}
use satrap.Terms.Post.{Grows, chain, mono}
use satrap.Terms.Value.{IsTerm, AreTerms}
use satrap.Bitvec.{drop_last}
use satrap.Bitvec.Number.{bit, bit-le, number, digit_mod, two_pow-pos}
use satrap.Bitvec.Gates.{keep, and_gate, Word, Word-lt}
use satrap.Bitvec.Remainder.{length-drop_last, AreTerms-drop_last}
use satrap.Bitvec.Order.{is_zero_bits-IsTerm}
use satrap.Bitvec.Access.{IsWord, bitvec_bits_then, sign_of_lem}
use satrap.Bitvec.Overflow.{reduced_once}
use satrap.Bitvec.Compare.{bvnego}

number-drop_last :
    (b : Bool) (bs : List Bool) → number (drop_last (b ∷ bs)) ≡ number (b ∷ bs) % 2 ^ length bs
number-drop_last true [] = refl
number-drop_last false [] = refl
number-drop_last b (c ∷ bs) =
    ap (λ x. bit b + 2 * x) (number-drop_last c bs)
    ∙ digit_mod (length bs) (bit b) (number (c ∷ bs)) (bit-le b)

module _ (ρ V : ℕ → Bool) where
  low-Word :
      (s : TermStore) (ts : List ℕ) (n v : ℕ)
      → Word ρ V s ts (suc n) v
      → Word ρ V s (drop_last ts) n (v % 2 ^ n)
  low-Word s ts n v w = go w.bits w.size w.value (AreTerms-drop_last ρ V s ts w.bits w.terms)
    where
      go :
          (bs : List Bool)
          → length bs ≡ suc n
          → number bs ≡ v
          → AreTerms ρ V s (drop_last ts) (drop_last bs)
          → Word ρ V s (drop_last ts) n (v % 2 ^ n)
      go [] size value k = absurd (omega arith)
      go (b ∷ bs) size value k =
          let size' : length bs ≡ n = omega arith in
          record {
            bits = drop_last (b ∷ bs);
            terms = k;
            size = length-drop_last b bs ∙ size';
            value =
                number-drop_last b bs
                ∙ ap (λ m. number (b ∷ bs) % 2 ^ m) size'
                ∙ ap (λ x. x % 2 ^ n) value;
          }

  least :
      (v m r : ℕ)
      → v < 2 * m
      → (m ≤ v → r + m ≡ v)
      → (v < m → r ≡ v)
      → leb m v && (r == 0) ≡ (v == m)
  least v m r lt high low = elim (Bool-cases (leb m v)) [
    | inl e ↦ let le : m ≤ v = ground arith in let h = high le in ground arith
    | inr e ↦ let below : v < m = ground arith in ground arith
  ]

  pub bvnego_lem :
      (s : TermStore) (t n a : ℕ)
      → IsGood s
      → IsWord ρ V s t (suc n) a
      → Grows s (λ r s'. IsTerm ρ V s' r (a == 2 ^ n)) (bvnego t s)
  unfolding bvnego
  bvnego_lem s t n a g h =
      let (x, hx, is_x) = sign_of_lem ρ V s h.bits n a h.word in
      let lt : a < 2 * 2 ^ n = let b = Word-lt ρ V h.word in omega (arith, b, pow-suc 2 n) in
      rw (bitvec_bits_then ρ V s t (suc n) a _ h, is_x)
        (chain (is_zero_bits-IsTerm ρ V s (drop_last h.bits) n _ g (low-Word s h.bits n a h.word))
          (λ z s₁ e₁ hz. mono (and_gate ρ V e₁.good (keep ρ V e₁ hx) hz) (λ o s₂ ho. (
            ho.0,
            subst (λ v. IsTerm ρ V s₂ o v)
                (least a (2 ^ n) (a % 2 ^ n) lt
                  (λ le. elim (reduced_once a (2 ^ n) lt) [
                    | inl same ↦
                        let small = mod-lt a (two_pow-pos n) in absurd (omega (arith, small, same))
                    | inr e ↦ e
                  ])
                  (λ below. mod-eq_of_lt below))
                ho.1,
          ))))
