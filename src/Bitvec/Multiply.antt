-- ===== src/Bitvec/Multiply.antt =====
-- The multiplier of src/smt/bitvec.rs multiplies, modulo the power of two of its width.
use satrap.Prelude.{
  ℕ, zero, suc, ◌+◌, ◌-◌, ◌*◌, ◌%◌, ◌^◌, ◌≤◌, Bool, true, false, ◌&&◌, List, [], ◌∷◌, ◌++◌, length,
  length-append, replicate, take, ◌≡◌, refl, sym, ap, ◌∙◌, subst, arith,
}
use native.Mathlib.Nat.{add-mod, zero-mod}
use satrap.Terms.{TermStore, false_term}
use satrap.Terms.Good.{IsGood, Extends-trans}
use satrap.Terms.Post.{Grows, chain, mono}
use satrap.Terms.Value.{IsTerm, AreTerms}
use satrap.Bitvec.{product_row, multiply_from, multiply_bits}
use satrap.Bitvec.Number.{
  bit, bit-le, number, number-replicate, number-append, length-replicate, digit_mod, shift_mod,
  double_pow,
}
use satrap.Bitvec.Gates.{
  keep, keeps, done, and_gate, false_bits, AreTerms-append, Word, Word-mono, Word-cast, Word-length,
  zero_word,
}
use satrap.Bitvec.Adder.{add_bits-Word}

-- A row of the product: the bits of the one factor where the bit of the other is set.
abbrev row : ℕ → List Bool → Bool → List Bool
row zero xs y = []
row (suc n) [] y = replicate (suc n) false
row (suc n) (x ∷ xs) y = (x && y) ∷ row n xs y

length-row : (n : ℕ) (xs : List Bool) (y : Bool) → length (row n xs y) ≡ n
length-row zero xs y = refl
length-row (suc n) [] y = length-replicate (suc n) false
length-row (suc n) (x ∷ xs) y = ap suc (length-row n xs y)

bit-and : (x y : Bool) → bit (x && y) ≡ bit x * bit y
bit-and true true = refl
bit-and true false = refl
bit-and false true = refl
bit-and false false = refl

number-row : (n : ℕ) (xs : List Bool) (y : Bool) → number (row n xs y) ≡ (number xs * bit y) % 2 ^ n
number-row zero xs y = omega arith
number-row (suc n) [] y =
    let none_ : 0 ≡ 0 * bit y = omega arith in
    number-replicate (suc n) ∙ sym (zero-mod (2 ^ suc n)) ∙ ap (λ v. v % 2 ^ suc n) none_
number-row (suc n) (x ∷ xs) y =
    let rest = number-row n xs y in
    let digit = digit_mod n (bit (x && y)) (number xs * bit y) (bit-le (x && y)) in
    let whole : bit (x && y) + 2 * (number xs * bit y) ≡ (bit x + 2 * number xs) * bit y =
      omega (arith, bit-and x y) in
    omega (arith, rest) ∙ digit ∙ ap (λ v. v % 2 ^ suc n) whole

module _ (ρ V : ℕ → Bool) where
  product_row-Grows :
      (s : TermStore) (n : ℕ) (ts : List ℕ) (xs : List Bool) (u : ℕ) (y : Bool)
      → IsGood s
      → AreTerms ρ V s ts xs
      → IsTerm ρ V s u y
      → Grows s (λ r s'. AreTerms ρ V s' r (row n xs y)) (product_row n ts u s)
  unfolding product_row
  product_row-Grows s zero ts xs u y g h k = done ρ V g tt
  product_row-Grows s (suc n) [] [] u y g h k = done ρ V g (false_bits ρ V g (suc n))
  product_row-Grows s (suc n) [] (x ∷ xs) u y g h k = elim h [ ]
  product_row-Grows s (suc n) (t ∷ ts) [] u y g h k = elim h [ ]
  product_row-Grows s (suc n) (t ∷ ts) (x ∷ xs) u y g (ht, h) k =
      chain (and_gate ρ V g ht k) (λ b s₁ e₁ hb.
        chain (product_row-Grows s₁ n ts xs u y e₁.good (keeps ρ V ts xs e₁ h) (keep ρ V e₁ k))
          (λ r s₂ e₂ hr. done ρ V e₂.good (keep ρ V e₂ hb, hr)))

  -- A row, shifted to its place.
  shifted-Word :
      (s : TermStore) (i n a : ℕ) (xs : List Bool) (y : Bool) (r : List ℕ)
      → IsGood s
      → number xs ≡ a
      → AreTerms ρ V s r (row n xs y)
      → Word ρ V s (replicate i false_term ++ r) (i + n) ((2 ^ i * (a * bit y)) % 2 ^ (i + n))
  shifted-Word s i n a xs y r g e h = record {
    bits = replicate i false ++ row n xs y;
    terms =
        AreTerms-append ρ V s (replicate i false_term) r (replicate i false) _ (false_bits ρ V g i)
          h;
    size =
        length-append (replicate i false) (row n xs y)
        ∙ rw (length-replicate i false, length-row n xs y) refl;
    value =
        number-append (replicate i false) (row n xs y)
        ∙ rw (number-replicate i, length-replicate i false, number-row n xs y, e)
            (omega arith ∙ shift_mod i n (a * bit y));
  }

  multiply_from-Word :
      (s : TermStore) (w i a v : ℕ) (ts us : List ℕ) (xs ys : List Bool) (result : List ℕ)
      → IsGood s
      → i + length ys ≤ w
      → number xs ≡ a
      → AreTerms ρ V s ts xs
      → AreTerms ρ V s us ys
      → Word ρ V s result w (v % 2 ^ w)
      → Grows s
          (λ r s'. Word ρ V s' r w ((v + 2 ^ i * (a * number ys)) % 2 ^ w))
          (multiply_from w ts i us result s)
  unfolding multiply_from
  multiply_from-Word s w i a v ts [] xs [] result g le e h k p =
      let same : v ≡ v + 2 ^ i * (a * 0) = omega arith in
      done ρ V g (Word-cast ρ V (ap (λ x. x % 2 ^ w) same) p)
  multiply_from-Word s w i a v ts [] xs (y ∷ ys) result g le e h k p = elim k [ ]
  multiply_from-Word s w i a v ts (u ∷ us) xs [] result g le e h k p = elim k [ ]
  multiply_from-Word s w i a v ts (u ∷ us) xs (y ∷ ys) result g le e h (hu, k) p =
      let width : i + (w - i) ≡ w = omega arith in
      let total : v + 2 ^ i * (a * bit y) + 2 ^ suc i * (a * number ys)
          ≡ v + 2 ^ i * (a * (bit y + 2 * number ys)) =
        omega (arith, double_pow i (a * number ys)) in
      chain (product_row-Grows s (w - i) ts xs u y g h hu) (λ r s₁ e₁ hr.
        let place =
          subst (λ m. Word ρ V s₁ (replicate i false_term ++ r) m ((2 ^ i * (a * bit y)) % 2 ^ m))
            width (shifted-Word s₁ i (w - i) a xs y r e₁.good e hr) in
        chain (add_bits-Word ρ V s₁ result _ w _ _ e₁.good (Word-mono ρ V e₁ p) place)
          (λ o s₂ e₂ ho.
            let f = Extends-trans s s₁ s₂ e₁ e₂ in
            mono
              (multiply_from-Word s₂ w (suc i) a (v + 2 ^ i * (a * bit y)) ts us xs ys o.0 e₂.good
                (omega arith) e (keeps ρ V ts xs f h) (keeps ρ V us ys f k)
                (Word-cast ρ V (sym (add-mod v (2 ^ i * (a * bit y)) (2 ^ w))) ho.0))
              (λ q s₃ hq. (hq.0, Word-cast ρ V (ap (λ x. x % 2 ^ w) total) hq.1))))

  take_all : (n : ℕ) (ts : List ℕ) → length ts ≤ n → take n ts ≡ ts
  take_all zero [] h = refl
  take_all zero (t ∷ ts) h = absurd (omega arith)
  take_all (suc n) [] h = refl
  take_all (suc n) (t ∷ ts) h = ap (λ us. t ∷ us) (take_all n ts (omega arith))

  -- The multiplier multiplies, in words of the width or shorter ones.
  pub multiply_bits-Word :
      (s : TermStore) (ts us : List ℕ) (n m w a b : ℕ)
      → IsGood s
      → m ≤ w
      → Word ρ V s ts n a
      → Word ρ V s us m b
      → Grows s (λ r s'. Word ρ V s' r w ((a * b) % 2 ^ w)) (multiply_bits ts us w s)
  unfolding multiply_bits
  multiply_bits-Word s ts us n m w a b g le p q =
      let product : 0 + 2 ^ 0 * (a * number q.bits) ≡ a * b =
        omega (arith, ap (λ x. a * x) q.value) in
      let short = Word-length ρ V q in
      rw (take_all w us (omega (arith, short))) (
        mono
          (multiply_from-Word s w 0 a 0 ts us p.bits q.bits _ g (omega (arith, q.size)) p.value
            p.terms q.terms (Word-cast ρ V (sym (zero-mod (2 ^ w))) (zero_word ρ V g w)))
          (λ r s' h. (h.0, Word-cast ρ V (ap (λ x. x % 2 ^ w) product) h.1)))
