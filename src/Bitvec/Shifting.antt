-- ===== src/Bitvec/Shifting.antt =====
-- The shifts of src/smt/bitvec.rs shift by the number that the amount stands for.
use satrap.Prelude.{
  ℕ, suc, ◌+◌, ◌-◌, ◌*◌, ◌/◌, ◌%◌, ◌^◌, ◌≤◌, ◌<◌, Bool, true, false, ◌&&◌, List, [], ◌∷◌, ◌++◌,
  replicate, take, leb, ltb, if◌then◌else◌, ◌≡◌, refl, sym, ap, ◌∙◌, subst, arith, Bool-cases, inl,
  inr,
}
use satrap.Terms.{TermStore, false_term, u32_limit}
use satrap.Terms.Good.{IsGood}
use satrap.Terms.Post.{Grows, chain, mono}
use satrap.Terms.Value.{IsTerm, AreTerms}
use satrap.Bitvec.Number.{bit, number, double_pow, shift_mod}
use satrap.Bitvec.Gates.{keep, keeps, done, constant, Word, Word-cast, Word-lt, zero_word}
use satrap.Bitvec.Order.{select_bits-Word}
use satrap.Bitvec.Words.{drop}
use satrap.Bitvec.Shifts.{
  Shift, left, logical_right, arithmetic_right, moved, candidate, fill_of, shift_from,
  variable_shift, bvshl, bvlshr, bvashr,
}
use satrap.Bitvec.Access.{
  IsWord, bitvec_bits_then, require_same_bv_width_then, make_bitvec-IsWord, sign_of_lem,
}
use satrap.Bitvec.Parts.{high-Word, low_part-Word, replicate-Word, append-Word}
use satrap.Bitvec.Amount.{
  shifted_left, shifted_right, shifted_left_zero, shifted_left_add, shifted_right_zero,
  shifted_right_add, shifted_left_out, shifted_right_out, shifted_right_in, index_out,
}

module _ (ρ V : ℕ → Bool) where
  resize : {s : TermStore} {ts : List ℕ} {n m v : ℕ} → n ≡ m → Word ρ V s ts n v → Word ρ V s ts m v
  resize {s} {ts} {v = v} e h = subst (λ k. Word ρ V s ts k v) e h

  left-Word :
      (s : TermStore) (ts : List ℕ) (w n v : ℕ)
      → IsGood s
      → n < w
      → Word ρ V s ts w v
      → Word ρ V s (replicate n false_term ++ take (w - n) ts) w (shifted_left w n v)
  left-Word s ts w n v g lt h =
      let width : n + (w - n) ≡ w = omega arith in
      let parts : w - n + n ≡ w = omega arith in
      let low = low_part-Word ρ V s ts (w - n) n v (resize (sym parts) h) in
      let value : 0 + 2 ^ n * (v % 2 ^ (w - n)) ≡ shifted_left w n v =
        omega arith
        ∙ shift_mod n (w - n) v
        ∙ ap (λ k. (2 ^ n * v) % 2 ^ k) width
        ∙ ap (λ x. x % 2 ^ w) (omega arith) in
      resize width (
        Word-cast ρ V value (
          append-Word ρ V s (replicate n false_term) (take (w - n) ts) n (w - n) 0 _
            (zero_word ρ V g n) low))

  right-Word :
      (s : TermStore) (fill : ℕ) (x : Bool) (ts : List ℕ) (w n v : ℕ)
      → IsTerm ρ V s fill x
      → n < w
      → Word ρ V s ts w v
      → Word ρ V s (drop n ts ++ replicate n fill) w (shifted_right w x n v)
  right-Word s fill x ts w n v hf lt h =
      let width : w - n + n ≡ w = omega arith in
      let parts : n + (w - n) ≡ w = omega arith in
      let high = high-Word ρ V s ts n (w - n) v (resize (sym parts) h) in
      let small : v < 2 ^ (w - n + n) = subst (λ k. v < 2 ^ k) (sym width) (Word-lt ρ V h) in
      subst (λ k. Word ρ V s (drop n ts ++ replicate n fill) k (shifted_right k x n v)) width
        (Word-cast ρ V (shifted_right_in (w - n) n x v small) (
          append-Word ρ V s (drop n ts) (replicate n fill) (w - n) n _ _ high
            (replicate-Word ρ V s fill x n hf)))

  -- What a direction does to a number, where `x` is the bit that fills.
  abbrev shifted : Shift → ℕ → Bool → ℕ → ℕ → ℕ
  shifted left w x n v = shifted_left w n v
  shifted logical_right w x n v = shifted_right w x n v
  shifted arithmetic_right w x n v = shifted_right w x n v

  shifted_zero : (d : Shift) (w : ℕ) (x : Bool) (v : ℕ) → v < 2 ^ w → shifted d w x 0 v ≡ v
  shifted_zero left w x v h = shifted_left_zero w v h
  shifted_zero logical_right w x v h = shifted_right_zero w x v h
  shifted_zero arithmetic_right w x v h = shifted_right_zero w x v h

  shifted_add :
      (d : Shift) (w : ℕ) (x : Bool) (m n v : ℕ)
      → shifted d w x n (shifted d w x m v) ≡ shifted d w x (m + n) v
  shifted_add left w x m n v = shifted_left_add w m n v
  shifted_add logical_right w x m n v = shifted_right_add w x m n v
  shifted_add arithmetic_right w x m n v = shifted_right_add w x m n v

  -- The bit that fills is false in a shift to the left.
  abbrev Fills : Shift → Bool → Type 0
  Fills left x = x ≡ false
  Fills logical_right x = Unit
  Fills arithmetic_right x = Unit

  moved-Word :
      (s : TermStore) (d : Shift) (fill : ℕ) (x : Bool) (ts : List ℕ) (w n v : ℕ)
      → IsGood s
      → IsTerm ρ V s fill x
      → n < w
      → Word ρ V s ts w v
      → Word ρ V s (moved d n w fill ts) w (shifted d w x n v)
  moved-Word s left fill x ts w n v g hf lt h = left-Word s ts w n v g lt h
  moved-Word s logical_right fill x ts w n v g hf lt h = right-Word s fill x ts w n v hf lt h
  moved-Word s arithmetic_right fill x ts w n v g hf lt h = right-Word s fill x ts w n v hf lt h

  shifted_out :
      (d : Shift) (w : ℕ) (x : Bool) (n v : ℕ)
      → Fills d x
      → w ≤ n
      → v < 2 ^ w
      → (if x then 2 ^ w - 1 else 0) ≡ shifted d w x n v
  shifted_out left w x n v f le h = rw f (shifted_left_out w n v le)
  shifted_out logical_right w x n v f le h = shifted_right_out w x n v le h
  shifted_out arithmetic_right w x n v f le h = shifted_right_out w x n v le h

  candidate-Word :
      (s : TermStore) (d : Shift) (fill : ℕ) (x : Bool) (ts : List ℕ) (w i v : ℕ)
      → IsGood s
      → w < u32_limit
      → Fills d x
      → IsTerm ρ V s fill x
      → Word ρ V s ts w v
      → Word ρ V s (candidate d i w fill ts) w (shifted d w x (2 ^ i) v)
  candidate-Word s d fill x ts w i v g small f hf h =
      elim (Bool-cases (ltb i 64 && ltb (2 ^ i) w)) [
        | inl e ↦ rw e (moved-Word s d fill x ts w (2 ^ i) v g hf (ground arith) h)
        | inr e ↦ rw e (
            Word-cast ρ V (shifted_out d w x (2 ^ i) v f (index_out w i small e) (Word-lt ρ V h))
              (replicate-Word ρ V s fill x w hf))
      ]

  -- The loop shifts by the number of the selectors, from the index on.
  shift_from-Word :
      (s : TermStore) (d : Shift) (fill : ℕ) (x : Bool) (ts : List ℕ) (w i v : ℕ) (us : List ℕ)
      (bs : List Bool)
      → IsGood s
      → w < u32_limit
      → Fills d x
      → IsTerm ρ V s fill x
      → AreTerms ρ V s us bs
      → Word ρ V s ts w v
      → Grows s
          (λ r s'. Word ρ V s' r w (shifted d w x (2 ^ i * number bs) v))
          (shift_from d w fill i us ts s)
  unfolding shift_from
  shift_from-Word s d fill x ts w i v [] [] g small f hf hu h =
      let none_ : 0 ≡ 2 ^ i * 0 = omega arith in
      done ρ V g (
        Word-cast ρ V
          (sym (shifted_zero d w x v (Word-lt ρ V h)) ∙ ap (λ n. shifted d w x n v) none_) h)
  shift_from-Word s d fill x ts w i v [] (b ∷ bs) g small f hf hu h = elim hu [ ]
  shift_from-Word s d fill x ts w i v (u ∷ us) [] g small f hf hu h = elim hu [ ]
  shift_from-Word s d fill x ts w i v (u ∷ us) (b ∷ bs) g small f hf (hu, hus) h =
      chain
        (select_bits-Word ρ V s u b (candidate d i w fill ts) ts w _ v g hu
          (candidate-Word s d fill x ts w i v g small f hf h) h)
        (λ next s₁ e₁ hn.
          mono
            (shift_from-Word s₁ d fill x next w (suc i) _ us bs e₁.good small f (keep ρ V e₁ hf)
              (keeps ρ V us bs e₁ hus) hn)
            (λ r s₂ k. (k.0, Word-cast ρ V (both b) k.1)))
    where
      both :
          (b : Bool)
          → shifted d w x (2 ^ suc i * number bs) (if b then shifted d w x (2 ^ i) v else v)
            ≡ shifted d w x (2 ^ i * (bit b + 2 * number bs)) v
      both true =
          shifted_add d w x (2 ^ i) (2 ^ suc i * number bs) v
          ∙ ap (λ n. shifted d w x n v) (omega (arith, double_pow i (number bs)))
      both false = ap (λ n. shifted d w x n v) (omega (arith, double_pow i (number bs)))

  module _ (s : TermStore) (n t u a b : ℕ) (g : IsGood s) (small : suc n < u32_limit)
      (h : IsWord ρ V s t (suc n) a) (k : IsWord ρ V s u (suc n) b) where
    variable_shift_lem :
        (d : Shift) (x : Bool)
        → Fills d x
        → ((sign : ℕ) → IsTerm ρ V s sign (leb (2 ^ n) a) → IsTerm ρ V s (fill_of d sign) x)
        → Grows s
            (λ r s'. IsWord ρ V s' r (suc n) (shifted d (suc n) x b a))
            (variable_shift t u d s)
    unfolding variable_shift
    variable_shift_lem d x f fills =
        let (sign, hs, is_sign) = sign_of_lem ρ V s h.bits n a h.word in
        let whole : 2 ^ 0 * number k.word.bits ≡ b = omega (arith, k.word.value) in
        rw
          (
            require_same_bv_width_then ρ V s t u (suc n) a b _ h k,
            bitvec_bits_then ρ V s u (suc n) b _ k,
            bitvec_bits_then ρ V s t (suc n) a _ h,
            is_sign,
          )
          (chain
            (shift_from-Word s d (fill_of d sign) x h.bits (suc n) 0 a k.bits k.word.bits g small f
              (fills sign hs) k.word.terms h.word)
            (λ r s₁ e₁ hr.
              make_bitvec-IsWord ρ V s₁ r (suc n) _ e₁.good (omega arith) small
                (Word-cast ρ V (ap (λ m. shifted d (suc n) x m a) whole) hr)))

    pub bvshl_lem :
        Grows s (λ r s'. IsWord ρ V s' r (suc n) (shifted_left (suc n) b a)) (bvshl t u s)
    bvshl_lem = variable_shift_lem left false refl (λ sign k. constant ρ V g false)

    pub bvlshr_lem : Grows s (λ r s'. IsWord ρ V s' r (suc n) (a / 2 ^ b)) (bvlshr t u s)
    bvlshr_lem = variable_shift_lem logical_right false tt (λ sign k. constant ρ V g false)

    pub bvashr_lem :
        Grows s
          (λ r s'. IsWord ρ V s' r (suc n) (shifted_right (suc n) (leb (2 ^ n) a) b a))
          (bvashr t u s)
    bvashr_lem = variable_shift_lem arithmetic_right (leb (2 ^ n) a) tt (λ sign k. k)
