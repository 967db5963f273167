-- ===== src/Bitvec/Access.antt =====
-- Bit-vector terms of src/smt/bitvec.rs that stand for numbers: how operations read them and make
-- them.
use satrap.Prelude.{
  ℕ, suc, ◌+◌, ◌*◌, ◌^◌, ◌<◌, Bool, true, false, List, [], ◌∷◌, length, leb, ◌≡◌, refl, ap, ◌∙◌,
  subst, arith, All, ==_refl,
}
use satrap.Terms.{
  bit_vec, bits_of, TermStore, ok, Action, and_then, bitvec_bits, make_bitvec, u32_limit,
}
use satrap.Terms.Good.{Holds, Inner, IsGood, Extends}
use satrap.Terms.Post.{Grows, mono}
use satrap.Terms.Intern.{intern-Post}
use satrap.Terms.Value.{IsTerm, AreTerms, IsTerm-Inner, require_bools_then, sort_of_then}
use satrap.Terms.Branch.{AreTerms-Booleans}
use satrap.Bitvec.Words.{bitvec_width, require_same_bv_width, sign_of, last_or}
use native.Mathlib.Nat.{pow-suc}
use satrap.Bitvec.Number.{bit, number}
use satrap.Bitvec.Gates.{Word, Word-mono, Word-length}

last_bit : (b : Bool) (bs : List Bool) → last_or b bs ≡ leb (2 ^ length bs) (number (b ∷ bs))
last_bit true [] = refl
last_bit false [] = refl
last_bit b (c ∷ bs) =
    last_bit c bs ∙ halved b (2 ^ length bs) (number (c ∷ bs)) _ (pow-suc 2 (length bs))
  where
    halved : (b : Bool) (m x k : ℕ) → k ≡ m * 2 → leb m x ≡ leb k (bit b + 2 * x)
    halved true m x k h = ground arith
    halved false m x k h = ground arith

module _ (ρ V : ℕ → Bool) where
  -- A term of the store whose bits stand for the number `v`.
  pub record IsWord (s : TermStore) (t w v : ℕ) : Type 0 where
    pub bits : List ℕ
    pub node : Holds s t (bit_vec w) (bits_of bits)
    pub word : Word ρ V s bits w v

  pub IsWord-mono : {s s' : TermStore} {t w v : ℕ} → Extends s s' → IsWord s t w v → IsWord s' t w v
  IsWord-mono {t = t} e h = record {
    bits = h.bits;
    node = e.kept t _ h.node;
    word = Word-mono ρ V e h.word;
  }

  pub bitvec_bits_then :
      {A : Type 0} (s : TermStore) (t w v : ℕ) (f : List ℕ → Action A) (h : IsWord s t w v)
      → and_then (bitvec_bits t s) f ≡ f h.bits s
  unfolding bitvec_bits
  bitvec_bits_then s t w v f h = rw (h.node) refl

  pub bitvec_width_then :
      {A : Type 0} (s : TermStore) (t w v : ℕ) (f : ℕ → Action A)
      → IsWord s t w v
      → and_then (bitvec_width t s) f ≡ f w s
  unfolding bitvec_width
  bitvec_width_then s t w v f h =
      ap (λ r. and_then r f) (sort_of_then ρ V s t (bit_vec w) _ (bits_of h.bits, h.node))

  pub require_same_bv_width_then :
      {A : Type 0} (s : TermStore) (t u w a b : ℕ) (f : ℕ → Action A)
      → IsWord s t w a
      → IsWord s u w b
      → and_then (require_same_bv_width t u s) f ≡ f w s
  unfolding require_same_bv_width
  require_same_bv_width_then s t u w a b f h k =
      ap (λ r. and_then r f) (bitvec_width_then s t w a _ h)
      ∙ ap (λ r. and_then r f) (bitvec_width_then s u w b _ k)
      ∙ rw (==_refl w) refl

  Inners :
      (s : TermStore) (ts : List ℕ) (bs : List Bool)
      → AreTerms ρ V s ts bs
      → All (Inner s (length s.nodes)) ts
  Inners s [] [] h = tt
  Inners s [] (b ∷ bs) h = elim h [ ]
  Inners s (t ∷ ts) [] h = elim h [ ]
  Inners s (t ∷ ts) (b ∷ bs) (h, k) = (IsTerm-Inner ρ V s t b h, Inners s ts bs k)

  -- A term of the bits of a word.
  pub make_bitvec-IsWord :
      (s : TermStore) (ts : List ℕ) (w v : ℕ)
      → IsGood s
      → 0 < w
      → w < u32_limit
      → Word ρ V s ts w v
      → Grows s (λ t s'. IsWord s' t w v) (make_bitvec ts s)
  unfolding make_bitvec
  make_bitvec-IsWord s [] w v g pos lt h = absurd (let k = Word-length ρ V h in omega (arith, k))
  make_bitvec-IsWord s (t ∷ ts) w v g pos lt h =
      let size : length (t ∷ ts) ≡ w = Word-length ρ V h in
      let fits : leb u32_limit (length (t ∷ ts)) ≡ false = ground arith in
      rw (require_bools_then ρ V s (t ∷ ts) _ (AreTerms-Booleans ρ V s (t ∷ ts) h.bits h.terms)) (
        rw fits (
          mono
            (intern-Post s g (record { sort = bit_vec (length (t ∷ ts)); kind = bits_of (t ∷ ts) })
              (refl, omega arith, Inners s (t ∷ ts) h.bits h.terms))
            (λ u s' k. (
              k.0,
              record {
                bits = t ∷ ts;
                node = subst (λ n. Holds s' u (bit_vec n) (bits_of (t ∷ ts))) size k.1;
                word = Word-mono ρ V k.0 h;
              },
            ))))

  last-IsTerm :
      (s : TermStore) (t : ℕ) (b : Bool) (ts : List ℕ) (bs : List Bool)
      → IsTerm ρ V s t b
      → AreTerms ρ V s ts bs
      → IsTerm ρ V s (last_or t ts) (last_or b bs)
  last-IsTerm s t b [] [] h k = h
  last-IsTerm s t b [] (c ∷ bs) h k = elim k [ ]
  last-IsTerm s t b (u ∷ ts) [] h k = elim k [ ]
  last-IsTerm s t b (u ∷ ts) (c ∷ bs) h (k, l) = last-IsTerm s u c ts bs k l

  -- The highest bit of a word says whether the number is in the upper half.
  pub sign_of_lem :
      (s : TermStore) (ts : List ℕ) (n v : ℕ)
      → Word ρ V s ts (suc n) v
      → (t : ℕ) × IsTerm ρ V s t (leb (2 ^ n) v) × (sign_of ts s ≡ (ok t, s))
  sign_of_lem s ts n v w = go ts w.bits w.terms w.size w.value
    where
      go :
          (ts : List ℕ) (bs : List Bool)
          → AreTerms ρ V s ts bs
          → length bs ≡ suc n
          → number bs ≡ v
          → (t : ℕ) × IsTerm ρ V s t (leb (2 ^ n) v) × (sign_of ts s ≡ (ok t, s))
      go [] [] h size value = absurd (omega arith)
      go [] (b ∷ bs) h size value = elim h [ ]
      go (t ∷ ts) [] h size value = elim h [ ]
      go (t ∷ ts) (b ∷ bs) (h, k) size value =
          let size' : length bs ≡ n = omega arith in
          (
            last_or t ts,
            subst (λ x. IsTerm ρ V s (last_or t ts) x)
                (last_bit b bs
                  ∙ ap (λ m. leb (2 ^ m) (number (b ∷ bs))) size'
                  ∙ ap (λ x. leb (2 ^ n) x) value)
                (last-IsTerm s t b ts bs h k),
            refl,
          )
