-- ===== src/Bitvec/Parts.antt =====
-- Parts of words, and words of words, as the operations of src/smt/bitvec.rs cut and join them.
use satrap.Prelude.{
  ℕ, zero, suc, ◌+◌, ◌-◌, ◌*◌, ◌/◌, ◌%◌, ◌^◌, Bool, true, false, List, [], ◌∷◌, ◌++◌, length,
  length-append, replicate, take, if◌then◌else◌, ◌≡◌, refl, sym, ap, ◌∙◌, arith,
}
use native.Mathlib.Nat.{pow-suc, div-div-eq-div-mul}
use satrap.Terms.{TermStore, false_term}
use satrap.Terms.Good.{IsGood}
use satrap.Terms.Value.{IsTerm, AreTerms}
use satrap.Bitvec.Number.{
  digit_mod, bit, bit-le, number, number-append, number-replicate, length-replicate, two_pow-pos,
}
use satrap.Bitvec.Gates.{false_bits, AreTerms-append, Word}
use satrap.Bitvec.Words.{drop}

module _ (ρ V : ℕ → Bool) where
  -- A word with zeros above it.
  pub extended :
      (s : TermStore) (ts : List ℕ) (w k v : ℕ)
      → IsGood s
      → Word ρ V s ts w v
      → Word ρ V s (ts ++ replicate k false_term) (w + k) v
  extended s ts w k v g h = record {
    bits = h.bits ++ replicate k false;
    terms =
        AreTerms-append ρ V s ts (replicate k false_term) h.bits (replicate k false) h.terms
          (false_bits ρ V g k);
    size =
        let p = length-append h.bits (replicate k false) in
        let q = length-replicate k false in omega (arith, p, q, h.size);
    value =
        number-append h.bits (replicate k false)
        ∙ ap (λ x. number h.bits + 2 ^ length h.bits * x) (number-replicate k)
        ∙ omega (arith, h.value);
  }

  AreTerms-drop :
      (s : TermStore) (n : ℕ) (ts : List ℕ) (bs : List Bool)
      → AreTerms ρ V s ts bs
      → AreTerms ρ V s (drop n ts) (drop n bs)
  AreTerms-drop s zero ts bs h = h
  AreTerms-drop s (suc n) [] [] h = tt
  AreTerms-drop s (suc n) [] (b ∷ bs) h = elim h [ ]
  AreTerms-drop s (suc n) (t ∷ ts) [] h = elim h [ ]
  AreTerms-drop s (suc n) (t ∷ ts) (b ∷ bs) (h, k) = AreTerms-drop s n ts bs k

  -- The bits from `w` on are the quotient by a power of two.
  drop_value :
      (w m : ℕ) (bs : List Bool)
      → length bs ≡ w + m
      → (length (drop w bs) ≡ m) × (number (drop w bs) ≡ number bs / 2 ^ w)
  drop_value zero m bs h = (omega arith, omega arith)
  drop_value (suc w) m [] h = absurd (omega arith)
  drop_value (suc w) m (b ∷ bs) h =
      let (size, value) = drop_value w m bs (omega arith) in
      let half : (bit b + 2 * number bs) / 2 ≡ number bs = let k = bit-le b in omega arith in
      (
        size,
        value
            ∙ ap (λ x. x / 2 ^ w) (sym half)
            ∙ div-div-eq-div-mul (bit b + 2 * number bs) 2 (2 ^ w)
            ∙ ap (λ x. (bit b + 2 * number bs) / x) (omega (arith, pow-suc 2 w)),
      )

  pub high-Word :
      (s : TermStore) (ts : List ℕ) (w m v : ℕ)
      → Word ρ V s ts (w + m) v
      → Word ρ V s (drop w ts) m (v / 2 ^ w)
  high-Word s ts w m v h =
      let (size, value) = drop_value w m h.bits h.size in
      record {
        bits = drop w h.bits;
        terms = AreTerms-drop s w ts h.bits h.terms;
        size = size;
        value = value ∙ ap (λ x. x / 2 ^ w) h.value;
      }

  AreTerms-take :
      (s : TermStore) (n : ℕ) (ts : List ℕ) (bs : List Bool)
      → AreTerms ρ V s ts bs
      → AreTerms ρ V s (take n ts) (take n bs)
  AreTerms-take s zero ts bs h = tt
  AreTerms-take s (suc n) [] [] h = tt
  AreTerms-take s (suc n) [] (b ∷ bs) h = elim h [ ]
  AreTerms-take s (suc n) (t ∷ ts) [] h = elim h [ ]
  AreTerms-take s (suc n) (t ∷ ts) (b ∷ bs) (h, k) = (h, AreTerms-take s n ts bs k)

  -- The bits below `w` are the remainder by a power of two.
  take_value :
      (w m : ℕ) (bs : List Bool)
      → length bs ≡ w + m
      → (length (take w bs) ≡ w) × (number (take w bs) ≡ number bs % 2 ^ w)
  take_value zero m bs h = (refl, omega arith)
  take_value (suc w) m [] h = absurd (omega arith)
  take_value (suc w) m (b ∷ bs) h =
      let (size, value) = take_value w m bs (omega arith) in
      (ap suc size, ap (λ x. bit b + 2 * x) value ∙ digit_mod w (bit b) (number bs) (bit-le b))

  pub low_part-Word :
      (s : TermStore) (ts : List ℕ) (w m v : ℕ)
      → Word ρ V s ts (w + m) v
      → Word ρ V s (take w ts) w (v % 2 ^ w)
  low_part-Word s ts w m v h =
      let (size, value) = take_value w m h.bits h.size in
      record {
        bits = take w h.bits;
        terms = AreTerms-take s w ts h.bits h.terms;
        size = size;
        value = value ∙ ap (λ x. x % 2 ^ w) h.value;
      }

  -- A word of one bit again and again.
  pub replicate-Word :
      (s : TermStore) (t : ℕ) (b : Bool) (n : ℕ)
      → IsTerm ρ V s t b
      → Word ρ V s (replicate n t) n (if b then 2 ^ n - 1 else 0)
  replicate-Word s t b n h = record {
    bits = replicate n b;
    terms = all_terms n;
    size = length-replicate n b;
    value = all_value b n;
  }
    where
      all_terms : (n : ℕ) → AreTerms ρ V s (replicate n t) (replicate n b)
      all_terms zero = tt
      all_terms (suc n) = (h, all_terms n)

      all_value : (b : Bool) (n : ℕ) → number (replicate n b) ≡ (if b then 2 ^ n - 1 else 0)
      all_value true zero = refl
      all_value true (suc n) = omega (arith, all_value true n, two_pow-pos n, pow-suc 2 n)
      all_value false n = number-replicate n

  -- One word above another.
  pub append-Word :
      (s : TermStore) (ts us : List ℕ) (w m v x : ℕ)
      → Word ρ V s ts w v
      → Word ρ V s us m x
      → Word ρ V s (ts ++ us) (w + m) (v + 2 ^ w * x)
  append-Word s ts us w m v x h k = record {
    bits = h.bits ++ k.bits;
    terms = AreTerms-append ρ V s ts us h.bits k.bits h.terms k.terms;
    size = length-append h.bits k.bits ∙ rw (h.size, k.size) refl;
    value = number-append h.bits k.bits ∙ rw (h.size, h.value, k.value) refl;
  }
