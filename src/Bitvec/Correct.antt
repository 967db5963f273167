-- ===== src/Bitvec/Correct.antt =====
-- The operations of src/smt/bitvec.rs against the arithmetic of the numbers that their operands and
-- results evaluate to.
use satrap.Prelude.{
  ℕ, suc, ◌+◌, ◌-◌, ◌*◌, ◌/◌, ◌%◌, ◌^◌, ◌≤◌, ◌<◌, Bool, true, false, not, ◌&&◌, all, List, [], ◌∷◌,
  leb, ltb, if◌then◌else◌, ◌==◌, ◌≡◌, ◌⊎◌, inl, inr, Bool-cases, arith,
}
use satrap.Terms.{err, work_limit, does_not_fit, bit_vec, bits_of, TermStore, u32_limit}
use satrap.Terms.Good.{IsGood}
use satrap.Terms.Connectives.{Makes, makes}
use satrap.Bitvec.{max_bitvector_width, max_quadratic_lowering_work}
use satrap.Bitvec.Sums.{total, product, AreWords, bvneg_lem, bvadd_lem, bvsub_lem, bvmul_lem}
use satrap.Bitvec.Comparison.{offset, bvult_lem, bvule_lem, bvslt_lem, bvsle_lem, bvuaddo_lem}
use satrap.Bitvec.Overflow.{sum_fits, difference_fits, bvsaddo_lem, bvssubo_lem}
use satrap.Bitvec.Least.{bvnego_lem}
use satrap.Bitvec.MinusOne.{bvsdivo_lem}
use satrap.Bitvec.Divide.{work_width}
use satrap.Bitvec.Products.{bvumulo_lem, bvumulo_large}
use satrap.Bitvec.Shifts.{bvshl, bvlshr, bvashr}
use satrap.Bitvec.Shifting.{bvshl_lem, bvlshr_lem, bvashr_lem}
use satrap.Bitvec.Literals.{is_digit, leading_zero, bitvec_from_decimal}
use satrap.Bitvec.Decimal.{numeral, bitvec_from_decimal_fits, bitvec_from_decimal_large}
use satrap.Bitvec.Denotes.{Denotes, MakesWord, makes_word, Denotes-IsWord}
use satrap.Bitvec.Access.{IsWord}
use satrap.Bitvec.Arithmetic.{bvneg, bvadd, bvsub, bvmul}
use satrap.Bitvec.Compare.{
  bvult, bvule, bvslt, bvsle, bvnego, bvuaddo, bvsaddo, bvumulo, bvssubo, bvusubo, bvsdivo,
}

abbrev pub DenoteAll : (ℕ → Bool) → TermStore → ℕ → List ℕ → List ℕ → Type 0
DenoteAll ρ s w [] [] = Unit
DenoteAll ρ s w [] (v ∷ vs) = ⊥
DenoteAll ρ s w (t ∷ ts) [] = ⊥
DenoteAll ρ s w (t ∷ ts) (v ∷ vs) = Denotes ρ s t w v × DenoteAll ρ s w ts vs

module _ (ρ V : ℕ → Bool) (s : TermStore) (g : IsGood s) (w : ℕ) where
  DenoteAll-AreWords : (ts vs : List ℕ) → DenoteAll ρ s w ts vs → AreWords ρ V s w ts vs
  DenoteAll-AreWords [] [] h = tt
  DenoteAll-AreWords [] (v ∷ vs) h = elim h [ ]
  DenoteAll-AreWords (t ∷ ts) [] h = elim h [ ]
  DenoteAll-AreWords (t ∷ ts) (v ∷ vs) (h, k) =
      (Denotes-IsWord ρ V s g t w v h, DenoteAll-AreWords ts vs k)

-- A bit vector has a bit.
width_pos : (ρ : ℕ → Bool) (s : TermStore) (t w v : ℕ) → IsGood s → Denotes ρ s t w v → 0 < w
width_pos ρ s t w v g ((bits_of ts, h), more) = (g.formed t (bit_vec w) (bits_of ts) h).1
width_pos ρ s t w v g ((kind, h), more) = elim (g.formed t (bit_vec w) kind h) [ ]

-- `bvneg`, `bvadd` of two or more operands and `bvsub` are arithmetic modulo the power of two of the
-- width, on operands of one width.
pub sums_denote :
    (ρ : ℕ → Bool) (s : TermStore) (w t u : ℕ) (ts : List ℕ) (a b : ℕ) (vs : List ℕ)
    → IsGood s
    → w < u32_limit
    → DenoteAll ρ s w (t ∷ u ∷ ts) (a ∷ b ∷ vs)
    → MakesWord ρ s w ((2 ^ w - a) % 2 ^ w) (bvneg t s)
      × MakesWord ρ s w (total (a + b) vs % 2 ^ w) (bvadd (t ∷ u ∷ ts) s)
      × MakesWord ρ s w ((a + (2 ^ w - b)) % 2 ^ w) (bvsub t u s)
sums_denote ρ s w t u ts a b vs g lt (h, (k, l)) =
    let pos = width_pos ρ s t w a g h in
    (
      makes_word ρ s w _ _ (λ V. bvneg_lem ρ V s w t a g pos lt (Denotes-IsWord ρ V s g t w a h)),
      makes_word ρ s w _ _ (λ V.
          bvadd_lem ρ V s w t u ts a b vs g pos lt
            (DenoteAll-AreWords ρ V s g w (t ∷ u ∷ ts) (a ∷ b ∷ vs) (h, (k, l)))),
      makes_word ρ s w _ _ (λ V.
          bvsub_lem ρ V s w t u a b g pos lt (Denotes-IsWord ρ V s g t w a h)
            (Denotes-IsWord ρ V s g u w b k)),
    )

-- `bvmul` of two operands or more multiplies modulo the power of two of the width, where the square
-- of the width is within the limit on the work.
pub products_denote :
    (ρ : ℕ → Bool) (s : TermStore) (w t u : ℕ) (ts : List ℕ) (a b : ℕ) (vs : List ℕ)
    → IsGood s
    → w < u32_limit
    → w * w ≤ max_quadratic_lowering_work
    → DenoteAll ρ s w (t ∷ u ∷ ts) (a ∷ b ∷ vs)
    → MakesWord ρ s w (product (a * b) vs % 2 ^ w) (bvmul (t ∷ u ∷ ts) s)
products_denote ρ s w t u ts a b vs g lt work (h, k) = makes_word ρ s w _ _ (λ V.
    bvmul_lem ρ V s w t u ts a b vs g (width_pos ρ s t w a g h) lt work
      (DenoteAll-AreWords ρ V s g w (t ∷ u ∷ ts) (a ∷ b ∷ vs) (h, k)))

-- `bvshl` multiplies by a power of two modulo the power of two of the width, `bvlshr` divides by a
-- power of two, and `bvashr` does that too, with ones coming in at the top of a negative number. The
-- amount is any number, also one that is not below the width.
pub shifts_denote :
    (ρ : ℕ → Bool) (s : TermStore) (n t u a b : ℕ)
    → IsGood s
    → suc n < u32_limit
    → Denotes ρ s t (suc n) a
    → Denotes ρ s u (suc n) b
    → MakesWord ρ s (suc n) ((a * 2 ^ b) % 2 ^ suc n) (bvshl t u s)
      × MakesWord ρ s (suc n) (a / 2 ^ b) (bvlshr t u s)
      × MakesWord ρ s
          (suc n)
          (if leb (2 ^ n) a then 2 ^ suc n - 1 - (2 ^ suc n - 1 - a) / 2 ^ b else a / 2 ^ b)
          (bvashr t u s)
shifts_denote ρ s n t u a b g lt h k = (
  makes_word ρ s _ _ _ (λ V. bvshl_lem ρ V s n t u a b g lt (left V) (right V)),
  makes_word ρ s _ _ _ (λ V. bvlshr_lem ρ V s n t u a b g lt (left V) (right V)),
  makes_word ρ s _ _ _ (λ V. bvashr_lem ρ V s n t u a b g lt (left V) (right V)),
)
  where
    left : (V : ℕ → Bool) → IsWord ρ V s t (suc n) a
    left V = Denotes-IsWord ρ V s g t (suc n) a h

    right : (V : ℕ → Bool) → IsWord ρ V s u (suc n) b
    right V = Denotes-IsWord ρ V s g u (suc n) b k

-- The comparisons compare the numbers, and the signed comparisons the signed numbers.
pub comparisons_evaluate :
    (ρ : ℕ → Bool) (s : TermStore) (n t u a b : ℕ)
    → IsGood s
    → Denotes ρ s t (suc n) a
    → Denotes ρ s u (suc n) b
    → Makes ρ s (ltb a b) (bvult t u s)
      × Makes ρ s (leb a b) (bvule t u s)
      × Makes ρ s (ltb (offset n a) (offset n b)) (bvslt t u s)
      × Makes ρ s (leb (offset n a) (offset n b)) (bvsle t u s)
comparisons_evaluate ρ s n t u a b g h k = (
  makes ρ s _ _ (λ V. bvult_lem ρ V s t u (suc n) a b g (left V) (right V)),
  makes ρ s _ _ (λ V. bvule_lem ρ V s t u (suc n) a b g (left V) (right V)),
  makes ρ s _ _ (λ V. bvslt_lem ρ V s t u n a b g (left V) (right V)),
  makes ρ s _ _ (λ V. bvsle_lem ρ V s t u n a b g (left V) (right V)),
)
  where
    left : (V : ℕ → Bool) → IsWord ρ V s t (suc n) a
    left V = Denotes-IsWord ρ V s g t (suc n) a h

    right : (V : ℕ → Bool) → IsWord ρ V s u (suc n) b
    right V = Denotes-IsWord ρ V s g u (suc n) b k

-- `bvnego`, `bvuaddo`, `bvsaddo`, `bvusubo` and `bvssubo` hold exactly if the negation, the sum, the
-- signed sum, the difference or the signed difference does not fit in the width, and `bvsdivo` exactly
-- if the least signed number is divided by minus one, at every width. `bvumulo` holds exactly if the
-- product does not fit, where the square of the width is within the limit on the work; above the limit
-- it gives the error for that and leaves the store as it is.
pub overflows_evaluate :
    (ρ : ℕ → Bool) (s : TermStore) (n t u a b : ℕ)
    → IsGood s
    → Denotes ρ s t (suc n) a
    → Denotes ρ s u (suc n) b
    → Makes ρ s (a == 2 ^ n) (bvnego t s)
      × Makes ρ s (leb (2 ^ suc n) (a + b)) (bvuaddo t u s)
      × Makes ρ s (not (sum_fits n a b)) (bvsaddo t u s)
      × Makes ρ s (ltb a b) (bvusubo t u s)
      × Makes ρ s (not (difference_fits n a b)) (bvssubo t u s)
      × Makes ρ s ((a == 2 ^ n) && (b == 2 ^ suc n - 1)) (bvsdivo t u s)
      × (((suc n * suc n ≤ max_quadratic_lowering_work)
            × Makes ρ s (leb (2 ^ suc n) (a * b)) (bvumulo t u s))
          ⊎ ((max_quadratic_lowering_work < suc n * suc n) × (bvumulo t u s ≡ (err work_limit, s))))
overflows_evaluate ρ s n t u a b g h k = (
  makes ρ s _ _ (λ V. bvnego_lem ρ V s t n a g (left V)),
  makes ρ s _ _ (λ V. bvuaddo_lem ρ V s t u (suc n) a b g (left V) (right V)),
  makes ρ s _ _ (λ V. bvsaddo_lem ρ V s n t u a b g (left V) (right V)),
  makes ρ s _ _ (λ V. bvult_lem ρ V s t u (suc n) a b g (left V) (right V)),
  makes ρ s _ _ (λ V. bvssubo_lem ρ V s n t u a b g (left V) (right V)),
  makes ρ s _ _ (λ V. bvsdivo_lem ρ V s t u n a b g (left V) (right V)),
  elim (Bool-cases (leb (suc n * suc n) max_quadratic_lowering_work)) [
    | inl e ↦
        let work : suc n * suc n ≤ max_quadratic_lowering_work = ground arith in
        inl (
          work,
          makes ρ s _ _ (λ V.
              let short = work_width ρ V (suc n) work in
              bvumulo_lem ρ V s t u (suc n) a b g (omega arith) work (omega arith) (left V)
                (right V)),
        )
    | inr e ↦
        let large : max_quadratic_lowering_work < suc n * suc n = ground arith in
        inr (
          large,
          bvumulo_large ρ (λ x. true) s t u (suc n) a b large (left (λ x. true))
              (right (λ x. true)),
        )
  ],
)
  where
    left : (V : ℕ → Bool) → IsWord ρ V s t (suc n) a
    left V = Denotes-IsWord ρ V s g t (suc n) a h

    right : (V : ℕ → Bool) → IsWord ρ V s u (suc n) b
    right V = Denotes-IsWord ρ V s g u (suc n) b k

-- Where the width is allowed, a numeral (digits, without a zero before others) gives a bit vector of
-- its number if the number is below the power of two of the width, and otherwise an error that leaves
-- the store as it is.
pub decimal_denotes :
    (ρ : ℕ → Bool) (s : TermStore) (d : ℕ) (ds : List ℕ) (w : ℕ)
    → IsGood s
    → 0 < w
    → w ≤ max_bitvector_width
    → all is_digit (d ∷ ds) ≡ true
    → leading_zero (d ∷ ds) ≡ false
    → ((numeral (d ∷ ds) < 2 ^ w)
        × MakesWord ρ s w (numeral (d ∷ ds)) (bitvec_from_decimal (d ∷ ds) w s))
      ⊎ ((2 ^ w ≤ numeral (d ∷ ds)) × (bitvec_from_decimal (d ∷ ds) w s ≡ (err does_not_fit, s)))
decimal_denotes ρ s d ds w g pos le digits plain =
    elim (Bool-cases (ltb (numeral (d ∷ ds)) (2 ^ w))) [
      | inl e ↦
          let small : numeral (d ∷ ds) < 2 ^ w = ground arith in
          inl (
            small,
            makes_word ρ s w _ _
                (λ V. bitvec_from_decimal_fits ρ V s g d ds w pos le digits plain small),
          )
      | inr e ↦
          let large : 2 ^ w ≤ numeral (d ∷ ds) = ground arith in
          inr (large, bitvec_from_decimal_large ρ (λ x. true) s g d ds w pos le digits plain large)
    ]
