-- ===== src/Bitvec/Widths.antt =====
-- The binary operations of src/smt/bitvec.rs on terms of two widths.
use satrap.Prelude.{ℕ, false, List, [], ◌∷◌, ◌==◌, ◌≡◌, refl, ap, arith, All}
use satrap.Terms.{bit_vec, TermStore, err, Action, and_then, different_widths, sort_of}
use satrap.Terms.Build.{not_}
use satrap.Terms.Good.{HasSort}
use satrap.Bitvec.Words.{bitvec_width, require_same_bv_width}
use satrap.Bitvec.Shifts.{variable_shift, bvshl, bvlshr, bvashr}
use satrap.Bitvec.Arithmetic.{bvsub, bvudiv, bvurem, bvsdiv, bvsrem, bvsmod}
use satrap.Bitvec.Compare.{
  bvult, bvule, bvugt, bvuge, bvslt, bvsle, bvsgt, bvsge, bvuaddo, bvsaddo, bvumulo, bvsmulo,
  bvusubo, bvssubo, bvsdivo,
}

abbrev pub Rejects : TermStore → ℕ → ℕ → (ℕ → ℕ → Action ℕ) → Type 0
Rejects s t u operation = operation t u s ≡ (err different_widths, s)

abbrev pub arithmetic : List (ℕ → ℕ → Action ℕ)
arithmetic = bvsub ∷ bvudiv ∷ bvurem ∷ bvsdiv ∷ bvsrem ∷ bvsmod ∷ bvshl ∷ bvlshr ∷ bvashr ∷ []

abbrev pub comparisons : List (ℕ → ℕ → Action ℕ)
comparisons = bvult ∷ bvule ∷ bvugt ∷ bvuge ∷ bvslt ∷ bvsle ∷ bvsgt ∷ bvsge ∷ []

abbrev pub overflow_tests : List (ℕ → ℕ → Action ℕ)
overflow_tests = bvuaddo ∷ bvsaddo ∷ bvumulo ∷ bvsmulo ∷ bvusubo ∷ bvssubo ∷ bvsdivo ∷ []

sym_test : (w v : ℕ) → (w == v) ≡ false → (v == w) ≡ false
sym_test w v h = ground arith

module _ (s : TermStore) (t u w v : ℕ) (h : HasSort s t (bit_vec w)) (k : HasSort s u (bit_vec v))
    (e : (w == v) ≡ false) where
  differs :
      {A : Type 0} (f : ℕ → Action A)
      → and_then (require_same_bv_width t u s) f ≡ (err different_widths, s)
  unfolding require_same_bv_width bitvec_width sort_of
  differs f = rw (h.1, k.1, e) refl

  less : Rejects s t u bvult
  unfolding bvult
  less = differs _

  signed_less : Rejects s t u bvslt
  unfolding bvslt
  signed_less = differs _

  arithmetic-Rejects : All (Rejects s t u) arithmetic
  unfolding bvsub bvudiv bvurem bvsdiv bvsrem bvsmod variable_shift
  arithmetic-Rejects = (
    differs _,
    (
      differs _,
      (differs _, (differs _, (differs _, (differs _, (differs _, (differs _, (differs _, tt))))))),
    ),
  )

  overflow_tests-Rejects : All (Rejects s t u) overflow_tests
  unfolding bvuaddo bvsaddo bvumulo bvsmulo bvssubo bvsdivo
  overflow_tests-Rejects =
      (differs _, (differs _, (differs _, (differs _, (less, (differs _, (differs _, tt)))))))

-- The comparisons that are made of others take the operands the other way round.
comparisons-Rejects :
    (s : TermStore) (t u w v : ℕ)
    → HasSort s t (bit_vec w)
    → HasSort s u (bit_vec v)
    → (w == v) ≡ false
    → All (Rejects s t u) comparisons
unfolding bvule bvsle
comparisons-Rejects s t u w v h k e =
    let other = sym_test w v e in
    let below = less s t u w v h k e in
    let above = less s u t v w k h other in
    let signed_below = signed_less s t u w v h k e in
    let signed_above = signed_less s u t v w k h other in
    (
      below,
      (
        ap (λ r. and_then r not_) above,
        (
          above,
          (
            ap (λ r. and_then r not_) below,
            (
              signed_below,
              (
                ap (λ r. and_then r not_) signed_above,
                (signed_above, (ap (λ r. and_then r not_) signed_below, tt)),
              ),
            ),
          ),
        ),
      ),
    )

-- Subtraction, the divisions, the shifts, the comparisons and the seven binary tests for overflow,
-- applied to two bit vectors of different widths, give the error for that and leave the store as it
-- is.
pub widths_differ :
    (s : TermStore) (t u w v : ℕ)
    → HasSort s t (bit_vec w)
    → HasSort s u (bit_vec v)
    → (w == v) ≡ false
    → All (Rejects s t u) arithmetic
      × All (Rejects s t u) comparisons
      × All (Rejects s t u) overflow_tests
widths_differ s t u w v h k e = (
  arithmetic-Rejects s t u w v h k e,
  comparisons-Rejects s t u w v h k e,
  overflow_tests-Rejects s t u w v h k e,
)
