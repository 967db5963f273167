-- ===== src/Bitvec/Compare.antt =====
-- The comparisons of src/smt/bitvec.rs and its predicates for overflow, which give Boolean terms.
use satrap.Prelude.{ℕ, ◌-◌, ◌*◌, List, [], ◌∷◌, ◌++◌, length, replicate, leb, if◌then◌else◌}
use satrap.Terms.{
  Action, ◌>>=◌, pure, fail, panic, false_term, true_term, bitvec_bits, width_overflow, u32_limit,
}
use satrap.Terms.Build.{not_, and_, xor, iff}
use satrap.Terms.Combine.{ite}
use satrap.Bitvec.{
  add_bits, subtract_bits, multiply_bits, unsigned_less_than_bits, is_zero_bits, check_width,
  check_quadratic, drop_last,
}
use satrap.Bitvec.Words.{require_same_bv_width, sign_of, drop}

unfoldable pub bvult : ℕ → ℕ → Action ℕ
unfolding require_same_bv_width bitvec_bits unsigned_less_than_bits
bvult left right = do
  _ ← require_same_bv_width left right
  left_bits ← bitvec_bits left
  right_bits ← bitvec_bits right
  unsigned_less_than_bits left_bits right_bits

unfoldable pub bvule : ℕ → ℕ → Action ℕ
unfolding bvult not_
bvule left right = do greater ← bvult right left; not_ greater

abbrev pub bvugt : ℕ → ℕ → Action ℕ
bvugt left right = bvult right left

abbrev pub bvuge : ℕ → ℕ → Action ℕ
bvuge left right = bvule right left

unfoldable pub bvslt : ℕ → ℕ → Action ℕ
unfolding require_same_bv_width bitvec_bits xor unsigned_less_than_bits ite
bvslt left right = do
  _ ← require_same_bv_width left right
  left_bits ← bitvec_bits left
  right_bits ← bitvec_bits right
  left_sign ← sign_of left_bits
  right_sign ← sign_of right_bits
  signs_differ ← xor left_sign right_sign
  unsigned ← unsigned_less_than_bits left_bits right_bits
  ite signs_differ left_sign unsigned

unfoldable pub bvsle : ℕ → ℕ → Action ℕ
unfolding bvslt not_
bvsle left right = do greater ← bvslt right left; not_ greater

abbrev pub bvsgt : ℕ → ℕ → Action ℕ
bvsgt left right = bvslt right left

abbrev pub bvsge : ℕ → ℕ → Action ℕ
bvsge left right = bvsle right left

unfoldable pub bvnego : ℕ → Action ℕ
unfolding bitvec_bits is_zero_bits and_
bvnego t = do
  bits ← bitvec_bits t
  sign ← sign_of bits
  low_zero ← is_zero_bits (drop_last bits)
  and_ (sign ∷ low_zero ∷ [])

unfoldable pub bvuaddo : ℕ → ℕ → Action ℕ
unfolding require_same_bv_width bitvec_bits add_bits
bvuaddo left right = do
  _ ← require_same_bv_width left right
  left_bits ← bitvec_bits left
  right_bits ← bitvec_bits right
  sum ← add_bits left_bits right_bits
  pure sum.1

unfoldable pub bvsaddo : ℕ → ℕ → Action ℕ
unfolding require_same_bv_width bitvec_bits add_bits iff xor and_
bvsaddo left right = do
  _ ← require_same_bv_width left right
  left_bits ← bitvec_bits left
  right_bits ← bitvec_bits right
  result ← add_bits left_bits right_bits
  left_sign ← sign_of left_bits
  right_sign ← sign_of right_bits
  result_sign ← sign_of result.0
  same_inputs ← iff left_sign right_sign
  changed_sign ← xor left_sign result_sign
  and_ (same_inputs ∷ changed_sign ∷ [])

-- The doubled width of a product, which must be allowed.
abbrev pub full_width_of : ℕ → Action ℕ
full_width_of width =
    if leb u32_limit (width * 2)
    then fail width_overflow
    else (do _ ← check_width (width * 2); pure (width * 2))

unfoldable pub bvumulo : ℕ → ℕ → Action ℕ
unfolding require_same_bv_width check_quadratic check_width bitvec_bits multiply_bits is_zero_bits
    not_
bvumulo left right = do
  width ← require_same_bv_width left right
  _ ← check_quadratic width
  full_width ← full_width_of width
  left_bits ← bitvec_bits left
  right_bits ← bitvec_bits right
  product ←
      multiply_bits (left_bits ++ replicate (full_width - length left_bits) false_term)
        (right_bits ++ replicate (full_width - length right_bits) false_term) full_width
  high_nonzero ← is_zero_bits (drop width product)
  not_ high_nonzero

unfoldable pub iff_each : List ℕ → ℕ → Action (List ℕ)
unfolding iff
iff_each [] t = pure []
iff_each (bit ∷ bits) t = do e ← iff bit t; es ← iff_each bits t; pure (e ∷ es)

-- The bit at a position; indexing panics past the end.
abbrev pub bit_at : List ℕ → ℕ → Action ℕ
bit_at bits index = elim (drop index bits) [ [] ↦ fail panic | bit ∷ rest ↦ pure bit ]

unfoldable pub bvsmulo : ℕ → ℕ → Action ℕ
unfolding require_same_bv_width check_quadratic check_width bitvec_bits multiply_bits iff_each and_
    not_
bvsmulo left right = do
  width ← require_same_bv_width left right
  _ ← check_quadratic width
  full_width ← full_width_of width
  left_bits ← bitvec_bits left
  right_bits ← bitvec_bits right
  left_sign ← sign_of left_bits
  right_sign ← sign_of right_bits
  product ←
      multiply_bits (left_bits ++ replicate (full_width - length left_bits) left_sign)
        (right_bits ++ replicate (full_width - length right_bits) right_sign) full_width
  result_sign ← bit_at product (width - 1)
  high_matches ← iff_each (drop width product) result_sign
  fits ← and_ high_matches
  not_ fits

abbrev pub bvusubo : ℕ → ℕ → Action ℕ
bvusubo left right = bvult left right

unfoldable pub bvssubo : ℕ → ℕ → Action ℕ
unfolding require_same_bv_width bitvec_bits subtract_bits xor and_
bvssubo left right = do
  _ ← require_same_bv_width left right
  left_bits ← bitvec_bits left
  right_bits ← bitvec_bits right
  result ← subtract_bits left_bits right_bits
  left_sign ← sign_of left_bits
  right_sign ← sign_of right_bits
  result_sign ← sign_of result
  different_inputs ← xor left_sign right_sign
  changed_sign ← xor left_sign result_sign
  and_ (different_inputs ∷ changed_sign ∷ [])

unfoldable pub bvsdivo : ℕ → ℕ → Action ℕ
unfolding require_same_bv_width bvnego bitvec_bits iff_each and_
bvsdivo left right = do
  _ ← require_same_bv_width left right
  minimum ← bvnego left
  right_bits ← bitvec_bits right
  all_ones ← iff_each right_bits true_term
  negative_one ← and_ all_ones
  and_ (minimum ∷ negative_one ∷ [])
