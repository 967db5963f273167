-- ===== src/Bitvec/Shifts.antt =====
-- The rotations and the shifts by a variable amount of src/smt/bitvec.rs.
use satrap.Prelude.{
  ℕ, suc, ◌+◌, ◌-◌, ◌%◌, ◌^◌, ◌&&◌, List, [], ◌∷◌, ◌++◌, replicate, take, set, ltb, if◌then◌else◌,
}
use satrap.Terms.{Action, ◌>>=◌, pure, false_term, bitvec_bits, make_bitvec}
use satrap.Bitvec.{select_bits}
use satrap.Bitvec.Words.{bitvec_width, require_same_bv_width, drop, sign_of}

-- Each bit is written to its new place; `shift` is below the width.
abbrev pub rotated : ℕ → ℕ → List ℕ → ℕ → List ℕ → List ℕ
rotated width shift [] index bits = bits
rotated width shift (bit ∷ input) index bits =
    rotated width shift input (suc index) (set bits ((index + shift) % width) bit)

unfoldable pub rotate_left : ℕ → ℕ → Action ℕ
unfolding bitvec_width bitvec_bits make_bitvec
rotate_left t amount = do
  width ← bitvec_width t
  input ← bitvec_bits t
  make_bitvec (rotated width (amount % width) input 0 (replicate width false_term))

unfoldable pub rotate_right : ℕ → ℕ → Action ℕ
unfolding bitvec_width bitvec_bits make_bitvec
rotate_right t amount = do
  width ← bitvec_width t
  input ← bitvec_bits t
  make_bitvec (rotated width (width - amount % width) input 0 (replicate width false_term))

pub data Shift : Type 0 where
  left logical_right arithmetic_right : Shift

-- One candidate: all bits moved by `shift`, or `fill` where that is the width or more.
abbrev pub moved : Shift → ℕ → ℕ → ℕ → List ℕ → List ℕ
moved left shift width fill result = replicate shift false_term ++ take (width - shift) result
moved logical_right shift width fill result = drop shift result ++ replicate shift fill
moved arithmetic_right shift width fill result = drop shift result ++ replicate shift fill

abbrev pub fill_of : Shift → ℕ → ℕ
fill_of left sign = false_term
fill_of logical_right sign = false_term
fill_of arithmetic_right sign = sign

-- `checked_shl` of a usize gives nothing from the index 64 on.
abbrev pub candidate : Shift → ℕ → ℕ → ℕ → List ℕ → List ℕ
candidate direction index width fill result =
    if ltb index 64 && ltb (2 ^ index) width
    then moved direction (2 ^ index) width fill result
    else replicate width fill

unfoldable pub shift_from : Shift → ℕ → ℕ → ℕ → List ℕ → List ℕ → Action (List ℕ)
unfolding select_bits
shift_from direction width fill index [] result = pure result
shift_from direction width fill index (selector ∷ selectors) result = do
  next ← select_bits selector (candidate direction index width fill result) result
  shift_from direction width fill (suc index) selectors next

unfoldable pub variable_shift : ℕ → ℕ → Shift → Action ℕ
unfolding require_same_bv_width bitvec_bits shift_from make_bitvec
variable_shift value amount direction = do
  width ← require_same_bv_width value amount
  selectors ← bitvec_bits amount
  result ← bitvec_bits value
  sign ← sign_of result
  shifted ← shift_from direction width (fill_of direction sign) 0 selectors result
  make_bitvec shifted

abbrev pub bvshl : ℕ → ℕ → Action ℕ
bvshl value amount = variable_shift value amount left

abbrev pub bvlshr : ℕ → ℕ → Action ℕ
bvlshr value amount = variable_shift value amount logical_right

abbrev pub bvashr : ℕ → ℕ → Action ℕ
bvashr value amount = variable_shift value amount arithmetic_right
