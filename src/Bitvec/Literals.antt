-- ===== src/Bitvec/Literals.antt =====
-- The bit-vector literals of src/smt/bitvec.rs. A text is the list of its bytes.
use satrap.Prelude.{
  ℕ, zero, suc, ◌+◌, ◌-◌, ◌*◌, ◌/◌, ◌%◌, Bool, false, not, ◌&&◌, ◌||◌, Option, none, some, List, [],
  ◌∷◌, ◌++◌, map, length, replicate, any, all, ◌==◌, ltb, leb, if◌then◌else◌,
}
use satrap.Terms.{
  Action, ◌>>=◌, pure, fail, bool_constant, fresh_bool_atom, make_bitvec, bad_literal, bad_decimal,
  bad_numeral, does_not_fit, too_wide, u32_limit, out_of_fuel,
}
use satrap.Bitvec.{check_width}

abbrev pub strip_prefix : ℕ → List ℕ → Option (List ℕ)
strip_prefix letter (x ∷ y ∷ rest) = if (x == b'#') && (y == letter) then some rest else none
strip_prefix letter _ = none

abbrev pub reversed_onto {ℓ} : {A : Type ℓ} → List A → List A → List A
reversed_onto acc [] = acc
reversed_onto acc (x ∷ xs) = reversed_onto (x ∷ acc) xs

-- `u32::try_from` of a length, then `check_width`
unfoldable pub check_length : ℕ → Action {0} Unit
unfolding check_width
check_length n = if leb u32_limit n then fail too_wide else check_width n

unfoldable pub fresh_atoms : ℕ → Action (List ℕ)
unfolding fresh_bool_atom
fresh_atoms zero = pure []
fresh_atoms (suc n) = do bit ← fresh_bool_atom; bits ← fresh_atoms n; pure (bit ∷ bits)

unfoldable pub fresh_bitvec : ℕ → Action ℕ
unfolding check_width fresh_atoms make_bitvec
fresh_bitvec width = do _ ← check_width width; bits ← fresh_atoms width; make_bitvec bits

abbrev pub is_binary_digit : ℕ → Bool
is_binary_digit byte = (byte == b'0') || (byte == b'1')

abbrev pub binary_digits : Option (List ℕ) → Action ℕ
binary_digits none = fail bad_literal
binary_digits (some []) = fail bad_literal
binary_digits (some (d ∷ ds)) =
    if all is_binary_digit (d ∷ ds)
    then (do
      _ ← check_length (length (d ∷ ds))
      make_bitvec (map (λ byte. bool_constant (byte == b'1')) (reversed_onto [] (d ∷ ds))))
    else fail bad_literal

unfoldable pub bitvec_from_binary : List ℕ → Action ℕ
unfolding check_length make_bitvec
bitvec_from_binary literal = binary_digits (strip_prefix b'b' literal)

abbrev pub in_range : ℕ → ℕ → ℕ → Bool
in_range low high byte = leb low byte && leb byte high

-- The value of a hexadecimal digit.
abbrev pub hex_value : ℕ → Option ℕ
hex_value byte =
    if in_range b'0' b'9' byte
    then some (byte - b'0')
    else if in_range b'a' b'f' byte
    then some (byte - b'a' + 10)
    else if in_range b'A' b'F' byte
    then some (byte - b'A' + 10)
    else none

abbrev pub hex_values : List ℕ → Option (List ℕ)
hex_values [] = some []
hex_values (d ∷ ds) = elim (hex_value d) [
  | none ↦ none
  | some v ↦ elim (hex_values ds) [ none ↦ none | some vs ↦ some (v ∷ vs) ]
]

-- `value & (1 << index) != 0` for the indices from 0 to 3
abbrev pub nibble : ℕ → List Bool
nibble value =
    (value % 2 == 1) ∷ (value / 2 % 2 == 1) ∷ (value / 4 % 2 == 1) ∷ (value / 8 % 2 == 1) ∷ []

abbrev pub nibbles : List ℕ → List Bool
nibbles [] = []
nibbles (v ∷ vs) = nibble v ++ nibbles vs

abbrev pub hex_digits : Option (List ℕ) → Action ℕ
hex_digits none = fail bad_literal
hex_digits (some []) = fail bad_literal
hex_digits (some (d ∷ ds)) = elim (hex_values (reversed_onto [] (d ∷ ds))) [
  | none ↦ fail bad_literal
  | some values ↦ do
    _ ← check_length (length (d ∷ ds) * 4)
    make_bitvec (map bool_constant (nibbles values))
]

unfoldable pub bitvec_from_hexadecimal : List ℕ → Action ℕ
unfolding check_length make_bitvec
bitvec_from_hexadecimal literal = hex_digits (strip_prefix b'x' literal)

-- The loop over the digits, highest first, that halves the number: the digits and the remainder.
unfoldable pub halve : ℕ → List ℕ → List ℕ × ℕ
halve carry [] = ([], carry)
halve carry (d ∷ ds) =
    let current = carry * 10 + d in
    let rest = halve (current % 2) ds in (current / 2 ∷ rest.0, rest.1)

-- The digits from the first that is not zero on.
abbrev pub drain : List ℕ → List ℕ
drain [] = []
drain (zero ∷ ds) = drain ds
drain (suc d ∷ ds) = suc d ∷ ds

-- The loop that takes one bit after the other, lowest first; `none` where the fuel ends.
unfoldable pub value_bits : ℕ → List ℕ → Option (List Bool)
unfolding halve
value_bits zero digits = if any (λ d. not (d == 0)) digits then none else some []
value_bits (suc fuel) digits =
    let half = halve 0 digits in
    let rest = value_bits fuel (drain half.0) in
    if any (λ d. not (d == 0)) digits
    then elim rest [ none ↦ none | some bits ↦ some (not (half.1 == 0) ∷ bits) ]
    else some []

abbrev pub is_digit : ℕ → Bool
is_digit byte = in_range b'0' b'9' byte

abbrev pub leading_zero : List ℕ → Bool
leading_zero (d ∷ e ∷ ds) = d == b'0'
leading_zero _ = false

unfoldable pub resized : ℕ → Option (List Bool) → Action ℕ
unfolding make_bitvec
resized width none = fail out_of_fuel
resized width (some bits) =
    if ltb width (length bits)
    then fail does_not_fit
    else make_bitvec (map bool_constant (bits ++ replicate (width - length bits) false))

-- A digit has less than four bits, so four rounds for each digit are enough.
unfoldable pub bitvec_from_decimal : List ℕ → ℕ → Action ℕ
unfolding check_width value_bits resized
bitvec_from_decimal [] width = do _ ← check_width width; fail bad_decimal
bitvec_from_decimal (d ∷ ds) width = do
  _ ← check_width width
  if not (all is_digit (d ∷ ds))
      then fail bad_decimal
      else if leading_zero (d ∷ ds)
      then fail bad_numeral
      else resized width (value_bits (4 * length (d ∷ ds)) (map (λ byte. byte - b'0') (d ∷ ds)))
