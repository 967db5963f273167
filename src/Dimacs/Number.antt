-- ===== src/Dimacs/Number.antt =====
-- Numbers in DIMACS tokens (src/dimacs.rs).
use satrap.Prelude.{
  ℕ, ◌+◌, ◌-◌, ◌*◌, ◌^◌, Bool, true, false, Option, none, some, [], ◌∷◌, ◌==◌, leb, if◌then◌else◌,
}
use satrap.Prelude.Bytes.{Bytes, is_ascii_digit}
use satrap.Prelude.Int.{ℤ, pos, negsuc, negate}
use satrap.Dimacs.{Message, expected_integer, integer_range, Result, ok, err, Token, at}

abbrev pub u64_max : ℕ
u64_max = 2 ^ 64 - 1

abbrev pub i64_max : ℕ
i64_max = 2 ^ 63 - 1

-- `value.checked_mul(10).and_then(|current| current.checked_add(digit))`
abbrev pub push_digit : ℕ → ℕ → Option ℕ
push_digit value digit =
    if leb (value * 10) u64_max
    then if leb (value * 10 + digit) u64_max then some (value * 10 + digit) else none
    else none

abbrev pub on_some : Option ℕ → (ℕ → Option ℕ) → Option ℕ
on_some none go = none
on_some (some v) go = go v

unfoldable pub scan_u64 : Bytes → ℕ → Option ℕ
scan_u64 [] value = some value
scan_u64 (byte ∷ bytes) value =
    if is_ascii_digit byte then on_some (push_digit value (byte - b'0')) (scan_u64 bytes) else none

unfoldable pub parse_u64 : Bytes → Option ℕ
unfolding scan_u64
parse_u64 [] = none
parse_u64 (byte ∷ bytes) = scan_u64 (byte ∷ bytes) 0

-- usize is 64 bits wide, so `usize::try_from` succeeds.
unfoldable pub parse_usize : Token → Message → Result ℕ
parse_usize token message = elim (parse_u64 token.bytes) [
  | none ↦ err (at token message)
  | some value ↦ ok value
]

-- The sign and the digits of a token.
unfoldable pub split_sign : Bytes → Bool × Bytes
split_sign [] = (false, [])
split_sign (byte ∷ rest) =
    if byte == b'-'
    then (true, rest)
    else if byte == b'+'
    then (false, rest)
    else (false, byte ∷ rest)

abbrev pub signed : Token → Bool → ℕ → Result ℤ
signed token true magnitude =
    if magnitude == i64_max + 1
    then ok (negsuc i64_max)
    else if leb magnitude i64_max
    then ok (negate (pos magnitude))
    else err (at token integer_range)
signed token false magnitude =
    if leb magnitude i64_max then ok (pos magnitude) else err (at token integer_range)

abbrev pub of_magnitude : Token → Bool → Option ℕ → Result ℤ
of_magnitude token negative none = err (at token expected_integer)
of_magnitude token negative (some magnitude) = signed token negative magnitude

unfoldable pub parse_i64 : Token → Result ℤ
parse_i64 token =
    let (negative, digits) = split_sign token.bytes in
    of_magnitude token negative (parse_u64 digits)
