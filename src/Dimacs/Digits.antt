-- ===== src/Dimacs/Digits.antt =====
-- The integers that src/proof.rs prints are the ones that src/dimacs.rs reads.
use satrap.Prelude.{
  ℕ, zero, suc, ◌+◌, ◌-◌, ◌/◌, ◌%◌, ◌≤◌, ◌<◌, true, false, some, [], ◌∷◌, ◌==◌, leb, if◌then◌else◌,
  ◌≡◌, ◌≢◌, refl, ◌∙◌, ap, arith, Bool-cases, inl, inr, All,
}
use mathlib.Core.List.{cons-ne-nil}
use satrap.Prelude.Bytes.{Bytes, is_ascii_digit}
use satrap.Prelude.Int.{ℤ, pos, negsuc}
use satrap.Drat.{digits, rev_onto, push_i64}
use satrap.Dimacs.{ok, Token}
use satrap.Dimacs.Number.{
  u64_max, i64_max, push_digit, scan_u64, parse_u64, split_sign, signed, parse_i64,
}

scan_digit :
    (m : ℕ) (rest : Bytes)
    → m ≤ u64_max
    → scan_u64 ((b'0' + m % 10) ∷ rest) (m / 10) ≡ scan_u64 rest m
unfolding scan_u64
scan_digit m rest h =
    let digit : is_ascii_digit (b'0' + m % 10) ≡ true = ground arith in
    let value : push_digit (m / 10) (b'0' + m % 10 - b'0') ≡ some m = ground arith in
    rw (digit, value)

scan-digits :
    (fuel m : ℕ) (rest : Bytes)
    → m < fuel
    → m ≤ u64_max
    → scan_u64 (rev_onto (digits fuel m) rest) 0 ≡ scan_u64 rest m
unfolding digits
scan-digits zero m rest h fits = elim h [ ]
scan-digits (suc fuel) m rest h fits = elim (Bool-cases (m / 10 == 0)) [
  | inl last ↦
      let start : m / 10 ≡ 0 = ground arith in rw last (rw start at (scan_digit m rest fits))
  | inr more ↦ rw more (
      scan-digits fuel (m / 10) ((b'0' + m % 10) ∷ rest) (ground arith) (omega arith)
      ∙ scan_digit m rest fits)
]

rev_onto-ne-nil : (ds : Bytes) (d : ℕ) (rest : Bytes) → rev_onto ds (d ∷ rest) ≢ []
rev_onto-ne-nil [] d rest = cons-ne-nil d rest
rev_onto-ne-nil (e ∷ ds) d rest = rev_onto-ne-nil ds e (d ∷ rest)

-- The decimal digits of a number.
abbrev pub decimal : ℕ → Bytes
decimal m = rev_onto (digits (suc m) m) []

pub decimal-ne-nil : (m : ℕ) → decimal m ≢ []
unfolding digits
decimal-ne-nil m =
    rev_onto-ne-nil (if m / 10 == 0 then [] else digits m (m / 10)) (b'0' + m % 10) []

pub parse_u64-decimal : (m : ℕ) → m ≤ u64_max → parse_u64 (decimal m) ≡ some m
parse_u64-decimal m fits =
    scan_nonempty (decimal m) (decimal-ne-nil m)
    ∙ scan-digits (suc m) m [] (omega arith) fits
    ∙ (unfold scan_u64 in refl)
  where
    scan_nonempty : (w : Bytes) → w ≢ [] → parse_u64 w ≡ scan_u64 w 0
    scan_nonempty [] h = absurd (h refl)
    scan_nonempty (c ∷ w) h = unfold parse_u64 in refl

abbrev pub IsDigit : ℕ → Type 0
IsDigit c = is_ascii_digit c ≡ true

digits-IsDigit : (fuel m : ℕ) → All IsDigit (digits fuel m)
unfolding digits
digits-IsDigit zero m = tt
digits-IsDigit (suc fuel) m = elim (Bool-cases (m / 10 == 0)) [
  | inl last ↦ rw last (ground arith, tt)
  | inr more ↦ rw more (ground arith, digits-IsDigit fuel (m / 10))
]

rev_onto-IsDigit :
    (ds rest : Bytes) → All IsDigit ds → All IsDigit rest → All IsDigit (rev_onto ds rest)
rev_onto-IsDigit [] rest h k = k
rev_onto-IsDigit (d ∷ ds) rest (p, h) k = rev_onto-IsDigit ds (d ∷ rest) h (p, k)

pub decimal-IsDigit : (m : ℕ) → All IsDigit (decimal m)
decimal-IsDigit m = rev_onto-IsDigit (digits (suc m) m) [] (digits-IsDigit (suc m) m) tt

split_sign-IsDigit : (w : Bytes) → All IsDigit w → split_sign w ≡ (false, w)
unfolding split_sign
split_sign-IsDigit [] h = refl
split_sign-IsDigit (c ∷ w) (p, h) = ground arith

split_minus : (w : Bytes) → split_sign (b'-' ∷ w) ≡ (true, w)
unfolding split_sign
split_minus w = refl

negative : (n : ℕ) (t : Token) → n ≤ i64_max → signed t true (suc n) ≡ ok (negsuc n)
negative n t h = ground arith

-- The values of an i64.
abbrev pub IsI64 : ℤ → Type 0
IsI64 (pos n) = n ≤ i64_max
IsI64 (negsuc n) = n ≤ i64_max

-- A token that holds the print of an i64 is read as that integer.
pub parse_i64-push_i64 :
    (z : ℤ) (t : Token) → IsI64 z → t.bytes ≡ push_i64 [] z → parse_i64 t ≡ ok z
unfolding parse_i64 push_i64
parse_i64-push_i64 (pos n) t fits e =
    let small : leb n i64_max ≡ true = ground arith in
    let parts : split_sign t.bytes ≡ (false, decimal n) =
      ap split_sign e ∙ split_sign-IsDigit (decimal n) (decimal-IsDigit n) in
    rw (parts, parse_u64-decimal n (omega arith), small)
parse_i64-push_i64 (negsuc n) t fits e =
    let parts : split_sign t.bytes ≡ (true, decimal (suc n)) =
      ap split_sign e ∙ split_minus (decimal (suc n)) in
    rw (parts, parse_u64-decimal (suc n) (omega arith)) (negative n t fits)
