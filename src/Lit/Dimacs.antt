-- ===== src/Lit/Dimacs.antt =====
-- Conversion between literals and the signed integers of DIMACS (src/types.rs).
use satrap.Prelude.{
  zero, suc, ◌+◌, ◌-◌, ◌<◌, ◌≤◌, ◌≡◌, Bool, true, false, some, arith, not, if◌then◌else◌, sym, ap,
  ◌∙◌,
}
use satrap.Prelude.Int.{ℤ, pos, negsuc, negate, unsigned_abs, is_above_zero}
use satrap.Lit.{
  Var, Lit, IsVar, IsLit, max_variables, new, var, is_positive, neg, from_dimacs, to_dimacs,
}
use satrap.Lit.Packing.{
  new-var, lit_ext, var-new, is_positive-new, var-neg, is_positive-neg, var-IsVar,
}

-- The literals that `from_dimacs` makes: a nonzero value of magnitude at most the variable limit
-- gives the literal of variable |value| - 1 with the value's sign.
pub from_dimacs_total :
    (z : ℤ)
    → 0 < unsigned_abs z
    → unsigned_abs z ≤ max_variables
    → from_dimacs z ≡ some (new (unsigned_abs z - 1) (is_above_zero z))
unfolding from_dimacs
from_dimacs_total z h k = ground arith

pub from_dimacs_range :
    (z : ℤ) (l : Lit)
    → from_dimacs z ≡ some l
    → (0 < unsigned_abs z) × (unsigned_abs z ≤ max_variables)
unfolding from_dimacs
from_dimacs_range z l h = ground arith

neg-new : (v : Var) (s : Bool) → IsVar v → neg (new v s) ≡ new v (not s)
neg-new v s h =
    lit_ext (neg (new v s)) (new v (not s))
      (var-neg (new v s) ∙ var-new v s h ∙ sym (var-new v (not s) h))
      (is_positive-neg (new v s)
        ∙ ap not (is_positive-new v s h)
        ∙ sym (is_positive-new v (not s) h))

to_dimacs-new :
    (v : Var) (s : Bool) → IsVar v → to_dimacs (new v s) ≡ (if s then pos (suc v) else negsuc v)
unfolding to_dimacs
to_dimacs-new v s h =
    let one_more : v + 1 ≡ suc v = omega arith in
    rw (var-new v s h, is_positive-new v s h, one_more) (ground arith)

both_signs :
    (z : ℤ)
    → 0 < unsigned_abs z
    → ((if is_above_zero z then pos (suc (unsigned_abs z - 1)) else negsuc (unsigned_abs z - 1))
        ≡ z)
      × ((if not (is_above_zero z)
            then pos (suc (unsigned_abs z - 1))
            else negsuc (unsigned_abs z - 1))
          ≡ negate z)
both_signs (pos zero) h = elim h [ ]
both_signs (pos (suc n)) h = ground arith
both_signs (negsuc n) h = ground arith

read_back :
    (v : Var) (s : Bool)
    → IsVar v
    → from_dimacs (if s then pos (suc v) else negsuc v) ≡ some (new v s)
read_back v true h =
    let one_less : suc v - 1 ≡ v = omega arith in
    rw (from_dimacs_total (pos (suc v)) (omega arith) (omega arith), one_less)
read_back v false h =
    let one_less : suc v - 1 ≡ v = omega arith in
    rw (from_dimacs_total (negsuc v) (omega arith) (omega arith), one_less)

-- Printing a literal that was read gives the number back, and printing its negation the number
-- with the other sign.
pub to_dimacs-from_dimacs :
    (z : ℤ) (l : Lit) → from_dimacs z ≡ some l → (to_dimacs l ≡ z) × (to_dimacs (neg l) ≡ negate z)
to_dimacs-from_dimacs z l h =
    let (above, below) = from_dimacs_range z l h in
    let v = unsigned_abs z - 1 in
    let s = is_above_zero z in
    let made : l ≡ new v s = cc (from_dimacs_total z above below) in
    let v_ok : IsVar v = omega arith in
    rw (made, neg-new v s v_ok, to_dimacs-new v s v_ok, to_dimacs-new v (not s) v_ok)
      (both_signs z above)

-- Every packed literal is read back from its DIMACS form.
pub from_dimacs-to_dimacs : (l : Lit) → IsLit l → from_dimacs (to_dimacs l) ≡ some l
from_dimacs-to_dimacs l h =
    rw (← new-var l h, to_dimacs-new (var l) (is_positive l) (var-IsVar l h))
      (read_back (var l) (is_positive l) (var-IsVar l h))
