-- ===== src/Elimination/Values.antt =====
-- A valuation that agrees with the solver's root assignment, and what a literal's value says of it.
use satrap.Prelude.{
  Bool, true, false, not, ◌&&◌, List, ◌==◌, if◌then◌else◌, any, ◌≡◌, arith, get_or, beq,
}
use satrap.Lit.{Var, Lit, var, is_positive}
use satrap.Clause.{Valuation, literal_value}
use satrap.Elimination.{Value, unassigned, truth, falsity, flip, value_of}

abbrev pub Consistent : Value → Bool → Type 0
Consistent unassigned b = Unit
Consistent truth b = b ≡ true
Consistent falsity b = b ≡ false

-- The valuation gives every assigned variable its assigned value.
abbrev pub Agrees : Valuation → List Value → Type 0
Agrees m assignments = (v : Var) → Consistent (get_or assignments v unassigned) (m v)

-- The clause without the literals of one variable.
abbrev pub side : Valuation → Var → List Lit → Bool
side m v = any (λ l. not (var l == v) && literal_value m l)

Consistent-sign :
    (value : Value) (b s : Bool)
    → Consistent value b
    → Consistent (if s then value else flip value) (beq b s)
Consistent-sign unassigned b true h = tt
Consistent-sign unassigned b false h = tt
Consistent-sign truth b true h = ground arith
Consistent-sign truth b false h = ground arith
Consistent-sign falsity b true h = ground arith
Consistent-sign falsity b false h = ground arith

pub value_of-Consistent :
    (m : Valuation) (assignments : List Value)
    → Agrees m assignments
    → (l : Lit) → Consistent (value_of assignments l) (literal_value m l)
unfolding value_of literal_value
value_of-Consistent m assignments agrees l =
    Consistent-sign (get_or assignments (var l) unassigned) (m (var l)) (is_positive l)
      (agrees (var l))
