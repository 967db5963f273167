-- ===== src/Lit/Packing.antt =====
-- The packed form of a literal (src/types.rs): the sign in the low bit, the variable above it.
use satrap.Prelude.{
  ◌+◌, ◌*◌, ◌/◌, ◌%◌, ◌≡◌, ◌≢◌, Bool, true, false, not, arith, ◌==◌, Bool-cases, inl, inr, ◌⊎◌,
}
use satrap.Prelude.Bits.{bit_and-one, bit_xor-one, bit_or-one_even}
use satrap.Lit.{Var, Lit, IsVar, IsLit, positive, negative, new, var, is_positive, neg}

pub positive-eq : (v : Var) → IsVar v → positive v ≡ v * 2
unfolding positive
positive-eq v h = omega arith

pub negative-eq : (v : Var) → IsVar v → negative v ≡ v * 2 + 1
unfolding negative
negative-eq v h =
    let fits : v * 2 % 4294967296 ≡ v * 2 = omega arith in ground (arith, bit_or-one_even v)

pub is_positive-eq : (l : Lit) → is_positive l ≡ (l % 2 == 0)
unfolding is_positive
is_positive-eq l = rw bit_and-one

pub neg-eq : (l : Lit) → neg l + l % 2 ≡ l / 2 * 2 + 1
unfolding neg
neg-eq = bit_xor-one

pub var-neg : (l : Lit) → var (neg l) ≡ var l
unfolding var
var-neg l = omega (arith, neg-eq l)

pub neg-neg : (l : Lit) → neg (neg l) ≡ l
neg-neg l = omega (arith, neg-eq l, neg-eq (neg l))

pub is_positive-neg : (l : Lit) → is_positive (neg l) ≡ not (is_positive l)
is_positive-neg l = ground (arith, neg-eq l, is_positive-eq l, is_positive-eq (neg l))

pub neg-ne : (l : Lit) → neg l ≢ l
neg-ne l = omega (arith, neg-eq l)

pub neg-IsLit : (l : Lit) → IsLit l → IsLit (neg l)
neg-IsLit l h = omega (arith, neg-eq l)

pub var-IsVar : (l : Lit) → IsLit l → IsVar (var l)
unfolding var
var-IsVar l h = omega arith

-- A literal is its variable and its sign.
pub lit_ext : (a b : Lit) → var a ≡ var b → is_positive a ≡ is_positive b → a ≡ b
unfolding var
lit_ext a b v s = ground (arith, is_positive-eq a, is_positive-eq b)

-- Two literals of one variable are equal or complementary.
pub same_var : (a b : Lit) → var a ≡ var b → (a ≡ b) ⊎ (b ≡ neg a)
unfolding var
same_var a b v = elim (Bool-cases (a == b)) [
  | inl e ↦ inl (ground arith)
  | inr e ↦ inr (omega (arith, neg-eq a, let ne : a ≢ b = ground arith in ne))
]

pub new-var : (l : Lit) → IsLit l → new (var l) (is_positive l) ≡ l
unfolding new var
new-var l h =
    ground (
      arith,
      is_positive-eq l,
      positive-eq (l / 2) (omega arith),
      negative-eq (l / 2) (omega arith),
    )

pub var-new : (v : Var) (s : Bool) → IsVar v → var (new v s) ≡ v
unfolding new var
var-new v true h = omega (arith, positive-eq v h)
var-new v false h = omega (arith, negative-eq v h)

pub is_positive-new : (v : Var) (s : Bool) → IsVar v → is_positive (new v s) ≡ s
unfolding new
is_positive-new v true h = ground (arith, positive-eq v h, is_positive-eq (positive v))
is_positive-new v false h = ground (arith, negative-eq v h, is_positive-eq (negative v))

pub new-IsLit : (v : Var) (s : Bool) → IsVar v → IsLit (new v s)
unfolding new
new-IsLit v true h = omega (arith, positive-eq v h)
new-IsLit v false h = omega (arith, negative-eq v h)
