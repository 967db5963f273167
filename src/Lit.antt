-- ===== src/Lit.antt =====
-- src/types.rs: variables and packed literals. A `Var` and a `Lit` are u32 newtypes, so both are
-- numbers here; `new_var` returns `none` where `Var::new` panics.
pub mod Packing
pub mod Dimacs
pub mod Examples
use Prim.Native.Nat.{bit_and, bit_or, bit_xor}
use satrap.Prelude.{
  ℕ, ◌+◌, ◌-◌, ◌*◌, ◌/◌, ◌%◌, ◌^◌, ◌<◌, ◌≡◌, refl, Bool, true, false, ◌||◌, Option, none, some, ltb,
  leb, ◌==◌, if◌then◌else◌, ◌>>=◌,
}
use satrap.Prelude.Int.{ℤ, pos, negsuc, negate, unsigned_abs, is_above_zero}

abbrev pub Var : Type 0
Var = ℕ

abbrev pub Lit : Type 0
Lit = ℕ

abbrev pub u32_max : ℕ
u32_max = 2 ^ 32 - 1

abbrev pub max_variables : ℕ
max_variables = u32_max / 2 + 1

abbrev pub IsVar : Var → Type 0
IsVar v = v < max_variables

abbrev pub IsLit : Lit → Type 0
IsLit l = l < 2 ^ 32

-- `raw << 1` on u32
abbrev pub shl_one : ℕ → ℕ
shl_one raw = raw * 2 % 2 ^ 32

unfoldable pub new_var : ℕ → Option Var
new_var index = if leb index (u32_max / 2) then some index else none

unfoldable pub positive : Var → Lit
positive v = shl_one v

unfoldable pub negative : Var → Lit
negative v = bit_or (shl_one v) 1

unfoldable pub new : Var → Bool → Lit
unfolding positive negative
new v is_pos = if is_pos then positive v else negative v

unfoldable pub var : Lit → Var
var l = l / 2

unfoldable pub is_positive : Lit → Bool
is_positive l = bit_and l 1 == 0

-- `!literal`
unfoldable pub neg : Lit → Lit
neg l = bit_xor l 1

-- `u32::try_from(value).ok()`
abbrev try_u32 : ℕ → Option ℕ
try_u32 n = if leb n u32_max then some n else none

-- A panic of `Var::new` would be a `none` here.
unfoldable pub from_dimacs : ℤ → Option Lit
unfolding new_var
from_dimacs value =
    if unsigned_abs value == 0 || ltb max_variables (unsigned_abs value) then none else do
      variable ← try_u32 (unsigned_abs value - 1)
      v ← new_var variable
      some (new v (is_above_zero value))

unfoldable pub to_dimacs : Lit → ℤ
to_dimacs l =
    let variable = var l + 1 in if is_positive l then pos variable else negate (pos variable)
