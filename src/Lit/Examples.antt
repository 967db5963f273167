-- ===== src/Lit/Examples.antt =====
-- The literal theorems (src/types.rs) at concrete literals.
use satrap.Prelude.{◌≡◌, refl, some, arith}
use satrap.Prelude.Int.{negsuc}
use satrap.Lit.{Lit, new, from_dimacs, to_dimacs}
use satrap.Lit.Dimacs.{from_dimacs-to_dimacs}

abbrev greatest : Lit
greatest = 4294967295

read_greatest : from_dimacs (negsuc 2147483647) ≡ some greatest
unfolding from_dimacs new
read_greatest = refl

from_dimacs-to_dimacs_example : from_dimacs (to_dimacs 15) ≡ some 15
from_dimacs-to_dimacs_example = from_dimacs-to_dimacs 15 (omega arith)
