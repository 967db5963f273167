-- ===== src/Reference.antt =====
-- Packed clause references and watches of src/solver.rs. A `ClauseRef` is the nonzero u32 that it
-- stores, a `Watch` its u64; `none` is a panic of an `assert!` or an `expect`.
pub mod Packing
pub mod Examples
use Prim.Native.Nat.{bit_and, bit_or}
use satrap.Prelude.{
  ℕ, ◌+◌, ◌-◌, ◌*◌, ◌/◌, ◌%◌, ◌^◌, Bool, not, Option, none, some, ◌==◌, ltb, leb, if◌then◌else◌,
  ◌>>=◌,
}
use satrap.Lit.{Lit, u32_max}

abbrev pub ClauseRef : Type 0
ClauseRef = ℕ

abbrev pub binary_bit : ℕ
binary_bit = 2 ^ 31

abbrev pub index_mask : ℕ
index_mask = binary_bit - 1

-- `ClauseRef::new`; `long` and `binary` are its two uses.
unfoldable pub new : ℕ → Bool → Option ClauseRef
new index binary =
    if leb index u32_max
    then if ltb index index_mask
      then some (bit_or index (if binary then binary_bit else 0) + 1)
      else none
    else none

unfoldable pub from_packed : ℕ → Option ClauseRef
from_packed packed = if packed == u32_max then none else some (packed + 1)

unfoldable pub packed : ClauseRef → ℕ
packed r = r - 1

unfoldable pub index : ClauseRef → ℕ
index r = bit_and (packed r) index_mask

unfoldable pub is_binary : ClauseRef → Bool
is_binary r = not (bit_and (packed r) binary_bit == 0)

abbrev pub Watch : Type 0
Watch = ℕ

-- `(u64::from(clause.packed()) << 32) | u64::from(blocker.raw())`
unfoldable pub watch : ClauseRef → Lit → Watch
watch r blocker = bit_or (packed r * 2 ^ 32 % 2 ^ 64) blocker

unfoldable pub clause : Watch → Option ClauseRef
clause w = from_packed (w / 2 ^ 32 % 2 ^ 32)

unfoldable pub blocker : Watch → Lit
blocker w = w % 2 ^ 32

unfoldable pub watch_is_binary : Watch → Option Bool
watch_is_binary w = do r ← clause w; some (is_binary r)
