-- ===== src/Restart/Luby.antt =====
-- `luby` of src/solver.rs, the restart sequence 1 1 2 1 1 2 4 …, as two loops.
pub mod Recursion
use satrap.Prelude.{
  ℕ, zero, suc, ◌+◌, ◌-◌, ◌*◌, ◌/◌, ◌%◌, ◌^◌, Bool, Option, none, some, ◌==◌, ltb, if◌then◌else◌,
  ◌>>=◌, ◌≡◌, refl,
}
use satrap.Restart.Word.{sat_add, sat_mul}

-- `while size < index + 1`; the result is the size and the sequence number. `none` is missing fuel.
unfoldable pub grow : ℕ → ℕ → ℕ → ℕ → Option (ℕ × ℕ)
grow zero size sequence index = none
grow (suc fuel) size sequence index =
    let more = grow fuel (sat_add (sat_mul size 2) 1) (sequence + 1) index in
    if ltb size (index + 1) then more else some (size, sequence)

-- `while size.saturating_sub(1) != index`
unfoldable pub shrink : ℕ → ℕ → ℕ → ℕ → Option ℕ
shrink zero size sequence index = none
shrink (suc fuel) size sequence index =
    let half = (size - 1) / 2 in
    let more = shrink fuel half (sequence - 1) (index % half) in
    if size - 1 == index then some sequence else more

-- Both loops end within 33 rounds on a u32.
abbrev pub fuel : ℕ
fuel = 34

-- `1_u64 << sequence`, with `sequence` below 64
unfoldable pub luby : ℕ → Option ℕ
luby index = do
  found ← grow fuel 1 0 index
  sequence ← shrink fuel found.0 found.1 index
  some (2 ^ sequence)
