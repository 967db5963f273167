-- ===== src/Reference/Packing.antt =====
-- Packing loses nothing (src/solver.rs, `ClauseRef` and `Watch`).
use satrap.Prelude.{
  ℕ, ◌+◌, ◌-◌, ◌*◌, ◌/◌, ◌%◌, ◌^◌, ◌<◌, Bool, true, false, some, if◌then◌else◌, ◌≡◌, arith,
}
use satrap.Prelude.Bits.{bit_or_low, bit_or_high, bit_and_mask, bit_and_bit, bit_or-zero}
use satrap.Lit.{Lit, IsLit}
use satrap.Reference.{
  ClauseRef, binary_bit, index_mask, new, from_packed, packed, index, is_binary, watch, clause,
  blocker, watch_is_binary,
}

abbrev tag : Bool → ℕ
tag b = if b then 1 else 0

-- What a reference stores, as arithmetic.
pub new-eq :
    (i : ℕ) (b : Bool) (r : ClauseRef)
    → new i b ≡ some r
    → (i < index_mask) × (r ≡ tag b * binary_bit + i + 1)
unfolding new
new-eq i true r h = ground (arith, bit_or_high 31 1 i)
new-eq i false r h = ground (arith, bit_or-zero i)

-- A reference gives its index and its kind back, and is a nonzero u32.
pub new-fields :
    (i : ℕ) (b : Bool) (r : ClauseRef)
    → new i b ≡ some r
    → (index r ≡ i) × (is_binary r ≡ b) × (0 < r) × (r < 2 ^ 32)
unfolding index is_binary packed
new-fields i true r h =
    let (small, e) = new-eq i true r h in
    ground (arith, bit_and_mask 31 (r - 1), bit_and_bit 31 (r - 1))
new-fields i false r h =
    let (small, e) = new-eq i false r h in
    ground (arith, bit_and_mask 31 (r - 1), bit_and_bit 31 (r - 1))

watch-eq :
    (r : ClauseRef) (l : Lit) → 0 < r → r < 2 ^ 32 → IsLit l → watch r l ≡ (r - 1) * 2 ^ 32 + l
unfolding watch packed
watch-eq r l pos small h =
    let fits : (r - 1) * 2 ^ 32 % 2 ^ 64 ≡ (r - 1) * 2 ^ 32 = omega arith in
    rw fits (bit_or_low 32 (r - 1) l h)

clause-watch :
    (r : ClauseRef) (l : Lit) → 0 < r → r < 2 ^ 32 → IsLit l → clause (watch r l) ≡ some r
unfolding clause from_packed
clause-watch r l pos small h =
    let high : ((r - 1) * 2 ^ 32 + l) / 2 ^ 32 % 2 ^ 32 ≡ r - 1 = omega arith in
    rw (watch-eq r l pos small h, high) (ground arith)

blocker-watch : (r : ClauseRef) (l : Lit) → 0 < r → r < 2 ^ 32 → IsLit l → blocker (watch r l) ≡ l
unfolding blocker
blocker-watch r l pos small h = rw (watch-eq r l pos small h) (omega arith)

-- A watch gives its clause, its blocking literal and the clause's kind back.
pub watch-fields :
    (i : ℕ) (b : Bool) (r : ClauseRef) (l : Lit)
    → new i b ≡ some r
    → IsLit l
    → (clause (watch r l) ≡ some r)
      × (blocker (watch r l) ≡ l)
      × (watch_is_binary (watch r l) ≡ some b)
watch-fields i b r l h lit =
    let (at, kind, pos, small) = new-fields i b r h in
    let whole = clause-watch r l pos small lit in
    (whole, blocker-watch r l pos small lit, unfold watch_is_binary in rw (whole, kind))
