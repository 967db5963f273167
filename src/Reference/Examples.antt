-- ===== src/Reference/Examples.antt =====
-- The packing theorems (src/solver.rs) at a binary clause reference.
use satrap.Prelude.{true, some, ◌≡◌, refl, arith}
use satrap.Reference.{ClauseRef, new, watch, clause, blocker, watch_is_binary}
use satrap.Reference.Packing.{watch-fields}

abbrev seventh : ClauseRef
seventh = 2147483656

made : new 7 true ≡ some seventh
unfolding new
made = refl

watch-fields_example :
    (clause (watch seventh 9) ≡ some seventh)
    × (blocker (watch seventh 9) ≡ 9)
    × (watch_is_binary (watch seventh 9) ≡ some true)
watch-fields_example = watch-fields 7 true seventh 9 made (omega arith)
