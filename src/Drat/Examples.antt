-- ===== src/Drat/Examples.antt =====
-- The proof writer of src/proof.rs on a concrete output.
use satrap.Prelude.{
  none, some, List, [], ◌∷◌, ◌++◌, ltb, if◌then◌else◌, length, Option, ◌≡◌, refl, map,
}
use satrap.Prelude.Bytes.{Bytes, codes}
use satrap.Lit.{to_dimacs, var, is_positive}
use satrap.Drat.{step_line, push_literals, push_i64, digits, disabled, enable}
use satrap.Drat.Writer.{ProofStep, add, delete, step_text, emit_all, deliver, emit_all-deliver}

-- An output that takes at most 12 bytes.
abbrev write_bounded : Bytes → Bytes → Bytes × Option Bytes
write_bounded output text =
    if ltb 12 (length (output ++ text))
    then (output, some (codes "full"))
    else (output ++ text, none)

abbrev steps : List ProofStep
steps = add (0 ∷ 3 ∷ []) ∷ delete (4 ∷ []) ∷ add [] ∷ []

addition : step_line [] (0 ∷ 3 ∷ []) ≡ codes "1 -2 0\n"
unfolding step_line push_literals push_i64 digits to_dimacs var is_positive
addition = refl

delivered : deliver write_bounded [] (map step_text steps) ≡ (codes "1 -2 0\n", some (codes "full"))
unfolding deliver step_text step_line push_literals push_i64 digits to_dimacs var is_positive
delivered = refl

emit_all-deliver_example :
    ((emit_all write_bounded (enable disabled []) steps).output
      ≡ some (deliver write_bounded [] (map step_text steps)).0)
    × ((emit_all write_bounded (enable disabled []) steps).error
        ≡ (deliver write_bounded [] (map step_text steps)).1)
emit_all-deliver_example = emit_all-deliver write_bounded disabled [] steps
