-- ===== src/Drat/Writer.antt =====
-- What reaches the output of the proof writer (src/proof.rs).
use satrap.Prelude.{List, [], ◌∷◌, Option, none, some, ◌≡◌, refl, sym, subst, arith, map}
use satrap.Prelude.Bytes.{Bytes, codes}
use satrap.Lit.{Lit}
use satrap.Drat.{DratWriter, step_line, enable, write_line, write_step, add_clause, delete_clause}

-- A proof step of the solver.
pub data ProofStep : Type 0 where
  add delete : List Lit → ProofStep

unfoldable pub step_text : ProofStep → Bytes
step_text (add clause) = step_line [] clause
step_text (delete clause) = step_line (codes "d ") clause

module _ {S : Type 0} (write_all : S → Bytes → S × Option Bytes) where
  unfoldable pub emit : DratWriter S → ProofStep → DratWriter S
  emit w (add clause) = add_clause write_all w clause
  emit w (delete clause) = delete_clause write_all w clause

  unfoldable pub emit_all : DratWriter S → List ProofStep → DratWriter S
  unfolding emit
  emit_all w [] = w
  emit_all w (s ∷ steps) = emit_all (emit w s) steps

  abbrev after : S × Option Bytes → (S → S × Option Bytes) → S × Option Bytes
  after (output, some e) go = (output, some e)
  after (output, none) go = go output

  -- The lines in order, up to and with the first one whose write fails.
  unfoldable pub deliver : S → List Bytes → S × Option Bytes
  deliver output [] = (output, none)
  deliver output (l ∷ lines) = after (write_all output l) (λ o. deliver o lines)

  -- A writer that has failed stays as it is.
  emit_failed : (w : DratWriter S) (e : Bytes) (s : ProofStep) → w.error ≡ some e → emit w s ≡ w
  unfolding emit add_clause delete_clause write_step
  emit_failed w e (add clause) h = ground arith
  emit_failed w e (delete clause) h = ground arith

  emit_all_failed :
      (w : DratWriter S) (e : Bytes) (steps : List ProofStep)
      → w.error ≡ some e
      → emit_all w steps ≡ w
  unfolding emit_all
  emit_all_failed w e [] h = refl
  emit_all_failed w e (s ∷ steps) h = rw (emit_failed w e s h) (emit_all_failed w e steps h)

  -- A writer with an output and no error writes the line of the step.
  emit_ready :
      (line : Bytes) (output : S) (s : ProofStep)
      → emit (record { output = some output; line = line; error = none }) s ≡ record {
        output = some (write_all output (step_text s)).0;
        line = step_text s;
        error = (write_all output (step_text s)).1;
      }
  unfolding emit add_clause delete_clause write_step write_line step_text
  emit_ready line output (add clause) = refl
  emit_ready line output (delete clause) = refl

  -- What the state and the error of a writer say of a delivery.
  abbrev Shows : DratWriter S → S × Option Bytes → Type 0
  Shows w r = (w.output ≡ some r.0) × (w.error ≡ r.1)

  abbrev written : S × Option Bytes → Bytes → DratWriter S
  written r line = record { output = some r.0; line = line; error = r.1 }

  emit_all-after :
      (r : S × Option Bytes) (line : Bytes) (steps : List ProofStep) (go : S → S × Option Bytes)
      → ((o : S) → Shows (emit_all (written (o, none) line) steps) (go o))
      → Shows (emit_all (written r line) steps) (after r go)
  emit_all-after (o, some e) line steps go ih =
      rw (emit_all_failed (written (o, some e) line) e steps refl) (refl, refl)
  emit_all-after (o, none) line steps go ih = ih o

  emit_all-deliver_from :
      (line : Bytes) (output : S) (steps : List ProofStep)
      → Shows (emit_all (written (output, none) line) steps) (deliver output (map step_text steps))
  unfolding emit_all deliver
  emit_all-deliver_from line output [] = (refl, refl)
  emit_all-deliver_from line output (s ∷ steps) =
      subst
        (λ w.
          Shows (emit_all w steps)
            (after (write_all output (step_text s)) (λ o. deliver o (map step_text steps))))
        (sym (emit_ready line output s))
        (emit_all-after (write_all output (step_text s)) (step_text s) steps
          (λ o. deliver o (map step_text steps)) (λ o. emit_all-deliver_from (step_text s) o steps))

-- However writes behave, from a writer just enabled the output receives the lines of the steps in
-- order, up to and with the first whose write fails; that error is kept and later steps write nothing.
pub emit_all-deliver :
    {S : Type 0} (write_all : S → Bytes → S × Option Bytes) (w : DratWriter S) (output : S)
    (steps : List ProofStep)
    → ((emit_all write_all (enable w output) steps).output
        ≡ some (deliver write_all output (map step_text steps)).0)
      × ((emit_all write_all (enable w output) steps).error
          ≡ (deliver write_all output (map step_text steps)).1)
unfolding enable
emit_all-deliver write_all w output steps = emit_all-deliver_from write_all w.line output steps
