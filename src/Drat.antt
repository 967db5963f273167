-- ===== src/Drat.antt =====
-- src/proof.rs: the DRAT proof writer. The output is a parameter: a stream state `S` and what
-- `write_all` and `flush` do to it, with the text of an error if there is one.
pub mod Writer
pub mod Examples
use satrap.Prelude.{
  ℕ, zero, suc, ◌+◌, ◌/◌, ◌%◌, Bool, true, false, List, [], ◌∷◌, ◌++◌, Option, none, some, ◌==◌,
  if◌then◌else◌, ◌||◌, ◌≡◌, refl,
}
use satrap.Prelude.Bytes.{Bytes, codes}
use satrap.Prelude.Int.{ℤ, unsigned_abs, is_negative}
use satrap.Lit.{Lit, to_dimacs}

-- The loop of `push_i64`, lowest digit first; `suc magnitude` rounds are more than enough.
unfoldable pub digits : ℕ → ℕ → Bytes
digits zero magnitude = []
digits (suc fuel) magnitude =
    let more = digits fuel (magnitude / 10) in
    (b'0' + magnitude % 10) ∷ (if magnitude / 10 == 0 then [] else more)

-- `output[start..].reverse()` before what follows
abbrev pub rev_onto : Bytes → Bytes → Bytes
rev_onto [] rest = rest
rev_onto (d ∷ ds) rest = rev_onto ds (d ∷ rest)

unfoldable pub push_i64 : Bytes → ℤ → Bytes
push_i64 output value =
    let magnitude = unsigned_abs value in
    output
    ++ ((if is_negative value then b'-' ∷ [] else [])
        ++ rev_onto (digits (suc magnitude) magnitude) [])

-- The loop of `write_step` over the clause.
unfoldable pub push_literals : Bytes → List Lit → Bytes
push_literals line [] = line
push_literals line (l ∷ ls) = push_literals (push_i64 line (to_dimacs l) ++ b' ' ∷ []) ls

unfoldable pub step_line : Bytes → List Lit → Bytes
unfolding push_literals
step_line prefix clause = push_literals prefix clause ++ codes "0\n"

pub record DratWriter (S : Type 0) : Type 0 where
  pub output : Option S
  pub line : Bytes
  pub error : Option Bytes

unfoldable pub disabled : {S : Type 0} → DratWriter S
disabled = record { output = none; line = []; error = none }

unfoldable pub enable : {S : Type 0} → DratWriter S → S → DratWriter S
enable w output = record w { output = some output; error = none }

module _ {S : Type 0} (write_all : S → Bytes → S × Option Bytes) where
  unfoldable pub write_line : DratWriter S → S → Bytes → DratWriter S
  write_line w output line =
      let (output', error) = write_all output line in
      record { output = some output'; line = line; error = error }

  unfoldable pub write_step : DratWriter S → Bytes → List Lit → DratWriter S
  unfolding write_line
  write_step w prefix clause = elim w.error [
    | some e ↦ w
    | none ↦ elim w.output [
      | none ↦ w
      | some output ↦ write_line w output (step_line prefix clause)
    ]
  ]

  unfoldable pub add_clause : DratWriter S → List Lit → DratWriter S
  unfolding write_step
  add_clause w clause = write_step w [] clause

  unfoldable pub delete_clause : DratWriter S → List Lit → DratWriter S
  unfolding write_step
  delete_clause w clause = write_step w (codes "d ") clause

module _ {S : Type 0} (flush : S → S × Option Bytes) where
  unfoldable pub finish : DratWriter S → DratWriter S
  finish w = elim w.error [
    | some e ↦ w
    | none ↦ elim w.output [
      | none ↦ w
      | some output ↦
          let (output', error) = flush output in record w { output = some output'; error = error }
    ]
  ]
