-- ===== src/Dimacs/Examples.antt =====
-- The parser of src/dimacs.rs on concrete inputs.
use satrap.Prelude.{◌≤◌, [], ◌∷◌, ◌≡◌, refl, arith, All}
use satrap.Prelude.Bytes.{codes}
use satrap.Lit.{from_dimacs, new, to_dimacs, var, is_positive, max_variables}
use satrap.Drat.{step_line, push_literals, push_i64, digits}
use satrap.Dimacs.Sound.{IsWithin, parse-IsWithin}
use satrap.Dimacs.RoundTrip.{text, lines, parse-text}
use satrap.Dimacs.Ends.{Ends, parse-Ends}
use satrap.Dimacs.{Formula, ok, err, panic, missing_terminator, eof, at}
use satrap.Dimacs.Number.{parse_usize, parse_u64, split_sign, parse_i64}
use satrap.Dimacs.Tokens.{next_token}
use satrap.Dimacs.Tokens
use satrap.Dimacs.Parser.{
  parse, parse_header, next_required, expect_token, read_body, read_token, read_literal, conclude,
  with_capacity,
}

comments :
    parse (codes "c heading\n p cnf 3 3\n1 -2\n3 0 c tail\n2 0\n0\n")
    ≡ ok (record { variable_count = 3; clauses = (0 ∷ 3 ∷ 4 ∷ []) ∷ (2 ∷ []) ∷ [] ∷ [] })
unfolding parse parse_header next_required expect_token read_body read_token read_literal conclude
    with_capacity next_token Tokens.new parse_usize parse_u64 split_sign parse_i64 from_dimacs new
    eof at
comments = refl

unterminated :
    parse (codes "p cnf 2 1\n1 2")
    ≡ err (record { line = 2; column = 4; message = missing_terminator })
unfolding parse parse_header next_required expect_token read_body read_token read_literal conclude
    with_capacity next_token Tokens.new parse_usize parse_u64 split_sign parse_i64 from_dimacs new
    eof at
unterminated = refl

trailer :
    parse (codes "p cnf 2 1\n1 2 0\n%\n0\n")
    ≡ ok (record { variable_count = 2; clauses = (0 ∷ 2 ∷ []) ∷ [] })
unfolding parse parse_header next_required expect_token read_body read_token read_literal conclude
    with_capacity next_token Tokens.new parse_usize parse_u64 split_sign parse_i64 from_dimacs new
    eof at
trailer = refl

abbrev two_clauses : Formula
two_clauses = record { variable_count = 2; clauses = (0 ∷ 3 ∷ []) ∷ [] ∷ [] }

printed : text two_clauses ≡ codes "p cnf 2 2\n1 -2 0\n0\n"
unfolding text lines step_line push_literals push_i64 digits to_dimacs var is_positive
printed = refl

parse-text_example : parse (text two_clauses) ≡ ok two_clauses
unfolding var
parse-text_example =
    parse-text two_clauses (omega arith) (omega arith)
      (((omega arith, omega arith), ((omega arith, omega arith), tt)), (tt, tt))

read_two :
    parse (codes "p cnf 2 1\n1 -2 0\n")
    ≡ ok (record { variable_count = 2; clauses = (0 ∷ 3 ∷ []) ∷ [] })
unfolding parse parse_header next_required expect_token read_body read_token read_literal conclude
    with_capacity next_token Tokens.new parse_usize parse_u64 split_sign parse_i64 from_dimacs new
    eof at
read_two = refl

parse-IsWithin_example : (2 ≤ max_variables) × All (All (IsWithin 2)) ((0 ∷ 3 ∷ []) ∷ [])
parse-IsWithin_example =
    parse-IsWithin (codes "p cnf 2 1\n1 -2 0\n")
      (record { variable_count = 2; clauses = (0 ∷ 3 ∷ []) ∷ [] }) read_two

parse-Ends_example : Ends (codes "c heading\np cnf 2 1\n1 -2 0\n")
parse-Ends_example = parse-Ends (codes "c heading\np cnf 2 1\n1 -2 0\n")

-- The clause count is one more than a vector can hold.
many_clauses : parse (codes "p cnf 2 384307168202282326\n") ≡ panic
unfolding parse parse_header next_required expect_token next_token Tokens.new parse_usize parse_u64
    with_capacity
many_clauses = refl
