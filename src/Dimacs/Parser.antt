-- ===== src/Dimacs/Parser.antt =====
-- `parse` of src/dimacs.rs.
use satrap.Prelude.{
  ℕ, zero, suc, ◌-◌, ◌/◌, ◌^◌, none, some, List, [], ◌∷◌, ◌++◌, ◌==◌, ltb, if◌then◌else◌, length,
}
use satrap.Prelude.Bytes.{Bytes, codes, bytes_eq}
use satrap.Prelude.Int.{ℤ, unsigned_abs}
use satrap.Lit.{Lit, max_variables, from_dimacs}
use satrap.Dimacs.{
  Formula, Message, expected_header, expected_cnf, expected_variable_count, expected_clause_count,
  invalid_variable_count, invalid_clause_count, variable_limit, too_many_clauses, literal_range,
  packed_range, missing_terminator, clause_count, Result, ok, err, panic, out_of_fuel, Scan, found,
  ended, unfinished, ◌>>=◌, Token, Lexer, at, eof,
}
use satrap.Dimacs.Number.{parse_usize, parse_i64}
use satrap.Dimacs.Tokens.{new, next_token}

abbrev pub required : Message → Scan → Result (Token × Lexer)
required message (ended l) = err (eof l message)
required message (found token l) = ok (token, l)
required message unfinished = out_of_fuel

-- `next_required`
unfoldable pub next_required : Lexer → Message → Result (Token × Lexer)
next_required l message = required message (next_token l)

-- `expect_token`
unfoldable pub expect_token : Token → Bytes → Message → Result Token
expect_token token expected message =
    if bytes_eq token.bytes expected then ok token else err (at token message)

-- The end of the input.
unfoldable pub conclude : Lexer → ℕ → ℕ → List Lit → List (List Lit) → Result Formula
conclude l variable_count expected [] clauses =
    if length clauses == expected
    then ok (record { variable_count = variable_count; clauses = clauses })
    else err (eof l (clause_count expected (length clauses)))
conclude l variable_count expected (x ∷ clause) clauses = err (eof l missing_terminator)

-- One token of the body gives the clause under construction and the clauses so far.
unfoldable pub read_literal :
    Token → ℕ → ℕ → ℤ → List Lit → List (List Lit) → Result (List Lit × List (List Lit))
read_literal token variable_count expected value clause clauses =
    if unsigned_abs value == 0
    then if ltb expected (length (clauses ++ clause ∷ []))
      then err (at token (too_many_clauses expected))
      else ok ([], clauses ++ clause ∷ [])
    else if ltb variable_count (unsigned_abs value)
    then err (at token (literal_range value variable_count))
    else elim (from_dimacs value) [
      | none ↦ err (at token packed_range)
      | some l ↦ ok (clause ++ l ∷ [], clauses)
    ]

-- The state of the loop over the tokens.
pub record Body : Type 0 where
  pub lexer : Lexer
  pub clause : List Lit
  pub clauses : List (List Lit)

-- What a round of the loop has to do: end, or go on after a token.
unfoldable pub read_token : ℕ → ℕ → Body → Token → Lexer → Result Body
read_token variable_count expected b token lexer = do
  value ← parse_i64 token
  next ← read_literal token variable_count expected value b.clause b.clauses
  ok (record { lexer = lexer; clause = next.0; clauses = next.1 })

-- A round: the end of the input, or a token and the rounds after it.
abbrev pub round : ℕ → ℕ → Body → Scan → (Body → Result Formula) → Result Formula
round variable_count expected b unfinished go = out_of_fuel
round variable_count expected b (ended l) go = conclude l variable_count expected b.clause b.clauses
round variable_count expected b (found token l) go =
    read_token variable_count expected b token l >>= go

-- `while let Some(token) = lexer.next_token()`; each round takes at least one byte.
unfoldable pub read_body : ℕ → ℕ → ℕ → Body → Result Formula
read_body zero variable_count expected b = out_of_fuel
read_body (suc fuel) variable_count expected b =
    round variable_count expected b (next_token b.lexer) (read_body fuel variable_count expected)

-- The header `p cnf <variables> <clauses>`.
pub record Header : Type 0 where
  pub variable_count : ℕ
  pub expected : ℕ
  pub lexer : Lexer

unfoldable pub parse_header : Lexer → Result Header
parse_header l = do
  problem ← next_required l expected_header
  p ← expect_token problem.0 (codes "p") expected_header
  format ← next_required problem.1 expected_cnf
  f ← expect_token format.0 (codes "cnf") expected_cnf
  variables ← next_required format.1 expected_variable_count
  variable_count ← parse_usize variables.0 invalid_variable_count
  if ltb max_variables variable_count then err (at variables.0 variable_limit) else do
    count ← next_required variables.1 expected_clause_count
    expected ← parse_usize count.0 invalid_clause_count
    ok (record { variable_count = variable_count; expected = expected; lexer = count.1 })

-- A `Vec` of 24 bytes, which is what a clause takes, has at most `isize::MAX` bytes.
abbrev pub max_clauses : ℕ
max_clauses = (2 ^ 63 - 1) / 24

-- `Vec::with_capacity`, which panics where the clauses cannot fit in memory.
unfoldable pub with_capacity : ℕ → Result {0} Unit
with_capacity expected = if ltb max_clauses expected then panic else ok tt

unfoldable pub parse : Bytes → Result Formula
parse input = do
  h ← parse_header (new input)
  _ ← with_capacity h.expected
  read_body (suc (length input)) h.variable_count h.expected
      (record { lexer = h.lexer; clause = []; clauses = [] })
