-- ===== src/Dimacs.antt =====
-- src/dimacs.rs: the DIMACS CNF parser. An error keeps its position, and its text as a constructor.
pub mod Number
pub mod Tokens
pub mod Parser
pub mod Digits
pub mod Sound
pub mod Words
pub mod RoundTrip
pub mod Fuel
pub mod Ends
pub mod Examples
use satrap.Prelude.{ℕ, ◌-◌, ◌+◌, List}
use satrap.Prelude.Bytes.{Bytes}
use satrap.Prelude.Int.{ℤ}
use satrap.Lit.{Lit}

pub record Formula : Type 0 where
  pub variable_count : ℕ
  pub clauses : List (List Lit)

pub data Message : Type 0 where
  expected_header expected_cnf expected_variable_count expected_clause_count : Message
  invalid_variable_count invalid_clause_count variable_limit : Message
  too_many_clauses : ℕ → Message
  literal_range : ℤ → ℕ → Message
  packed_range missing_terminator expected_integer integer_range : Message
  clause_count : ℕ → ℕ → Message

pub record ParseError : Type 0 where
  pub line : ℕ
  pub column : ℕ
  pub message : Message

-- A `Result`, a panic, or a loop that was given too few rounds.
pub data Result {ℓ} (A : Type ℓ) : Type ℓ where
  ok : A → Result A
  err : ParseError → Result A
  panic : Result A
  out_of_fuel : Result A

infixl 5 ◌>>=◌
abbrev pub ◌>>=◌ {ℓ κ} : {A : Type ℓ} {B : Type κ} → Result A → (A → Result B) → Result B
ok a >>= f = f a
err e >>= f = err e
panic >>= f = panic
out_of_fuel >>= f = out_of_fuel

pub record Token : Type 0 where
  pub bytes : Bytes
  pub line : ℕ
  pub column : ℕ

-- `rest` is `input[position..]`.
pub record Lexer : Type 0 where
  pub rest : Bytes
  pub position : ℕ
  pub line : ℕ
  pub line_start : ℕ

-- What `next_token` returns, with the lexer after it, or that it was given too few rounds.
pub data Scan : Type 0 where
  found : Token → Lexer → Scan
  ended : Lexer → Scan
  unfinished : Scan

-- `ParseError::at` and `ParseError::eof`
unfoldable pub at : Token → Message → ParseError
at token message = record { line = token.line; column = token.column; message = message }

unfoldable pub eof : Lexer → Message → ParseError
eof lexer message = record {
  line = lexer.line;
  column = lexer.position - lexer.line_start + 1;
  message = message;
}
