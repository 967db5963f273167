-- ===== src/Lib.antt =====
-- A model of satrap, a CDCL SAT solver and SMT solver in Rust, in the parts that have no
-- concurrency and no floating point, with the theorems that make them correct.
--
-- The program reads a formula (src/dimacs.rs) or SMT-LIB commands (src/smt), solves it with one
-- CDCL engine (src/solver.rs) and writes a DRAT proof (src/proof.rs). The parts and their files:
--
--   Lit          src/types.rs: `Var` and `Lit`, packed as a u32, and their DIMACS numbers.
--   Clause       src/solver.rs: how `add_clause_internal` and `elimination_resolvent` sort a clause,
--                drop repeated literals and give up on complementary ones; what a clause means.
--   Elimination  src/solver.rs: bounded variable elimination. `elimination_resolvent` (gather and
--                normalize), the pair loop of `eliminate_variables` with its limits (resolve_pairs),
--                the decision on one variable (attempt_elimination), and `extend_model`.
--   Trail        src/solver.rs: `enqueue_internal`, the opening of a decision level,
--                `cancel_until_internal` and `record_best_phase`.
--   VarOrder     src/solver.rs: the activity heap `VarOrder` and `higher_priority`.
--   VmtfOrder    src/solver.rs: `VmtfOrder`, the move-to-front queue of the variables.
--   Reference    src/solver.rs: `ClauseRef` and `Watch` with their packed forms.
--   Restart      src/solver.rs: `LbdRestartState`, `TrailRestartState`, `ReluctantRestart`, `luby`.
--   Dimacs       src/dimacs.rs: the lexer, the numbers and the parser.
--   Drat         src/proof.rs: the text of proof steps and the handling of write errors.
--   Terms        src/smt/term.rs: `TermStore` with its hash-consing (`intern`), the constructors that
--                simplify (`not`, `and`, `or`, `xor`, `iff`, `implies`, `ite`, `equal`, `distinct`)
--                and the evaluation (`evaluate_bool`, `evaluate_bitvec`), for Boolean and bit-vector
--                terms.
--   Bitvec       src/smt/bitvec.rs: the circuits (`add_bits`, `multiply_bits`, `unsigned_divide_bits`,
--                ...), the literals and all the operations on bit-vector terms.
--   Encode       src/smt/encode.rs: `BoolEncoder`, which turns Boolean terms into clauses, over the
--                calls `new_variable` and `add_encoding_clause` of src/solver.rs.
--   Prelude      what the parts share: tests, lists, bits, signed integers, bytes.
--
-- How the parts meet: Dimacs, Drat, Clause and Encode all speak of the literals of Lit; Elimination
-- normalizes its resolvents with Clause; Dimacs reads back the lines that Drat prints; Bitvec makes
-- its bits with the constructors of Terms; Encode reads the nodes of a store, and Terms.Encoded gives
-- it those of Terms; Encode gives its clauses the meaning of Clause; Trail keeps the reasons of
-- Reference.
--
-- State is passed explicitly. A struct is a record, a `Vec` a list, an array that is indexed a list
-- with `get_or` and `set`; a `HashMap` that only ever gains absent keys is a list of pairs. A panic
-- is `none` or a constructor of the error type. In Terms a sort stands where the source has its
-- number in a table, the map from nodes to terms is a search of the nodes, and `exhausted` is the
-- panic of a store with 2 ^ 32 nodes or symbols. A bit list has the lowest bit first, as in the
-- source. A u32, u64 or usize is a number with its wrap-around, saturation or overflow test written
-- out; usize has 64 bits. An i64 is the ℤ of Prelude.Int.
-- The `Result` of Dimacs keeps apart an error, a panic and a loop that was given too few rounds. Its
-- one panic is that of `Vec::with_capacity` at a clause count for which no vector is large enough
-- (24 bytes a clause, `isize::MAX` bytes in all); running out of memory below that is not modelled.
--
-- Fuel: the lexer and the parser take a byte in each round, so one round more than the bytes is
-- enough. `push_i64` takes a digit in each round, so the magnitude and one is enough. The loops of
-- `luby` double and halve a u64, so 34 rounds are enough on a u32. `encode` goes down to terms that
-- were made earlier, so the number of the term and one is enough. A sift goes up from a position or
-- down within the heap, so the position or the length is enough, and `peek_max` pops in each round.
-- `ite` calls itself for the bits of a bit vector only, so a depth of two is enough. `evaluate` goes
-- down to terms that were made earlier, so as many steps as the store has nodes are enough. A decimal
-- digit has less than four bits, so four rounds for each digit are enough. The search of `VmtfOrder`
-- goes to smaller stamps, so the stamp at its start and one is enough.
--
-- Parameters: the output stream of the proof writer (its `write_all` and `flush`). The theorems of
-- Encode take the nodes that the encoder reads as a function, which Terms.Encoded fills in.
--
-- Not modelled: the search loop itself, with propagation, conflict analysis,
-- clause-database reduction and the other simplifications of src/solver.rs; exponential averages
-- and activities, which are floating point; of src/smt the theories, with the arms of the term
-- store for arithmetic, arrays and uninterpreted sorts (they are errors here), the checkpoints of
-- the store, the session and the proof checker; the command lines (src/main.rs, src/bin/smt.rs),
-- and what only prints for debugging.
pub mod Prelude
pub mod Lit
pub mod Clause
pub mod Elimination
pub mod Reference
pub mod Restart
pub mod Drat
pub mod Dimacs
pub mod Encode
pub mod Trail
pub mod VarOrder
pub mod VmtfOrder
pub mod Terms
pub mod Bitvec
