-- ===== src/Dimacs/RoundTrip.antt =====
-- The parser of src/dimacs.rs reads a header and the clause lines of src/proof.rs back.
use satrap.Prelude.{
  ℕ, zero, suc, ◌+◌, ◌≤◌, ◌<◌, true, false, List, [], ◌∷◌, ◌++◌, ◌==◌, ltb, ◌≡◌, refl, sym, ap, ◌∙◌,
  arith, All, length, length-append,
}
use mathlib.Core.List.{append_assoc, append-nil}
use satrap.Prelude.Bytes.{Bytes, codes}
use satrap.Prelude.Int.{pos, unsigned_abs}
use satrap.Lit.{Lit, IsLit, var, to_dimacs, max_variables}
use satrap.Lit.Dimacs.{from_dimacs-to_dimacs}
use satrap.Drat.{push_i64, digits, push_literals, step_line}
use satrap.Dimacs.{Formula, Message, ok, Token, Lexer, found}
use satrap.Dimacs.Number.{u64_max, parse_u64, parse_usize}
use satrap.Dimacs.Digits.{IsI64, parse_i64-push_i64, decimal, parse_u64-decimal}
use satrap.Dimacs.Tokens
use satrap.Dimacs.Tokens.{
  next_token, next_word, word_at, skip_space, take_word, is_comment, is_trailer,
}
use satrap.Dimacs.Words.{Takes-word, next_token-none, push_i64-IsPlain, decimal-IsPlain, IsSpace}
use satrap.Dimacs.Sound.{IsWithin}
use satrap.Dimacs.Parser.{
  Body, parse, parse_header, next_required, expect_token, read_literal, read_token, read_body,
  conclude, max_clauses, with_capacity,
}

-- A clause as `step_line` writes it: literals with a space after each.
literals : List Lit → Bytes
literals [] = []
literals (l ∷ ls) = push_i64 [] (to_dimacs l) ++ b' ' ∷ literals ls

push_literals-append : (line : Bytes) (ls : List Lit) → push_literals line ls ≡ line ++ literals ls
unfolding push_literals literals push_i64
push_literals-append line [] = sym (append-nil line)
push_literals-append line (l ∷ ls) =
    push_literals-append (push_i64 line (to_dimacs l) ++ b' ' ∷ []) ls
    ∙ (rw (append_assoc, append_assoc, append_assoc) refl)

-- A line for each clause, as `add_clause` of the proof writer writes it.
unfoldable pub lines : List (List Lit) → Bytes
lines [] = []
lines (c ∷ cs) = step_line [] c ++ lines cs

step_line-append :
    (c : List Lit) (after : Bytes) → step_line [] c ++ after ≡ literals c ++ b'0' ∷ b'\n' ∷ after
unfolding step_line
step_line-append c after = rw (push_literals-append [] c, append_assoc) refl

to_dimacs-size : (l : Lit) → unsigned_abs (to_dimacs l) ≡ suc (var l)
unfolding to_dimacs
to_dimacs-size l = ground arith

to_dimacs-IsI64 : (l : Lit) → IsLit l → IsI64 (to_dimacs l)
unfolding to_dimacs var
to_dimacs-IsI64 l h = ground arith

module _ (n expected : ℕ) where
  read_token-literal :
      (b : Body) (t : Token) (lexer : Lexer) (l : Lit)
      → IsWithin n l
      → t.bytes ≡ push_i64 [] (to_dimacs l)
      → read_token n expected b t lexer
        ≡ ok (record { lexer = lexer; clause = b.clause ++ l ∷ []; clauses = b.clauses })
  unfolding read_token read_literal
  read_token-literal b t lexer l (h, below) e =
      let some_bits : (suc (var l) == 0) ≡ false = ground arith in
      let inside : ltb n (suc (var l)) ≡ false = ground arith in
      rw
        (
          parse_i64-push_i64 (to_dimacs l) t (to_dimacs-IsI64 l h) e,
          to_dimacs-size l,
          some_bits,
          inside,
          from_dimacs-to_dimacs l h,
        )
        refl

  read_token-zero :
      (b : Body) (t : Token) (lexer : Lexer)
      → suc (length b.clauses) ≤ expected
      → t.bytes ≡ codes "0"
      → read_token n expected b t lexer
        ≡ ok (record { lexer = lexer; clause = []; clauses = b.clauses ++ b.clause ∷ [] })
  unfolding read_token read_literal push_i64 digits
  read_token-zero b t lexer h e =
      let few : ltb expected (length (b.clauses ++ b.clause ∷ [])) ≡ false =
        ground (arith, length-append b.clauses (b.clause ∷ [])) in
      rw (parse_i64-push_i64 (pos 0) t (omega arith) (e ∙ refl), few) refl

  read_body-step :
      (fuel : ℕ) (b b' : Body) (t : Token) (l : Lexer)
      → next_token b.lexer ≡ (found t l)
      → read_token n expected b t l ≡ ok b'
      → read_body (suc fuel) n expected b ≡ read_body fuel n expected b'
  unfolding read_body
  read_body-step fuel b b' t l h k = rw (h, k) refl

  -- The loop gets from one body to another, with fuel left for what the lexer has not read.
  abbrev Reaches : ℕ → Body → List Lit → List (List Lit) → Bytes → Type 0
  Reaches fuel b clause clauses rest =
      (k : ℕ) × (l : Lexer) × (length rest < k)
      × (l.rest ≡ rest)
      × (read_body fuel n expected b
          ≡ read_body k n expected (record { lexer = l; clause = clause; clauses = clauses }))

  read_literals :
      (ls : List Lit) (fuel : ℕ) (b : Body) (s : ℕ) (after : Bytes)
      → IsSpace s
      → All (IsWithin n) ls
      → suc (length b.clauses) ≤ expected
      → b.lexer.rest ≡ s ∷ (literals ls ++ b'0' ∷ b'\n' ∷ after)
      → length b.lexer.rest < fuel
      → Reaches fuel b [] (b.clauses ++ (b.clause ++ ls) ∷ []) (b'\n' ∷ after)
  unfolding literals
  read_literals ls zero b s after hs within few e enough = elim enough [ ]
  read_literals [] (suc fuel) b s after hs within few e enough =
      let (t, l, next, word, rest, shorter) =
        Takes-word b.lexer s (codes "0") b'\n' after hs (refl, refl, refl, tt) refl e in
      (
        fuel,
        l,
        omega (arith, ap length e),
        rest,
        rw append-nil (read_body-step fuel b _ t l next (read_token-zero b t l few word)),
      )
  read_literals (x ∷ ls) (suc fuel) b s after hs (here, within) few e enough =
      let text : b.lexer.rest
          ≡ s ∷ (push_i64 [] (to_dimacs x) ++ b' ' ∷ (literals ls ++ b'0' ∷ b'\n' ∷ after)) =
        e
        ∙ ap (λ w. s ∷ w)
            (append_assoc (push_i64 [] (to_dimacs x)) (b' ' ∷ literals ls)
              (b'0' ∷ b'\n' ∷ after)) in
      let (t, l, next, word, rest, shorter) =
        Takes-word b.lexer s (push_i64 [] (to_dimacs x)) b' ' _ hs (push_i64-IsPlain (to_dimacs x))
          refl text in
      let b' : Body = record { lexer = l; clause = b.clause ++ x ∷ []; clauses = b.clauses } in
      let (k, l', left, rest', goes) =
        read_literals ls fuel b' b' ' after refl within few rest (omega arith) in
      (
        k,
        l',
        left,
        rest',
        read_body-step fuel b b' t l next (read_token-literal b t l x here word)
            ∙ goes
            ∙ ap
                (λ c.
                  read_body k n expected
                    (record { lexer = l'; clause = []; clauses = b.clauses ++ c ∷ [] }))
                (append_assoc b.clause (x ∷ []) ls),
      )

  read_lines :
      (cs : List (List Lit)) (fuel : ℕ) (lexer : Lexer) (clauses : List (List Lit))
      → All (All (IsWithin n)) cs
      → length clauses + length cs ≡ expected
      → lexer.rest ≡ b'\n' ∷ lines cs
      → length lexer.rest < fuel
      → read_body fuel n expected (record { lexer = lexer; clause = []; clauses = clauses })
        ≡ ok (record { variable_count = n; clauses = clauses ++ cs })
  unfolding lines read_body conclude
  read_lines cs zero lexer clauses within count e enough = elim enough [ ]
  read_lines [] (suc fuel) lexer clauses within count e enough =
      let (l', ends) = next_token-none lexer b'\n' refl e in
      let all_read : (length clauses == expected) ≡ true = ground arith in
      rw (ends, all_read, append-nil) refl
  read_lines (c ∷ cs) (suc fuel) lexer clauses (here, within) count e enough =
      let (k, l, left, rest, goes) =
        read_literals c (suc fuel) (record { lexer = lexer; clause = []; clauses = clauses }) b'\n'
          (lines cs) refl here (omega arith)
          (e ∙ ap (λ w. b'\n' ∷ w) (step_line-append c (lines cs))) enough in
      goes
      ∙ read_lines cs k l (clauses ++ c ∷ []) within (omega (arith, length-append clauses (c ∷ [])))
          rest (omega (arith, ap length rest))
      ∙ ap (λ x. ok (record { variable_count = n; clauses = x })) (append_assoc clauses (c ∷ []) cs)

-- The text of a formula: the header and a line for each clause.
unfoldable pub text : Formula → Bytes
text f =
    codes "p cnf "
    ++ (decimal f.variable_count ++ b' ' ∷ (decimal (length f.clauses) ++ b'\n' ∷ lines f.clauses))

parse_usize-decimal :
    (t : Token) (m : ℕ) (message : Message)
    → t.bytes ≡ decimal m
    → m ≤ u64_max
    → parse_usize t message ≡ ok m
unfolding parse_usize
parse_usize-decimal t m message e h = ground (arith, ap parse_u64 e ∙ parse_u64-decimal m h)

-- The lexer after `p cnf`.
after_cnf : Bytes → Lexer
after_cnf rest = record { rest = rest; position = 5; line = 1; line_start = 0 }

suc_nonzero : (k : ℕ) → (suc k == 0) ≡ false
suc_nonzero k = ground arith

after_p : Bytes → Lexer
after_p rest = record { rest = codes " cnf " ++ rest; position = 1; line = 1; line_start = 0 }

p_word :
    (rest : Bytes)
    → next_token (Tokens.new (codes "p cnf " ++ rest))
      ≡ found (record { bytes = codes "p"; line = 1; column = 1 }) (after_p rest)
unfolding next_token next_word word_at Tokens.new skip_space take_word is_comment is_trailer after_p
p_word rest = rw suc_nonzero refl

cnf_word :
    (rest : Bytes)
    → next_token (after_p rest)
      ≡ found (record { bytes = codes "cnf"; line = 1; column = 3 }) (after_cnf (b' ' ∷ rest))
unfolding next_token next_word word_at skip_space take_word is_comment is_trailer after_p after_cnf
cnf_word rest = rw suc_nonzero refl

parse_header-text :
    (n m : ℕ) (rest : Bytes)
    → n ≤ max_variables
    → m ≤ u64_max
    → (l : Lexer) × (l.rest ≡ b'\n' ∷ rest)
      × (parse_header
            (Tokens.new (codes "p cnf " ++ (decimal n ++ b' ' ∷ (decimal m ++ b'\n' ∷ rest))))
          ≡ ok (record { variable_count = n; expected = m; lexer = l }))
unfolding parse_header next_required expect_token after_cnf
parse_header-text n m rest hn hm =
    let X : Bytes = decimal n ++ b' ' ∷ (decimal m ++ b'\n' ∷ rest) in
    let (t, l, next, word, left, shorter) =
      Takes-word (after_cnf (b' ' ∷ X)) b' ' (decimal n) b' ' _ refl (decimal-IsPlain n) refl
        refl in
    let (t', l', next', word', left', shorter') =
      Takes-word l b' ' (decimal m) b'\n' rest refl (decimal-IsPlain m) refl left in
    let fits : ltb max_variables n ≡ false = ground arith in
    (
      l',
      left',
      rw
          (
            p_word X,
            cnf_word X,
            next,
            parse_usize-decimal t n _ word (omega arith),
            fits,
            next',
            parse_usize-decimal t' m _ word' hm,
          )
          refl,
    )

-- The text of a formula is read back as that formula: a header and a line for each clause as the
-- proof writer prints it, with at most the variables that literals can name, as many
-- clauses as a vector can hold at most, and literals of declared variables.
pub parse-text :
    (f : Formula)
    → f.variable_count ≤ max_variables
    → length f.clauses ≤ max_clauses
    → All (All (IsWithin f.variable_count)) f.clauses
    → parse (text f) ≡ ok f
unfolding parse text with_capacity
parse-text f hn hm within =
    let (l, left, header) =
      parse_header-text f.variable_count (length f.clauses) (lines f.clauses) hn (omega arith) in
    let room : ltb max_clauses (length f.clauses) ≡ false = ground arith in
    rw (header, room)
      (read_lines f.variable_count (length f.clauses) f.clauses (suc (length (text f))) l [] within
        (omega arith) left
        (omega (
          arith,
          ap length left,
          length-append (decimal f.variable_count)
              (b' ' ∷ (decimal (length f.clauses) ++ b'\n' ∷ lines f.clauses)),
          length-append (decimal (length f.clauses)) (b'\n' ∷ lines f.clauses),
        )))
