-- ===== src/Dimacs/Ends.antt =====
-- `parse` of src/dimacs.rs ends on every input.
use satrap.Prelude.{
  ℕ, zero, suc, ◌+◌, ◌≤◌, ◌<◌, Bool, true, false, Option, none, some, List, [], ◌∷◌, ◌++◌, ◌==◌,
  ltb, leb, ◌≡◌, ◌⊎◌, refl, sym, ap, arith, length, Bool-cases, Option-cases, inl, inr,
}
use satrap.Prelude.Bytes.{Bytes, codes, bytes_eq}
use satrap.Prelude.Int.{ℤ, unsigned_abs}
use satrap.Lit.{Lit, max_variables, from_dimacs}
use satrap.Dimacs.{
  Formula, Message, ParseError, Result, ok, err, panic, out_of_fuel, ◌>>=◌, Token, Lexer, Scan,
  found, ended, unfinished, at,
}
use satrap.Dimacs.Number.{
  i64_max, parse_u64, parse_i64, parse_usize, signed, of_magnitude, split_sign,
}
use satrap.Dimacs.Sound.{ok_inj, bind_ok}
use satrap.Dimacs.Tokens
use satrap.Dimacs.Tokens.{next_token}
use satrap.Dimacs.Fuel.{Shorter, next_token-Shorter}
use satrap.Dimacs.Parser.{
  Body, Header, read_body, read_token, read_literal, conclude, round, required, next_required,
  expect_token, parse, parse_header, with_capacity, max_clauses,
}

-- A value or an error: no panic, and no want of fuel.
abbrev Settles {ℓ} : {A : Type ℓ} → Result A → Type 0
Settles (ok a) = Unit
Settles (err e) = Unit
Settles panic = ⊥
Settles out_of_fuel = ⊥

Settles-bind {ℓ κ} :
    {A : Type ℓ} {B : Type κ} (r : Result A) (f : A → Result B)
    → Settles r
    → ((a : A) → r ≡ ok a → Settles (f a))
    → Settles (r >>= f)
Settles-bind (ok a) f h k = k a refl
Settles-bind (err e) f h k = tt
Settles-bind panic f h k = elim h [ ]
Settles-bind out_of_fuel f h k = elim h [ ]

Settles-cases {ℓ} :
    {A : Type ℓ} (r : Result A)
    → Settles r
    → ((a : A) × (r ≡ ok a)) ⊎ ((e : ParseError) × (r ≡ err e))
Settles-cases (ok a) h = inl (a, refl)
Settles-cases (err e) h = inr (e, refl)
Settles-cases panic h = elim h [ ]
Settles-cases out_of_fuel h = elim h [ ]

signed-Settles : (t : Token) (negative : Bool) (m : ℕ) → Settles (signed t negative m)
signed-Settles t true m = elim (Bool-cases (m == i64_max + 1)) [
  | inl least ↦ rw least tt
  | inr other ↦ elim (Bool-cases (leb m i64_max)) [
    | inl fits ↦ rw (other, fits) tt
    | inr over ↦ rw (other, over) tt
  ]
]
signed-Settles t false m = elim (Bool-cases (leb m i64_max)) [
  | inl fits ↦ rw fits tt
  | inr over ↦ rw over tt
]

of_magnitude-Settles :
    (t : Token) (negative : Bool) (o : Option ℕ) → Settles (of_magnitude t negative o)
of_magnitude-Settles t negative none = tt
of_magnitude-Settles t negative (some m) = signed-Settles t negative m

parse_i64-Settles : (t : Token) → Settles (parse_i64 t)
unfolding parse_i64
parse_i64-Settles t =
    of_magnitude-Settles t (split_sign t.bytes).0 (parse_u64 (split_sign t.bytes).1)

parse_usize-Settles : (t : Token) (message : Message) → Settles (parse_usize t message)
unfolding parse_usize
parse_usize-Settles t message = go (parse_u64 t.bytes)
  where
    go :
        (o : Option ℕ)
        → Settles (elim o as (λ x. Result ℕ) [ none ↦ err (at t message) | some value ↦ ok value ])
    go none = tt
    go (some value) = tt

expect_token-Settles :
    (t : Token) (expected : Bytes) (message : Message) → Settles (expect_token t expected message)
unfolding expect_token
expect_token-Settles t expected message = elim (Bool-cases (bytes_eq t.bytes expected)) [
  | inl e ↦ rw e tt
  | inr e ↦ rw e tt
]

required-Settles :
    (n : ℕ) (message : Message) (o : Scan) → Shorter n o → Settles (required message o)
required-Settles n message (found t l) h = tt
required-Settles n message (ended l) h = tt
required-Settles n message unfinished h = elim h [ ]

next_required-Settles : (l : Lexer) (message : Message) → Settles (next_required l message)
unfolding next_required
next_required-Settles l message =
    required-Settles (length l.rest) message (next_token l) (next_token-Shorter l)

parse_header-Settles : (l : Lexer) → Settles (parse_header l)
unfolding parse_header
parse_header-Settles l = Settles-bind (next_required l _) _ (next_required-Settles l _) (λ a e1.
    Settles-bind (expect_token a.0 (codes "p") _) _ (expect_token-Settles a.0 _ _) (λ b e2.
      Settles-bind (next_required a.1 _) _ (next_required-Settles a.1 _) (λ c e3.
        Settles-bind (expect_token c.0 (codes "cnf") _) _ (expect_token-Settles c.0 _ _) (λ d e4.
          Settles-bind (next_required c.1 _) _ (next_required-Settles c.1 _) (λ v e5.
            Settles-bind (parse_usize v.0 _) _ (parse_usize-Settles v.0 _) (λ n e6.
              elim (Bool-cases (ltb max_variables n)) [
                | inl over ↦ rw over tt
                | inr fits ↦ rw fits (
                    Settles-bind (next_required v.1 _) _ (next_required-Settles v.1 _) (λ w e7.
                      Settles-bind (parse_usize w.0 _) _ (parse_usize-Settles w.0 _)
                        (λ count e8. tt)))
              ]))))))

conclude-Settles :
    (l : Lexer) (n expected : ℕ) (clause : List Lit) (clauses : List (List Lit))
    → Settles (conclude l n expected clause clauses)
unfolding conclude
conclude-Settles l n expected (x ∷ clause) clauses = tt
conclude-Settles l n expected [] clauses = elim (Bool-cases (length clauses == expected)) [
  | inl e ↦ rw e tt
  | inr e ↦ rw e tt
]

read_literal-Settles :
    (t : Token) (n expected : ℕ) (z : ℤ) (clause : List Lit) (clauses : List (List Lit))
    → Settles (read_literal t n expected z clause clauses)
unfolding read_literal
read_literal-Settles t n expected z clause clauses = elim (Bool-cases (unsigned_abs z == 0)) [
  | inl ends ↦ elim (Bool-cases (ltb expected (length (clauses ++ clause ∷ [])))) [
    | inl many ↦ rw (ends, many) tt
    | inr few ↦ rw (ends, few) tt
  ]
  | inr goes ↦ elim (Bool-cases (ltb n (unsigned_abs z))) [
    | inl out ↦ rw (goes, out) tt
    | inr inside ↦ elim (Option-cases (from_dimacs z)) [
      | inl outside ↦ rw (goes, inside, outside) tt
      | inr (l, e) ↦ rw (goes, inside, e) tt
    ]
  ]
]

read_token-Settles :
    (n expected : ℕ) (b : Body) (t : Token) (l : Lexer) → Settles (read_token n expected b t l)
unfolding read_token
read_token-Settles n expected b t l = Settles-bind (parse_i64 t) _ (parse_i64-Settles t) (λ z e.
    Settles-bind (read_literal t n expected z b.clause b.clauses) _
      (read_literal-Settles t n expected z b.clause b.clauses) (λ next e'. tt))

read_token-lexer :
    (n expected : ℕ) (b b' : Body) (t : Token) (l : Lexer)
    → read_token n expected b t l ≡ ok b'
    → b'.lexer ≡ l
unfolding read_token
read_token-lexer n expected b b' t l e =
    let (z, number, more) = bind_ok (parse_i64 t) _ b' e in
    let (next, literal, last) =
      bind_ok (read_literal t n expected z b.clause b.clauses) _ b' more in
    ap (λ (x : Body). x.lexer) (sym (ok_inj _ b' last))

round-Settles :
    (n expected : ℕ) (b : Body) (o : Scan) (go : Body → Result Formula)
    → Shorter (length b.lexer.rest) o
    → ((b' : Body) → length b'.lexer.rest < length b.lexer.rest → Settles (go b'))
    → Settles (round n expected b o go)
round-Settles n expected b unfinished go h ih = elim h [ ]
round-Settles n expected b (ended l) go h ih = conclude-Settles l n expected b.clause b.clauses
round-Settles n expected b (found t l) go h ih =
    Settles-bind (read_token n expected b t l) go (read_token-Settles n expected b t l)
      (λ b' e. ih b' (rw (read_token-lexer n expected b b' t l e) h))

read_body-Settles :
    (fuel n expected : ℕ) (b : Body)
    → length b.lexer.rest < fuel
    → Settles (read_body fuel n expected b)
unfolding read_body
read_body-Settles zero n expected b h = absurd (omega arith)
read_body-Settles (suc fuel) n expected b h =
    round-Settles n expected b (next_token b.lexer) (read_body fuel n expected)
      (next_token-Shorter b.lexer) (λ b' below. read_body-Settles fuel n expected b' (omega arith))

length-required :
    (n : ℕ) (message : Message) (o : Scan) (r : Token × Lexer)
    → Shorter n o
    → required message o ≡ ok r
    → length r.1.rest < n
length-required n message (found t l) r h e = rw (← ok_inj (t, l) r e) h
length-required n message (ended l) r h e = absurd (ground arith)
length-required n message unfinished r h e = elim h [ ]

length-next_required :
    (l : Lexer) (message : Message) (r : Token × Lexer)
    → next_required l message ≡ ok r
    → length r.1.rest < length l.rest
unfolding next_required
length-next_required l message r e =
    length-required (length l.rest) message (next_token l) r (next_token-Shorter l) e

length-parse_header :
    (l : Lexer) (h : Header) → parse_header l ≡ ok h → length h.lexer.rest ≤ length l.rest
unfolding parse_header
length-parse_header l h e =
    let (a, e1, f1) = bind_ok (next_required l _) _ h e in
    let (b, e2, f2) = bind_ok (expect_token a.0 (codes "p") _) _ h f1 in
    let (c, e3, f3) = bind_ok (next_required a.1 _) _ h f2 in
    let (d, e4, f4) = bind_ok (expect_token c.0 (codes "cnf") _) _ h f3 in
    let (v, e5, f5) = bind_ok (next_required c.1 _) _ h f4 in
    let (n, e6, f6) = bind_ok (parse_usize v.0 _) _ h f5 in
    elim (Bool-cases (ltb max_variables n)) [
      | inl over ↦ absurd (ground arith)
      | inr fits ↦
          let (w, e7, f7) = bind_ok (next_required v.1 _) _ h (rw fits at f6) in
          let (count, e8, f8) = bind_ok (parse_usize w.0 _) _ h f7 in
          rw (← ok_inj _ h f8) (
            omega (
              arith,
              length-next_required l _ a e1,
              length-next_required a.1 _ c e3,
              length-next_required c.1 _ v e5,
              length-next_required v.1 _ w e7,
            ))
    ]

-- What a run on an input ends with: a formula, an error, or the panic of a clause count that no
-- vector can hold.
abbrev pub Ends : Bytes → Type 0
Ends input =
    ((f : Formula) × (parse input ≡ ok f))
    ⊎ (((e : ParseError) × (parse input ≡ err e))
        ⊎ ((h : Header) × (parse_header (Tokens.new input) ≡ ok h)
            × (max_clauses < h.expected)
            × (parse input ≡ panic)))

header_lt :
    (input : Bytes) (h : Header)
    → parse_header (Tokens.new input) ≡ ok h
    → length h.lexer.rest < suc (length input)
unfolding Tokens.new
header_lt input h e = omega (arith, length-parse_header (Tokens.new input) h e)

body-Ends : (input : Bytes) (h : Header) → parse_header (Tokens.new input) ≡ ok h → Ends input
unfolding parse with_capacity
body-Ends input h e = elim (Bool-cases (ltb max_clauses h.expected)) [
  | inl over ↦ inr (inr (h, e, ground arith, rw (e, over) refl))
  | inr room ↦
      elim (Settles-cases (read_body (suc (length input)) h.variable_count h.expected _) (
        read_body-Settles (suc (length input)) h.variable_count h.expected
          (record { lexer = h.lexer; clause = []; clauses = [] }) (header_lt input h e))) [
            | inl (f, found_) ↦ inl (f, rw (e, room) found_)
            | inr (x, failed) ↦ inr (inl (x, rw (e, room) failed))
          ]
]

-- The parser ends on every input, with the rounds that its loops and those of the lexer are given: it
-- returns a formula or an error, or it panics where the header declares more clauses than a vector
-- can hold.
pub parse-Ends : (input : Bytes) → Ends input
unfolding parse
parse-Ends input =
    elim (Settles-cases (parse_header (Tokens.new input))
      (parse_header-Settles (Tokens.new input))) [
        | inl (h, e) ↦ body-Ends input h e
        | inr (x, failed) ↦ inr (inl (x, rw failed refl))
      ]
