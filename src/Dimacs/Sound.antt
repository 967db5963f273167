-- ===== src/Dimacs/Sound.antt =====
-- What `parse` of src/dimacs.rs guarantees of a formula that it returns.
use satrap.Prelude.{
  ℕ, zero, suc, ◌-◌, ◌≤◌, ◌<◌, some, List, [], ◌∷◌, ◌++◌, ◌==◌, ltb, ltb→le, ◌≡◌, refl, ap, arith,
  Bool-cases, Option-cases, inl, inr, All, All-append, length,
}
use satrap.Prelude.Bytes.{Bytes, codes}
use satrap.Prelude.Int.{ℤ, unsigned_abs, is_above_zero}
use satrap.Lit.{Lit, IsLit, max_variables, var, from_dimacs, new}
use satrap.Lit.Packing.{var-new, new-IsLit}
use satrap.Lit.Dimacs.{from_dimacs_total, from_dimacs_range}
use satrap.Dimacs.{
  Formula, Result, ok, err, panic, out_of_fuel, ◌>>=◌, Token, Lexer, Scan, found, ended, unfinished,
}
use satrap.Dimacs.Number.{parse_i64, parse_usize}
use satrap.Dimacs.Tokens
use satrap.Dimacs.Tokens.{next_token}
use satrap.Dimacs.Parser.{
  Body, Header, parse, parse_header, next_required, expect_token, read_literal, read_token,
  read_body, round, conclude, with_capacity,
}

-- A literal of one of the first `n` variables.
abbrev pub IsWithin : ℕ → Lit → Type 0
IsWithin n l = IsLit l × (var l < n)

from_dimacs-IsWithin :
    (z : ℤ) (l : Lit) (n : ℕ) → from_dimacs z ≡ some l → unsigned_abs z ≤ n → IsWithin n l
from_dimacs-IsWithin z l n h below =
    let (above, limit) = from_dimacs_range z l h in
    let v = unsigned_abs z - 1 in
    let made : l ≡ new v (is_above_zero z) = cc (from_dimacs_total z above limit) in
    rw (made, var-new v (is_above_zero z) (omega arith))
      (new-IsLit v (is_above_zero z) (omega arith), omega arith)

-- The success of a chain comes from that of its first part.
pub bind_ok {ℓ κ} :
    {A : Type ℓ} {B : Type κ} (r : Result A) (f : A → Result B) (b : B)
    → (r >>= f) ≡ ok b
    → (a : A) × (r ≡ ok a) × (f a ≡ ok b)
bind_ok (ok a) f b h = (a, refl, h)
bind_ok (err e) f b h = absurd (ground arith)
bind_ok panic f b h = absurd (ground arith)
bind_ok out_of_fuel f b h = absurd (ground arith)

pub ok_inj {ℓ} : {A : Type ℓ} (a b : A) → ok a ≡ ok b → a ≡ b
ok_inj a b h = ap (λ r. elim r [ ok x ↦ x | err e ↦ a | panic ↦ a | out_of_fuel ↦ a ]) h

module _ (n expected : ℕ) where
  abbrev AreWithin : List Lit × List (List Lit) → Type 0
  AreWithin r = All (IsWithin n) r.0 × All (All (IsWithin n)) r.1

  read_literal-AreWithin :
      (t : Token) (z : ℤ) (clause : List Lit) (clauses : List (List Lit))
      (r : List Lit × List (List Lit))
      → AreWithin (clause, clauses)
      → read_literal t n expected z clause clauses ≡ ok r
      → AreWithin r
  unfolding read_literal
  read_literal-AreWithin t z clause clauses r (hc, hcs) h =
      elim (Bool-cases (unsigned_abs z == 0)) [
        | inl ends ↦ elim (Bool-cases (ltb expected (length (clauses ++ clause ∷ [])))) [
          | inl many ↦ absurd (ground arith)
          | inr few ↦
              let made = ok_inj ([], clauses ++ clause ∷ []) r (rw few at (rw ends at h)) in
              rw (← made) (tt, All-append (All (IsWithin n)) clauses (clause ∷ []) hcs (hc, tt))
        ]
        | inr goes ↦ elim (Bool-cases (ltb n (unsigned_abs z))) [
          | inl out ↦ absurd (ground arith)
          | inr inside ↦ elim (Option-cases (from_dimacs z)) [
            | inl outside ↦ absurd (ground arith)
            | inr (l, e) ↦
                let made =
                  ok_inj (clause ++ l ∷ [], clauses) r (rw e at (rw inside at (rw goes at h))) in
                rw (← made) (
                  All-append (IsWithin n) clause (l ∷ []) hc
                      (from_dimacs-IsWithin z l n e (ltb→le _ _ inside), tt),
                  hcs,
                )
          ]
        ]
      ]

  abbrev IsSound : Formula → Type 0
  IsSound f =
      (f.variable_count ≡ n) × (length f.clauses ≡ expected) × All (All (IsWithin n)) f.clauses

  conclude-IsSound :
      (l : Lexer) (clause : List Lit) (clauses : List (List Lit)) (f : Formula)
      → AreWithin (clause, clauses)
      → conclude l n expected clause clauses ≡ ok f
      → IsSound f
  unfolding conclude
  conclude-IsSound l (x ∷ clause) clauses f h e = absurd (ground arith)
  conclude-IsSound l [] clauses f h e = elim (Bool-cases (length clauses == expected)) [
    | inl same ↦
        let made = ok_inj (record { variable_count = n; clauses = clauses }) f (rw same at e) in
        rw (← made) (refl, ground arith, h.1)
    | inr other ↦ absurd (ground arith)
  ]

  round-IsSound :
      (b : Body) (o : Scan) (f : Formula) (go : Body → Result Formula)
      → AreWithin (b.clause, b.clauses)
      → ((b' : Body) → AreWithin (b'.clause, b'.clauses) → go b' ≡ ok f → IsSound f)
      → round n expected b o go ≡ ok f
      → IsSound f
  unfolding read_token
  round-IsSound b unfinished f go h ih e = absurd (ground arith)
  round-IsSound b (ended l) f go h ih e = conclude-IsSound l b.clause b.clauses f h e
  round-IsSound b (found t l) f go h ih e =
      let (b', made, rest) = bind_ok (read_token n expected b t l) go f e in
      let (z, number, more) = bind_ok (parse_i64 t) _ b' made in
      let (next, literal, last) =
        bind_ok (read_literal t n expected z b.clause b.clauses) _ b' more in
      let same = ok_inj (record { lexer = l; clause = next.0; clauses = next.1 }) b' last in
      ih b' (rw (← same) (read_literal-AreWithin t z b.clause b.clauses next h literal)) rest

  read_body-IsSound :
      (fuel : ℕ) (b : Body) (f : Formula)
      → AreWithin (b.clause, b.clauses)
      → read_body fuel n expected b ≡ ok f
      → IsSound f
  unfolding read_body
  read_body-IsSound zero b f h e = absurd (ground arith)
  read_body-IsSound (suc fuel) b f h e =
      round-IsSound b (next_token b.lexer) f (read_body fuel n expected) h
        (λ b' h' e'. read_body-IsSound fuel b' f h' e') e

parse_header-bounded :
    (l : Lexer) (h : Header) → parse_header l ≡ ok h → h.variable_count ≤ max_variables
unfolding parse_header
parse_header-bounded l h e =
    let (a, e1, f1) = bind_ok (next_required l _) _ h e in
    let (b, e2, f2) = bind_ok (expect_token a.0 (codes "p") _) _ h f1 in
    let (c, e3, f3) = bind_ok (next_required a.1 _) _ h f2 in
    let (d, e4, f4) = bind_ok (expect_token c.0 (codes "cnf") _) _ h f3 in
    let (v, e5, f5) = bind_ok (next_required c.1 _) _ h f4 in
    let (n, e6, f6) = bind_ok (parse_usize v.0 _) _ h f5 in
    elim (Bool-cases (ltb max_variables n)) [
      | inl over ↦ absurd (ground arith)
      | inr fits ↦
          let (w, e7, f7) = bind_ok (next_required v.1 _) _ h (rw fits at f6) in
          let (count, e8, f8) = bind_ok (parse_usize w.0 _) _ h f7 in
          let made = ok_inj _ h f8 in rw (← made) (ltb→le max_variables n fits)
    ]

-- A formula that is read declares at most the variables that literals can name, and every literal
-- of its clauses is a packed literal of a declared variable.
pub parse-IsWithin :
    (input : Bytes) (f : Formula)
    → parse input ≡ ok f
    → (f.variable_count ≤ max_variables) × All (All (IsWithin f.variable_count)) f.clauses
unfolding parse
parse-IsWithin input f e =
    let (h, header, counted) = bind_ok (parse_header (Tokens.new input)) _ f e in
    let (u, room, body) = bind_ok (with_capacity h.expected) _ f counted in
    let (n, count, within) = read_body-IsSound h.variable_count h.expected _ _ f (tt, tt) body in
    rw n (parse_header-bounded _ h header, within)
