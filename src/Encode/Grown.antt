-- ===== src/Encode/Grown.antt =====
-- What the calls into the solver do to an encoding of src/smt/encode.rs.
use satrap.Prelude.{
  ◌&&◌, ℕ, ◌+◌, ◌<◌, ◌≤◌, max, List, [], ◌∷◌, ◌++◌, ◌==◌, ltb, ◌≡◌, refl, sym, ap, ◌∙◌, arith, All,
  All-append, All-mono, Bool-cases, inl, inr, ==_ne,
}
use mathlib.Core.List.{append_assoc, append-nil}
use satrap.Lit.{Var, Lit, max_variables}
use satrap.Encode.{
  Outcome, ok, err, Encoding, Action, and_then, new_variable, add_encoding_clause, add_all, highest,
}
use satrap.Encode.Meaning.{IsBelow}

-- The outcome of a chain that succeeds is that of its second part, from the state after the first.
pub and_then-ok {ℓ κ} :
    {A : Type ℓ} {B : Type κ} (r : Outcome A × Encoding) (f : A → Action B) (b : B) (e' : Encoding)
    → and_then r f ≡ (ok b, e')
    → (a : A) × (e : Encoding) × (r ≡ (ok a, e)) × (f a e ≡ (ok b, e'))
and_then-ok (ok a, e) f b e' h = (a, e, refl, h)
and_then-ok (err x, e) f b e' h = absurd (ground arith)

pub ok_inj {ℓ} :
    {A : Type ℓ} (a b : A) (e e' : Encoding)
    → Path (Outcome A × Encoding) (ok a, e) (ok b, e')
    → (a ≡ b) × (e ≡ e')
ok_inj a b e e' h = (ap (λ r. elim r.0 [ ok x ↦ x | err x ↦ a ]) h, ap (λ r. r.1) h)

-- The solver has got more variables and the clauses `cs`; the rest is as before.
pub record Grown (e : Encoding) (cs : List (List Lit)) (e' : Encoding) : Type 0 where
  pub terms : e'.term_literals ≡ e.term_literals
  pub atoms : e'.atom_literals ≡ e.atom_literals
  pub truth : e'.truth ≡ e.truth
  pub clauses : e'.solver.clauses ≡ e.solver.clauses ++ cs
  pub count : e.solver.variable_count ≤ e'.solver.variable_count
  pub limit : e.solver.variable_count ≤ max_variables → e'.solver.variable_count ≤ max_variables
  pub below : All (All (IsBelow e'.solver.variable_count)) cs

pub IsBelow-mono : (n m : ℕ) (c : List Lit) → n ≤ m → All (IsBelow n) c → All (IsBelow m) c
IsBelow-mono n m c h = All-mono (IsBelow n) (IsBelow m) (λ l k. omega arith) c

pub IsBelow-mono-All :
    (n m : ℕ) (cs : List (List Lit)) → n ≤ m → All (All (IsBelow n)) cs → All (All (IsBelow m)) cs
IsBelow-mono-All n m cs h =
    All-mono (All (IsBelow n)) (All (IsBelow m)) (λ c k. IsBelow-mono n m c h k) cs

Grown-trans :
    (e e' e'' : Encoding) (cs ds : List (List Lit))
    → Grown e cs e'
    → Grown e' ds e''
    → Grown e (cs ++ ds) e''
Grown-trans e e' e'' cs ds g h = record {
  terms = h.terms ∙ g.terms;
  atoms = h.atoms ∙ g.atoms;
  truth = h.truth ∙ g.truth;
  clauses =
      h.clauses
      ∙ ap (λ (x : List (List Lit)). x ++ ds) g.clauses
      ∙ append_assoc e.solver.clauses cs ds;
  count = let a = g.count in let b = h.count in omega arith;
  limit = λ k. h.limit (g.limit k);
  below =
      All-append _ cs ds
        (IsBelow-mono-All e'.solver.variable_count e''.solver.variable_count cs h.count g.below)
        h.below;
}

below-highest : (c : List Lit) (n : ℕ) → highest c ≤ n → All (IsBelow n) c
below-highest [] n h = tt
below-highest (l ∷ ls) n h = (omega arith, below-highest ls n (omega arith))

pub add_encoding_clause-Grown :
    (c : List Lit) (e e' : Encoding) → add_encoding_clause c e ≡ (ok tt, e') → Grown e (c ∷ []) e'
unfolding add_encoding_clause
add_encoding_clause-Grown c e e' h = elim (Bool-cases e.solver.preprocessed) [
  | inl frozen ↦ absurd (ground arith)
  | inr open_ ↦
      elim (Bool-cases (ltb e.solver.variable_count (highest c) && ltb max_variables (highest c))) [
        | inl over ↦ absurd (ground arith)
        | inr fits ↦
            let same = (ok_inj _ _ _ e' (rw fits at (rw open_ at h))).1 in
            rw (← same) (record {
              terms = refl;
              atoms = refl;
              truth = refl;
              clauses = refl;
              count = omega arith;
              limit = λ k. ground arith;
              below = (below-highest c (max e.solver.variable_count (highest c)) (omega arith), tt);
            })
      ]
]

pub add_all-Grown :
    (cs : List (List Lit)) (e e' : Encoding) → add_all cs e ≡ (ok tt, e') → Grown e cs e'
unfolding add_all
add_all-Grown [] e e' h = rw (← (ok_inj _ _ e e' h).1) (record {
  terms = refl;
  atoms = refl;
  truth = refl;
  clauses = sym (append-nil e.solver.clauses);
  count = omega arith;
  limit = λ k. k;
  below = tt;
})
add_all-Grown (c ∷ cs) e e' h =
    let (u, e₁, first, rest) = and_then-ok (add_encoding_clause c e) _ tt e' h in
    Grown-trans e e₁ e' (c ∷ []) cs (add_encoding_clause-Grown c e e₁ first)
      (add_all-Grown cs e₁ e' rest)

-- The new variable is the first unused one.
pub new_variable-Grown :
    (e e' : Encoding) (v : Var)
    → new_variable e ≡ (ok v, e')
    → Grown e [] e' × (v ≡ e.solver.variable_count) × (e'.solver.variable_count ≡ v + 1)
unfolding new_variable
new_variable-Grown e e' v h = elim (Bool-cases (e.solver.variable_count == max_variables)) [
  | inl full ↦ absurd (ground arith)
  | inr room ↦ elim (Bool-cases (ltb e.solver.capacity (e.solver.variable_count + 1))) [
    | inl out ↦ absurd (ground arith)
    | inr memory ↦ elim (Bool-cases e.solver.preprocessed) [
      | inl frozen ↦ absurd (ground arith)
      | inr open_ ↦
          let (number, same) = ok_inj _ v _ e' (rw open_ at (rw memory at (rw room at h))) in
          rw (← same, ← number)
            (
              record {
                terms = refl;
                atoms = refl;
                truth = refl;
                clauses = sym (append-nil e.solver.clauses);
                count = omega arith;
                limit = λ k.
                    let below = ==_ne e.solver.variable_count max_variables room in omega arith;
                below = tt;
              },
              refl,
              refl,
            )
    ]
  ]
]

-- A fresh variable and then some clauses.
pub fresh-Grown :
    (e e₁ e' : Encoding) (v : Var) (cs : List (List Lit))
    → new_variable e ≡ (ok v, e₁)
    → Grown e₁ cs e'
    → Grown e cs e' × (v ≡ e.solver.variable_count) × (v < e'.solver.variable_count)
fresh-Grown e e₁ e' v cs h g =
    let (first, number, next) = new_variable-Grown e e₁ v h in
    (Grown-trans e e₁ e' [] cs first g, number, let more = g.count in omega arith)
