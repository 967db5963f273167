-- ===== src/Encode/Meaning.antt =====
-- The meaning of Boolean terms, and what an encoding of src/smt/encode.rs says of it.
use satrap.Prelude.{
  ℕ, ◌<◌, ◌≤◌, Bool, true, false, not, Option, none, some, List, [], ◌∷◌, any, all, beq, ◌==◌,
  if◌then◌else◌, ◌≡◌, refl, ap, ◌∙◌, arith, All,
}
use satrap.Lit.{Var, Lit, IsVar, max_variables, var, positive, is_positive, new}
use satrap.Lit.Packing.{var-new, is_positive-new}
use satrap.Clause.{Valuation, literal_value, satisfies, satisfies_all}
use satrap.Encode.{
  TermKind, bool_, atom, theory_equality, arithmetic_predicate, not_, and_, or_, xor, iff, ite,
  other, Entries, Encoding,
}

-- What a term means, from the values of the symbols and of the terms in it.
abbrev pub meaning : (ℕ → Bool) → (ℕ → Bool) → TermKind → Bool
meaning ρ V (bool_ b) = b
meaning ρ V (atom s) = ρ s
meaning ρ V (theory_equality s l r) = ρ s
meaning ρ V (arithmetic_predicate s x strict) = ρ s
meaning ρ V (not_ t) = not (V t)
meaning ρ V (and_ ts) = all V ts
meaning ρ V (or_ ts) = any V ts
meaning ρ V (xor l r) = not (beq (V l) (V r))
meaning ρ V (iff l r) = beq (V l) (V r)
meaning ρ V (ite c t f) = if V c then V t else V f
meaning ρ V other = false

-- `V` gives every term of the store its value under the values `ρ` of the symbols.
abbrev pub Interprets : (ℕ → TermKind) → (ℕ → Bool) → (ℕ → Bool) → Type 0
Interprets node ρ V = (t : ℕ) → V t ≡ meaning ρ V (node t)

abbrev pub IsBelow : ℕ → Lit → Type 0
IsBelow n l = var l < n

-- The valuations agree on the first `n` variables.
abbrev pub Same : ℕ → Valuation → Valuation → Type 0
Same n m m' = (v : Var) → v < n → m' v ≡ m v

abbrev pub Results : Type 0
Results = List (Lit × Bool)

abbrev pub Holds : Valuation → Results → Type 0
Holds m rs = All (λ r. literal_value m r.0 ≡ r.1) rs

abbrev pub AreBelow : ℕ → Results → Type 0
AreBelow n rs = All (λ r. IsBelow n r.0) rs

abbrev pub Entails : Valuation → (ℕ → Bool) → Entries → Type 0
Entails m f es = All (λ e. literal_value m e.1 ≡ f e.0) es

abbrev pub OnTruth : (Lit → Type 0) → Option Lit → Type 0
OnTruth P none = Unit
OnTruth P (some l) = P l

-- All literals of an encoding are of variables of its solver.
pub record InRange (e : Encoding) : Type 0 where
  pub limit : e.solver.variable_count ≤ max_variables
  pub terms : All (λ x. IsBelow e.solver.variable_count x.1) e.term_literals
  pub atoms : All (λ x. IsBelow e.solver.variable_count x.1) e.atom_literals
  pub truth : OnTruth (IsBelow e.solver.variable_count) e.truth
  pub clauses : All (All (IsBelow e.solver.variable_count)) e.solver.clauses

-- The valuation satisfies the clauses and gives the atoms their values.
pub record Fits (ρ : ℕ → Bool) (m : Valuation) (e : Encoding) : Type 0 where
  pub clauses : satisfies_all m e.solver.clauses ≡ true
  pub atoms : Entails m ρ e.atom_literals

-- It gives every encoded term its value, and the truth literal true.
pub record Knows (V : ℕ → Bool) (m : Valuation) (e : Encoding) : Type 0 where
  pub terms : Entails m V e.term_literals
  pub truth : OnTruth (λ l. literal_value m l ≡ true) e.truth

pub literal_value_local :
    (n : ℕ) (m m' : Valuation) (l : Lit)
    → Same n m m'
    → IsBelow n l
    → literal_value m' l ≡ literal_value m l
unfolding literal_value
literal_value_local n m m' l same h = ap (λ b. beq b (is_positive l)) (same (var l) h)

pub Holds-local :
    (n : ℕ) (m m' : Valuation) (rs : Results)
    → Same n m m'
    → AreBelow n rs
    → Holds m rs
    → Holds m' rs
Holds-local n m m' [] same h k = tt
Holds-local n m m' (r ∷ rs) same (b, h) (p, k) =
    (literal_value_local n m m' r.0 same b ∙ p, Holds-local n m m' rs same h k)

Entails-local :
    (n : ℕ) (m m' : Valuation) (f : ℕ → Bool) (es : Entries)
    → Same n m m'
    → All (λ x. IsBelow n x.1) es
    → Entails m f es
    → Entails m' f es
Entails-local n m m' f [] same h k = tt
Entails-local n m m' f (x ∷ es) same (b, h) (p, k) =
    (literal_value_local n m m' x.1 same b ∙ p, Entails-local n m m' f es same h k)

satisfies_local :
    (n : ℕ) (m m' : Valuation) (c : List Lit)
    → Same n m m'
    → All (IsBelow n) c
    → satisfies m' c ≡ satisfies m c
satisfies_local n m m' [] same h = refl
satisfies_local n m m' (l ∷ c) same (b, h) =
    rw (literal_value_local n m m' l same b, satisfies_local n m m' c same h) refl

satisfies_all_local :
    (n : ℕ) (m m' : Valuation) (cs : List (List Lit))
    → Same n m m'
    → All (All (IsBelow n)) cs
    → satisfies_all m' cs ≡ satisfies_all m cs
satisfies_all_local n m m' [] same h = refl
satisfies_all_local n m m' (c ∷ cs) same (b, h) =
    rw (satisfies_local n m m' c same b, satisfies_all_local n m m' cs same h) refl

pub Fits-local :
    (ρ : ℕ → Bool) (m m' : Valuation) (e : Encoding)
    → InRange e
    → Same e.solver.variable_count m m'
    → Fits ρ m e
    → Fits ρ m' e
Fits-local ρ m m' e range same fits = record {
  clauses =
      satisfies_all_local e.solver.variable_count m m' e.solver.clauses same range.clauses
      ∙ fits.clauses;
  atoms = Entails-local e.solver.variable_count m m' ρ e.atom_literals same range.atoms fits.atoms;
}

truth_local :
    (n : ℕ) (m m' : Valuation) (o : Option Lit)
    → Same n m m'
    → OnTruth (IsBelow n) o
    → OnTruth (λ l. literal_value m l ≡ true) o
    → OnTruth (λ l. literal_value m' l ≡ true) o
truth_local n m m' none same h k = tt
truth_local n m m' (some l) same h k = literal_value_local n m m' l same h ∙ k

pub Knows-local :
    (V : ℕ → Bool) (m m' : Valuation) (e : Encoding)
    → InRange e
    → Same e.solver.variable_count m m'
    → Knows V m e
    → Knows V m' e
Knows-local V m m' e range same knows = record {
  terms = Entails-local e.solver.variable_count m m' V e.term_literals same range.terms knows.terms;
  truth = truth_local e.solver.variable_count m m' e.truth same range.truth knows.truth;
}

-- A valuation with one value changed.
abbrev pub update : Valuation → Var → Bool → Valuation
update m v b u = if u == v then b else m u

pub Same-update : (m : Valuation) (v : Var) (b : Bool) → Same v m (update m v b)
Same-update m v b u h = let other : (u == v) ≡ false = ground arith in rw other refl

pub var-positive : (v : Var) → IsVar v → var (positive v) ≡ v
unfolding new
var-positive v h = var-new v true h

pub literal_value-positive :
    (m : Valuation) (v : Var) → IsVar v → literal_value m (positive v) ≡ m v
unfolding literal_value new
literal_value-positive m v h = rw (var-positive v h, is_positive-new v true h) (ground arith)
