-- ===== src/Terms/Eval.antt =====
-- `evaluate_bool` and `evaluate_bitvec` of src/smt/term.rs, with their memo of known values.
use satrap.Prelude.{
  ℕ, zero, suc, Bool, true, false, not, beq, Option, none, some, List, [], ◌∷◌, length, ◌==◌,
  if◌then◌else◌,
}
use satrap.Terms.{
  TermKind, bool_, atom, not_of, and_of, or_of, xor_of, iff_of, ite_of, arithmetic_predicate,
  theory_equality, TermNode, TermStore, Outcome, ok, err, panic, out_of_fuel, lookup, require_bool,
  bitvec_bits,
}

-- HashMap<TermId, bool>
abbrev pub Memo : Type 0
Memo = List (ℕ × Bool)

abbrev pub recall : ℕ → Memo → Option Bool
recall t [] = none
recall t (e ∷ es) = let rest = recall t es in if e.0 == t then some e.1 else rest

-- A run that changes the memo only.
abbrev pub Run {ℓ} : Type ℓ → Type ℓ
Run A = Memo → Outcome A × Memo

abbrev pub run_then {ℓ κ} :
    {A : Type ℓ} {B : Type κ} → Outcome A × Memo → (A → Run B) → Outcome B × Memo
run_then (ok a, m) f = f a m
run_then (err x, m) f = (err x, m)

infixl 5 ◌>>=◌
abbrev pub ◌>>=◌ {ℓ κ} : {A : Type ℓ} {B : Type κ} → Run A → (A → Run B) → Run B
(r >>= f) m = run_then (r m) f

abbrev pub give {ℓ} : {A : Type ℓ} → A → Run A
give a m = (ok a, m)

-- `all` and `any` stop at the first term that decides them.
unfoldable pub eval_all : (ℕ → Run Bool) → List ℕ → Run Bool
eval_all go [] = give true
eval_all go (t ∷ ts) = do b ← go t; if b then eval_all go ts else give false

unfoldable pub eval_any : (ℕ → Run Bool) → List ℕ → Run Bool
eval_any go [] = give false
eval_any go (t ∷ ts) = do b ← go t; if b then give true else eval_any go ts

unfoldable pub eval_kind : (ℕ → Run Bool) → (ℕ → Bool) → TermKind → Run Bool
unfolding eval_all eval_any
eval_kind go atom_value (bool_ value) = give value
eval_kind go atom_value (atom symbol) = give (atom_value symbol)
eval_kind go atom_value (theory_equality symbol l r) = give (atom_value symbol)
eval_kind go atom_value (arithmetic_predicate symbol e strict) = give (atom_value symbol)
eval_kind go atom_value (not_of inner) = do b ← go inner; give (not b)
eval_kind go atom_value (and_of terms) = eval_all go terms
eval_kind go atom_value (or_of terms) = eval_any go terms
eval_kind go atom_value (xor_of l r) = do x ← go l; y ← go r; give (not (beq x y))
eval_kind go atom_value (iff_of l r) = do x ← go l; y ← go r; give (beq x y)
eval_kind go atom_value (ite_of c t e) = do x ← go c; if x then go t else go e
eval_kind go atom_value _ = λ m. (err panic, m)

abbrev pub memoize : ℕ → Bool → Run Bool
memoize t value m = (ok value, (t, value) ∷ m)

abbrev pub eval_node : (ℕ → Run Bool) → (ℕ → Bool) → ℕ → Option TermNode → Run Bool
eval_node go atom_value t none = λ m. (err panic, m)
eval_node go atom_value t (some n) = do value ← eval_kind go atom_value n.kind; memoize t value

abbrev pub recalled : Run Bool → Option Bool → Run Bool
recalled make (some value) = give value
recalled make none = make

-- `evaluate_bool_unchecked`; the fuel bounds the depth of the term.
unfoldable pub evaluate : TermStore → (ℕ → Bool) → ℕ → ℕ → Run Bool
unfolding eval_kind
evaluate s atom_value zero t m = (err out_of_fuel, m)
evaluate s atom_value (suc fuel) t m =
    recalled (eval_node (evaluate s atom_value fuel) atom_value t (lookup s.nodes t)) (recall t m) m

-- What follows a check, or a read.
abbrev pub when_ok {ℓ κ} : {A : Type ℓ} {B : Type κ} → Outcome A → (A → Outcome B) → Outcome B
when_ok (ok a) f = f a
when_ok (err x) f = err x

-- An inner term has a smaller number, so as much fuel as there are nodes is enough.
unfoldable pub evaluate_bool : TermStore → (ℕ → Bool) → ℕ → Outcome Bool
unfolding require_bool evaluate
evaluate_bool s atom_value t =
    when_ok (require_bool t s).0 (λ u. (evaluate s atom_value (length s.nodes) t []).0)

unfoldable pub evaluate_each : TermStore → (ℕ → Bool) → List ℕ → Run (List Bool)
unfolding evaluate
evaluate_each s atom_value [] = give []
evaluate_each s atom_value (t ∷ ts) = do
  b ← evaluate s atom_value (length s.nodes) t
  bs ← evaluate_each s atom_value ts
  give (b ∷ bs)

unfoldable pub evaluate_bitvec : TermStore → (ℕ → Bool) → ℕ → Outcome (List Bool)
unfolding bitvec_bits evaluate_each
evaluate_bitvec s atom_value t =
    when_ok (bitvec_bits t s).0 (λ bits. (evaluate_each s atom_value bits []).0)
