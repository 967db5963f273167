-- ===== src/Terms/Encoded.antt =====
-- The encoder of src/smt/encode.rs on the term store of src/smt/term.rs: the store has the order
-- that the encoder relies on, and the values of its terms are those that the encoder speaks of.
use satrap.Prelude.{
  ℕ, Bool, Option, none, some, length, ◌≡◌, refl, sym, ap, ◌∙◌, Option-cases, inl, inr,
}
use satrap.Lit.{Lit}
use satrap.Clause.{Valuation, literal_value}
use satrap.Encode
use satrap.Encode.{Encoding, encode}
use satrap.Encode.Meaning.{Interprets, InRange, Fits, Knows}
use satrap.Encode.Ends.{Ends, IsOrdered, encode-Ends}
use satrap.Encode.Correct.{encode_sound}
use satrap.Terms.{
  boolean, TermKind, bool_, atom, not_of, and_of, or_of, xor_of, iff_of, ite_of,
  arithmetic_predicate, theory_equality, TermNode, TermStore, ok, lookup,
}
use satrap.Terms.Good.{HasSort, IsFormed, IsGood}
use satrap.Terms.Intern.{lookup-lt}
use satrap.Terms.Value.{meaning}
use satrap.Terms.Eval.{evaluate_bool}
use satrap.Terms.Reading.{node_value, node_value_lem, node_value_end}
use satrap.Terms.Evaluated.{evaluate_bool_total}

-- What the encoder sees of a kind.
abbrev pub view : TermKind → Encode.TermKind
view (bool_ b) = Encode.bool_ b
view (atom x) = Encode.atom x
view (not_of t) = Encode.not_ t
view (and_of ts) = Encode.and_ ts
view (or_of ts) = Encode.or_ ts
view (xor_of l r) = Encode.xor l r
view (iff_of l r) = Encode.iff l r
view (ite_of c t e) = Encode.ite c t e
view (arithmetic_predicate x e strict) = Encode.arithmetic_predicate x e strict
view (theory_equality x l r) = Encode.theory_equality x l r
view _ = Encode.other

abbrev kind_of : Option TermNode → Encode.TermKind
kind_of none = Encode.other
kind_of (some n) = view n.kind

abbrev pub store_kind : TermStore → ℕ → Encode.TermKind
store_kind s t = kind_of (lookup s.nodes t)

view-meaning :
    (ρ V : ℕ → Bool) (kind : TermKind) → Encode.Meaning.meaning ρ V (view kind) ≡ meaning ρ V kind
view-meaning ρ V (bool_ b) = refl
view-meaning ρ V (atom x) = refl
view-meaning ρ V (not_of t) = refl
view-meaning ρ V (and_of ts) = refl
view-meaning ρ V (or_of ts) = refl
view-meaning ρ V (xor_of l r) = refl
view-meaning ρ V (iff_of l r) = refl
view-meaning ρ V (ite_of c t e) = refl
view-meaning ρ V kind = refl

view-IsOrdered :
    (s : TermStore) (t : ℕ) (kind : TermKind)
    → IsFormed s t boolean kind
    → IsOrdered (λ a. HasSort s a boolean) t (view kind)
view-IsOrdered s t (bool_ b) h = tt
view-IsOrdered s t (not_of a) h = h
view-IsOrdered s t (and_of ts) h = h
view-IsOrdered s t (or_of ts) h = h
view-IsOrdered s t (xor_of a b) h = h
view-IsOrdered s t (iff_of a b) h = h
view-IsOrdered s t (ite_of a b c) h = h
view-IsOrdered s t kind h = h

store-IsOrdered :
    (s : TermStore) (t : ℕ)
    → IsGood s
    → HasSort s t boolean
    → IsOrdered (λ a. HasSort s a boolean) t (store_kind s t)
store-IsOrdered s t g (kind, h) = rw h (view-IsOrdered s t kind (g.formed t boolean kind h))

store-Interprets :
    (ρ : ℕ → Bool) (s : TermStore) → IsGood s → Interprets (store_kind s) ρ (node_value ρ s)
store-Interprets ρ s g t = elim (Option-cases (lookup s.nodes t)) [
  | inl missing ↦ rw missing (node_value_end ρ s t missing)
  | inr (n, h) ↦ rw h (node_value_lem ρ s t n g h ∙ sym (view-meaning ρ (node_value ρ s) n.kind))
]

-- Encoding a Boolean term of a well-formed store, with as much fuel as the store has nodes, ends
-- with a literal or an error of the solver.
pub encode_store-Ends :
    (s : TermStore) (t : ℕ) (e : Encoding)
    → IsGood s
    → HasSort s t boolean
    → Ends (encode (store_kind s) (length s.nodes) t e).0
encode_store-Ends s t e g h =
    encode-Ends (store_kind s) (λ a. HasSort s a boolean) (length s.nodes) t e
      (λ a k. store-IsOrdered s a g k) h (lookup-lt s.nodes t _ h.1)

-- Where the encoder returns a literal for a Boolean term of a well-formed store, the term evaluates
-- to the value of the literal under every valuation of the clauses that gives the atoms the values
-- of their symbols, if the literals that were there before stand for their terms.
pub encode_evaluates :
    (ρ : ℕ → Bool) (s : TermStore) (fuel t : ℕ) (e e' : Encoding) (l : Lit) (m : Valuation)
    → IsGood s
    → HasSort s t boolean
    → encode (store_kind s) fuel t e ≡ (Encode.ok l, e')
    → InRange e
    → Fits ρ m e'
    → (Fits ρ m e → Knows (node_value ρ s) m e)
    → evaluate_bool s ρ t ≡ ok (literal_value m l)
encode_evaluates ρ s fuel t e e' l m g h run range fits knows =
    (evaluate_bool_total ρ s t g h).0
    ∙ ap ok (
        sym
          (encode_sound (store_kind s) ρ (node_value ρ s) fuel t e e' l m (store-Interprets ρ s g)
            run range fits knows).0)
