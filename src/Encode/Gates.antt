-- ===== src/Encode/Gates.antt =====
-- The clauses of a gate say exactly that the output is the connective of the inputs
-- (src/smt/encode.rs).
use satrap.Prelude.{
  Bool, not, ◌||◌, List, [], ◌∷◌, map, any, all, beq, if◌then◌else◌, ◌≡◌, refl, arith,
}
use satrap.Lit.{Lit, neg}
use satrap.Clause.{Valuation, literal_value, satisfies, satisfies_all}
use satrap.Clause.Meaning.{literal_value-neg}
use satrap.Elimination.PairLoop.{all-append}
use satrap.Encode.{Gate, and_gate, or_gate, xor_gate, iff_gate, ite_gate, gate_clauses}

-- The connective itself.
unfoldable pub gate_value : Valuation → Gate → Bool
gate_value m (and_gate inputs) = all (literal_value m) inputs
gate_value m (or_gate inputs) = any (literal_value m) inputs
gate_value m (xor_gate l r) = not (beq (literal_value m l) (literal_value m r))
gate_value m (iff_gate l r) = beq (literal_value m l) (literal_value m r)
gate_value m (ite_gate c t f) = if literal_value m c then literal_value m t else literal_value m f

module _ (m : Valuation) where
  and_forward :
      (o : Lit) (inputs : List Lit)
      → satisfies_all m (map (λ input. neg o ∷ input ∷ []) inputs)
        ≡ (not (literal_value m o) || all (literal_value m) inputs)
  and_forward o [] = ground (arith, literal_value-neg m o)
  and_forward o (l ∷ ls) = ground (arith, literal_value-neg m o, and_forward o ls)

  and_backward :
      (inputs : List Lit) → satisfies m (map neg inputs) ≡ not (all (literal_value m) inputs)
  and_backward [] = refl
  and_backward (l ∷ ls) = ground (arith, literal_value-neg m l, and_backward ls)

  or_forward :
      (o : Lit) (inputs : List Lit)
      → satisfies_all m (map (λ input. neg input ∷ o ∷ []) inputs)
        ≡ (literal_value m o || not (any (literal_value m) inputs))
  or_forward o [] = ground arith
  or_forward o (l ∷ ls) = ground (arith, literal_value-neg m l, or_forward o ls)

  pub satisfies_all-gate_clauses :
      (g : Gate) (o : Lit)
      → satisfies_all m (gate_clauses g o) ≡ beq (literal_value m o) (gate_value m g)
  unfolding gate_clauses gate_value
  satisfies_all-gate_clauses (and_gate inputs) o = ground (
    arith,
    all-append (satisfies m) (map (λ input. neg o ∷ input ∷ []) inputs) ((o ∷ map neg inputs) ∷ []),
    and_forward o inputs,
    and_backward inputs,
  )
  satisfies_all-gate_clauses (or_gate inputs) o = ground (
    arith,
    all-append (satisfies m) (map (λ input. neg input ∷ o ∷ []) inputs) ((neg o ∷ inputs) ∷ []),
    or_forward o inputs,
    literal_value-neg m o,
  )
  satisfies_all-gate_clauses (xor_gate l r) o =
      ground (arith, literal_value-neg m l, literal_value-neg m r, literal_value-neg m o)
  satisfies_all-gate_clauses (iff_gate l r) o =
      ground (arith, literal_value-neg m l, literal_value-neg m r, literal_value-neg m o)
  satisfies_all-gate_clauses (ite_gate c t f) o = ground (
    arith,
    literal_value-neg m c,
    literal_value-neg m t,
    literal_value-neg m f,
    literal_value-neg m o,
  )
