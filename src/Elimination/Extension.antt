-- ===== src/Elimination/Extension.antt =====
-- `extend_model` of src/solver.rs repairs a model of what elimination left into a model of what it
-- removed.
use satrap.Prelude.{
  Bool, true, false, ◌||◌, List, [], ◌∷◌, ◌++◌, Option, none, some, ◌==◌, ◌≡◌, refl, arith, All,
  Bool-cases, inl, inr, sym, ◌∙◌, ap, ◌<◌, length, get_or-set_self, get_or-set_ne, length-set,
  ==_iff, &&_left, &&_right,
}
use mathlib.Core.Bool.{false≢true}
use satrap.Lit.{Var, Lit, var, is_positive}
use satrap.Clause.{Valuation, valuation, literal_value, satisfies, satisfies_all}
use satrap.Elimination.{requirement, write_value, extend_record}
use satrap.Elimination.Values.{side}
use satrap.Elimination.Requirement.{
  Pivots, sides, requirement_held, requirement_sign, requirement-append,
}
use satrap.Elimination.PairLoop.{Covers, all-append}

-- One side of the split holds throughout when every pair is covered.
others_held :
    (m : Valuation) (v : Var) (p : List Lit) (ns : List (List Lit))
    → side m v p ≡ false
    → All (λ n. (side m v p || side m v n) ≡ true) ns
    → sides m v ns ≡ true
others_held m v p [] e h = refl
others_held m v p (n ∷ ns) e (q, h) = ground (arith, others_held m v p ns e h)

sides_cover :
    (m : Valuation) (v : Var) (ps ns : List (List Lit))
    → Covers m v ps ns
    → sides m v ps ≡ false
    → sides m v ns ≡ true
sides_cover m v [] ns h e = cc
sides_cover m v (p ∷ ps) ns (h, rest) e = elim (Bool-cases (side m v p)) [
  | inl held ↦ sides_cover m v ps ns rest (ground arith)
  | inr unheld ↦ others_held m v p ns unheld h
]

module _ (m m' : Valuation) (v : Var) (off : (w : Var) → (w == v) ≡ false → m' w ≡ m w) where
  satisfies-side : (c : List Lit) → side m v c ≡ true → satisfies m' c ≡ true
  unfolding literal_value
  satisfies-side [] h = h
  satisfies-side (l ∷ ls) h = elim (Bool-cases (var l == v)) [
    | inl e ↦ ground (arith, satisfies-side ls (ground arith))
    | inr e ↦ ground (arith, off (var l) e, satisfies-side ls)
  ]

  satisfies-sides : (cs : List (List Lit)) → sides m v cs ≡ true → satisfies_all m' cs ≡ true
  satisfies-sides [] h = refl
  satisfies-sides (c ∷ cs) h =
      rw (satisfies-side c (&&_left _ _ h)) (satisfies-sides cs (&&_right _ _ h))

  satisfies-Pivots_one : (s : Bool) (c : List Lit) → Pivots s v c → m' v ≡ s → satisfies m' c ≡ true
  unfolding literal_value
  satisfies-Pivots_one s [] (found, signs) at = cc
  satisfies-Pivots_one s (l ∷ ls) (found, (sign, signs)) at = elim (Bool-cases (var l == v)) [
    | inl e ↦
        let value : m' (var l) ≡ is_positive l =
          ap m' ((==_iff (var l) v).0 e) ∙ at ∙ sym (sign e) in
        ground arith
    | inr e ↦ ground (arith, satisfies-Pivots_one s ls (ground arith, signs) at)
  ]

  satisfies-Pivots :
      (s : Bool) (cs : List (List Lit))
      → All (Pivots s v) cs
      → m' v ≡ s
      → satisfies_all m' cs ≡ true
  satisfies-Pivots s [] h at = refl
  satisfies-Pivots s (c ∷ cs) (p, h) at =
      rw (satisfies-Pivots_one s c p at) (satisfies-Pivots s cs h at)

-- The value that the removed clauses ask for.
abbrev asked : Bool → Bool → Option Bool
asked true true = none
asked true false = some false
asked false b = some true

write_off :
    (values : List Bool) (v w : Var) (o : Option Bool)
    → (w == v) ≡ false
    → valuation (write_value values v o) w ≡ valuation values w
write_off values v w none h = refl
write_off values v w (some b) h = get_or-set_ne values v w b false (ground arith)

length-write :
    (values : List Bool) (v : Var) (o : Option Bool)
    → length (write_value values v o) ≡ length values
length-write values v none = refl
length-write values v (some b) = length-set values v b

module _ (values : List Bool) (v : Var) (ps ns : List (List Lit)) (room : v < length values)
    (positive : All (Pivots true v) ps) (negative : All (Pivots false v) ns)
    (covered : Covers (valuation values) v ps ns) where
  abbrev final : Option Bool
  final = asked (sides (valuation values) v ps) (sides (valuation values) v ns)

  abbrev extended : List Bool
  extended = write_value values v final

  requirement-final : requirement values v (ps ++ ns) none ≡ some final
  requirement-final = elim (Bool-cases (sides (valuation values) v ps)) [
    | inl e ↦
        rw
          (
            requirement-append values v ps ns none,
            requirement_sign values v true ps none positive (inl refl),
            e,
            requirement_sign values v false ns none negative (inl refl),
          )
          (ap some (ground arith))
    | inr e ↦
        let held = sides_cover (valuation values) v ps ns covered e in
        rw (
          requirement-append values v ps ns none,
          requirement_sign values v true ps none positive (inl refl),
          e,
          requirement_held values v false ns (some true) negative held,
        )
  ]

  extended_off : (w : Var) → (w == v) ≡ false → valuation extended w ≡ valuation values w
  extended_off w h = write_off values v w final h

  positives_hold : satisfies_all (valuation extended) ps ≡ true
  positives_hold = elim (Bool-cases (sides (valuation values) v ps)) [
    | inl e ↦ satisfies-sides (valuation values) (valuation extended) v extended_off ps e
    | inr e ↦
        let made : valuation extended v ≡ true = rw e (get_or-set_self values v true false room) in
        satisfies-Pivots (valuation values) (valuation extended) v extended_off true ps positive
          made
  ]

  negatives_hold : satisfies_all (valuation extended) ns ≡ true
  negatives_hold = elim (Bool-cases (sides (valuation values) v ns)) [
    | inl f ↦ satisfies-sides (valuation values) (valuation extended) v extended_off ns f
    | inr f ↦ elim (Bool-cases (sides (valuation values) v ps)) [
      | inl e ↦
          let made : valuation extended v ≡ false =
            rw (e, f) (get_or-set_self values v false false room) in
          satisfies-Pivots (valuation values) (valuation extended) v extended_off false ns negative
            made
      | inr e ↦ absurd (false≢true (sym f ∙ sides_cover (valuation values) v ps ns covered e))
    ]
  ]

-- If of every pair of removed clauses one holds by a literal of another variable, `extend_model`
-- does not panic on the record, satisfies every removed clause and changes no other variable.
pub extend_record_lem :
    (values : List Bool) (v : Var) (ps ns : List (List Lit))
    → v < length values
    → All (Pivots true v) ps
    → All (Pivots false v) ns
    → Covers (valuation values) v ps ns
    → (values' : List Bool) × (extend_record values (record { variable = v; clauses = ps ++ ns })
        ≡ some values')
      × (satisfies_all (valuation values') (ps ++ ns) ≡ true)
      × ((w : Var) → (w == v) ≡ false → valuation values' w ≡ valuation values w)
      × (length values' ≡ length values)
unfolding extend_record
extend_record_lem values v ps ns room positive negative covered = (
  extended values v ps ns room positive negative covered,
  rw (requirement-final values v ps ns room positive negative covered),
  rw
      (
        all-append (satisfies (valuation (extended values v ps ns room positive negative covered)))
            ps ns,
        positives_hold values v ps ns room positive negative covered,
      )
      (negatives_hold values v ps ns room positive negative covered),
  extended_off values v ps ns room positive negative covered,
  length-write values v (final values v ps ns room positive negative covered),
)
