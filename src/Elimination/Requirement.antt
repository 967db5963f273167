-- ===== src/Elimination/Requirement.antt =====
-- The value that `extend_model` of src/solver.rs asks of an eliminated variable.
use satrap.Prelude.{
  Bool, true, false, ◌||◌, List, [], ◌∷◌, ◌++◌, Option, none, some, ◌==◌, if◌then◌else◌, any, all,
  ◌≡◌, refl, arith, get_or, beq, All, Bool-cases, inl, inr, ◌∙◌, ap, ◌⊎◌, ◌>>=◌, &&_left, &&_right,
}
use satrap.Lit.{Var, Lit, var, is_positive}
use satrap.Clause.{Valuation, valuation, literal_value}
use satrap.Elimination.{scan, require, require_value, requirement}
use satrap.Elimination.Values.{side}

-- The clause holds a literal of the variable, and each such literal has the given sign.
abbrev pub Pivots : Bool → Var → List Lit → Type 0
Pivots s v c =
    (any (λ l. var l == v) c ≡ true) × All (λ l. (var l == v) ≡ true → is_positive l ≡ s) c

abbrev pub sides : Valuation → Var → List (List Lit) → Bool
sides m v = all (side m v)

module _ (values : List Bool) (v : Var) where
  abbrev HasSign : Bool → Option Lit → Type 0
  HasSign s none = Unit
  HasSign s (some l) = is_positive l ≡ s

  abbrev is_some : Option Lit → Bool
  is_some none = false
  is_some (some l) = true

  scan_lem :
      (s : Bool) (c : List Lit) (pivot : Option Lit) (satisfied : Bool)
      → All (λ l. (var l == v) ≡ true → is_positive l ≡ s) c
      → HasSign s pivot
      → (HasSign s (scan values v c pivot satisfied).0)
        × (is_some (scan values v c pivot satisfied).0 ≡ (is_some pivot || any (λ l. var l == v) c))
        × ((scan values v c pivot satisfied).1 ≡ (satisfied || side (valuation values) v c))
  unfolding scan literal_value
  scan_lem s [] pivot satisfied h sign = (sign, ground arith, ground arith)
  scan_lem s (l ∷ ls) pivot satisfied (p, h) sign = elim (Bool-cases (var l == v)) [
    | inl e ↦ rw (e, scan) (ground (arith, scan_lem s ls (some l) satisfied h (p e)))
    | inr e ↦
        rw (e, scan)
          (ground (
            arith,
            scan_lem s ls pivot (beq (get_or values (var l) false) (is_positive l) || satisfied) h
                sign,
          ))
  ]

  -- A clause asks for the sign of its pivots exactly when no other literal holds.
  require-scan :
      (s : Bool) (c : List Lit) (required : Option Bool)
      → Pivots s v c
      → require (scan values v c none false) required
        ≡ (if side (valuation values) v c then some required else require_value s required)
  require-scan s c required (found, signs) =
      let (sign, some_iff, held) = scan_lem s c none false signs tt in
      by_result (scan values v c none false) sign (some_iff ∙ found) held
    where
      by_result :
          (r : Option Lit × Bool)
          → HasSign s r.0
          → is_some r.0 ≡ true
          → r.1 ≡ side (valuation values) v c
          → require r required
            ≡ (if side (valuation values) v c then some required else require_value s required)
      by_result (none, b) sign got held = cc
      by_result (some l, true) sign got held = rw (← held)
      by_result (some l, false) sign got held = rw (← held, sign)

  -- Where every clause holds without the variable, nothing is required.
  pub requirement_held :
      (s : Bool) (cs : List (List Lit)) (required : Option Bool)
      → All (Pivots s v) cs
      → sides (valuation values) v cs ≡ true
      → requirement values v cs required ≡ some required
  unfolding requirement
  requirement_held s [] required h held = refl
  requirement_held s (c ∷ cs) required (p, h) held =
      let here : side (valuation values) v c ≡ true = &&_left _ _ held in
      rw (require-scan s c required p, here) (requirement_held s cs required h (&&_right _ _ held))

  -- Otherwise the sign of the pivots is.
  pub requirement_sign :
      (s : Bool) (cs : List (List Lit)) (required : Option Bool)
      → All (Pivots s v) cs
      → ((required ≡ none) ⊎ (required ≡ some s))
      → requirement values v cs required
        ≡ some (if sides (valuation values) v cs then required else some s)
  unfolding requirement
  requirement_sign s [] required h start = refl
  requirement_sign s (c ∷ cs) required (p, h) start =
      elim (Bool-cases (side (valuation values) v c)) [
        | inl e ↦ rw (require-scan s c required p, e) (requirement_sign s cs required h start)
        | inr e ↦
            rw (require-scan s c required p, e, asks start)
              (requirement_sign s cs (some s) h (inr refl) ∙ ap some (ground arith))
      ]
    where
      asks : ((required ≡ none) ⊎ (required ≡ some s)) → require_value s required ≡ some (some s)
      asks (inl e) = rw e
      asks (inr e) = rw e (ground arith)

  pub requirement-append :
      (cs ds : List (List Lit)) (required : Option Bool)
      → requirement values v (cs ++ ds) required
        ≡ (requirement values v cs required >>= requirement values v ds)
  unfolding requirement
  requirement-append [] ds required = refl
  requirement-append (c ∷ cs) ds required =
      by_first (requirement-append cs ds) (require (scan values v c none false) required)
    where
      by_first :
          ((r : Option Bool)
            → requirement values v (cs ++ ds) r
              ≡ (requirement values v cs r >>= requirement values v ds))
          → (o : Option (Option Bool))
          → (o >>= requirement values v (cs ++ ds))
            ≡ (o >>= requirement values v cs >>= requirement values v ds)
      by_first rest none = refl
      by_first rest (some r) = rest r
