-- ===== src/Clause/Normal.antt =====
-- Exactly the tautologies are dropped (src/solver.rs).
use satrap.Prelude.{
  true, false, not, List, [], ◌∷◌, none, ◌==◌, if◌then◌else◌, ◌≡◌, ◌↔◌, refl, arith, ◌<◌, ◌∙◌, sym,
  Option-cases, inl, inr, All,
}
use mathlib.Core.Bool.{false≢true}
use satrap.Lit.{Lit, var, is_positive}
use satrap.Clause.{Valuation, literal_value, satisfies, normalize}
use satrap.Clause.Meaning.{normalize-satisfies, normalize-none}
use satrap.Clause.Sorted.{IsAscending, normalize-IsAscending}

-- The valuation that makes every literal of an ascending clause false.
abbrev against : List Lit → Valuation
against [] v = false
against (l ∷ ls) v = if var l == v then not (is_positive l) else against ls v

-- Two valuations that agree on the variables of a clause give it one value.
satisfies_agree :
    (m n : Valuation) (c : List Lit)
    → All (λ l. m (var l) ≡ n (var l)) c
    → satisfies m c ≡ satisfies n c
unfolding literal_value
satisfies_agree m n [] h = refl
satisfies_agree m n (l ∷ ls) (e, h) = rw (e, satisfies_agree m n ls h)

later :
    (l : Lit) (n : Valuation) (ls : List Lit)
    → All (λ y. var l < var y) ls
    → All (λ y. (if var l == var y then not (is_positive l) else n (var y)) ≡ n (var y)) ls
later l n [] h = tt
later l n (y ∷ ys) (q, h) = (ground arith, later l n ys h)

against-satisfies : (d : List Lit) → IsAscending d → satisfies (against d) d ≡ false
against-satisfies [] h = refl
against-satisfies (l ∷ ls) (above, h) =
    rw
      (
        head_false,
        satisfies_agree (against (l ∷ ls)) (against ls) ls (later l (against ls) ls above),
      )
      (against-satisfies ls h)
  where
    head_false : literal_value (against (l ∷ ls)) l ≡ false
    head_false = unfold literal_value in ground arith

-- Normalizing drops a clause exactly when every valuation satisfies it.
pub normalize-none_iff :
    (c : List Lit) → (normalize c ≡ none) ↔ ((m : Valuation) → satisfies m c ≡ true)
normalize-none_iff c = (
  λ h m. normalize-none m c h,
  λ all. elim (Option-cases (normalize c)) [
    | inl e ↦ e
    | inr (d, e) ↦ absurd (
        false≢true (
          sym (against-satisfies d (normalize-IsAscending c d e))
          ∙ normalize-satisfies (against d) c d e
          ∙ all (against d)))
  ],
)
