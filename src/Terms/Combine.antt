-- ===== src/Terms/Combine.antt =====
-- `implies`, `ite`, `equivalent`, `equal` and `distinct` of src/smt/term.rs on Boolean and bit-vector
-- terms. Where the source leaves for arithmetic, arrays or uninterpreted sorts this fails.
use satrap.Prelude.{
  ℕ, zero, suc, Bool, true, false, ◌&&◌, none, some, List, [], ◌∷◌, ◌++◌, ◌==◌, if◌then◌else◌,
}
use native.Mathlib.Decide.{ℕ_discrete}
use satrap.Terms.{
  Sort, boolean, bit_vec, int, real, uninterpreted, array, ite_of, Action, ok, err, ◌>>=◌, pure,
  fail, true_term, false_term, intern, node_at, sort_of, require_bool, require_bools, bitvec_bits,
  make_bitvec, too_few_arguments, different_sorts, other_sort, out_of_fuel, panic,
}
use satrap.Terms.Build.{as_bool, not_, and_, or_, iff}

-- The antecedents are taken from the last to the first.
unfoldable pub implies_chain : List ℕ → Action ℕ
unfolding not_ or_
implies_chain [] = fail panic
implies_chain (t ∷ []) = pure t
implies_chain (t ∷ u ∷ ts) = do
  result ← implies_chain (u ∷ ts)
  negated ← not_ t
  or_ (negated ∷ result ∷ [])

unfoldable pub implies : List ℕ → Action ℕ
unfolding require_bools implies_chain
implies [] = fail too_few_arguments
implies (t ∷ []) = fail too_few_arguments
implies (t ∷ u ∷ ts) = do _ ← require_bools (t ∷ u ∷ ts); implies_chain (t ∷ u ∷ ts)

abbrev pub is_arithmetic : Sort → Bool
is_arithmetic int = true
is_arithmetic real = true
is_arithmetic _ = false

unfoldable pub Sort-discrete : Discrete Sort
Sort-discrete = hlevel ℕ_discrete

abbrev pub same_sort : Sort → Sort → Bool
same_sort a b = elim (Sort-discrete a b) [ yes e ↦ true | no e ↦ false ]

-- A call for each two items at the same position.
unfoldable pub zip_with : (ℕ → ℕ → Action ℕ) → List ℕ → List ℕ → Action (List ℕ)
zip_with f [] bs = pure []
zip_with f (a ∷ as_) [] = pure []
zip_with f (a ∷ as_) (b ∷ bs) = do r ← f a b; rs ← zip_with f as_ bs; pure (r ∷ rs)

-- The arm of `ite` for Boolean branches.
unfoldable pub ite_boolean : ℕ → ℕ → ℕ → Action ℕ
unfolding not_ intern
ite_boolean condition then_term else_term = do
  n ← node_at condition
  elim (as_bool n.kind) [
    | some value ↦ pure (if value then then_term else else_term)
    | none ↦
        if (then_term == true_term) && (else_term == false_term)
        then pure condition
        else if (then_term == false_term) && (else_term == true_term)
        then not_ condition
        else intern boolean (ite_of condition then_term else_term)
  ]

unfoldable pub ite_sorted : (ℕ → ℕ → ℕ → Action ℕ) → ℕ → ℕ → ℕ → Sort → Action ℕ
unfolding ite_boolean bitvec_bits zip_with make_bitvec
ite_sorted go condition then_term else_term boolean = ite_boolean condition then_term else_term
ite_sorted go condition then_term else_term (bit_vec w) = do
  then_bits ← bitvec_bits then_term
  else_bits ← bitvec_bits else_term
  bits ← zip_with (go condition) then_bits else_bits
  make_bitvec bits
ite_sorted go condition then_term else_term int = fail panic
ite_sorted go condition then_term else_term real = fail panic
ite_sorted go condition then_term else_term (uninterpreted u) = fail other_sort
ite_sorted go condition then_term else_term (array a) = fail other_sort

-- The body of `ite`, with the calls for the bits.
unfoldable pub ite_body : (ℕ → ℕ → ℕ → Action ℕ) → ℕ → ℕ → ℕ → Action ℕ
unfolding require_bool sort_of ite_sorted
ite_body go condition then_term else_term = do
  _ ← require_bool condition
  sort ← sort_of then_term
  else_sort ← sort_of else_term
  if is_arithmetic sort && is_arithmetic else_sort
      then fail other_sort
      else if same_sort else_sort sort
      then if then_term == else_term
        then pure then_term
        else ite_sorted go condition then_term else_term sort
      else fail different_sorts

unfoldable pub ite_deep : ℕ → ℕ → ℕ → ℕ → Action ℕ
unfolding ite_body
ite_deep zero condition then_term else_term = fail out_of_fuel
ite_deep (suc fuel) condition then_term else_term =
    ite_body (ite_deep fuel) condition then_term else_term

-- Bits are Boolean, so a call calls itself once at most.
unfoldable pub ite : ℕ → ℕ → ℕ → Action ℕ
unfolding ite_deep
ite = ite_deep 2

unfoldable pub equivalent_sorted : ℕ → ℕ → Sort → Action ℕ
unfolding iff bitvec_bits zip_with and_
equivalent_sorted left right boolean = iff left right
equivalent_sorted left right (bit_vec w) = do
  left_bits ← bitvec_bits left
  right_bits ← bitvec_bits right
  bits ← zip_with iff left_bits right_bits
  and_ bits
equivalent_sorted left right int = fail panic
equivalent_sorted left right real = fail panic
equivalent_sorted left right (uninterpreted u) = fail other_sort
equivalent_sorted left right (array a) = fail other_sort

unfoldable pub equivalent : ℕ → ℕ → Action ℕ
unfolding sort_of equivalent_sorted
equivalent left right = do
  left_sort ← sort_of left
  right_sort ← sort_of right
  if is_arithmetic left_sort && is_arithmetic right_sort
      then fail other_sort
      else if same_sort right_sort left_sort
      then equivalent_sorted left right left_sort
      else fail different_sorts

-- A term that is not in the store is not arithmetic.
unfoldable pub all_arithmetic : List ℕ → Action Bool
unfolding sort_of
all_arithmetic [] s = (ok true, s)
all_arithmetic (t ∷ ts) s = elim (sort_of t s).0 [
  | ok sort ↦ if is_arithmetic sort then all_arithmetic ts s else (ok false, s)
  | err x ↦ (ok false, s)
]

unfoldable pub require_sort : Sort → List ℕ → Action {0} Unit
unfolding sort_of
require_sort sort [] = pure tt
require_sort sort (t ∷ ts) = do
  s ← sort_of t
  if same_sort s sort then require_sort sort ts else fail different_sorts

-- The check on the sorts with which `equal` and `distinct` start.
unfoldable pub require_comparable : ℕ → List ℕ → Action {0} Unit
unfolding sort_of all_arithmetic require_sort
require_comparable first rest = do
  first_sort ← sort_of first
  others ← all_arithmetic rest
  if is_arithmetic first_sort && others then pure tt else require_sort first_sort rest

unfoldable pub equivalents : ℕ → List ℕ → Action (List ℕ)
unfolding equivalent
equivalents first [] = pure []
equivalents first (t ∷ ts) = do e ← equivalent first t; es ← equivalents first ts; pure (e ∷ es)

unfoldable pub equal : List ℕ → Action ℕ
unfolding require_comparable equivalents and_
equal [] = fail too_few_arguments
equal (t ∷ []) = fail too_few_arguments
equal (t ∷ u ∷ ts) = do
  _ ← require_comparable t (u ∷ ts)
  equalities ← equivalents t (u ∷ ts)
  and_ equalities

unfoldable pub inequalities_of : ℕ → List ℕ → Action (List ℕ)
unfolding equivalent not_
inequalities_of left [] = pure []
inequalities_of left (right ∷ ts) = do
  equality ← equivalent left right
  inequality ← not_ equality
  rest ← inequalities_of left ts
  pure (inequality ∷ rest)

-- Each two terms, in the order of the two loops.
unfoldable pub inequalities : List ℕ → Action (List ℕ)
unfolding inequalities_of
inequalities [] = pure []
inequalities (t ∷ ts) = do
  first ← inequalities_of t ts
  rest ← inequalities ts
  pure (first ++ rest)

unfoldable pub distinct : List ℕ → Action ℕ
unfolding require_comparable inequalities and_
distinct [] = fail too_few_arguments
distinct (t ∷ []) = fail too_few_arguments
distinct (t ∷ u ∷ ts) = do
  _ ← require_comparable t (u ∷ ts)
  pairs ← inequalities (t ∷ u ∷ ts)
  and_ pairs
