-- ===== src/Clause.antt =====
-- Clauses as lists of literals, and how src/solver.rs normalizes them: `add_clause_internal` and
-- `elimination_resolvent` sort a clause by literal index, drop repeated literals and stop at a pair
-- of complementary ones. `Model::literal_value` gives the meaning.
pub mod Meaning
pub mod Sorted
pub mod Normal
pub mod Examples
use satrap.Prelude.{
  Bool, List, [], ◌∷◌, Option, none, some, ◌==◌, leb, if◌then◌else◌, beq, any, all, get_or, false,
}
use satrap.Lit.{Var, Lit, var, is_positive}

abbrev pub Valuation : Type 0
Valuation = Var → Bool

-- `self.value(literal.var()) == literal.is_positive()`
unfoldable pub literal_value : Valuation → Lit → Bool
literal_value m l = beq (m (var l)) (is_positive l)

abbrev pub satisfies : Valuation → List Lit → Bool
satisfies m = any (literal_value m)

abbrev pub satisfies_all : Valuation → List (List Lit) → Bool
satisfies_all m = all (satisfies m)

-- `values[variable.index()]`; the index is in range wherever the code reads it.
abbrev pub valuation : List Bool → Valuation
valuation values v = get_or values v false

insert : Lit → List Lit → List Lit
insert l [] = l ∷ []
insert l (x ∷ xs) = if leb l x then l ∷ x ∷ xs else x ∷ insert l xs

-- `sort_unstable_by_key(|literal| literal.index())`: the key is the literal, so there is one result.
unfoldable pub sort : List Lit → List Lit
unfolding insert
sort [] = []
sort (x ∷ xs) = insert x (sort xs)

-- The kept prefix `normalized[..write]` is held backwards, so that its last entry is the head.
abbrev rev_onto : List Lit → List Lit → List Lit
rev_onto [] acc = acc
rev_onto (x ∷ xs) acc = rev_onto xs (x ∷ acc)

-- The loop over `read`; `none` is the early return at a complementary pair.
compact : List Lit → List Lit → Option (List Lit)
compact kept [] = some (rev_onto kept [])
compact [] (current ∷ unread) = compact (current ∷ []) unread
compact (previous ∷ kept) (current ∷ unread) =
    let skip = compact (previous ∷ kept) unread in
    let keep = compact (current ∷ previous ∷ kept) unread in
    if previous == current then skip else if var previous == var current then none else keep

unfoldable pub normalize : List Lit → Option (List Lit)
unfolding compact sort var
normalize literals = compact [] (sort literals)
