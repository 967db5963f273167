-- ===== src/Terms.antt =====
-- src/smt/term.rs: the term store. Terms are numbers of nodes; a node that is there already is not
-- added again. This file has the store and its access; `Build` has the Boolean constructors.
--
-- A node holds its sort itself, where the source holds the number of the sort in a second table
-- that gives every sort one number. `interned` always is the inverse of `nodes`, so it is a search.
pub mod Build
pub mod Combine
pub mod Good
pub mod Post
pub mod Intern
pub mod Value
pub mod Negation
pub mod Joins
pub mod Flatten
pub mod Junction
pub mod Parity
pub mod Branch
pub mod Eval
pub mod Reading
pub mod Evaluated
pub mod Connectives
pub mod Encoded
pub mod Examples
use satrap.Prelude.{
  ℕ, zero, suc, ◌+◌, ◌^◌, Bool, true, false, Option, none, some, List, [], ◌∷◌, ◌++◌, ◌==◌, leb,
  if◌then◌else◌, length,
}
use native.Mathlib.Decide.{ℕ_discrete}

pub data Sort : Type 0 where
  boolean : Sort
  bit_vec : ℕ → Sort
  int real : Sort
  uninterpreted array : ℕ → Sort

-- Symbols, functions, arithmetic expressions and terms are named by numbers.
pub data TermKind : Type 0 where
  bool_ : Bool → TermKind
  atom : ℕ → TermKind
  not_of : ℕ → TermKind
  and_of or_of : List ℕ → TermKind
  xor_of iff_of : ℕ → ℕ → TermKind
  ite_of : ℕ → ℕ → ℕ → TermKind
  uf_constant : ℕ → TermKind
  uf_application : ℕ → List ℕ → TermKind
  uf_ite : ℕ → ℕ → ℕ → TermKind
  arithmetic : ℕ → TermKind
  arithmetic_predicate : ℕ → ℕ → Bool → TermKind
  array_const : ℕ → TermKind
  array_store : ℕ → ℕ → ℕ → TermKind
  theory_equality : ℕ → ℕ → ℕ → TermKind
  bits_of : List ℕ → TermKind

pub record TermNode : Type 0 where
  pub sort : Sort
  pub kind : TermKind

-- The part of the store that Boolean and bit-vector terms use.
pub record TermStore : Type 0 where
  pub nodes : List TermNode
  pub next_symbol : ℕ

-- The messages of `TermError`, by what they say, and the panics of `expect`, of indexing, of
-- `unreachable!` and of a full store. `other_sort` stands for the arms of the sorts without bits,
-- and `out_of_fuel` for a recursion that was given too few steps.
pub data TermError : Type 0 where
  foreign_term not_boolean not_bit_vector empty_bit_vector too_wide : TermError
  too_few_arguments different_sorts different_widths bad_literal bad_range no_repeats : TermError
  bad_decimal bad_numeral does_not_fit : TermError
  width_overflow work_limit : TermError
  panic exhausted other_sort out_of_fuel : TermError

pub data Outcome {ℓ} (A : Type ℓ) : Type ℓ where
  ok : A → Outcome A
  err : TermError → Outcome A

-- A call that returns an outcome and leaves a store, also where it fails.
abbrev pub Action {ℓ} : Type ℓ → Type ℓ
Action A = TermStore → Outcome A × TermStore

abbrev pub and_then {ℓ κ} :
    {A : Type ℓ} {B : Type κ} → Outcome A × TermStore → (A → Action B) → Outcome B × TermStore
and_then (ok a, s) f = f a s
and_then (err x, s) f = (err x, s)

infixl 5 ◌>>=◌
abbrev pub ◌>>=◌ {ℓ κ} : {A : Type ℓ} {B : Type κ} → Action A → (A → Action B) → Action B
(m >>= f) s = and_then (m s) f

abbrev pub pure {ℓ} : {A : Type ℓ} → A → Action A
pure a s = (ok a, s)

abbrev pub fail {ℓ} : {A : Type ℓ} → TermError → Action A
fail x s = (err x, s)

abbrev pub true_term : ℕ
true_term = 0

abbrev pub false_term : ℕ
false_term = 1

-- `TermStore::new`
abbrev pub new_store : TermStore
new_store = record {
  nodes =
      record { sort = boolean; kind = bool_ true }
      ∷ record { sort = boolean; kind = bool_ false }
      ∷ [];
  next_symbol = 0;
}

abbrev pub bool_constant : Bool → ℕ
bool_constant value = if value then true_term else false_term

unfoldable pub TermNode-discrete : Discrete TermNode
TermNode-discrete = hlevel ℕ_discrete

-- A u32 is below this.
abbrev pub u32_limit : ℕ
u32_limit = 4294967296

abbrev pub lookup {ℓ} : {A : Type ℓ} → List A → ℕ → Option A
lookup [] i = none
lookup (x ∷ xs) zero = some x
lookup (x ∷ xs) (suc i) = lookup xs i

abbrev pub decided {ℓ} : {P : Type ℓ} → Dec P → Bool
decided (yes p) = true
decided (no p) = false

-- The number of a node, counted from `i`.
abbrev pub find : TermNode → List TermNode → ℕ → Option ℕ
find n [] i = none
find n (x ∷ xs) i =
    let rest = find n xs (suc i) in if decided (TermNode-discrete n x) then some i else rest

abbrev pub add_node : TermNode → Option ℕ → Action ℕ
add_node n (some t) s = (ok t, s)
add_node n none s =
    if leb u32_limit (length s.nodes)
    then (err exhausted, s)
    else (ok (length s.nodes), record s { nodes = s.nodes ++ n ∷ [] })

unfoldable pub intern : Sort → TermKind → Action ℕ
intern sort kind s =
    let n : TermNode = record { sort = sort; kind = kind } in add_node n (find n s.nodes 0) s

abbrev pub or_fail {ℓ} : {A : Type ℓ} → TermError → Option A → Action A
or_fail x none = fail x
or_fail x (some a) = pure a

-- `node`, which indexes
abbrev pub node_at : ℕ → Action TermNode
node_at t s = or_fail panic (lookup s.nodes t) s

abbrev pub get_node : ℕ → Action TermNode
get_node t s = or_fail foreign_term (lookup s.nodes t) s

-- `sort` and `sort_id`
unfoldable pub sort_of : ℕ → Action Sort
sort_of t = do n ← get_node t; pure n.sort

abbrev pub if_boolean : Sort → Action {0} Unit
if_boolean boolean = pure tt
if_boolean (bit_vec w) = fail not_boolean
if_boolean int = fail not_boolean
if_boolean real = fail not_boolean
if_boolean (uninterpreted u) = fail not_boolean
if_boolean (array a) = fail not_boolean

unfoldable pub require_bool : ℕ → Action {0} Unit
unfolding sort_of
require_bool t = do s ← sort_of t; if_boolean s

unfoldable pub fresh_symbol : Action ℕ
fresh_symbol s =
    if leb u32_limit (suc s.next_symbol)
    then (err exhausted, s)
    else (ok s.next_symbol, record s { next_symbol = suc s.next_symbol })

-- The term of the fresh atom; its symbol is the second part of the node.
unfoldable pub fresh_bool_atom : Action ℕ
unfolding fresh_symbol intern
fresh_bool_atom = do symbol ← fresh_symbol; intern boolean (atom symbol)

abbrev pub bits_in : TermKind → Option (List ℕ)
bits_in (bits_of bits) = some bits
bits_in _ = none

unfoldable pub bitvec_bits : ℕ → Action (List ℕ)
bitvec_bits t = do n ← get_node t; or_fail not_bit_vector (bits_in n.kind)

unfoldable pub require_bools : List ℕ → Action {0} Unit
unfolding require_bool
require_bools [] = pure tt
require_bools (t ∷ ts) = do _ ← require_bool t; require_bools ts

unfoldable pub make_bitvec : List ℕ → Action ℕ
unfolding require_bools intern
make_bitvec [] = fail empty_bit_vector
make_bitvec (bit ∷ bits) = do
  _ ← require_bools (bit ∷ bits)
  if leb u32_limit (length (bit ∷ bits))
      then fail too_wide
      else intern (bit_vec (length (bit ∷ bits))) (bits_of (bit ∷ bits))
