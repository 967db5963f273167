-- ===== src/Terms/Good.antt =====
-- A well-formed term store of src/smt/term.rs, and how it grows.
use satrap.Prelude.{ℕ, ◌<◌, true, false, some, length, ◌≡◌, All}
use satrap.Terms.{
  Sort, boolean, bit_vec, TermKind, bool_, atom, not_of, and_of, or_of, xor_of, iff_of, ite_of,
  uf_constant, uf_application, uf_ite, arithmetic, arithmetic_predicate, array_const, array_store,
  theory_equality, bits_of, TermNode, TermStore, true_term, false_term, lookup,
}

abbrev pub Holds : TermStore → ℕ → Sort → TermKind → Type 0
Holds s t sort kind = lookup s.nodes t ≡ some (record { sort = sort; kind = kind })

-- The term is in the store and has the sort.
abbrev pub HasSort : TermStore → ℕ → Sort → Type 0
HasSort s t sort = (kind : TermKind) × Holds s t sort kind

-- A Boolean term that was made before `t`.
abbrev pub Inner : TermStore → ℕ → ℕ → Type 0
Inner s t a = (a < t) × HasSort s a boolean

-- A kind of the sorts that have no bits.
abbrev pub IsAbstract : TermKind → Type 0
IsAbstract (uf_constant x) = Unit
IsAbstract (uf_application f ts) = Unit
IsAbstract (uf_ite a b c) = Unit
IsAbstract (arithmetic x) = Unit
IsAbstract (array_const a) = Unit
IsAbstract (array_store a b c) = Unit
IsAbstract _ = ⊥

-- The kind has the sort, and the terms in it are earlier ones.
abbrev pub IsFormed : TermStore → ℕ → Sort → TermKind → Type 0
IsFormed s t boolean (bool_ b) = Unit
IsFormed s t boolean (atom x) = Unit
IsFormed s t boolean (not_of a) = Inner s t a
IsFormed s t boolean (and_of ts) = All (Inner s t) ts
IsFormed s t boolean (or_of ts) = All (Inner s t) ts
IsFormed s t boolean (xor_of a b) = Inner s t a × Inner s t b
IsFormed s t boolean (iff_of a b) = Inner s t a × Inner s t b
IsFormed s t boolean (ite_of a b c) = Inner s t a × Inner s t b × Inner s t c
IsFormed s t boolean (uf_constant x) = ⊥
IsFormed s t boolean (uf_application f ts) = ⊥
IsFormed s t boolean (uf_ite a b c) = ⊥
IsFormed s t boolean (arithmetic x) = ⊥
IsFormed s t boolean (arithmetic_predicate x e strict) = Unit
IsFormed s t boolean (array_const a) = ⊥
IsFormed s t boolean (array_store a b c) = ⊥
IsFormed s t boolean (theory_equality x l r) = Unit
IsFormed s t boolean (bits_of ts) = ⊥
IsFormed s t (bit_vec w) (bits_of ts) = (length ts ≡ w) × (0 < w) × All (Inner s t) ts
IsFormed s t (bit_vec w) _ = ⊥
IsFormed s t _ kind = IsAbstract kind

-- The constants come first, every node is formed, and no node is there twice.
pub record IsGood (s : TermStore) : Type 0 where
  pub first : Holds s true_term boolean (bool_ true)
  pub second : Holds s false_term boolean (bool_ false)
  pub formed :
      (t : ℕ) (sort : Sort) (kind : TermKind) → Holds s t sort kind → IsFormed s t sort kind
  pub distinct :
      (t u : ℕ) (n : TermNode) → lookup s.nodes t ≡ some n → lookup s.nodes u ≡ some n → t ≡ u

-- The later store is well formed and still has the nodes, under the same numbers.
pub record Extends (s s' : TermStore) : Type 0 where
  pub good : IsGood s'
  pub kept : (t : ℕ) (n : TermNode) → lookup s.nodes t ≡ some n → lookup s'.nodes t ≡ some n

pub Extends-refl : (s : TermStore) → IsGood s → Extends s s
Extends-refl s g = record { good = g; kept = λ t n h. h }

pub Extends-trans : (s s' s'' : TermStore) → Extends s s' → Extends s' s'' → Extends s s''
Extends-trans s s' s'' e f = record { good = f.good; kept = λ t n h. f.kept t n (e.kept t n h) }
