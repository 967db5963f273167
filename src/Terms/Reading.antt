-- ===== src/Terms/Reading.antt =====
-- Every well-formed term store of src/smt/term.rs can be read: its nodes give values to its terms.
use satrap.Prelude.{
  ℕ, zero, suc, ◌+◌, ◌<◌, ◌≤◌, Bool, false, not, none, some, List, [], ◌∷◌, ◌++◌, any, all, length,
  length-append, get_or, get_or-append_end, get_or-append_left, ◌≡◌, refl, sym, ap, ◌∙◌, subst,
  arith, All,
}
use satrap.Terms.{
  Sort, boolean, TermKind, bool_, atom, not_of, and_of, or_of, xor_of, iff_of, ite_of, uf_constant,
  uf_application, uf_ite, arithmetic, arithmetic_predicate, array_const, array_store,
  theory_equality, bits_of, TermNode, TermStore, lookup,
}
use satrap.Terms.Good.{Inner, IsFormed, IsGood}
use satrap.Terms.Value.{meaning, Reads}

-- The values of the nodes, one after the other, onto those of the nodes before.
abbrev values : (ℕ → Bool) → List Bool → List TermNode → List Bool
values ρ acc [] = acc
values ρ acc (n ∷ ns) = values ρ (acc ++ meaning ρ (λ t. get_or acc t false) n.kind ∷ []) ns

-- The value of each term of the store, under the values of the symbols.
abbrev pub node_value : (ℕ → Bool) → TermStore → ℕ → Bool
node_value ρ s t = get_or (values ρ [] s.nodes) t false

values_keep :
    (ρ : ℕ → Bool) (acc : List Bool) (ns : List TermNode) (i : ℕ)
    → i < length acc
    → get_or (values ρ acc ns) i false ≡ get_or acc i false
values_keep ρ acc [] i h = refl
values_keep ρ acc (n ∷ ns) i h =
    let x = meaning ρ (λ t. get_or acc t false) n.kind in
    let longer : length (acc ++ x ∷ []) ≡ length acc + 1 = length-append acc (x ∷ []) in
    values_keep ρ (acc ++ x ∷ []) ns i (omega arith) ∙ get_or-append_left acc (x ∷ []) i false h

module _ (ρ V W : ℕ → Bool) (s : TermStore) (t : ℕ) (same : (a : ℕ) → a < t → V a ≡ W a) where
  same_all : (ts : List ℕ) → All (Inner s t) ts → (all V ts ≡ all W ts) × (any V ts ≡ any W ts)
  same_all [] h = (refl, refl)
  same_all (a ∷ ts) (h, k) =
      let (p, q) = same_all ts k in (rw (same a h.0, p) refl, rw (same a h.0, q) refl)

  -- The meaning of a formed node only looks at earlier terms.
  meaning-local :
      (sort : Sort) (kind : TermKind) → IsFormed s t sort kind → meaning ρ V kind ≡ meaning ρ W kind
  meaning-local boolean (not_of a) h = ap not (same a h.0)
  meaning-local boolean (and_of ts) h = (same_all ts h).0
  meaning-local boolean (or_of ts) h = (same_all ts h).1
  meaning-local boolean (xor_of a b) (h, k) = rw (same a h.0, same b k.0) refl
  meaning-local boolean (iff_of a b) (h, k) = rw (same a h.0, same b k.0) refl
  meaning-local boolean (ite_of a b c) (h, k, l) = rw (same a h.0, same b k.0, same c l.0) refl
  meaning-local sort (bool_ b) h = refl
  meaning-local sort (atom x) h = refl
  meaning-local sort (arithmetic_predicate x e strict) h = refl
  meaning-local sort (theory_equality x l r) h = refl
  meaning-local sort (uf_constant x) h = refl
  meaning-local sort (uf_application f ts) h = refl
  meaning-local sort (uf_ite a b c) h = refl
  meaning-local sort (arithmetic x) h = refl
  meaning-local sort (array_const a) h = refl
  meaning-local sort (array_store a b c) h = refl
  meaning-local sort (bits_of ts) h = refl
  meaning-local sort kind h = elim h [ ]

values_read :
    (ρ : ℕ → Bool) (s : TermStore) (acc : List Bool) (ns : List TermNode) (j : ℕ) (n : TermNode)
    → lookup ns j ≡ some n
    → IsFormed s (length acc + j) n.sort n.kind
    → get_or (values ρ acc ns) (length acc + j) false
      ≡ meaning ρ (λ t. get_or (values ρ acc ns) t false) n.kind
values_read ρ s acc [] j n h f = absurd (ground (arith, h))
values_read ρ s acc (m ∷ ns) zero n h f =
    let x = meaning ρ (λ t. get_or acc t false) m.kind in
    let longer : length (acc ++ x ∷ []) ≡ length acc + 1 = length-append acc (x ∷ []) in
    let here : length acc + 0 ≡ length acc = omega arith in
    let same : m ≡ n = ground (arith, h) in
    rw here (
      values_keep ρ (acc ++ x ∷ []) ns (length acc) (omega arith)
      ∙ get_or-append_end acc x [] false
      ∙ ap (λ (k : TermNode). meaning ρ (λ t. get_or acc t false) k.kind) same
      ∙ meaning-local ρ _ _ s (length acc)
          (λ a below. sym (
            values_keep ρ (acc ++ x ∷ []) ns a (omega arith)
            ∙ get_or-append_left acc (x ∷ []) a false below))
          n.sort n.kind (subst (λ k. IsFormed s k n.sort n.kind) here f))
values_read ρ s acc (m ∷ ns) (suc j) n h f =
    let x = meaning ρ (λ t. get_or acc t false) m.kind in
    let longer : length (acc ++ x ∷ []) ≡ length acc + 1 = length-append acc (x ∷ []) in
    let there : length (acc ++ x ∷ []) + j ≡ length acc + suc j = omega arith in
    subst
      (λ k.
        get_or (values ρ (acc ++ x ∷ []) ns) k false
        ≡ meaning ρ (λ t. get_or (values ρ (acc ++ x ∷ []) ns) t false) n.kind)
      there
      (values_read ρ s (acc ++ x ∷ []) ns j n h
        (subst (λ k. IsFormed s k n.sort n.kind) (sym there) f))

-- Each node has its meaning, also where it is not Boolean.
pub node_value_lem :
    (ρ : ℕ → Bool) (s : TermStore) (t : ℕ) (n : TermNode)
    → IsGood s
    → lookup s.nodes t ≡ some n
    → node_value ρ s t ≡ meaning ρ (node_value ρ s) n.kind
node_value_lem ρ s t n g h =
    let here : 0 + t ≡ t = omega arith in
    subst (λ k. get_or (values ρ [] s.nodes) k false ≡ meaning ρ (node_value ρ s) n.kind) here
      (values_read ρ s [] s.nodes t n h
        (subst (λ k. IsFormed s k n.sort n.kind) (sym here) (g.formed t n.sort n.kind h)))

pub node_value-Reads : (ρ : ℕ → Bool) (s : TermStore) → IsGood s → Reads ρ (node_value ρ s) s
node_value-Reads ρ s g t kind h = node_value_lem ρ s t _ g h

length-values :
    (ρ : ℕ → Bool) (acc : List Bool) (ns : List TermNode)
    → length (values ρ acc ns) ≡ length acc + length ns
length-values ρ acc [] = omega arith
length-values ρ acc (n ∷ ns) =
    let x = meaning ρ (λ t. get_or acc t false) n.kind in
    let longer : length (acc ++ x ∷ []) ≡ length acc + 1 = length-append acc (x ∷ []) in
    length-values ρ (acc ++ x ∷ []) ns ∙ omega arith

get_or-end : (xs : List Bool) (i : ℕ) → length xs ≤ i → get_or xs i false ≡ false
get_or-end [] i h = refl
get_or-end (x ∷ xs) zero h = absurd (omega arith)
get_or-end (x ∷ xs) (suc i) h = get_or-end xs i (omega arith)

lookup-none : (ns : List TermNode) (i : ℕ) → lookup ns i ≡ none → length ns ≤ i
lookup-none [] i h = omega arith
lookup-none (n ∷ ns) zero h = absurd (ground (arith, h))
lookup-none (n ∷ ns) (suc i) h = let k = lookup-none ns i h in omega arith

-- What is no term has the value false.
pub node_value_end :
    (ρ : ℕ → Bool) (s : TermStore) (t : ℕ) → lookup s.nodes t ≡ none → node_value ρ s t ≡ false
node_value_end ρ s t h =
    get_or-end (values ρ [] s.nodes) t
      (let k = length-values ρ [] s.nodes in let m = lookup-none s.nodes t h in omega arith)
