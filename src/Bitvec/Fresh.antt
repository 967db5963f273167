-- ===== src/Bitvec/Fresh.antt =====
-- `new` of src/smt/term.rs and `fresh_bitvec` of src/smt/bitvec.rs: the first well-formed store, and
-- variables in it.
use satrap.Prelude.{
  ℕ, zero, suc, ◌≤◌, ◌<◌, Bool, true, false, List, [], ◌∷◌, length, leb, none, some, ◌≡◌, refl, sym,
  ap, ◌∙◌, subst, arith, All-mono, Bool-cases, inl, inr,
}
use satrap.Terms.{
  Sort, boolean, bit_vec, TermKind, bool_, atom, bits_of, TermNode, TermStore, new_store,
  fresh_symbol, fresh_bool_atom, make_bitvec, u32_limit, lookup,
}
use satrap.Terms.Good.{Holds, HasSort, Inner, IsFormed, IsGood, Extends, Extends-refl}
use satrap.Terms.Post.{returns, no_symbols, Grows, chain, mono}
use satrap.Terms.Intern.{intern-Post, lookup-lt, HasSort-mono, IsFormed-mono}
use satrap.Terms.Value.{require_bools_then}
use satrap.Terms.Flatten.{Booleans}
use satrap.Bitvec.{max_bitvector_width}
use satrap.Bitvec.Products.{check_width_fits}
use satrap.Bitvec.Literals.{fresh_atoms, fresh_bitvec}

unwrap : (a b : TermNode) → some a ≡ some b → a ≡ b
unwrap a b h = ap (λ o. elim o [ some n ↦ n | none ↦ a ]) h

new_store-IsFormed :
    (t : ℕ) (sort : Sort) (kind : TermKind)
    → Holds new_store t sort kind
    → IsFormed new_store t sort kind
new_store-IsFormed zero sort kind h =
    subst (λ (n : TermNode). IsFormed new_store 0 n.sort n.kind)
      (unwrap _ (record { sort = sort; kind = kind }) h) tt
new_store-IsFormed (suc zero) sort kind h =
    subst (λ (n : TermNode). IsFormed new_store 1 n.sort n.kind)
      (unwrap _ (record { sort = sort; kind = kind }) h) tt
new_store-IsFormed (suc (suc t)) sort kind h = absurd (ground (arith, h))

constant_in : TermNode → Bool
constant_in n = elim n.kind [ bool_ b ↦ b | other ↦ false ]

new_distinct :
    (t u : ℕ) (n : TermNode)
    → lookup new_store.nodes t ≡ some n
    → lookup new_store.nodes u ≡ some n
    → t ≡ u
unfolding constant_in
new_distinct zero zero n h k = refl
new_distinct zero (suc zero) n h k =
    let clash : true ≡ false = ap constant_in (unwrap _ n h ∙ sym (unwrap _ n k)) in
    absurd (ground (arith, clash))
new_distinct zero (suc (suc u)) n h k = absurd (ground (arith, k))
new_distinct (suc zero) zero n h k =
    let clash : false ≡ true = ap constant_in (unwrap _ n h ∙ sym (unwrap _ n k)) in
    absurd (ground (arith, clash))
new_distinct (suc zero) (suc zero) n h k = refl
new_distinct (suc zero) (suc (suc u)) n h k = absurd (ground (arith, k))
new_distinct (suc (suc t)) u n h k = absurd (ground (arith, h))

pub new_store-IsGood : IsGood new_store
new_store-IsGood = record {
  first = refl;
  second = refl;
  formed = new_store-IsFormed;
  distinct = new_distinct;
}

-- The symbols of a store do not matter for its form.
with_symbol : (s : TermStore) (n : ℕ) → IsGood s → Extends s (record s { next_symbol = n })
with_symbol s n g = record {
  good = record {
    first = g.first;
    second = g.second;
    formed = λ t sort kind h.
        IsFormed-mono s (record s { next_symbol = n }) (λ u m k. k) t sort kind
          (g.formed t sort kind h);
    distinct = g.distinct;
  };
  kept = λ t m h. h;
}

fresh_symbol-Grows : (s : TermStore) → IsGood s → Grows s (λ x s'. Unit) (fresh_symbol s)
unfolding fresh_symbol
fresh_symbol-Grows s g = elim (Bool-cases (leb u32_limit (suc s.next_symbol))) [
  | inl e ↦ rw e (no_symbols (ground arith))
  | inr e ↦ rw e (returns (with_symbol s (suc s.next_symbol) g, tt))
]

fresh_bool_atom-Grows :
    (s : TermStore) → IsGood s → Grows s (λ t s'. HasSort s' t boolean) (fresh_bool_atom s)
unfolding fresh_bool_atom
fresh_bool_atom-Grows s g = chain (fresh_symbol-Grows s g) (λ x s₁ e₁ u.
    mono (intern-Post s₁ e₁.good (record { sort = boolean; kind = atom x }) tt)
      (λ t s₂ h. (h.0, (atom x, h.1))))

fresh_atoms-Grows :
    (s : TermStore) (n : ℕ)
    → IsGood s
    → Grows s (λ ts s'. Booleans s' ts × (length ts ≡ n)) (fresh_atoms n s)
unfolding fresh_atoms
fresh_atoms-Grows s zero g = returns (Extends-refl s g, (tt, refl))
fresh_atoms-Grows s (suc n) g = chain (fresh_bool_atom-Grows s g) (λ t s₁ e₁ h.
    chain (fresh_atoms-Grows s₁ n e₁.good) (λ ts s₂ e₂ k.
      returns
        (Extends-refl s₂ e₂.good, ((HasSort-mono s₁ s₂ e₂.kept t boolean h, k.0), ap suc k.1))))

bits-HasSort :
    (s : TermStore) (ts : List ℕ) (w : ℕ)
    → IsGood s
    → 0 < w
    → w < u32_limit
    → Booleans s ts
    → length ts ≡ w
    → Grows s (λ t s'. HasSort s' t (bit_vec w)) (make_bitvec ts s)
unfolding make_bitvec
bits-HasSort s [] w g pos lt h size = absurd (omega arith)
bits-HasSort s (t ∷ ts) w g pos lt h size =
    let fits : leb u32_limit (length (t ∷ ts)) ≡ false = ground arith in
    let inner =
      All-mono _ (Inner s (length s.nodes)) (λ a k. (lookup-lt s.nodes a _ k.1, k)) (t ∷ ts) h in
    rw (require_bools_then (λ x. true) (λ x. true) s (t ∷ ts) _ h) (
      rw fits (
        mono
          (intern-Post s g (record { sort = bit_vec (length (t ∷ ts)); kind = bits_of (t ∷ ts) })
            (refl, omega arith, inner))
          (λ u s' k. (k.0, subst (λ n. HasSort s' u (bit_vec n)) size (bits_of (t ∷ ts), k.1)))))

-- `fresh_bitvec` of an allowed width makes a bit vector of that width in a well-formed store, and
-- keeps the terms that are there.
pub fresh_bitvec-Grows :
    (s : TermStore) (w : ℕ)
    → IsGood s
    → 0 < w
    → w ≤ max_bitvector_width
    → Grows s (λ t s'. HasSort s' t (bit_vec w)) (fresh_bitvec w s)
unfolding fresh_bitvec
fresh_bitvec-Grows s w g pos le = rw (check_width_fits s w pos le) (
    chain (fresh_atoms-Grows s w g)
      (λ ts s₁ e₁ h. bits-HasSort s₁ ts w e₁.good pos (omega arith) h.0 h.1))
