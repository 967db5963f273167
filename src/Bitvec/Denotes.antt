-- ===== src/Bitvec/Denotes.antt =====
-- What the operations of src/smt/bitvec.rs make, by what the results evaluate to.
use satrap.Prelude.{ℕ, Bool, List, [], ◌∷◌, length, map, ◌≡◌, sym, ap, ◌∙◌, subst, All}
use satrap.Terms.{bit_vec, bits_of, TermStore, Outcome, ok, err}
use satrap.Terms.Good.{HasSort, Inner, IsGood, Extends}
use satrap.Terms.Post.{Post, returns, full, no_symbols, Grows}
use satrap.Terms.Value.{AreTerms}
use satrap.Terms.Eval.{evaluate_bitvec}
use satrap.Terms.Reading.{node_value, node_value-Reads}
use satrap.Terms.Evaluated.{evaluate_bitvec_reads, Reads-node_value}
use satrap.Bitvec.Number.{number}
use satrap.Bitvec.Access.{IsWord}

-- The term is a bit vector of the width, and its bits evaluate to the number.
abbrev pub Denotes : (ℕ → Bool) → TermStore → ℕ → ℕ → ℕ → Type 0
Denotes ρ s t w v =
    HasSort s t (bit_vec w)
    × ((bs : List Bool) × (evaluate_bitvec s ρ t ≡ ok bs) × (length bs ≡ w) × (number bs ≡ v))

-- A call that returns such a term, or finds the store full.
abbrev pub MakesWord : (ℕ → Bool) → TermStore → ℕ → ℕ → Outcome ℕ × TermStore → Type 0
MakesWord ρ s w v r = Post (λ u s'. Extends s s' × Denotes ρ s' u w v) r

module _ (ρ : ℕ → Bool) where
  pub IsWord-Denotes :
      (s : TermStore) (t w v : ℕ) → IsGood s → IsWord ρ (node_value ρ s) s t w v → Denotes ρ s t w v
  IsWord-Denotes s t w v g h = (
    (bits_of h.bits, h.node),
    (
      h.word.bits,
      evaluate_bitvec_reads ρ (node_value ρ s) s g (node_value-Reads ρ s g) t w h.bits h.word.bits
          h.node h.word.terms,
      h.word.size,
      h.word.value,
    ),
  )

  pub makes_word :
      (s : TermStore) (w v : ℕ) (r : Outcome ℕ × TermStore)
      → ((V : ℕ → Bool) → Grows s (λ u s'. IsWord ρ V s' u w v) r)
      → MakesWord ρ s w v r
  makes_word s w v r h = go r (h (node_value ρ r.1))
    where
      go :
          (r : Outcome ℕ × TermStore)
          → Grows s (λ u s'. IsWord ρ (node_value ρ r.1) s' u w v) r
          → MakesWord ρ s w v r
      go _ (returns {a = a} {s = s'} (e, k)) = returns (e, IsWord-Denotes s' a w v e.good k)
      go _ (full h) = full h
      go _ (no_symbols h) = no_symbols h

  -- The values of the bits, which are Boolean terms.
  bits_terms :
      (V : ℕ → Bool) (s : TermStore) (t : ℕ) (ts : List ℕ)
      → IsGood s
      → All (Inner s t) ts
      → AreTerms ρ V s ts (map (node_value ρ s) ts)
  bits_terms V s t [] g h = tt
  bits_terms V s t (a ∷ ts) g (h, k) = (
    record { sort = h.1; value = λ r. Reads-node_value ρ V s a g h.1 r },
    bits_terms V s t ts g k,
  )

  module _ (V : ℕ → Bool) (s : TermStore) (g : IsGood s) where
    pub Denotes-IsWord : (t w v : ℕ) → Denotes ρ s t w v → IsWord ρ V s t w v
    Denotes-IsWord t w v ((bits_of ts, h), (bs, e, size, value)) =
        let (width, pos, inner) = g.formed t (bit_vec w) (bits_of ts) h in
        let terms = bits_terms V s t ts g inner in
        let real = bits_terms (node_value ρ s) s t ts g inner in
        let same : map (node_value ρ s) ts ≡ bs =
          ap (λ o. elim o [ ok x ↦ x | err x ↦ [] ])
            (sym (
                evaluate_bitvec_reads ρ (node_value ρ s) s g (node_value-Reads ρ s g) t w ts _ h
                  real)
              ∙ e) in
        record {
          bits = ts;
          node = h;
          word = record {
            bits = bs;
            terms = subst (λ xs. AreTerms ρ V s ts xs) same terms;
            size = size;
            value = value;
          };
        }
    Denotes-IsWord t w v ((kind, h), more) = elim (g.formed t (bit_vec w) kind h) [ ]
