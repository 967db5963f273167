-- ===== src/Terms/Negation.antt =====
-- `not` of src/smt/term.rs.
use satrap.Prelude.{ℕ, Bool, not, some, ◌≡◌, refl, sym, ap, ◌∙◌, arith, Option-cases, inl, inr}
use satrap.Terms.{boolean, TermKind, bool_, not_of, TermStore}
use satrap.Terms.Good.{IsGood, Extends-refl}
use satrap.Terms.Post.{returns, Grows}
use satrap.Terms.Value.{
  Reads, IsTerm, bool_constant-IsTerm, intern_boolean, IsTerm-Inner, require_bool_then,
  node_at_then,
}
use satrap.Terms.Build.{as_bool, as_not, not_}

pub as_bool-some : (kind : TermKind) (b : Bool) → as_bool kind ≡ some b → kind ≡ bool_ b
as_bool-some (bool_ c) b h = ground (arith, h)
as_bool-some _ b h = absurd (ground (arith, h))

pub as_not-some : (kind : TermKind) (a : ℕ) → as_not kind ≡ some a → kind ≡ not_of a
as_not-some (not_of c) a h = ground (arith, h)
as_not-some _ b h = absurd (ground (arith, h))

pub not_flip : (a b : Bool) → b ≡ not a → a ≡ not b
not_flip a b h = ground (arith, h)

module _ (ρ V : ℕ → Bool) where
  -- The value of a term whose node is a constant, and of a term whose node is a negation.
  pub constant_value :
      (s : TermStore) (t : ℕ) (x b : Bool) (h : IsTerm ρ V s t x)
      → as_bool h.sort.0 ≡ some b
      → Reads ρ V s
      → x ≡ b
  constant_value s t x b h k r =
      sym (h.value r) ∙ r t h.sort.0 h.sort.1 ∙ rw (as_bool-some h.sort.0 b k) refl

  -- `not` gives a term with the opposite value.
  pub not_-Grows :
      (s : TermStore) (t : ℕ) (x : Bool)
      → IsGood s
      → IsTerm ρ V s t x
      → Grows s (λ u s'. IsTerm ρ V s' u (not x)) (not_ t s)
  unfolding not_
  not_-Grows s t x g h = rw (require_bool_then ρ V s t _ h.sort) (
      rw (node_at_then ρ V s t _ _ h.sort.1) (elim (Option-cases (as_bool h.sort.0)) [
        | inl open_ ↦ rw open_ (elim (Option-cases (as_not h.sort.0)) [
          | inl positive ↦ rw positive (
              intern_boolean ρ V s (not_of t) (not x) g (IsTerm-Inner ρ V s t x h)
                (λ r. ap not (h.value r)))
          | inr (a, negation) ↦ rw negation (returns (Extends-refl s g, inner a negation))
        ])
        | inr (b, constant) ↦ rw constant (
            returns (
              Extends-refl s g,
              record {
                sort = (bool_constant-IsTerm ρ V s (not b) g).sort;
                value = λ r.
                    (bool_constant-IsTerm ρ V s (not b) g).value r
                    ∙ ap not (sym (constant_value s t x b h constant r));
              },
            ))
      ]))
    where
      inner : (a : ℕ) → as_not h.sort.0 ≡ some a → IsTerm ρ V s a (not x)
      inner a k =
          let same : h.sort.0 ≡ not_of a = as_not-some h.sort.0 a k in
          record {
            sort = (rw same at (g.formed t boolean h.sort.0 h.sort.1)).1;
            value = λ r. not_flip (V a) x (sym (h.value r) ∙ r t h.sort.0 h.sort.1 ∙ rw same refl);
          }
