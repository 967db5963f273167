-- ===== src/Terms/Evaluated.antt =====
-- `evaluate_bool` of src/smt/term.rs ends without a panic on Boolean terms of a well-formed store,
-- with the value that the nodes give the term.
use satrap.Prelude.{
  ℕ, zero, suc, ◌<◌, Bool, true, not, Option, none, some, List, [], ◌∷◌, any, all, ◌==◌,
  if◌then◌else◌, length, ◌≡◌, refl, sym, ap, ◌∙◌, subst, arith, All, Bool-cases, inl, inr,
}
use satrap.Terms.{
  boolean, bit_vec, TermKind, bool_, atom, not_of, and_of, or_of, xor_of, iff_of, ite_of,
  arithmetic_predicate, theory_equality, bits_of, TermStore, Outcome, ok, err, lookup, sort_of,
  require_bool, bitvec_bits,
}
use satrap.Terms.Good.{Holds, HasSort, Inner, IsFormed, IsGood}
use satrap.Terms.Intern.{lookup-lt}
use satrap.Terms.Value.{meaning, Reads, AreTerms}
use satrap.Terms.Eval.{
  Memo, recall, Run, run_then, eval_all, eval_any, eval_kind, eval_node, recalled, evaluate,
  evaluate_bool, evaluate_each, evaluate_bitvec,
}
use satrap.Terms.Reading.{node_value, node_value-Reads}

module _ (ρ V : ℕ → Bool) (s : TermStore) (g : IsGood s) (r : Reads ρ V s) where
  -- The memo holds values of terms.
  abbrev Knows : Memo → Type 0
  Knows m = All (λ e. e.1 ≡ V e.0) m

  recall-some : (t : ℕ) (m : Memo) (b : Bool) → Knows m → recall t m ≡ some b → b ≡ V t
  recall-some t [] b h e = absurd (ground (arith, e))
  recall-some t (x ∷ m) b (p, h) e = elim (Bool-cases (x.0 == t)) [
    | inl k ↦
        let same : x.0 ≡ t = ground arith in
        let value : x.1 ≡ b = ground (arith, rw k at e) in sym value ∙ p ∙ ap V same
    | inr k ↦ recall-some t m b h (rw k at e)
  ]

  -- The run gives the value and leaves a memo that holds values of terms.
  abbrev Gives {ℓ} : {A : Type ℓ} → A → Outcome A × Memo → Type ℓ
  Gives a x = (m : Memo) × (x ≡ (ok a, m)) × Knows m

  Gives-then {ℓ κ} :
      {A : Type ℓ} {B : Type κ} (a : A) (b : B) (x : Outcome A × Memo) (f : A → Run B)
      → Gives a x
      → ((m : Memo) → Knows m → Gives b (f a m))
      → Gives b (run_then x f)
  Gives-then a b x f (m, e, h) next = rw e (next m h)

  module _ (t : ℕ) (go : ℕ → Run Bool)
      (ih : (a : ℕ) → Inner s t a → (m : Memo) → Knows m → Gives (V a) (go a m)) where
    eval_all_lem :
        (ts : List ℕ) (m : Memo)
        → All (Inner s t) ts
        → Knows m
        → Gives (all V ts) (eval_all go ts m)
    unfolding eval_all
    eval_all_lem [] m h k = (m, refl, k)
    eval_all_lem (a ∷ ts) m (p, h) k =
        Gives-then (V a) (all V (a ∷ ts)) (go a m) _ (ih a p m k) (λ m' k'.
          elim (Bool-cases (V a)) [
            | inl e ↦ rw e (eval_all_lem ts m' h k')
            | inr e ↦ rw e (m', refl, k')
          ])

    eval_any_lem :
        (ts : List ℕ) (m : Memo)
        → All (Inner s t) ts
        → Knows m
        → Gives (any V ts) (eval_any go ts m)
    unfolding eval_any
    eval_any_lem [] m h k = (m, refl, k)
    eval_any_lem (a ∷ ts) m (p, h) k =
        Gives-then (V a) (any V (a ∷ ts)) (go a m) _ (ih a p m k) (λ m' k'.
          elim (Bool-cases (V a)) [
            | inl e ↦ rw e (m', refl, k')
            | inr e ↦ rw e (eval_any_lem ts m' h k')
          ])

    eval_kind_lem :
        (kind : TermKind) (m : Memo)
        → IsFormed s t boolean kind
        → Knows m
        → Gives (meaning ρ V kind) (eval_kind go ρ kind m)
    unfolding eval_kind
    eval_kind_lem (bool_ b) m h k = (m, refl, k)
    eval_kind_lem (atom x) m h k = (m, refl, k)
    eval_kind_lem (theory_equality x l q) m h k = (m, refl, k)
    eval_kind_lem (arithmetic_predicate x e strict) m h k = (m, refl, k)
    eval_kind_lem (not_of a) m h k =
        Gives-then (V a) (not (V a)) (go a m) _ (ih a h m k) (λ m' k'. (m', refl, k'))
    eval_kind_lem (and_of ts) m h k = eval_all_lem ts m h k
    eval_kind_lem (or_of ts) m h k = eval_any_lem ts m h k
    eval_kind_lem (xor_of a b) m (h, h') k =
        Gives-then (V a) _ (go a m) _ (ih a h m k)
          (λ m' k'. Gives-then (V b) _ (go b m') _ (ih b h' m' k') (λ m'' k''. (m'', refl, k'')))
    eval_kind_lem (iff_of a b) m (h, h') k =
        Gives-then (V a) _ (go a m) _ (ih a h m k)
          (λ m' k'. Gives-then (V b) _ (go b m') _ (ih b h' m' k') (λ m'' k''. (m'', refl, k'')))
    eval_kind_lem (ite_of a b c) m (h, h', h'') k =
        Gives-then (V a) (if V a then V b else V c) (go a m) _ (ih a h m k) (λ m' k'.
          elim (Bool-cases (V a)) [ inl e ↦ rw e (ih b h' m' k') | inr e ↦ rw e (ih c h'' m' k') ])
    eval_kind_lem kind m h k = elim h [ ]

  evaluate_lem :
      (fuel t : ℕ) (m : Memo)
      → t < fuel
      → HasSort s t boolean
      → Knows m
      → Gives (V t) (evaluate s ρ fuel t m)
  unfolding evaluate
  evaluate_lem zero t m lt h k = elim lt [ ]
  evaluate_lem (suc fuel) t m lt (kind, h) k =
      go (recall t m) refl
        (λ a inner m' k'. evaluate_lem fuel a m' (let below = inner.0 in omega arith) inner.1 k')
    where
      go :
          (o : Option Bool)
          → recall t m ≡ o
          → ((a : ℕ) → Inner s t a → (m' : Memo) → Knows m' → Gives (V a) (evaluate s ρ fuel a m'))
          → Gives (V t) (recalled (eval_node (evaluate s ρ fuel) ρ t (lookup s.nodes t)) o m)
      go (some b) e ih = (m, ap (λ x. (ok x, m)) (recall-some t m b k e), k)
      go none e ih = rw h (
          Gives-then (meaning ρ V kind) (V t) _ _
            (eval_kind_lem t (evaluate s ρ fuel) ih kind m (g.formed t boolean kind h) k)
            (λ m' k'. (
              (t, meaning ρ V kind) ∷ m',
              ap (λ b. (ok b, (t, meaning ρ V kind) ∷ m')) (sym (r t kind h)),
              (sym (r t kind h), k'),
            )))

  evaluate_each_lem :
      (ts : List ℕ) (bs : List Bool) (m : Memo)
      → AreTerms ρ V s ts bs
      → Knows m
      → Gives bs (evaluate_each s ρ ts m)
  unfolding evaluate_each
  evaluate_each_lem [] [] m h k = (m, refl, k)
  evaluate_each_lem [] (b ∷ bs) m h k = elim h [ ]
  evaluate_each_lem (t ∷ ts) [] m h k = elim h [ ]
  evaluate_each_lem (t ∷ ts) (b ∷ bs) m (p, h) k =
      let start : Gives b (evaluate s ρ (length s.nodes) t m) =
        subst (λ x. Gives x (evaluate s ρ (length s.nodes) t m)) (p.value r)
          (evaluate_lem (length s.nodes) t m (lookup-lt s.nodes t _ p.sort.1) p.sort k) in
      Gives-then b (b ∷ bs) _ _ start (λ m' k'.
        Gives-then bs (b ∷ bs) _ _ (evaluate_each_lem ts bs m' h k') (λ m'' k''. (m'', refl, k'')))

  pub evaluate_bool_reads : (t : ℕ) → HasSort s t boolean → evaluate_bool s ρ t ≡ ok (V t)
  unfolding evaluate_bool require_bool sort_of
  evaluate_bool_reads t (kind, h) =
      let (m, e, k) = evaluate_lem (length s.nodes) t [] (lookup-lt s.nodes t _ h) (kind, h) tt in
      rw (h, e) refl

  pub evaluate_bitvec_reads :
      (t : ℕ) (w : ℕ) (ts : List ℕ) (bs : List Bool)
      → Holds s t (bit_vec w) (bits_of ts)
      → AreTerms ρ V s ts bs
      → evaluate_bitvec s ρ t ≡ ok bs
  unfolding evaluate_bitvec bitvec_bits
  evaluate_bitvec_reads t w ts bs h k =
      let (m, e, known) = evaluate_each_lem ts bs [] k tt in rw h (ap (λ r. r.0) e)

-- On a well-formed store `evaluate_bool` gives every Boolean term a value: values that fit the
-- nodes, so that each term has the value that its connective makes of the values of the terms in it.
pub evaluate_bool_total :
    (ρ : ℕ → Bool) (s : TermStore) (t : ℕ)
    → IsGood s
    → HasSort s t boolean
    → (evaluate_bool s ρ t ≡ ok (node_value ρ s t)) × Reads ρ (node_value ρ s) s
evaluate_bool_total ρ s t g h = (
  evaluate_bool_reads ρ (node_value ρ s) s g (node_value-Reads ρ s g) t h,
  node_value-Reads ρ s g,
)

-- Any values that fit the nodes are the ones that are evaluated.
pub Reads-node_value :
    (ρ V : ℕ → Bool) (s : TermStore) (t : ℕ)
    → IsGood s
    → HasSort s t boolean
    → Reads ρ V s
    → V t ≡ node_value ρ s t
Reads-node_value ρ V s t g h r =
    let same = sym (evaluate_bool_reads ρ V s g r t h) ∙ (evaluate_bool_total ρ s t g h).0 in
    ap (λ o. elim o [ ok b ↦ b | err x ↦ true ]) same
