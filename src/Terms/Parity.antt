-- ===== src/Terms/Parity.antt =====
-- `xor` and `iff` of src/smt/term.rs.
use satrap.Prelude.{
  ℕ, Bool, true, false, not, ◌||◌, some, ◌==◌, leb, beq, if◌then◌else◌, ◌≡◌, refl, sym, ap, ◌∙◌,
  subst, arith, Bool-cases, Option-cases, inl, inr,
}
use satrap.Terms.{boolean, TermKind, not_of, xor_of, iff_of, TermStore, pure, intern}
use satrap.Terms.Good.{Holds, Inner, IsFormed, IsGood}
use satrap.Terms.Post.{Grows}
use satrap.Terms.Value.{
  Reads, meaning, IsTerm, IsTerm-cong, Grows-cong, pure-Grows, bool_constant-IsTerm, intern_boolean,
  IsTerm-Inner, require_bool_then, node_at_then,
}
use satrap.Terms.Negation.{not_flip, constant_value, not_-Grows}
use satrap.Terms.Build.{
  as_bool, not_, is_negation_of, are_complements, ordered_pair, parity_of, parity, xor, iff,
}

-- Whether the values agree, for the unit true, and whether they differ, for false.
abbrev pub agree : Bool → Bool → Bool → Bool
agree true x y = beq x y
agree false x y = not (beq x y)

agree_self : (c x : Bool) → agree c x x ≡ c
agree_self true true = refl
agree_self true false = refl
agree_self false true = refl
agree_self false false = refl

agree_opposite : (c x y : Bool) → x ≡ not y → agree c x y ≡ not c
agree_opposite c x y h = rw h (go c y)
  where
    go : (c y : Bool) → agree c (not y) y ≡ not c
    go true true = refl
    go true false = refl
    go false true = refl
    go false false = refl

agree_left : (c x y : Bool) → agree c x y ≡ (if beq x c then y else not y)
agree_left true true y = refl
agree_left true false y = refl
agree_left false true y = refl
agree_left false false true = refl
agree_left false false false = refl

pub agree_comm : (c x y : Bool) → agree c x y ≡ agree c y x
agree_comm c true true = refl
agree_comm c false false = refl
agree_comm true true false = refl
agree_comm true false true = refl
agree_comm false true false = refl
agree_comm false false true = refl

module _ (ρ V : ℕ → Bool) (s : TermStore) (g : IsGood s) where
  is_negation_of_value :
      (t u : ℕ) (kind : TermKind)
      → Holds s t boolean kind
      → is_negation_of kind u ≡ true
      → Reads ρ V s
      → V t ≡ not (V u)
  is_negation_of_value t u (not_of a) h k r =
      let same : a ≡ u = ground arith in r t _ h ∙ ap (λ x. not (V x)) same
  is_negation_of_value t u kind h k r = absurd (ground (arith, k))

  module _ (c : Bool) (make : ℕ → ℕ → TermKind)
      (formed : (t a b : ℕ) → Inner s t a → Inner s t b → IsFormed s t boolean (make a b))
      (means : (a b : ℕ) → meaning ρ V (make a b) ≡ agree c (V a) (V b)) where
    module _ (l r : ℕ) (x y : Bool) (hl : IsTerm ρ V s l x) (hr : IsTerm ρ V s r y) where
      ordered :
          Grows s
            (λ u s'. IsTerm ρ V s' u (agree c x y))
            (intern boolean (make (ordered_pair l r).0 (ordered_pair l r).1) s)
      ordered = elim (Bool-cases (leb l r)) [
        | inl e ↦ rw e (
            intern_boolean ρ V s (make l r) _ g
              (formed _ l r (IsTerm-Inner ρ V s l x hl) (IsTerm-Inner ρ V s r y hr))
              (λ reads. means l r ∙ rw (hl.value reads, hr.value reads) refl))
        | inr e ↦ rw e (
            intern_boolean ρ V s (make r l) _ g
              (formed _ r l (IsTerm-Inner ρ V s r y hr) (IsTerm-Inner ρ V s l x hl))
              (λ reads. means r l ∙ rw (hl.value reads, hr.value reads) (agree_comm c y x)))
      ]

      -- A constant operand with the value `b`.
      other_operand :
          (t : ℕ) (b z : Bool)
          → IsTerm ρ V s t z
          → (Reads ρ V s → agree c x y ≡ (if beq b c then z else not z))
          → Grows s (λ u s'. IsTerm ρ V s' u (agree c x y)) ((if beq b c then pure t else not_ t) s)
      other_operand t b z h e = elim (Bool-cases (beq b c)) [
        | inl k ↦
            rw k (pure-Grows ρ V s t _ g (IsTerm-cong ρ V s t z _ (λ r. sym (rw k at (e r))) h))
        | inr k ↦
            rw k
              (Grows-cong ρ V s (not z) _ _ (λ r. sym (rw k at (e r))) (not_-Grows ρ V s t z g h))
      ]

      by_left :
          (b : Bool)
          → as_bool hl.sort.0 ≡ some b
          → Reads ρ V s
          → agree c x y ≡ (if beq b c then y else not y)
      by_left b h reads = rw (constant_value ρ V s l x b hl h reads) (agree_left c b y)

      by_right :
          (b : Bool)
          → as_bool hr.sort.0 ≡ some b
          → Reads ρ V s
          → agree c x y ≡ (if beq b c then x else not x)
      by_right b h reads =
          agree_comm c x y ∙ rw (constant_value ρ V s r y b hr h reads) (agree_left c b x)

      negated_right :
          (b : Bool)
          → as_bool hl.sort.0 ≡ some b
          → beq b c ≡ false
          → Grows s (λ u s'. IsTerm ρ V s' u (agree c x y)) (not_ r s)
      negated_right b h k =
          Grows-cong ρ V s (not y) _ _ (λ reads. sym (rw k at (by_left b h reads)))
            (not_-Grows ρ V s r y g hr)

      parity_of-Grows :
          Grows s
            (λ u s'. IsTerm ρ V s' u (agree c x y))
            (parity_of c make l r (as_bool hl.sort.0) (as_bool hr.sort.0) s)
      unfolding parity_of
      parity_of-Grows = elim (Option-cases (as_bool hl.sort.0)) [
        | inl open_ ↦ rw open_ (elim (Option-cases (as_bool hr.sort.0)) [
          | inl both ↦ rw both ordered
          | inr (b, h) ↦ rw h (other_operand l b x hl (by_right b h))
        ])
        | inr (b, h) ↦ rw h (elim (Bool-cases (beq b c)) [
          | inl k ↦ rw k (
              pure-Grows ρ V s r _ g
                (IsTerm-cong ρ V s r y _ (λ reads. sym (rw k at (by_left b h reads))) hr))
          | inr k ↦ rw k (elim (Option-cases (as_bool hr.sort.0)) [
            | inl none_ ↦ rw none_ (negated_right b h k)
            | inr (d, h') ↦ rw h' (elim (Bool-cases (beq d c)) [
              | inl k' ↦ rw k' (
                  pure-Grows ρ V s l _ g
                    (IsTerm-cong ρ V s l x _ (λ reads. sym (rw k' at (by_right d h' reads))) hl))
              | inr k' ↦ rw k' (negated_right b h k)
            ])
          ])
        ])
      ]

      complements_value :
          is_negation_of hl.sort.0 r || is_negation_of hr.sort.0 l ≡ true
          → Reads ρ V s
          → not c ≡ agree c x y
      complements_value h reads =
          rw (← hl.value reads, ← hr.value reads)
            (sym (
              agree_opposite c (V l) (V r) (elim (Bool-cases (is_negation_of hl.sort.0 r)) [
                | inl e ↦ is_negation_of_value l r hl.sort.0 hl.sort.1 e reads
                | inr e ↦
                    not_flip (V l) (V r)
                      (is_negation_of_value r l hr.sort.0 hr.sort.1 (rw e at h) reads)
              ])))

      equal_value : l ≡ r → Reads ρ V s → c ≡ agree c x y
      equal_value e reads =
          rw (← hl.value reads, ← hr.value reads)
            (subst (λ u. c ≡ agree c (V l) (V u)) e (sym (agree_self c (V l))))

      parity-Grows : Grows s (λ u s'. IsTerm ρ V s' u (agree c x y)) (parity c make l r s)
      unfolding parity are_complements
      parity-Grows = rw (require_bool_then ρ V s l _ hl.sort) (
          rw (require_bool_then ρ V s r _ hr.sort) (elim (Bool-cases (l == r)) [
            | inl same ↦ rw same (
                let equal : l ≡ r = ground arith in
                pure-Grows ρ V s _ _ g (
                  IsTerm-cong ρ V s _ c _ (λ reads. equal_value equal reads)
                    (bool_constant-IsTerm ρ V s c g)))
            | inr different ↦ rw different (
                rw (node_at_then ρ V s l _ _ hl.sort.1) (
                  rw (node_at_then ρ V s r _ _ hr.sort.1)
                    (elim (Bool-cases (is_negation_of hl.sort.0 r || is_negation_of hr.sort.0 l)) [
                      | inl e ↦ rw e (
                          pure-Grows ρ V s _ _ g (
                            IsTerm-cong ρ V s _ (not c) _ (complements_value e)
                              (bool_constant-IsTerm ρ V s (not c) g)))
                      | inr e ↦ rw e (
                          rw (node_at_then ρ V s l _ _ hl.sort.1)
                            (rw (node_at_then ρ V s r _ _ hr.sort.1) parity_of-Grows))
                    ])))
          ]))

-- `xor` gives a term whose value is whether the values of the terms differ.
pub xor-Grows :
    (ρ V : ℕ → Bool) (s : TermStore) (l r : ℕ) (x y : Bool)
    → IsGood s
    → IsTerm ρ V s l x
    → IsTerm ρ V s r y
    → Grows s (λ u s'. IsTerm ρ V s' u (not (beq x y))) (xor l r s)
unfolding xor
xor-Grows ρ V s l r x y g hl hr =
    parity-Grows ρ V s g false xor_of (λ t a b h k. (h, k)) (λ a b. refl) l r x y hl hr

-- `iff` gives a term whose value is whether the values of the terms agree.
pub iff-Grows :
    (ρ V : ℕ → Bool) (s : TermStore) (l r : ℕ) (x y : Bool)
    → IsGood s
    → IsTerm ρ V s l x
    → IsTerm ρ V s r y
    → Grows s (λ u s'. IsTerm ρ V s' u (beq x y)) (iff l r s)
unfolding iff
iff-Grows ρ V s l r x y g hl hr =
    parity-Grows ρ V s g true iff_of (λ t a b h k. (h, k)) (λ a b. refl) l r x y hl hr
