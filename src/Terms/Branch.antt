-- ===== src/Terms/Branch.antt =====
-- `ite` of src/smt/term.rs on Boolean terms, and `and` and `or` of terms with known values.
use satrap.Prelude.{
  ℕ, Bool, true, false, not, ◌&&◌, ◌||◌, List, [], ◌∷◌, any, all, ◌==◌, if◌then◌else◌, ◌≡◌, refl,
  sym, ap, ◌∙◌, arith, Bool-cases, Option-cases, inl, inr, &&_left, &&_right,
}
use satrap.Terms.{Sort, boolean, ite_of, TermStore, Action, bool_constant, true_term, false_term}
use satrap.Terms.Good.{IsGood}
use satrap.Terms.Post.{Grows}
use satrap.Terms.Intern.{decided-cases}
use satrap.Terms.Value.{
  Reads, IsTerm, AreTerms, IsTerm-cong, Grows-cong, pure-Grows, bool_constant-IsTerm,
  intern_boolean, IsTerm-Inner, require_bool_then, node_at_then, sort_of_then,
}
use satrap.Terms.Negation.{constant_value, not_-Grows}
use satrap.Terms.Flatten.{Booleans}
use satrap.Terms.Junction.{and_-Grows, or_-Grows}
use satrap.Terms.Build.{as_bool, and_, or_}
use satrap.Terms.Combine.{
  same_sort, Sort-discrete, ite_boolean, ite_sorted, ite_body, ite_deep, ite,
}

-- The conjunction and the disjunction of all bits.
abbrev pub conjunction : List Bool → Bool
conjunction [] = true
conjunction (b ∷ bs) = b && conjunction bs

abbrev pub disjunction : List Bool → Bool
disjunction [] = false
disjunction (b ∷ bs) = b || disjunction bs

pub same_sort_refl : (a : Sort) → same_sort a a ≡ true
same_sort_refl a = elim (decided-cases (Sort-discrete a a)) [
  | inl e ↦ rw e.0 refl
  | inr e ↦ absurd (e.1 refl)
]

as_condition : (x y z : Bool) → y ≡ true → z ≡ false → x ≡ (if x then y else z)
as_condition true y z h k = sym h
as_condition false y z h k = sym k

as_negation : (x y z : Bool) → y ≡ false → z ≡ true → not x ≡ (if x then y else z)
as_negation true y z h k = sym h
as_negation false y z h k = sym k

as_either : (x y z : Bool) → y ≡ z → y ≡ (if x then y else z)
as_either true y z h = refl
as_either false y z h = h

both : (a b : Bool) → a && b ≡ true → (a ≡ true) × (b ≡ true)
both a b h = (&&_left a b h, &&_right a b h)

module _ (ρ V : ℕ → Bool) where
  pub AreTerms-Booleans :
      (s : TermStore) (ts : List ℕ) (bs : List Bool) → AreTerms ρ V s ts bs → Booleans s ts
  AreTerms-Booleans s [] [] h = tt
  AreTerms-Booleans s [] (b ∷ bs) h = elim h [ ]
  AreTerms-Booleans s (t ∷ ts) [] h = elim h [ ]
  AreTerms-Booleans s (t ∷ ts) (b ∷ bs) (h, k) = (h.sort, AreTerms-Booleans s ts bs k)

  all_value :
      (s : TermStore) (ts : List ℕ) (bs : List Bool)
      → AreTerms ρ V s ts bs
      → Reads ρ V s
      → (all V ts ≡ conjunction bs) × (any V ts ≡ disjunction bs)
  all_value s [] [] h r = (refl, refl)
  all_value s [] (b ∷ bs) h r = elim h [ ]
  all_value s (t ∷ ts) [] h r = elim h [ ]
  all_value s (t ∷ ts) (b ∷ bs) (h, k) r =
      let (p, q) = all_value s ts bs k r in (rw (h.value r, p) refl, rw (h.value r, q) refl)

  module _ (s : TermStore) (g : IsGood s) where
    pub and_all :
        (ts : List ℕ) (bs : List Bool)
        → AreTerms ρ V s ts bs
        → Grows s (λ u s'. IsTerm ρ V s' u (conjunction bs)) (and_ ts s)
    and_all ts bs h =
        Grows-cong ρ V s _ _ _ (λ r. (all_value s ts bs h r).0)
          (and_-Grows ρ V s ts g (AreTerms-Booleans s ts bs h))

    pub or_all :
        (ts : List ℕ) (bs : List Bool)
        → AreTerms ρ V s ts bs
        → Grows s (λ u s'. IsTerm ρ V s' u (disjunction bs)) (or_ ts s)
    or_all ts bs h =
        Grows-cong ρ V s _ _ _ (λ r. (all_value s ts bs h r).1)
          (or_-Grows ρ V s ts g (AreTerms-Booleans s ts bs h))

    pub and_two :
        (t u : ℕ) (x y : Bool)
        → IsTerm ρ V s t x
        → IsTerm ρ V s u y
        → Grows s (λ v s'. IsTerm ρ V s' v (x && y)) (and_ (t ∷ u ∷ []) s)
    and_two t u x y h k =
        Grows-cong ρ V s _ _ _ (λ r. ground arith) (and_all (t ∷ u ∷ []) (x ∷ y ∷ []) (h, (k, tt)))

    pub or_two :
        (t u : ℕ) (x y : Bool)
        → IsTerm ρ V s t x
        → IsTerm ρ V s u y
        → Grows s (λ v s'. IsTerm ρ V s' v (x || y)) (or_ (t ∷ u ∷ []) s)
    or_two t u x y h k =
        Grows-cong ρ V s _ _ _ (λ r. ground arith) (or_all (t ∷ u ∷ []) (x ∷ y ∷ []) (h, (k, tt)))

    module _ (c t e : ℕ) (x y z : Bool) (hc : IsTerm ρ V s c x) (ht : IsTerm ρ V s t y)
        (he : IsTerm ρ V s e z) where
      constant_term :
          (u : ℕ) (b : Bool)
          → IsTerm ρ V s u b
          → (v : Bool) → u ≡ bool_constant v
          → Reads ρ V s
          → b ≡ v
      constant_term u b h v same r =
          sym (h.value r) ∙ ap V same ∙ (bool_constant-IsTerm ρ V s v g).value r

      chosen : (b : Bool) → IsTerm ρ V s (if b then t else e) (if b then y else z)
      chosen true = ht
      chosen false = he

      ite_boolean-Grows :
          Grows s (λ u s'. IsTerm ρ V s' u (if x then y else z)) (ite_boolean c t e s)
      unfolding ite_boolean
      ite_boolean-Grows =
          rw (node_at_then ρ V s c _ _ hc.sort.1) (elim (Option-cases (as_bool hc.sort.0)) [
            | inl open_ ↦ rw open_ (elim (Bool-cases ((t == true_term) && (e == false_term))) [
              | inl k ↦ rw k (
                  let (p, q) = both (t == true_term) (e == false_term) k in
                  pure-Grows ρ V s c _ g (
                    IsTerm-cong ρ V s c x _
                      (λ r.
                        as_condition x y z (constant_term t y ht true (ground arith) r)
                          (constant_term e z he false (ground arith) r))
                      hc))
              | inr k ↦ rw k (elim (Bool-cases ((t == false_term) && (e == true_term))) [
                | inl k' ↦ rw k' (
                    let (p, q) = both (t == false_term) (e == true_term) k' in
                    Grows-cong ρ V s (not x) _ _
                      (λ r.
                        as_negation x y z (constant_term t y ht false (ground arith) r)
                          (constant_term e z he true (ground arith) r))
                      (not_-Grows ρ V s c x g hc))
                | inr k' ↦ rw k' (
                    intern_boolean ρ V s (ite_of c t e) _ g
                      (
                        IsTerm-Inner ρ V s c x hc,
                        IsTerm-Inner ρ V s t y ht,
                        IsTerm-Inner ρ V s e z he,
                      )
                      (λ r. rw (hc.value r, ht.value r, he.value r) refl))
              ])
            ])
            | inr (b, h) ↦ rw h (
                pure-Grows ρ V s _ _ g (
                  IsTerm-cong ρ V s _ _ _
                    (λ r. ap (λ a. if a then y else z) (sym (constant_value ρ V s c x b hc h r)))
                    (chosen b)))
          ])

      ite_body-Grows :
          (go : ℕ → ℕ → ℕ → Action ℕ)
          → Grows s (λ u s'. IsTerm ρ V s' u (if x then y else z)) (ite_body go c t e s)
      unfolding ite_body ite_sorted
      ite_body-Grows go = rw (require_bool_then ρ V s c _ hc.sort) (
          rw (sort_of_then ρ V s t boolean _ ht.sort) (
            rw (sort_of_then ρ V s e boolean _ he.sort) (
              rw (same_sort_refl boolean) (elim (Bool-cases (t == e)) [
                | inl same ↦ rw same (
                    let equal : t ≡ e = ground arith in
                    pure-Grows ρ V s t _ g (
                      IsTerm-cong ρ V s t y _
                        (λ r. as_either x y z (sym (ht.value r) ∙ ap V equal ∙ he.value r)) ht))
                | inr different ↦ rw different ite_boolean-Grows
              ]))))

      -- `ite` gives a term with the value of the branch that the value of the condition chooses.
      pub ite-Grows : Grows s (λ u s'. IsTerm ρ V s' u (if x then y else z)) (ite c t e s)
      unfolding ite ite_deep
      ite-Grows = ite_body-Grows (ite_deep 1)
