-- ===== src/Terms/Junction.antt =====
-- `junction` of src/smt/term.rs, and with it `and` and `or`.
use satrap.Prelude.{
  ℕ, Bool, true, false, not, List, [], ◌∷◌, any, all, if◌then◌else◌, length, ◌≡◌, ◌⊎◌, refl, sym,
  ap, ◌∙◌, subst, arith, All, All-mono, Bool-cases, inl, inr,
}
use satrap.Terms.{
  boolean, TermKind, not_of, and_of, or_of, TermStore, ok, Action, pure, bool_constant, intern,
}
use satrap.Terms.Good.{Holds, Inner, IsGood}
use satrap.Terms.Post.{Grows}
use satrap.Terms.Intern.{lookup-lt}
use satrap.Terms.Value.{
  Reads, IsTerm, IsTerm-cong, Grows-cong, pure-Grows, bool_constant-IsTerm, intern_boolean,
  node_at_then,
}
use satrap.Terms.Build.{
  Item, decides, stands_for, has_complement, negation_in, junction_of, junction, contains, sort,
  dedup, and_, or_,
}
use satrap.Terms.Joins.{
  join, joins, joins-nil, joins_members, joins_decided, All-members, join_unit,
}
use satrap.Terms.Flatten.{Booleans, ItemMeans, single, flatten_lem}

module _ (ρ V : ℕ → Bool) (s : TermStore) (g : IsGood s) where
  opposite : (c x y : Bool) → x ≡ not y → (x ≡ not c) ⊎ (y ≡ not c)
  opposite true true true h = absurd (ground (arith, h))
  opposite true true false h = inr refl
  opposite true false y h = inl refl
  opposite false true y h = inl refl
  opposite false false true h = inr refl
  opposite false false false h = absurd (ground (arith, h))

  negation_decides :
      (c : Bool) (members : List ℕ) (t : ℕ) (kind : TermKind)
      → Holds s t boolean kind
      → contains t members ≡ true
      → negation_in members kind ≡ true
      → Reads ρ V s
      → joins V c members ≡ not c
  negation_decides c members t (not_of a) h inside k r = elim (opposite c (V t) (V a) (r t _ h)) [
    | inl e ↦ joins_decided V c t members inside e
    | inr e ↦ joins_decided V c a members k e
  ]
  negation_decides c members t kind h inside k r = absurd (ground (arith, k))

  has_complement_lem :
      (c : Bool) (members ts : List ℕ)
      → Booleans s ts
      → ((t : ℕ) → contains t ts ≡ true → contains t members ≡ true)
      → (b : Bool) × (has_complement members ts s ≡ (ok b, s))
        × (b ≡ true → Reads ρ V s → joins V c members ≡ not c)
  unfolding has_complement
  has_complement_lem c members [] h sub = (false, refl, λ e. absurd (ground (arith, e)))
  has_complement_lem c members (t ∷ ts) (h, hs) sub =
      rw (node_at_then ρ V s t _ _ h.1) (elim (Bool-cases (negation_in members h.0)) [
        | inl e ↦
            rw e (true, refl, λ k. negation_decides c members t h.0 h.1 (sub t (ground arith)) e)
        | inr e ↦ rw e (has_complement_lem c members ts hs (λ u k. sub u (later u k)))
      ])
    where
      later : (u : ℕ) → contains u ts ≡ true → contains u (t ∷ ts) ≡ true
      later u k = rw k (ground arith)

  -- The node of two terms or more.
  joined : (c : Bool) (ts : List ℕ) → TermKind
  joined c ts = if c then and_of ts else or_of ts

  Booleans-Inner : (ts : List ℕ) → Booleans s ts → All (Inner s (length s.nodes)) ts
  Booleans-Inner ts h = All-mono _ _ (λ t k. (lookup-lt s.nodes t _ k.1, k)) ts h

  intern_joined :
      (c : Bool) (ts : List ℕ)
      → Booleans s ts
      → Grows s
          (λ u s'. IsTerm ρ V s' u (joins V c ts))
          (intern boolean (if c then and_of ts else or_of ts) s)
  intern_joined true ts h = intern_boolean ρ V s (and_of ts) _ g (Booleans-Inner ts h) (λ r. refl)
  intern_joined false ts h = intern_boolean ρ V s (or_of ts) _ g (Booleans-Inner ts h) (λ r. refl)

  constant_result :
      (c b : Bool)
      → (Reads ρ V s → c ≡ b)
      → Grows s (λ u s'. IsTerm ρ V s' u b) (pure (bool_constant c) s)
  constant_result c b e =
      pure-Grows ρ V s _ b g (IsTerm-cong ρ V s _ c b e (bool_constant-IsTerm ρ V s c g))

  junction_of-Grows :
      (c : Bool) (ts : List ℕ)
      → Booleans s ts
      → Grows s (λ u s'. IsTerm ρ V s' u (joins V c ts)) (junction_of c c ts s)
  unfolding junction_of
  junction_of-Grows c ts h =
      let (b, result, means) = has_complement_lem c ts ts h (λ t k. k) in
      rw result (elim (Bool-cases b) [
        | inl e ↦ rw e (constant_result (not c) _ (λ r. sym (means e r)))
        | inr e ↦ rw e (few ts h)
      ])
    where
      few :
          (ts : List ℕ)
          → Booleans s ts
          → Grows s
              (λ u s'. IsTerm ρ V s' u (joins V c ts))
              (elim ts as (λ x. Action ℕ) [
                | [] ↦ pure (bool_constant c)
                | t ∷ rest ↦ elim rest as (λ x. Action ℕ) [
                  | [] ↦ pure t
                  | u ∷ more ↦
                      intern boolean (if c then and_of (t ∷ u ∷ more) else or_of (t ∷ u ∷ more))
                ]
              ]
                s)
      few [] h = constant_result c _ (λ r. sym (joins-nil V c))
      few (t ∷ []) h =
          pure-Grows ρ V s t _ g (record { sort = h.0; value = λ r. sym (single ρ V s g c t) })
      few (t ∷ u ∷ more) h = intern_joined c (t ∷ u ∷ more) h

  junction-Grows :
      (c : Bool) (ts : List ℕ)
      → Booleans s ts
      → Grows s (λ u s'. IsTerm ρ V s' u (joins V c ts)) (junction ts c c s)
  unfolding junction
  junction-Grows c ts h =
      let (it, result, means) = flatten_lem ρ V s g c ts [] h tt in
      rw result (finish it (cong it means))
    where
      cong :
          (it : Item)
          → ItemMeans ρ V s g c (join c (joins V c []) (joins V c ts)) it
          → ItemMeans ρ V s g c (joins V c ts) it
      cong it m =
          subst (λ b. ItemMeans ρ V s g c b it)
            (ap (λ b. join c b (joins V c ts)) (joins-nil V c) ∙ join_unit c (joins V c ts)) m

      finish :
          (it : Item)
          → ItemMeans ρ V s g c (joins V c ts) it
          → Grows s
              (λ u s'. IsTerm ρ V s' u (joins V c ts))
              (elim it as (λ x. Action ℕ) [
                | decides value ↦ pure (bool_constant value)
                | stands_for flattened ↦ junction_of c c (dedup (sort flattened))
              ]
                s)
      finish (decides v) (d, m) = constant_result v _ (λ r. d ∙ sym (m r))
      finish (stands_for fl) (b, m) =
          Grows-cong ρ V s _ _ _ (λ r. joins_members V c fl ∙ m r)
            (junction_of-Grows c (dedup (sort fl)) (All-members _ fl b))

-- `and` gives a term whose value is the conjunction of the values of the terms.
pub and_-Grows :
    (ρ V : ℕ → Bool) (s : TermStore) (ts : List ℕ)
    → IsGood s
    → Booleans s ts
    → Grows s (λ u s'. IsTerm ρ V s' u (all V ts)) (and_ ts s)
unfolding and_
and_-Grows ρ V s ts g h = junction-Grows ρ V s g true ts h

-- `or` gives a term whose value is the disjunction of the values of the terms.
pub or_-Grows :
    (ρ V : ℕ → Bool) (s : TermStore) (ts : List ℕ)
    → IsGood s
    → Booleans s ts
    → Grows s (λ u s'. IsTerm ρ V s' u (any V ts)) (or_ ts s)
unfolding or_
or_-Grows ρ V s ts g h = junction-Grows ρ V s g false ts h
