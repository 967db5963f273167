-- ===== src/Terms/Value.antt =====
-- What the Boolean terms of src/smt/term.rs mean, and terms with a known value.
use satrap.Prelude.{
  ℕ, Bool, true, false, not, some, List, [], ◌∷◌, any, all, beq, if◌then◌else◌, length, ◌≡◌, refl,
  ap, ◌∙◌, All,
}
use satrap.Terms.{
  Sort, boolean, TermKind, bool_, atom, not_of, and_of, or_of, xor_of, iff_of, ite_of,
  arithmetic_predicate, theory_equality, TermNode, TermStore, Outcome, Action, and_then, lookup,
  node_at, sort_of, require_bool, require_bools, intern, bool_constant, pure,
}
use satrap.Terms.Good.{Holds, HasSort, Inner, IsFormed, IsGood, Extends, Extends-refl}
use satrap.Terms.Post.{returns, Grows, mono}
use satrap.Terms.Intern.{HasSort-mono, intern-Post, lookup-lt}

-- What a Boolean term means, from the values of the symbols and of the terms in it.
abbrev pub meaning : (ℕ → Bool) → (ℕ → Bool) → TermKind → Bool
meaning ρ V (bool_ b) = b
meaning ρ V (atom x) = ρ x
meaning ρ V (theory_equality x l r) = ρ x
meaning ρ V (arithmetic_predicate x e strict) = ρ x
meaning ρ V (not_of t) = not (V t)
meaning ρ V (and_of ts) = all V ts
meaning ρ V (or_of ts) = any V ts
meaning ρ V (xor_of l r) = not (beq (V l) (V r))
meaning ρ V (iff_of l r) = beq (V l) (V r)
meaning ρ V (ite_of c t e) = if V c then V t else V e
meaning ρ V _ = false

-- `V` gives every Boolean term of the store its value, under the values `ρ` of the symbols.
abbrev pub Reads : (ℕ → Bool) → (ℕ → Bool) → TermStore → Type 0
Reads ρ V s = (t : ℕ) (kind : TermKind) → Holds s t boolean kind → V t ≡ meaning ρ V kind

module _ (ρ V : ℕ → Bool) where
  pub Reads-back : (s s' : TermStore) → Extends s s' → Reads ρ V s' → Reads ρ V s
  Reads-back s s' e r t kind h = r t kind (e.kept t _ h)

  -- A Boolean term of the store that has the value.
  pub record IsTerm (s : TermStore) (t : ℕ) (b : Bool) : Type 0 where
    pub sort : HasSort s t boolean
    pub value : Reads ρ V s → V t ≡ b

  pub IsTerm-mono :
      (s s' : TermStore) (t : ℕ) (b : Bool) → Extends s s' → IsTerm s t b → IsTerm s' t b
  IsTerm-mono s s' t b e h = record {
    sort = HasSort-mono s s' e.kept t boolean h.sort;
    value = λ r. h.value (Reads-back s s' e r);
  }

  -- A term for each bit.
  abbrev pub AreTerms : TermStore → List ℕ → List Bool → Type 0
  AreTerms s [] [] = Unit
  AreTerms s [] (b ∷ bs) = ⊥
  AreTerms s (t ∷ ts) [] = ⊥
  AreTerms s (t ∷ ts) (b ∷ bs) = IsTerm s t b × AreTerms s ts bs

  pub AreTerms-mono :
      (s s' : TermStore) (ts : List ℕ) (bs : List Bool)
      → Extends s s'
      → AreTerms s ts bs
      → AreTerms s' ts bs
  AreTerms-mono s s' [] [] e h = tt
  AreTerms-mono s s' [] (b ∷ bs) e h = elim h [ ]
  AreTerms-mono s s' (t ∷ ts) [] e h = elim h [ ]
  AreTerms-mono s s' (t ∷ ts) (b ∷ bs) e (h, k) =
      (IsTerm-mono s s' t b e h, AreTerms-mono s s' ts bs e k)

  pub bool_constant-IsTerm : (s : TermStore) (b : Bool) → IsGood s → IsTerm s (bool_constant b) b
  bool_constant-IsTerm s true g = record {
    sort = (bool_ true, g.first);
    value = λ r. r 0 _ g.first;
  }
  bool_constant-IsTerm s false g = record {
    sort = (bool_ false, g.second);
    value = λ r. r 1 _ g.second;
  }

  pub IsTerm-cong :
      (s : TermStore) (t : ℕ) (b b' : Bool) → (Reads ρ V s → b ≡ b') → IsTerm s t b → IsTerm s t b'
  IsTerm-cong s t b b' e h = record { sort = h.sort; value = λ r. h.value r ∙ e r }

  pub Grows-cong :
      (s : TermStore) (b b' : Bool) (r : Outcome ℕ × TermStore)
      → (Reads ρ V s → b ≡ b')
      → Grows s (λ u s'. IsTerm s' u b) r
      → Grows s (λ u s'. IsTerm s' u b') r
  Grows-cong s b b' r e h =
      mono h (λ u s' k. (k.0, IsTerm-cong s' u b b' (λ reads. e (Reads-back s s' k.0 reads)) k.1))

  -- A result that is there already.
  pub pure-Grows :
      (s : TermStore) (t : ℕ) (b : Bool)
      → IsGood s
      → IsTerm s t b
      → Grows s (λ u s'. IsTerm s' u b) (pure t s)
  pure-Grows s t b g h = returns (Extends-refl s g, h)

  -- A new node has its meaning.
  pub intern_boolean :
      (s : TermStore) (kind : TermKind) (b : Bool)
      → IsGood s
      → IsFormed s (length s.nodes) boolean kind
      → (Reads ρ V s → meaning ρ V kind ≡ b)
      → Grows s (λ t s'. IsTerm s' t b) (intern boolean kind s)
  intern_boolean s kind b g formed means =
      mono (intern-Post s g (record { sort = boolean; kind = kind }) formed) (λ t s' h. (
        h.0,
        record { sort = (kind, h.1); value = λ r. r t kind h.1 ∙ means (Reads-back s s' h.0 r) },
      ))

  pub IsTerm-Inner : (s : TermStore) (t : ℕ) (b : Bool) → IsTerm s t b → Inner s (length s.nodes) t
  IsTerm-Inner s t b h = (lookup-lt s.nodes t _ h.sort.1, h.sort)

  -- A check that a Boolean term passes, and what follows it.
  pub require_bool_then :
      {A : Type 0} (s : TermStore) (t : ℕ) (f : Unit → Action A)
      → HasSort s t boolean
      → and_then (require_bool t s) f ≡ f tt s
  unfolding require_bool sort_of
  require_bool_then s t f (kind, h) = rw h refl

  pub node_at_then :
      {A : Type 0} (s : TermStore) (t : ℕ) (n : TermNode) (f : TermNode → Action A)
      → lookup s.nodes t ≡ some n
      → and_then (node_at t s) f ≡ f n s
  node_at_then s t n f h = rw h refl

  pub sort_of_then :
      {A : Type 0} (s : TermStore) (t : ℕ) (sort : Sort) (f : Sort → Action A)
      → HasSort s t sort
      → and_then (sort_of t s) f ≡ f sort s
  unfolding sort_of
  sort_of_then s t sort f (kind, h) = rw h refl

  pub require_bools_then :
      {A : Type 0} (s : TermStore) (ts : List ℕ) (f : Unit → Action A)
      → All (λ t. HasSort s t boolean) ts
      → and_then (require_bools ts s) f ≡ f tt s
  unfolding require_bools
  require_bools_then s [] f h = refl
  require_bools_then s (t ∷ ts) f (h, hs) =
      ap (λ r. and_then r f) (require_bool_then s t (λ u. require_bools ts) h)
      ∙ require_bools_then s ts f hs
