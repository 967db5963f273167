-- ===== src/Terms/Intern.antt =====
-- `intern` of src/smt/term.rs: it finds the node or adds it, and keeps the store well formed.
use satrap.Prelude.{
  ℕ, zero, suc, ◌+◌, ◌<◌, true, false, none, some, List, [], ◌∷◌, ◌++◌, leb, length, ◌≡◌, refl, sym,
  ap, ◌∙◌, subst, arith, ◌⊎◌, ◌≢◌, All, All-mono, Bool-cases, Option-cases, inl, inr,
}
use satrap.Terms.{
  Sort, boolean, bit_vec, TermKind, not_of, and_of, or_of, xor_of, iff_of, ite_of, bits_of,
  TermNode, TermStore, lookup, decided, find, TermNode-discrete, intern, u32_limit,
}
use satrap.Terms.Good.{HasSort, Inner, IsFormed, IsGood, Extends-refl}
use satrap.Terms.Post.{returns, full, Grows}

module _ {ℓ} {A : Type ℓ} where
  pub lookup-lt : (xs : List A) (i : ℕ) (a : A) → lookup xs i ≡ some a → i < length xs
  lookup-lt [] i a h = absurd (ground arith)
  lookup-lt (x ∷ xs) zero a h = omega arith
  lookup-lt (x ∷ xs) (suc i) a h = let p = lookup-lt xs i a h in omega arith

  pub lookup-append :
      (xs ys : List A) (i : ℕ) (a : A) → lookup xs i ≡ some a → lookup (xs ++ ys) i ≡ some a
  lookup-append [] ys i a h = absurd (ground arith)
  lookup-append (x ∷ xs) ys zero a h = h
  lookup-append (x ∷ xs) ys (suc i) a h = lookup-append xs ys i a h

  pub lookup-append_end : (xs : List A) (y : A) → lookup (xs ++ y ∷ []) (length xs) ≡ some y
  lookup-append_end [] y = refl
  lookup-append_end (x ∷ xs) y = lookup-append_end xs y

  -- What a list with one more element holds.
  pub lookup-append_cases :
      (xs : List A) (y : A) (i : ℕ) (a : A)
      → lookup (xs ++ y ∷ []) i ≡ some a
      → (lookup xs i ≡ some a) ⊎ ((i ≡ length xs) × (y ≡ a))
  lookup-append_cases [] y zero a h = inr (refl, ground (arith, h))
  lookup-append_cases [] y (suc i) a h = absurd (ground arith)
  lookup-append_cases (x ∷ xs) y zero a h = inl h
  lookup-append_cases (x ∷ xs) y (suc i) a h = elim (lookup-append_cases xs y i a h) [
    | inl old ↦ inl old
    | inr new ↦ inr (ap suc new.0, new.1)
  ]

pub decided-cases {ℓ} :
    {P : Type ℓ} (d : Dec P) → ((decided d ≡ true) × P) ⊎ ((decided d ≡ false) × ¬ P)
decided-cases (yes p) = inl (refl, p)
decided-cases (no p) = inr (refl, p)

-- A search from `i` finds a position of the node.
find-some :
    (n : TermNode) (xs : List TermNode) (i t : ℕ)
    → find n xs i ≡ some t
    → (j : ℕ) × (t ≡ i + j) × (lookup xs j ≡ some n)
find-some n [] i t h = absurd (ground arith)
find-some n (x ∷ xs) i t h = elim (decided-cases (TermNode-discrete n x)) [
  | inl found ↦ (0, ground (arith, found.0, h), ap some (sym found.1))
  | inr other ↦
      let (j, place, holds) = find-some n xs (suc i) t (rw other.0 at h) in
      (suc j, omega arith, holds)
]

-- It finds one if there is one.
find-none :
    (n : TermNode) (xs : List TermNode) (i j : ℕ) → find n xs i ≡ none → lookup xs j ≢ some n
find-none n [] i j h k = absurd (ground arith)
find-none n (x ∷ xs) i j h k = elim (decided-cases (TermNode-discrete n x)) [
  | inl found ↦ absurd (ground (arith, found.0, h))
  | inr other ↦
      elim j as (λ j. lookup (x ∷ xs) j ≡ some n → ⊥) [
        | zero ↦ λ k. other.1 (ground (arith, k))
        | suc j ↦ find-none n xs (suc i) j (rw other.0 at h)
      ]
        k
]

-- The earlier terms of a node stay what they are.
module _ (s s' : TermStore)
    (kept : (t : ℕ) (n : TermNode) → lookup s.nodes t ≡ some n → lookup s'.nodes t ≡ some n) where
  pub HasSort-mono : (t : ℕ) (sort : Sort) → HasSort s t sort → HasSort s' t sort
  HasSort-mono t sort (kind, h) = (kind, kept t _ h)

  Inner-mono : (t a : ℕ) → Inner s t a → Inner s' t a
  Inner-mono t a (h, k) = (h, HasSort-mono a boolean k)

  Inners-mono : (t : ℕ) (as_ : List ℕ) → All (Inner s t) as_ → All (Inner s' t) as_
  Inners-mono t as_ h = All-mono _ _ (Inner-mono t) as_ h

  pub IsFormed-mono :
      (t : ℕ) (sort : Sort) (kind : TermKind) → IsFormed s t sort kind → IsFormed s' t sort kind
  IsFormed-mono t boolean (not_of a) h = Inner-mono t a h
  IsFormed-mono t boolean (and_of ts) h = Inners-mono t ts h
  IsFormed-mono t boolean (or_of ts) h = Inners-mono t ts h
  IsFormed-mono t boolean (xor_of a b) (h, k) = (Inner-mono t a h, Inner-mono t b k)
  IsFormed-mono t boolean (iff_of a b) (h, k) = (Inner-mono t a h, Inner-mono t b k)
  IsFormed-mono t boolean (ite_of a b c) (h, k, l) =
      (Inner-mono t a h, Inner-mono t b k, Inner-mono t c l)
  IsFormed-mono t (bit_vec w) (bits_of ts) (h, k, l) = (h, k, Inners-mono t ts l)
  IsFormed-mono t sort kind h = h

-- A new node whose terms are in the store is added at the end.
module _ (s : TermStore) (good : IsGood s) (n : TermNode)
    (formed : IsFormed s (length s.nodes) n.sort n.kind) where
  abbrev grown : TermStore
  grown = record s { nodes = s.nodes ++ n ∷ [] }

  grown_kept : (t : ℕ) (m : TermNode) → lookup s.nodes t ≡ some m → lookup grown.nodes t ≡ some m
  grown_kept t m h = lookup-append s.nodes (n ∷ []) t m h

  grown-IsGood : ((t : ℕ) → lookup s.nodes t ≢ some n) → IsGood grown
  grown-IsGood fresh = record {
    first = grown_kept 0 _ good.first;
    second = grown_kept 1 _ good.second;
    formed = λ t sort kind h.
        IsFormed-mono s grown grown_kept t sort kind
          (elim (lookup-append_cases s.nodes n t (record { sort = sort; kind = kind }) h) [
            | inl old ↦ good.formed t sort kind old
            | inr new ↦
                subst (λ u. IsFormed s u sort kind) (sym new.0)
                  (subst (λ (m : TermNode). IsFormed s (length s.nodes) m.sort m.kind) new.1 formed)
          ]);
    distinct = λ t u m h k. elim (lookup-append_cases s.nodes n t m h) [
      | inl old ↦ elim (lookup-append_cases s.nodes n u m k) [
        | inl old' ↦ good.distinct t u m old old'
        | inr new ↦ absurd (fresh t (old ∙ ap some (sym new.1)))
      ]
      | inr new ↦ elim (lookup-append_cases s.nodes n u m k) [
        | inl old ↦ absurd (fresh u (old ∙ ap some (sym new.1)))
        | inr new' ↦ new.0 ∙ sym new'.0
      ]
    ];
  }

  pub intern-Post : Grows s (λ t s'. lookup s'.nodes t ≡ some n) (intern n.sort n.kind s)
  unfolding intern
  intern-Post = elim (Option-cases (find n s.nodes 0)) [
    | inl missing ↦ rw missing (elim (Bool-cases (leb u32_limit (length s.nodes))) [
      | inl over ↦ rw over (full (ground arith))
      | inr room ↦ rw room (
          returns (
            record {
              good = grown-IsGood (λ t. find-none n s.nodes 0 t missing);
              kept = grown_kept;
            },
            lookup-append_end s.nodes n,
          ))
    ])
    | inr (t, found) ↦ rw found (
        let (j, place, holds) = find-some n s.nodes 0 t found in
        let same : j ≡ t = omega arith in
        returns (Extends-refl s good, subst (λ u. lookup s.nodes u ≡ some n) same holds))
  ]
