-- ===== src/Terms/Joins.antt =====
-- The value of a conjunction or a disjunction of src/smt/term.rs: what flattening, sorting and
-- dropping repeated terms leave alone, and when one term or two decide it.
use satrap.Prelude.{
  ℕ, Bool, true, false, not, ◌&&◌, ◌||◌, List, [], ◌∷◌, ◌++◌, any, all, ◌==◌, leb, ◌≡◌, refl, sym,
  ap, ◌∙◌, subst, arith, All, Bool-cases, inl, inr,
}
use satrap.Terms.Build.{place, sort, put, dedup, contains}

abbrev pub join : Bool → Bool → Bool → Bool
join true a b = a && b
join false a b = a || b

pub join_left : (c a b : Bool) → a ≡ not c → join c a b ≡ not c
join_left true a b h = rw h refl
join_left false a b h = rw h refl

pub join_right : (c a b : Bool) → b ≡ not c → join c a b ≡ not c
join_right true true b h = h
join_right true false b h = refl
join_right false true b h = refl
join_right false false b h = h

pub join_unit : (c a : Bool) → join c c a ≡ a
join_unit true a = refl
join_unit false a = refl

pub join_assoc : (c x y z : Bool) → join c (join c x y) z ≡ join c x (join c y z)
join_assoc true true y z = refl
join_assoc true false y z = refl
join_assoc false true y z = refl
join_assoc false false y z = refl

module _ (V : ℕ → Bool) where
  -- Of a conjunction, or of a disjunction.
  abbrev pub joins : Bool → List ℕ → Bool
  joins true ts = all V ts
  joins false ts = any V ts

  pub joins-cons : (c : Bool) (t : ℕ) (ts : List ℕ) → joins c (t ∷ ts) ≡ join c (V t) (joins c ts)
  joins-cons true t ts = refl
  joins-cons false t ts = refl

  pub joins-nil : (c : Bool) → joins c [] ≡ c
  joins-nil true = refl
  joins-nil false = refl

  pub joins-append :
      (c : Bool) (xs ys : List ℕ) → joins c (xs ++ ys) ≡ join c (joins c xs) (joins c ys)
  joins-append true [] ys = refl
  joins-append false [] ys = refl
  joins-append true (x ∷ xs) ys = ground (arith, joins-append true xs ys)
  joins-append false (x ∷ xs) ys = ground (arith, joins-append false xs ys)

  joins-place : (c : Bool) (t : ℕ) (xs : List ℕ) → joins c (place t xs) ≡ joins c (t ∷ xs)
  joins-place c t [] = refl
  joins-place true t (x ∷ xs) = ground (arith, joins-place true t xs)
  joins-place false t (x ∷ xs) = ground (arith, joins-place false t xs)

  joins-sort : (c : Bool) (xs : List ℕ) → joins c (sort xs) ≡ joins c xs
  joins-sort c [] = refl
  joins-sort c (x ∷ xs) =
      joins-place c x (sort xs)
      ∙ joins-cons c x (sort xs)
      ∙ ap (join c (V x)) (joins-sort c xs)
      ∙ sym (joins-cons c x xs)

  joins-put : (c : Bool) (t : ℕ) (xs : List ℕ) → joins c (put t xs) ≡ joins c (t ∷ xs)
  joins-put c t [] = refl
  joins-put true t (x ∷ xs) = ground arith
  joins-put false t (x ∷ xs) = ground arith

  joins-dedup : (c : Bool) (xs : List ℕ) → joins c (dedup xs) ≡ joins c xs
  joins-dedup c [] = refl
  joins-dedup c (x ∷ xs) =
      joins-put c x (dedup xs)
      ∙ joins-cons c x (dedup xs)
      ∙ ap (join c (V x)) (joins-dedup c xs)
      ∙ sym (joins-cons c x xs)

  pub joins_members : (c : Bool) (xs : List ℕ) → joins c (dedup (sort xs)) ≡ joins c xs
  joins_members c xs = joins-dedup c (sort xs) ∙ joins-sort c xs

  -- A term with the deciding value decides.
  pub joins_decided :
      (c : Bool) (t : ℕ) (xs : List ℕ) → contains t xs ≡ true → V t ≡ not c → joins c xs ≡ not c
  joins_decided c t [] h k = absurd (ground (arith, h))
  joins_decided c t (x ∷ xs) h k = joins-cons c x xs ∙ elim (Bool-cases (t == x)) [
    | inl e ↦
        let same : t ≡ x = ground arith in
        join_left c (V x) (joins c xs) (subst (λ u. V u ≡ not c) same k)
    | inr e ↦ join_right c (V x) (joins c xs) (joins_decided c t xs (rw e at h) k)
  ]

All-place : (P : ℕ → Type 0) (t : ℕ) (xs : List ℕ) → P t → All P xs → All P (place t xs)
All-place P t [] p h = (p, tt)
All-place P t (x ∷ xs) p (q, h) = elim (Bool-cases (leb t x)) [
  | inl e ↦ rw e (p, (q, h))
  | inr e ↦ rw e (q, All-place P t xs p h)
]

All-sort : (P : ℕ → Type 0) (xs : List ℕ) → All P xs → All P (sort xs)
All-sort P [] h = tt
All-sort P (x ∷ xs) (p, h) = All-place P x (sort xs) p (All-sort P xs h)

All-put : (P : ℕ → Type 0) (t : ℕ) (xs : List ℕ) → P t → All P xs → All P (put t xs)
All-put P t [] p h = (p, tt)
All-put P t (x ∷ xs) p (q, h) = elim (Bool-cases (t == x)) [
  | inl e ↦ rw e (q, h)
  | inr e ↦ rw e (p, (q, h))
]

All-dedup : (P : ℕ → Type 0) (xs : List ℕ) → All P xs → All P (dedup xs)
All-dedup P [] h = tt
All-dedup P (x ∷ xs) (p, h) = All-put P x (dedup xs) p (All-dedup P xs h)

pub All-members : (P : ℕ → Type 0) (xs : List ℕ) → All P xs → All P (dedup (sort xs))
All-members P xs h = All-dedup P (sort xs) (All-sort P xs h)
