-- ===== src/Clause/Sorted.antt =====
-- Sorting by literal index, and the order of variables in what the loop of src/solver.rs keeps.
use satrap.Prelude.{
  false, List, [], ◌∷◌, Option, none, some, ◌==◌, leb, ◌≡◌, arith, ◌≤◌, ◌<◌, Bool-cases, inl, inr,
  All, All-mono,
}
use satrap.Lit.{Lit, var}
use satrap.Clause.{insert, sort, rev_onto, compact, normalize}

-- Each entry is at most every later one.
abbrev IsSorted : List Lit → Type 0
IsSorted [] = Unit
IsSorted (x ∷ xs) = All (λ y. x ≤ y) xs × IsSorted xs

-- The variables rise strictly: no literal twice, and no variable in both signs.
abbrev pub IsAscending : List Lit → Type 0
IsAscending [] = Unit
IsAscending (x ∷ xs) = All (λ y. var x < var y) xs × IsAscending xs

-- The same for a list that is held backwards.
abbrev IsDescending : List Lit → Type 0
IsDescending [] = Unit
IsDescending (x ∷ xs) = All (λ y. var y < var x) xs × IsDescending xs

insert-All : (P : Lit → Type 0) (l : Lit) (xs : List Lit) → P l → All P xs → All P (insert l xs)
unfolding insert
insert-All P l [] p h = (p, tt)
insert-All P l (x ∷ xs) p (q, h) = elim (Bool-cases (leb l x)) [
  | inl e ↦ rw e (p, (q, h))
  | inr e ↦ rw e (q, insert-All P l xs p h)
]

insert-IsSorted : (l : Lit) (xs : List Lit) → IsSorted xs → IsSorted (insert l xs)
unfolding insert
insert-IsSorted l [] h = (tt, tt)
insert-IsSorted l (x ∷ xs) (low, h) = elim (Bool-cases (leb l x)) [
  | inl e ↦
      let below : l ≤ x = ground arith in
      rw e ((below, All-mono _ _ (λ y q. omega arith) xs low), (low, h))
  | inr e ↦
      let above : x ≤ l = ground arith in rw e (insert-All _ l xs above low, insert-IsSorted l xs h)
]

sort-IsSorted : (xs : List Lit) → IsSorted (sort xs)
unfolding sort
sort-IsSorted [] = tt
sort-IsSorted (x ∷ xs) = insert-IsSorted x (sort xs) (sort-IsSorted xs)

rev_onto-IsAscending :
    (x : Lit) (kept acc : List Lit)
    → IsDescending (x ∷ kept)
    → All (λ y. var x < var y) acc
    → IsAscending acc
    → IsAscending (rev_onto (x ∷ kept) acc)
rev_onto-IsAscending x [] acc h above up = (above, up)
rev_onto-IsAscending x (y ∷ kept) acc ((low, lows), h) above up =
    rev_onto-IsAscending y kept (x ∷ acc) h (low, All-mono _ _ (λ z q. omega arith) acc above)
      (above, up)

abbrev Ascends : Option (List Lit) → Type 0
Ascends none = Unit
Ascends (some d) = IsAscending d

var_mono : (a b : Lit) → a ≤ b → (var a == var b) ≡ false → var a < var b
unfolding var
var_mono a b h e = ground arith

-- The unread literals are no smaller than the last one kept.
compact-Ascends :
    (previous : Lit) (kept unread : List Lit)
    → IsDescending (previous ∷ kept)
    → IsSorted (previous ∷ unread)
    → Ascends (compact (previous ∷ kept) unread)
unfolding compact
compact-Ascends p kept [] down up = rev_onto-IsAscending p kept [] down tt tt
compact-Ascends p kept (l ∷ ls) (lows, down) ((low, rest), up) = elim (Bool-cases (p == l)) [
  | inl e ↦ rw e (compact-Ascends p kept ls (lows, down) (rest, up.1))
  | inr e ↦ rw e (elim (Bool-cases (var p == var l)) [
    | inl v ↦ rw v tt
    | inr v ↦
        let above : var p < var l = var_mono p l low v in
        rw v (
          compact-Ascends l (p ∷ kept) ls
            ((above, All-mono _ _ (λ y q. omega arith) kept lows), (lows, down)) up)
  ])
]

normalize-Ascends : (c : List Lit) → Ascends (normalize c)
unfolding normalize
normalize-Ascends c = start (sort c) (sort-IsSorted c)
  where
    start : (s : List Lit) → IsSorted s → Ascends (compact [] s)
    start [] h = tt
    start (x ∷ xs) h = compact-Ascends x [] xs (tt, tt) h

-- In a normalized clause the variables rise strictly, so each occurs once, in one sign.
pub normalize-IsAscending : (c d : List Lit) → normalize c ≡ some d → IsAscending d
normalize-IsAscending c d h = rw h at (normalize-Ascends c)
