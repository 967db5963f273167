-- ===== src/Restart/Luby/Recursion.antt =====
-- The loops of `luby` (src/solver.rs) against the recursive definition of the sequence.
use satrap.Prelude.{
  ℕ, zero, suc, ◌+◌, ◌-◌, ◌*◌, ◌/◌, ◌%◌, ◌^◌, ◌≤◌, ◌<◌, true, false, Option, none, some, ◌==◌, ltb,
  if◌then◌else◌, ◌>>=◌, ◌≡◌, ◌≢◌, refl, arith, Bool-cases, inl, inr, ◌∙◌, ltb→lt, ltb→le, lt→ltb,
  sym,
}
use native.Mathlib.Nat.{one-le-pow, pow-suc, mod-eq_of_lt, mod-eq-sub-mod, pow-le-pow_right}
use native.Mathlib.Decide.{dec_le, ℕ_discrete}
use satrap.Restart.Word.{sat_add, sat_mul}
use satrap.Restart.Luby.{grow, shrink, fuel, luby}

-- The sequence by its recursive definition: the block of rank `k` has 2^(k+1) - 1 entries, two
-- blocks of the rank below and then 2^k.
pub rank : ℕ → ℕ → ℕ
rank zero index = 0
rank (suc k) index =
    if ltb index (2 ^ suc k - 1)
    then rank k index
    else if index == 2 * (2 ^ suc k - 1)
    then suc k
    else rank k (index - (2 ^ suc k - 1))

-- One block of the sequence, by its size.
block : (k : ℕ) → 1 ≤ 2 ^ k
block k = one-le-pow k 2 (omega arith)

shrink-rank :
    (k fuel index : ℕ)
    → k < fuel
    → index < 2 ^ suc k - 1
    → shrink fuel (2 ^ suc k - 1) k index ≡ some (rank k index)
unfolding shrink rank
shrink-rank k zero index f h = elim f [ ]
shrink-rank zero (suc fuel) index f h = let first : index ≡ 0 = omega arith in rw first
shrink-rank (suc k) (suc fuel) index f h =
    let half : 2 ^ suc (suc k) - 1 - 1 ≡ 2 * (2 ^ suc k - 1) =
      omega (arith, pow-suc 2 (suc k), block k) in
    let size : 2 * (2 ^ suc k - 1) / 2 ≡ 2 ^ suc k - 1 = omega arith in
    let below : suc k - 1 ≡ k = omega arith in
    let wide : 1 ≤ 2 ^ suc k - 1 = omega (arith, pow-suc 2 k, block k) in
    rw (half, size, below)
      (elim (Bool-cases (2 * (2 ^ suc k - 1) == index)) [
        | inl last ↦
            let not_first : ltb index (2 ^ suc k - 1) ≡ false = ground arith in
            let is_last : (index == 2 * (2 ^ suc k - 1)) ≡ true = ground arith in
            rw (last, not_first, is_last)
        | inr inner ↦
            let not_last : (index == 2 * (2 ^ suc k - 1)) ≡ false = ground arith in
            rw (inner, not_last)
              (elim (Bool-cases (ltb index (2 ^ suc k - 1))) [
                | inl first ↦
                    let here : index % (2 ^ suc k - 1) ≡ index = mod-eq_of_lt (ltb→lt _ _ first) in
                    rw (first, here) (shrink-rank k fuel index (omega arith) (ltb→lt _ _ first))
                | inr second ↦
                    let past : 2 ^ suc k - 1 ≤ index = ltb→le _ _ second in
                    let room : index - (2 ^ suc k - 1) < 2 ^ suc k - 1 =
                      (let other : index ≢ 2 * (2 ^ suc k - 1) = ground arith in
                        omega (arith, pow-suc 2 (suc k), other)) in
                    let moved : index % (2 ^ suc k - 1) ≡ index - (2 ^ suc k - 1) =
                      mod-eq-sub-mod past ∙ mod-eq_of_lt room in
                    rw (second, moved)
                      (shrink-rank k fuel (index - (2 ^ suc k - 1)) (omega arith) room)
              ])
      ])

-- The block that `grow` finds holds the index and has rank at most 32.
abbrev Found : ℕ → Option (ℕ × ℕ) → Type 0
Found index none = ⊥
Found index (some (size, k)) = (size ≡ 2 ^ suc k - 1) × (index < 2 ^ suc k - 1) × (k ≤ 32)

rank_below : (j index : ℕ) → index < 2 ^ 32 → 2 ^ suc j - 1 < index + 1 → j ≤ 31
rank_below j index small h = elim (dec_le j 31) [
  | yes k ↦ k
  | no k ↦
      let big : 2 ^ 33 ≤ 2 ^ suc j = pow-le-pow_right (omega arith) {i = 33} (omega arith) in
      absurd (omega arith)
]

grow-Found :
    (fuel j index : ℕ)
    → index < 2 ^ 32
    → j ≤ 32
    → 34 ≤ j + fuel
    → Found index (grow fuel (2 ^ suc j - 1) j index)
unfolding grow
grow-Found zero j index small low enough = absurd (omega arith)
grow-Found (suc fuel) j index small low enough =
    elim (Bool-cases (ltb (2 ^ suc j - 1) (index + 1))) [
      | inl more ↦
          let j_low = rank_below j index small (ltb→lt _ _ more) in
          let size : sat_add (sat_mul (2 ^ suc j - 1) 2) 1 ≡ 2 ^ suc (suc j) - 1 =
            omega (arith, pow-suc 2 (suc j), block (suc j), ltb→lt _ _ more) in
          let next : j + 1 ≡ suc j = omega arith in
          rw (more, size, next) (grow-Found fuel (suc j) index small (omega arith) (omega arith))
      | inr enough_room ↦ rw enough_room (refl, omega (arith, ltb→le _ _ enough_room), low)
    ]

-- The rank of an entry does not depend on the block that it is seen in.
rank_stable : (k l index : ℕ) → k ≤ l → index < 2 ^ suc k - 1 → rank l index ≡ rank k index
unfolding rank
rank_stable k zero index h small = let none_below : k ≡ 0 = omega arith in rw none_below
rank_stable k (suc l) index h small = elim (ℕ_discrete k (suc l)) [
  | yes same ↦ rw same
  | no other ↦
      let wider : 2 ^ suc k ≤ 2 ^ suc l =
        pow-le-pow_right (omega arith) {i = suc k} (omega arith) in
      let first : ltb index (2 ^ suc l - 1) ≡ true = lt→ltb _ _ (omega arith) in
      rw first (rank_stable k l index (omega arith) small)
]

rank_any :
    (k l index : ℕ) → index < 2 ^ suc k - 1 → index < 2 ^ suc l - 1 → rank l index ≡ rank k index
rank_any k l index small small' = elim (dec_le k l) [
  | yes h ↦ rank_stable k l index h small
  | no h ↦ sym (rank_stable l k index (omega arith) small')
]

-- On every u32 both loops end, and the value is 2 to the rank of the recursive definition.
pub luby-rank :
    (k index : ℕ) → index < 2 ^ 32 → index < 2 ^ suc k - 1 → luby index ≡ some (2 ^ rank k index)
unfolding luby
luby-rank k index small inside =
    by_block (grow fuel 1 0 index) (grow-Found fuel 0 index small (omega arith) (omega arith))
  where
    by_block :
        (o : Option (ℕ × ℕ))
        → Found index o
        → (do found ← o; sequence ← shrink fuel found.0 found.1 index; some (2 ^ sequence))
          ≡ some (2 ^ rank k index)
    by_block none h = absurd h
    by_block (some (size, l)) (e, inside', low) =
        rw (e, shrink-rank l fuel index (omega arith) inside', rank_any k l index inside inside')
