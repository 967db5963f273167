-- ===== src/Bitvec/Remainder.antt =====
-- Quotients and remainders one bit at a time, as the divider of src/smt/bitvec.rs finds them.
use satrap.Prelude.{
  ℕ, suc, ◌+◌, ◌-◌, ◌*◌, ◌/◌, ◌%◌, ◌^◌, ◌≤◌, ◌<◌, Bool, true, false, not, List, [], ◌∷◌, length,
  ltb, ◌==◌, if◌then◌else◌, ◌≡◌, refl, sym, ap, ◌∙◌, subst, arith, Bool-cases, inl, inr,
}
use native.Mathlib.Nat.{pow-suc, mul-add-div, div-eq_of_lt}
use satrap.Terms.{TermStore}
use satrap.Terms.Value.{IsTerm, AreTerms}
use satrap.Bitvec.{drop_last}
use satrap.Bitvec.Number.{bit, bit-le, number, mod_unique}
use satrap.Bitvec.Gates.{Word}

-- A quotient and a remainder, where the dividend has `k` bits.
pub record Divides (k a d q r : ℕ) : Type 0 where
  pub whole : a ≡ q * d + r
  pub small : 0 < d → r < d
  pub by_zero : d ≡ 0 → q + 1 ≡ 2 ^ k

-- One more bit `x` of the dividend: subtract the divisor if it fits.
pub divide_step :
    (k a d q r x : ℕ) (fits : Bool)
    → x ≤ 1
    → fits ≡ not (ltb (x + 2 * r) d)
    → Divides k a d q r
    → Divides (suc k) (x + 2 * a) d (bit fits + 2 * q) (if fits then x + 2 * r - d else x + 2 * r)
divide_step k a d q r x true h e p =
    let le : d ≤ x + 2 * r = ground arith in
    record {
      whole = omega (arith, p.whole);
      small = λ pos. let b = p.small pos in omega arith;
      by_zero = λ z. let b = p.by_zero z in omega (arith, pow-suc 2 k);
    }
divide_step k a d q r x false h e p =
    let lt : x + 2 * r < d = ground arith in
    record {
      whole = omega (arith, p.whole);
      small = λ pos. lt;
      by_zero = λ z. absurd (omega arith);
    }

last-zero :
    (x : Bool) (xs : List Bool)
    → number (x ∷ xs) < 2 ^ length xs
    → number (drop_last (x ∷ xs)) ≡ number (x ∷ xs)
last-zero true [] h = absurd (omega arith)
last-zero false [] h = refl
last-zero x (y ∷ ys) h =
    let k = bit-le x in omega (arith, last-zero y ys (omega (arith, pow-suc 2 (length ys), k)))

pub length-drop_last : (x : Bool) (xs : List Bool) → length (drop_last (x ∷ xs)) ≡ length xs
length-drop_last x [] = refl
length-drop_last x (y ∷ ys) = ap suc (length-drop_last y ys)

module _ (ρ V : ℕ → Bool) where
  pub AreTerms-drop_last :
      (s : TermStore) (ts : List ℕ) (bs : List Bool)
      → AreTerms ρ V s ts bs
      → AreTerms ρ V s (drop_last ts) (drop_last bs)
  AreTerms-drop_last s [] [] h = tt
  AreTerms-drop_last s [] (b ∷ bs) h = elim h [ ]
  AreTerms-drop_last s (t ∷ ts) [] h = elim h [ ]
  AreTerms-drop_last s (t ∷ []) (b ∷ []) h = tt
  AreTerms-drop_last s (t ∷ []) (b ∷ c ∷ bs) (h, k) = elim k [ ]
  AreTerms-drop_last s (t ∷ u ∷ ts) (b ∷ []) (h, k) = elim k [ ]
  AreTerms-drop_last s (t ∷ u ∷ ts) (b ∷ c ∷ bs) (h, k) =
      (h, AreTerms-drop_last s (u ∷ ts) (c ∷ bs) k)

  -- The top bit of a small number can go.
  pub drop_last-Word :
      (s : TermStore) (ts : List ℕ) (n v : ℕ)
      → v < 2 ^ n
      → Word ρ V s ts (suc n) v
      → Word ρ V s (drop_last ts) n v
  drop_last-Word s ts n v h w = go w.bits w.size w.value (AreTerms-drop_last s ts w.bits w.terms)
    where
      go :
          (bs : List Bool)
          → length bs ≡ suc n
          → number bs ≡ v
          → AreTerms ρ V s (drop_last ts) (drop_last bs)
          → Word ρ V s (drop_last ts) n v
      go [] size value k = absurd (omega arith)
      go (b ∷ bs) size value k =
          let size' : length bs ≡ n = omega arith in
          let below : number (b ∷ bs) < 2 ^ length bs =
            subst (λ m. number (b ∷ bs) < 2 ^ m) (sym size') (omega (arith, value, h)) in
          record {
            bits = drop_last (b ∷ bs);
            terms = k;
            size = length-drop_last b bs ∙ size';
            value = last-zero b bs below ∙ value;
          }

  pub cons-Word :
      (s : TermStore) (t : ℕ) (x : Bool) (ts : List ℕ) (n v : ℕ)
      → IsTerm ρ V s t x
      → Word ρ V s ts n v
      → Word ρ V s (t ∷ ts) (suc n) (bit x + 2 * v)
  cons-Word s t x ts n v h w = record {
    bits = x ∷ w.bits;
    terms = (h, w.terms);
    size = ap suc w.size;
    value = ap (λ y. bit x + 2 * y) w.value;
  }

-- What division means where the divisor is zero, too.
abbrev pub quotient : ℕ → ℕ → ℕ → ℕ
quotient w a d = if d == 0 then 2 ^ w - 1 else a / d

abbrev pub remainder : ℕ → ℕ → ℕ
remainder a d = if d == 0 then a else a % d

pub Divides-values :
    (w a d q r : ℕ) → Divides w a d q r → (q ≡ quotient w a d) × (r ≡ remainder a d)
Divides-values w a d q r p = elim (Bool-cases (d == 0)) [
  | inl z ↦
      let zero_ : d ≡ 0 = ground arith in
      rw z (
        let b = p.by_zero zero_ in omega arith,
        let e = p.whole in omega (arith, e, ap (λ x. q * x) zero_),
      )
  | inr n ↦
      let pos : 0 < d = ground arith in
      let lt = p.small pos in
      rw n (
        let whole : a ≡ d * q + r = omega (arith, p.whole) in
            let none_ : r / d ≡ 0 = div-eq_of_lt lt in
            sym (ap (λ v. v / d) whole ∙ mul-add-div pos q r ∙ omega (arith, none_)),
        mod_unique d a q r (omega (arith, p.whole)) lt,
      )
]
