-- ===== src/Bitvec/Gates.antt =====
-- The gates of src/smt/term.rs in the form that the circuits of src/smt/bitvec.rs use, and words:
-- lists of terms that stand for a number.
use satrap.Prelude.{
  ℕ, zero, suc, ◌^◌, ◌<◌, Bool, true, false, not, ◌&&◌, ◌||◌, beq, List, [], ◌∷◌, ◌++◌, length,
  replicate, map, if◌then◌else◌, ◌≡◌, refl, ap, ◌∙◌, subst, arith,
}
use satrap.Terms.{TermStore, ok, bool_constant, false_term}
use satrap.Terms.Good.{IsGood, Extends, Extends-refl, Extends-trans}
use satrap.Terms.Post.{Grows, returns, chain}
use satrap.Terms.Value.{IsTerm, AreTerms, IsTerm-mono, AreTerms-mono, bool_constant-IsTerm}
use satrap.Terms.Negation.{not_-Grows}
use satrap.Terms.Parity.{xor-Grows, iff-Grows}
use satrap.Terms.Branch.{and_two, or_two, ite-Grows}
use satrap.Terms.Build.{not_, and_, or_, xor, iff}
use satrap.Terms.Combine.{ite, zip_with}
use satrap.Bitvec.{not_each}
use satrap.Bitvec.Number.{number, number-lt, number-replicate, length-replicate}

-- The bits that a condition chooses from two lists.
abbrev pub select : Bool → List Bool → List Bool → List Bool
select c [] ys = []
select c (x ∷ xs) [] = []
select c (x ∷ xs) (y ∷ ys) = (if c then x else y) ∷ select c xs ys

pub select_lem :
    (c : Bool) (xs ys : List Bool) → length xs ≡ length ys → select c xs ys ≡ (if c then xs else ys)
select_lem true [] [] h = refl
select_lem false [] [] h = refl
select_lem c [] (y ∷ ys) h = absurd (omega arith)
select_lem c (x ∷ xs) [] h = absurd (omega arith)
select_lem true (x ∷ xs) (y ∷ ys) h = ap (λ zs. x ∷ zs) (select_lem true xs ys (omega arith))
select_lem false (x ∷ xs) (y ∷ ys) h = ap (λ zs. y ∷ zs) (select_lem false xs ys (omega arith))

module _ (ρ V : ℕ → Bool) where
  pub keep :
      {s s' : TermStore} {t : ℕ} {b : Bool} → Extends s s' → IsTerm ρ V s t b → IsTerm ρ V s' t b
  keep {s} {s'} {t} {b} e h = IsTerm-mono ρ V s s' t b e h

  pub keeps :
      {s s' : TermStore} (ts : List ℕ) (bs : List Bool)
      → Extends s s'
      → AreTerms ρ V s ts bs
      → AreTerms ρ V s' ts bs
  keeps {s} {s'} ts bs e h = AreTerms-mono ρ V s s' ts bs e h

  -- A step that gives a result at once.
  pub done :
      {A : Type 0} {P : A → TermStore → Type 0} {s : TermStore} {a : A}
      → IsGood s
      → P a s
      → Grows s P (ok a, s)
  done {s = s} g h = returns (Extends-refl s g, h)

  module _ {s : TermStore} {t u : ℕ} {x y : Bool} (g : IsGood s) (h : IsTerm ρ V s t x)
      (k : IsTerm ρ V s u y) where
    pub xor_gate : Grows s (λ v s'. IsTerm ρ V s' v (not (beq x y))) (xor t u s)
    xor_gate = xor-Grows ρ V s t u x y g h k

    pub iff_gate : Grows s (λ v s'. IsTerm ρ V s' v (beq x y)) (iff t u s)
    iff_gate = iff-Grows ρ V s t u x y g h k

    pub and_gate : Grows s (λ v s'. IsTerm ρ V s' v (x && y)) (and_ (t ∷ u ∷ []) s)
    and_gate = and_two ρ V s g t u x y h k

    pub or_gate : Grows s (λ v s'. IsTerm ρ V s' v (x || y)) (or_ (t ∷ u ∷ []) s)
    or_gate = or_two ρ V s g t u x y h k

  pub not_gate :
      {s : TermStore} {t : ℕ} {x : Bool}
      → IsGood s
      → IsTerm ρ V s t x
      → Grows s (λ v s'. IsTerm ρ V s' v (not x)) (not_ t s)
  not_gate {s} {t} {x} g h = not_-Grows ρ V s t x g h

  pub constant : {s : TermStore} → IsGood s → (b : Bool) → IsTerm ρ V s (bool_constant b) b
  constant {s} g b = bool_constant-IsTerm ρ V s b g

  pub false_bits :
      {s : TermStore}
      → IsGood s
      → (n : ℕ) → AreTerms ρ V s (replicate n false_term) (replicate n false)
  false_bits g zero = tt
  false_bits g (suc n) = (constant g false, false_bits g n)

  pub AreTerms-append :
      (s : TermStore) (ts us : List ℕ) (xs ys : List Bool)
      → AreTerms ρ V s ts xs
      → AreTerms ρ V s us ys
      → AreTerms ρ V s (ts ++ us) (xs ++ ys)
  AreTerms-append s [] us [] ys h k = k
  AreTerms-append s [] us (x ∷ xs) ys h k = elim h [ ]
  AreTerms-append s (t ∷ ts) us [] ys h k = elim h [ ]
  AreTerms-append s (t ∷ ts) us (x ∷ xs) ys (p, h) k = (p, AreTerms-append s ts us xs ys h k)

  -- As many terms as bits.
  pub AreTerms-length :
      (s : TermStore) (ts : List ℕ) (bs : List Bool) → AreTerms ρ V s ts bs → length ts ≡ length bs
  AreTerms-length s [] [] h = refl
  AreTerms-length s [] (b ∷ bs) h = elim h [ ]
  AreTerms-length s (t ∷ ts) [] h = elim h [ ]
  AreTerms-length s (t ∷ ts) (b ∷ bs) (h, k) = ap suc (AreTerms-length s ts bs k)

  pub not_each-Grows :
      (s : TermStore) (ts : List ℕ) (bs : List Bool)
      → IsGood s
      → AreTerms ρ V s ts bs
      → Grows s (λ us s'. AreTerms ρ V s' us (map not bs)) (not_each ts s)
  unfolding not_each
  not_each-Grows s [] [] g h = done g tt
  not_each-Grows s [] (b ∷ bs) g h = elim h [ ]
  not_each-Grows s (t ∷ ts) [] g h = elim h [ ]
  not_each-Grows s (t ∷ ts) (b ∷ bs) g (h, k) = chain (not_gate g h) (λ n s₁ e₁ hn.
      chain (not_each-Grows s₁ ts bs e₁.good (keeps ts bs e₁ k))
        (λ ns s₂ e₂ hns. done e₂.good (keep e₂ hn, hns)))

  pub select-Grows :
      (s : TermStore) (c : ℕ) (b : Bool) (ts us : List ℕ) (xs ys : List Bool)
      → IsGood s
      → IsTerm ρ V s c b
      → AreTerms ρ V s ts xs
      → AreTerms ρ V s us ys
      → Grows s (λ vs s'. AreTerms ρ V s' vs (select b xs ys)) (zip_with (ite c) ts us s)
  unfolding zip_with
  select-Grows s c b [] us [] ys g hc h k = done g tt
  select-Grows s c b [] us (x ∷ xs) ys g hc h k = elim h [ ]
  select-Grows s c b (t ∷ ts) us [] ys g hc h k = elim h [ ]
  select-Grows s c b (t ∷ ts) [] (x ∷ xs) [] g hc h k = done g tt
  select-Grows s c b (t ∷ ts) [] (x ∷ xs) (y ∷ ys) g hc h k = elim k [ ]
  select-Grows s c b (t ∷ ts) (u ∷ us) (x ∷ xs) [] g hc h k = elim k [ ]
  select-Grows s c b (t ∷ ts) (u ∷ us) (x ∷ xs) (y ∷ ys) g hc (p, h) (q, k) =
      chain (ite-Grows ρ V s g c t u b x y hc p q) (λ v s₁ e₁ hv.
        chain
          (select-Grows s₁ c b ts us xs ys e₁.good (keep e₁ hc) (keeps ts xs e₁ h)
            (keeps us ys e₁ k))
          (λ vs s₂ e₂ hvs. done e₂.good (keep e₂ hv, hvs)))

  -- A list of `n` Boolean terms that stands for the number `v`.
  pub record Word (s : TermStore) (ts : List ℕ) (n v : ℕ) : Type 0 where
    pub bits : List Bool
    pub terms : AreTerms ρ V s ts bits
    pub size : length bits ≡ n
    pub value : number bits ≡ v

  pub Word-mono :
      {s s' : TermStore} {ts : List ℕ} {n v : ℕ} → Extends s s' → Word s ts n v → Word s' ts n v
  Word-mono {ts = ts} e w = record {
    bits = w.bits;
    terms = keeps ts w.bits e w.terms;
    size = w.size;
    value = w.value;
  }

  pub zero_word : {s : TermStore} → IsGood s → (n : ℕ) → Word s (replicate n false_term) n 0
  zero_word g n = record {
    bits = replicate n false;
    terms = false_bits g n;
    size = length-replicate n false;
    value = number-replicate n;
  }

  pub Word-cast :
      {s : TermStore} {ts : List ℕ} {n v v' : ℕ} → v ≡ v' → Word s ts n v → Word s ts n v'
  Word-cast e w = record { bits = w.bits; terms = w.terms; size = w.size; value = w.value ∙ e }

  pub Word-length : {s : TermStore} {ts : List ℕ} {n v : ℕ} → Word s ts n v → length ts ≡ n
  Word-length {s} {ts} w = AreTerms-length s ts w.bits w.terms ∙ w.size

  pub Word-lt : {s : TermStore} {ts : List ℕ} {n v : ℕ} → Word s ts n v → v < 2 ^ n
  Word-lt {n = n} {v = v} w =
      subst (λ m. v < 2 ^ m) w.size (subst (λ x. x < 2 ^ length w.bits) w.value (number-lt w.bits))

-- A store that extends one that extends another.
infixl 4 ◌⊳◌
pub ◌⊳◌ : {s s' s'' : TermStore} → Extends s s' → Extends s' s'' → Extends s s''
◌⊳◌ {s} {s'} {s''} e f = Extends-trans s s' s'' e f
