-- ===== src/Encode/Steps.antt =====
-- A correct step of the encoder of src/smt/encode.rs, and how such steps are put together.
use satrap.Prelude.{
  ℕ, ◌≤◌, Bool, true, false, Option, none, some, List, [], ◌++◌, beq, ◌≡◌, refl, sym, ◌∙◌, arith,
  All-append, All-mono,
}
use satrap.Lit.{Lit}
use satrap.Clause.{Valuation}
use satrap.Encode.{Encoding}
use satrap.Encode.Grown.{Grown, IsBelow-mono-All}
use satrap.Encode.Meaning.{
  Same, Results, Holds, AreBelow, OnTruth, InRange, Fits, Knows, Holds-local, Knows-local,
}

pub beq-true : (a b : Bool) → beq a b ≡ true → a ≡ b
beq-true true b h = sym h
beq-true false b h = ground arith

pub beq_refl : (b : Bool) → beq b b ≡ true
beq_refl true = refl
beq_refl false = refl

Same-trans : (n k : ℕ) (m m' m'' : Valuation) → n ≤ k → Same n m m' → Same k m' m'' → Same n m m''
Same-trans n k m m' m'' h s t v below = t v (omega arith) ∙ s v below

pub OnTruth-mono :
    {P Q : Lit → Type 0} (o : Option Lit) → ((l : Lit) → P l → Q l) → OnTruth P o → OnTruth Q o
OnTruth-mono none f h = tt
OnTruth-mono (some l) f h = f l h

module _ (ρ V : ℕ → Bool) where
  -- From literals with known values to literals with known values. `sound` reads a valuation of
  -- the encoding after as one of the encoding before, `extend` goes the other way.
  pub record Spec (e e' : Encoding) (pre post : Results) : Type 0 where
    pub count : e.solver.variable_count ≤ e'.solver.variable_count
    pub range :
        InRange e
        → AreBelow e.solver.variable_count pre
        → InRange e' × AreBelow e'.solver.variable_count post
    pub before : (m : Valuation) → Fits ρ m e' → Fits ρ m e
    pub sound :
        (m : Valuation)
        → InRange e
        → AreBelow e.solver.variable_count pre
        → Fits ρ m e'
        → Knows V m e
        → Holds m pre
        → Knows V m e' × Holds m post
    pub extend :
        (m : Valuation)
        → InRange e
        → AreBelow e.solver.variable_count pre
        → Fits ρ m e
        → Knows V m e
        → Holds m pre
        → (m' : Valuation) × Same e.solver.variable_count m m' × Fits ρ m' e'

  pub Spec-trans :
      (e e' e'' : Encoding) (pre mid post : Results)
      → Spec e e' pre mid
      → Spec e' e'' mid post
      → Spec e e'' pre post
  Spec-trans e e' e'' pre mid post s t = record {
    count = let a = s.count in let b = t.count in omega arith;
    range = λ r b. let (r', b') = s.range r b in t.range r' b';
    before = λ m f. s.before m (t.before m f);
    sound = λ m r b f k h.
        let (r', b') = s.range r b in
        let (k', h') = s.sound m r b (t.before m f) k h in t.sound m r' b' f k' h';
    extend = λ m r b f k h.
        let (m', same, f') = s.extend m r b f k h in
        let (r', b') = s.range r b in
        let (k', h') =
          s.sound m' r b f' (Knows-local V m m' e r same k)
            (Holds-local e.solver.variable_count m m' pre same b h) in
        let (m'', same', f'') = t.extend m' r' b' f' k' h' in
        (
          m'',
          Same-trans e.solver.variable_count e'.solver.variable_count m m' m'' s.count same same',
          f'',
        );
  }

  -- A step keeps what was known before it.
  pub Spec-frame :
      (e e' : Encoding) (frame post : Results) → Spec e e' [] post → Spec e e' frame (frame ++ post)
  Spec-frame e e' frame post s = record {
    count = s.count;
    range = λ r b.
        let (r', b') = s.range r tt in
        (
          r',
          All-append _ frame post (All-mono _ _ (λ x k. let more = s.count in omega arith) frame b)
              b',
        );
    before = s.before;
    sound =
        λ m r b f k h. let (k', h') = s.sound m r tt f k tt in (k', All-append _ frame post h h');
    extend = λ m r b f k h. s.extend m r tt f k tt;
  }

  -- A step that changes nothing.
  pub Spec-keep :
      (e : Encoding) (pre post : Results)
      → (InRange e → AreBelow e.solver.variable_count pre → AreBelow e.solver.variable_count post)
      → ((m : Valuation) → Fits ρ m e → Knows V m e → Holds m pre → Holds m post)
      → Spec e e pre post
  Spec-keep e pre post below holds = record {
    count = omega arith;
    range = λ r b. (r, below r b);
    before = λ m f. f;
    sound = λ m r b f k h. (k, holds m f k h);
    extend = λ m r b f k h. (m, λ v below. refl, f);
  }

  pub Grown-InRange :
      (e : Encoding) (cs : List (List Lit)) (e' : Encoding) → Grown e cs e' → InRange e → InRange e'
  Grown-InRange e cs e' g r =
      let more = g.count in
      record {
        limit = g.limit r.limit;
        terms = rw g.terms (All-mono _ _ (λ x k. omega arith) e.term_literals r.terms);
        atoms = rw g.atoms (All-mono _ _ (λ x k. omega arith) e.atom_literals r.atoms);
        truth = rw g.truth (OnTruth-mono e.truth (λ l k. omega arith) r.truth);
        clauses = rw g.clauses (
            All-append _ e.solver.clauses cs
              (IsBelow-mono-All e.solver.variable_count e'.solver.variable_count e.solver.clauses
                g.count r.clauses)
              g.below);
      }
