-- ===== src/Encode/Kinds.antt =====
-- The arms of the match in `encode` (src/smt/encode.rs) stand for the terms.
use satrap.Prelude.{
  ℕ, Bool, true, false, not, ◌&&◌, ◌||◌, List, [], ◌∷◌, all, any, if◌then◌else◌, ◌≡◌, refl, ap, ◌∙◌,
  arith,
}
use satrap.Lit.{Lit, neg}
use satrap.Lit.Packing.{var-neg}
use satrap.Clause.{Valuation, literal_value}
use satrap.Clause.Meaning.{literal_value-neg}
use satrap.Encode.{
  TermKind, bool_, atom, theory_equality, arithmetic_predicate, not_, and_, or_, xor, iff, ite,
  other, ok, err, Encoding, Action, ◌>>=◌, pure, Gate, and_gate, or_gate, xor_gate, iff_gate,
  ite_gate, encode_gate, truth_literal, encode_items, encode_kind, unreachable,
}
use satrap.Encode.Gates.{gate_value}
use satrap.Encode.Grown.{and_then-ok, ok_inj}
use satrap.Encode.Meaning.{meaning, Results, Holds}
use satrap.Encode.Steps.{Spec, Spec-trans, Spec-frame, Spec-keep}
use satrap.Encode.Literals.{Encodes, encode_gate-Spec, truth_literal-Encodes, encode_atom-Encodes}

module _ (ρ V : ℕ → Bool) where
  negated :
      (e e' : Encoding) (l : Lit) (b : Bool)
      → Spec ρ V e e' [] ((l, b) ∷ [])
      → Spec ρ V e e' [] ((neg l, not b) ∷ [])
  negated e e' l b spec = Spec-trans ρ V e e' e' [] ((l, b) ∷ []) _ spec (
      Spec-keep ρ V e' _ _ (λ r below. ((rw (var-neg l) below.0), tt))
        (λ m f k holds. ((literal_value-neg m l ∙ ap not holds.0), tt)))

  -- The literals of several terms, with what a valuation says of all of them.
  abbrev Items : List ℕ → Encoding → Encoding → List Lit → Type 0
  Items ts e e' ls =
      (rs : Results) × Spec ρ V e e' [] rs
      × ((m : Valuation)
          → Holds m rs
          → (all (literal_value m) ls ≡ all V ts) × (any (literal_value m) ls ≡ any V ts))

  module _ (go : ℕ → Action Lit) (ih : (t : ℕ) → Encodes ρ V (go t) (V t)) where
    encode_items-Items :
        (ts : List ℕ) (e e' : Encoding) (ls : List Lit)
        → encode_items go ts e ≡ (ok ls, e')
        → Items ts e e' ls
    unfolding encode_items
    encode_items-Items [] e e' ls h =
        let (none_left, state) = ok_inj [] ls e e' h in
        rw (← none_left, ← state)
          ([], Spec-keep ρ V e [] [] (λ r b. tt) (λ m f k holds. tt), λ m holds. (refl, refl))
    encode_items-Items (t ∷ ts) e e' ls h =
        let (l, e₁, first, more) = and_then-ok (go t e) _ ls e' h in
        let (ls', e₂, others, last) = and_then-ok (encode_items go ts e₁) _ ls e' more in
        let (output, state) = ok_inj (l ∷ ls') ls e₂ e' last in
        let (rs, spec, says) = encode_items-Items ts e₁ e₂ ls' others in
        rw (← output, ← state)
          (
            (l, V t) ∷ rs,
            Spec-trans ρ V e e₁ e₂ [] ((l, V t) ∷ []) ((l, V t) ∷ rs) (ih t e e₁ l first)
                (Spec-frame ρ V e₁ e₂ ((l, V t) ∷ []) rs spec),
            λ m holds. (
              ap (λ b. b && all (literal_value m) ls') holds.0
                  ∙ ap (λ b. V t && b) (says m holds.1).0,
              ap (λ b. b || any (literal_value m) ls') holds.0
                  ∙ ap (λ b. V t || b) (says m holds.1).1,
            ),
          )

    -- A gate over the literals of two terms.
    binary-Encodes :
        (gate : Lit → Lit → Gate) (left right : ℕ) (b : Bool)
        → ((m : Valuation) (l r : Lit)
            → literal_value m l ≡ V left
            → literal_value m r ≡ V right
            → gate_value m (gate l r) ≡ b)
        → Encodes ρ V (go left >>= (λ l. go right >>= (λ r. encode_gate (gate l r)))) b
    binary-Encodes gate left right b value e e' o h =
        let (l, e₁, first, more) = and_then-ok (go left e) _ o e' h in
        let (r, e₂, second, last) = and_then-ok (go right e₁) _ o e' more in
        let known = (l, V left) ∷ (r, V right) ∷ [] in
        Spec-trans ρ V e e₂ e' [] known ((o, b) ∷ [])
          (Spec-trans ρ V e e₁ e₂ [] ((l, V left) ∷ []) known (ih left e e₁ l first)
            (Spec-frame ρ V e₁ e₂ ((l, V left) ∷ []) ((r, V right) ∷ []) (ih right e₁ e₂ r second)))
          (encode_gate-Spec ρ V (gate l r) known b e₂ e' o (λ m k. value m l r k.0 k.1.0) last)

    constant-Encodes :
        (value : Bool)
        → Encodes ρ V (truth_literal >>= (λ l. pure (if value then l else neg l))) value
    constant-Encodes true e e' o h =
        let (l, e₁, first, last) = and_then-ok (truth_literal e) _ o e' h in
        let (output, state) = ok_inj l o e₁ e' last in
        rw (← output, ← state) (truth_literal-Encodes ρ V e e₁ l first)
    constant-Encodes false e e' o h =
        let (l, e₁, first, last) = and_then-ok (truth_literal e) _ o e' h in
        let (output, state) = ok_inj (neg l) o e₁ e' last in
        rw (← output, ← state) (negated e e₁ l true (truth_literal-Encodes ρ V e e₁ l first))

    not-Encodes : (t : ℕ) → Encodes ρ V (go t >>= (λ l. pure (neg l))) (not (V t))
    not-Encodes t e e' o h =
        let (l, e₁, first, last) = and_then-ok (go t e) _ o e' h in
        let (output, state) = ok_inj (neg l) o e₁ e' last in
        rw (← output, ← state) (negated e e₁ l (V t) (ih t e e₁ l first))

    -- A gate over the literals of several terms.
    items-Encodes :
        (gate : List Lit → Gate) (ts : List ℕ) (b : Bool)
        → ((m : Valuation) (ls : List Lit)
            → (all (literal_value m) ls ≡ all V ts) × (any (literal_value m) ls ≡ any V ts)
            → gate_value m (gate ls) ≡ b)
        → Encodes ρ V (encode_items go ts >>= (λ inputs. encode_gate (gate inputs))) b
    items-Encodes gate ts b value e e' o h =
        let (ls, e₁, inputs, last) = and_then-ok (encode_items go ts e) _ o e' h in
        let (rs, spec, says) = encode_items-Items ts e e₁ ls inputs in
        Spec-trans ρ V e e₁ e' [] rs ((o, b) ∷ []) spec
          (encode_gate-Spec ρ V (gate ls) rs b e₁ e' o (λ m k. value m ls (says m k)) last)

    ite-Encodes :
        (c t f : ℕ)
        → Encodes ρ V
            (go c >>= (λ x. go t >>= (λ y. go f >>= (λ z. encode_gate (ite_gate x y z)))))
            (if V c then V t else V f)
    unfolding gate_value
    ite-Encodes c t f e e' o h =
        let (x, e₁, first, more) = and_then-ok (go c e) _ o e' h in
        let (y, e₂, second, rest) = and_then-ok (go t e₁) _ o e' more in
        let (z, e₃, third, last) = and_then-ok (go f e₂) _ o e' rest in
        let one = (x, V c) ∷ [] in
        let two = (x, V c) ∷ (y, V t) ∷ [] in
        let three = (x, V c) ∷ (y, V t) ∷ (z, V f) ∷ [] in
        Spec-trans ρ V e e₁ e' [] one _ (ih c e e₁ x first) (
          Spec-trans ρ V e₁ e₂ e' one two _
            (Spec-frame ρ V e₁ e₂ one ((y, V t) ∷ []) (ih t e₁ e₂ y second))
            (Spec-trans ρ V e₂ e₃ e' two three _
              (Spec-frame ρ V e₂ e₃ two ((z, V f) ∷ []) (ih f e₂ e₃ z third))
              (encode_gate-Spec ρ V (ite_gate x y z) three _ e₃ e' o
                (λ m k. rw (k.0, k.1.0, k.1.1.0) refl) last)))

    unreachable-Encodes : (b : Bool) → Encodes ρ V (λ e. (err unreachable, e)) b
    unreachable-Encodes b e e' l h = absurd (ground arith)

    pub encode_kind-Encodes :
        (kind : TermKind) → Encodes ρ V (encode_kind go kind) (meaning ρ V kind)
    unfolding encode_kind gate_value
    encode_kind-Encodes (bool_ b) = constant-Encodes b
    encode_kind-Encodes (atom s) = encode_atom-Encodes ρ V s
    encode_kind-Encodes (theory_equality s l r) = encode_atom-Encodes ρ V s
    encode_kind-Encodes (arithmetic_predicate s x strict) = encode_atom-Encodes ρ V s
    encode_kind-Encodes (not_ t) = not-Encodes t
    encode_kind-Encodes (and_ ts) = items-Encodes and_gate ts _ (λ m ls k. k.0)
    encode_kind-Encodes (or_ ts) = items-Encodes or_gate ts _ (λ m ls k. k.1)
    encode_kind-Encodes (xor l r) = binary-Encodes xor_gate l r _ (λ m a b p q. rw (p, q) refl)
    encode_kind-Encodes (iff l r) = binary-Encodes iff_gate l r _ (λ m a b p q. rw (p, q) refl)
    encode_kind-Encodes (ite c t f) = ite-Encodes c t f
    encode_kind-Encodes other = unreachable-Encodes false
