-- ===== src/Terms/Flatten.antt =====
-- `junction` of src/smt/term.rs gathers the terms that it joins.
use satrap.Prelude.{
  ℕ, Bool, true, false, not, List, [], ◌∷◌, ◌++◌, ◌≡◌, refl, sym, ap, ◌∙◌, arith, All, All-append,
  All-mono,
}
use satrap.Terms.{boolean, TermKind, bool_, and_of, or_of, TermStore, Outcome, ok, Action, pure}
use satrap.Terms.Good.{Holds, HasSort, Inner, IsGood}
use satrap.Terms.Value.{Reads, require_bool_then, node_at_then}
use satrap.Terms.Build.{Item, decides, stands_for, item, flatten}
use satrap.Terms.Joins.{join, joins, joins-cons, joins-append, join_left, join_right, join_assoc}

abbrev pub Booleans : TermStore → List ℕ → Type 0
Booleans s ts = All (λ t. HasSort s t boolean) ts

module _ (ρ V : ℕ → Bool) (s : TermStore) (g : IsGood s) where
  -- An item either has the deciding value, or stands for Boolean terms with the same value.
  abbrev pub ItemMeans : Bool → Bool → Item → Type 0
  ItemMeans c b (decides v) = (v ≡ not c) × (Reads ρ V s → b ≡ not c)
  ItemMeans c b (stands_for ts) = Booleans s ts × (Reads ρ V s → joins V c ts ≡ b)

  Inner-sorts : (t : ℕ) (ts : List ℕ) → All (Inner s t) ts → Booleans s ts
  Inner-sorts t ts h = All-mono _ _ (λ a k. k.1) ts h

  pub single : (c : Bool) (t : ℕ) → joins V c (t ∷ []) ≡ V t
  single true t = ground arith
  single false t = ground arith

  alone : (c : Bool) (t : ℕ) → HasSort s t boolean → ItemMeans c (V t) (stands_for (t ∷ []))
  alone c t h = ((h, tt), λ r. single c t)

  constant_item :
      (c b : Bool) (t : ℕ) → Holds s t boolean (bool_ b) → ItemMeans c (V t) (item c c t (bool_ b))
  unfolding item
  constant_item true true t h = (tt, λ r. sym (r t _ h))
  constant_item true false t h = (refl, λ r. r t _ h)
  constant_item false true t h = (refl, λ r. r t _ h)
  constant_item false false t h = (tt, λ r. sym (r t _ h))

  item-ItemMeans :
      (c : Bool) (t : ℕ) (kind : TermKind)
      → Holds s t boolean kind
      → ItemMeans c (V t) (item c c t kind)
  unfolding item
  item-ItemMeans c t (bool_ b) h = constant_item c b t h
  item-ItemMeans true t (and_of ts) h =
      (Inner-sorts t ts (g.formed t boolean _ h), λ r. sym (r t _ h))
  item-ItemMeans false t (or_of ts) h =
      (Inner-sorts t ts (g.formed t boolean _ h), λ r. sym (r t _ h))
  item-ItemMeans true t kind h = alone true t (kind, h)
  item-ItemMeans false t kind h = alone false t (kind, h)

  -- The gathering ends with an item for `b`, and leaves the store as it is.
  abbrev pub Gathers : Bool → Bool → Outcome Item × TermStore → Type 0
  Gathers c b r = (it : Item) × (r ≡ (ok it, s)) × ItemMeans c b it

  Gathers-cong :
      (c b b' : Bool) (r : Outcome Item × TermStore)
      → (Reads ρ V s → b ≡ b')
      → Gathers c b r
      → Gathers c b' r
  Gathers-cong c b b' r e (decides v, h, (d, m)) =
      (decides v, h, (d, λ reads. sym (e reads) ∙ m reads))
  Gathers-cong c b b' r e (stands_for ts, h, (d, m)) =
      (stands_for ts, h, (d, λ reads. m reads ∙ e reads))

  deciding : (c a x rest : Bool) → x ≡ not c → join c a (join c x rest) ≡ not c
  deciding c a x rest h = join_right c a (join c x rest) (join_left c x rest h)

  -- The terms are gathered onto those that were gathered before.
  pub flatten_lem :
      (c : Bool) (ts acc : List ℕ)
      → Booleans s ts
      → Booleans s acc
      → Gathers c (join c (joins V c acc) (joins V c ts)) (flatten c c ts acc s)
  unfolding flatten
  flatten_lem c [] acc h k = (stands_for acc, refl, (k, λ r. unit c))
    where
      unit : (c : Bool) → joins V c acc ≡ join c (joins V c acc) (joins V c [])
      unit true = ground arith
      unit false = ground arith
  flatten_lem c (t ∷ ts) acc (h, hs) k = rw (require_bool_then ρ V s t _ h) (
      rw (node_at_then ρ V s t _ _ h.1) (
        go (item c c t h.0) (item-ItemMeans c t h.0 h.1)
          (λ nested m. flatten_lem c ts (acc ++ nested) hs (All-append _ acc nested k m))))
    where
      go :
          (it : Item)
          → ItemMeans c (V t) it
          → ((nested : List ℕ)
              → Booleans s nested
              → Gathers c
                  (join c (joins V c (acc ++ nested)) (joins V c ts))
                  (flatten c c ts (acc ++ nested) s))
          → Gathers c (join c (joins V c acc) (joins V c (t ∷ ts))) (
              elim it as (λ x. Action Item) [
                | decides value ↦ pure (decides value)
                | stands_for nested ↦ flatten c c ts (acc ++ nested)
              ]
                s)
      go (decides v) (d, m) rec = (
        decides v,
        refl,
        (
          d,
          λ r.
              ap (join c (joins V c acc)) (joins-cons V c t ts)
              ∙ deciding c (joins V c acc) (V t) (joins V c ts) (m r),
        ),
      )
      go (stands_for nested) (b, m) rec =
          Gathers-cong c _ _ _
            (λ r.
              ap (λ x. join c x (joins V c ts)) (joins-append V c acc nested)
              ∙ join_assoc c (joins V c acc) (joins V c nested) (joins V c ts)
              ∙ ap (λ x. join c (joins V c acc) (join c x (joins V c ts))) (m r)
              ∙ ap (join c (joins V c acc)) (sym (joins-cons V c t ts)))
            (rec nested b)
