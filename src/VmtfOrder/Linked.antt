-- ===== src/VmtfOrder/Linked.antt =====
-- The links of `VmtfOrder` (src/solver.rs) as functions of the variable: what makes them a list in
-- the order of the stamps, and what moving a variable to the end does to it.
use satrap.Prelude.{
  ℕ, suc, ◌<◌, ◌≤◌, leb, ◌==◌, ◌≡◌, ◌≢◌, ◌⊎◌, sym, ap, ◌∙◌, subst, arith, Bool-cases, inl, inr,
}
use satrap.VmtfOrder.{disconnected}

-- The link before a variable has the greatest of the smaller stamps.
abbrev pub Earlier : ℕ → (ℕ → ℕ) → (ℕ → ℕ) → (ℕ → ℕ) → ℕ → Type 0
Earlier n prev next stamp i =
    ((prev i ≡ disconnected) × ((j : ℕ) → j < n → stamp i ≤ stamp j))
    ⊎ ((prev i < n)
        × (next (prev i) ≡ i)
        × (stamp (prev i) < stamp i)
        × ((j : ℕ) → j < n → stamp j < stamp i → stamp j ≤ stamp (prev i)))

abbrev pub Later : ℕ → (ℕ → ℕ) → (ℕ → ℕ) → ℕ → ℕ → Type 0
Later n prev next last i =
    ((i ≡ last) × (next i ≡ disconnected)) ⊎ ((i ≢ last) × (next i < n) × (prev (next i) ≡ i))

pub record Linked (n : ℕ) (prev next stamp : ℕ → ℕ) (last top : ℕ) : Type 0 where
  pub fits : n ≤ disconnected
  pub inside : last < n
  pub earlier : (i : ℕ) → i < n → Earlier n prev next stamp i
  pub later : (i : ℕ) → i < n → Later n prev next last i
  pub differ : (i j : ℕ) → i < n → j < n → stamp i ≡ stamp j → i ≡ j
  pub bounded : (i : ℕ) → i < n → stamp i ≤ top
  pub latest : (i : ℕ) → i < n → stamp i ≤ stamp last

-- The links after `v`, which was not the last, was moved to the end.
pub record Moved (n : ℕ) (prev next stamp prev' next' stamp' : ℕ → ℕ) (last top v : ℕ)
    : Type 0 where
  pub prev_v : prev' v ≡ last
  pub prev_next : prev' (next v) ≡ prev v
  pub prev_other : (i : ℕ) → i < n → i ≢ v → i ≢ next v → prev' i ≡ prev i
  pub next_last : next' last ≡ v
  pub next_v : next' v ≡ disconnected
  pub next_prev : prev v < n → next' (prev v) ≡ next v
  pub next_other : (i : ℕ) → i < n → i ≢ last → i ≢ v → i ≢ prev v → next' i ≡ next i
  pub stamp_v : stamp' v ≡ suc top
  pub stamp_other : (i : ℕ) → i < n → i ≢ v → stamp' i ≡ stamp i

pub same_or_not : (i j : ℕ) → (i ≡ j) ⊎ (i ≢ j)
same_or_not i j = elim (Bool-cases (i == j)) [
  | inl e ↦ inl (ground arith)
  | inr e ↦ inr (ground arith)
]

module _ (n : ℕ) (prev next stamp prev' next' stamp' : ℕ → ℕ) (last top v : ℕ) (lt : v < n)
    (ne : v ≢ last) (h : Linked n prev next stamp last top)
    (m : Moved n prev next stamp prev' next' stamp' last top v) where
  next_inside : (next v < n) × (prev (next v) ≡ v)
  next_inside = elim (h.later v lt) [ inl (e, k) ↦ absurd (ne e) | inr (d, k, l) ↦ (k, l) ]

  -- Only the link before has a variable as its next.
  next_injective : (i j : ℕ) → i < n → j < n → i ≢ last → j ≢ last → next i ≡ next j → i ≡ j
  next_injective i j hi hj di dj e = elim (h.later i hi) [
    | inl (k, l) ↦ absurd (di k)
    | inr (d, k, l) ↦ elim (h.later j hj) [
      | inl (k', l') ↦ absurd (dj k')
      | inr (d', k', l') ↦ sym l ∙ ap prev e ∙ l'
    ]
  ]

  stamps_at_most : (i : ℕ) → i < n → stamp' i ≤ suc top
  stamps_at_most i hi = elim (same_or_not i v) [
    | inl e ↦ omega (arith, ap stamp' e, m.stamp_v)
    | inr e ↦ omega (arith, m.stamp_other i hi e, h.bounded i hi)
  ]

  differ' : (i j : ℕ) → i < n → j < n → stamp' i ≡ stamp' j → i ≡ j
  differ' i j hi hj e = elim (same_or_not i v) [
    | inl p ↦ elim (same_or_not j v) [
      | inl q ↦ p ∙ sym q
      | inr q ↦
          absurd (omega (arith, e, ap stamp' p, m.stamp_v, m.stamp_other j hj q, h.bounded j hj))
    ]
    | inr p ↦ elim (same_or_not j v) [
      | inl q ↦
          absurd (omega (arith, e, ap stamp' q, m.stamp_v, m.stamp_other i hi p, h.bounded i hi))
      | inr q ↦ h.differ i j hi hj (sym (m.stamp_other i hi p) ∙ e ∙ m.stamp_other j hj q)
    ]
  ]

  stamp_last : stamp' last ≡ stamp last
  stamp_last = m.stamp_other last h.inside (λ e. ne (sym e))

  -- A stamp that is below another one is not the new one.
  old_stamp : (i j : ℕ) → i < n → j < n → stamp' j < stamp' i → (j ≢ v) × (stamp' j ≡ stamp j)
  old_stamp i j hi hj k =
      let most = stamps_at_most i hi in
      let other : j ≢ v = λ e. omega (arith, ap stamp' e, m.stamp_v) in
      (other, m.stamp_other j hj other)

  Earlier-v : Earlier n prev' next' stamp' v
  Earlier-v = inr (
    subst (λ p. p < n) (sym m.prev_v) h.inside,
    ap next' m.prev_v ∙ m.next_last,
    (let b = h.bounded last h.inside in omega (arith, ap stamp' m.prev_v, stamp_last, m.stamp_v)),
    (λ j hj k.
        let (d, e) = old_stamp v j lt hj k in
        let l = h.latest j hj in omega (arith, e, l, ap stamp' m.prev_v, stamp_last)),
  )

  not_shared : (i : ℕ) → i ≢ v → prev i < n → next (prev i) ≡ i → prev i ≢ prev v
  not_shared i d inside back p = elim (h.earlier v lt) [
    | inl (none_, least) ↦ let f = h.fits in omega (arith, p, none_, inside)
    | inr (inside', back', below', nearest') ↦ d (sym back ∙ ap next p ∙ back')
  ]

  -- The link before another variable stays, if it was not moved.
  Earlier-other :
      (i : ℕ)
      → i < n
      → i ≢ v
      → i ≢ next v
      → Earlier n prev next stamp i
      → Earlier n prev' next' stamp' i
  Earlier-other i hi d e (inl (none_, least)) = inl (
    m.prev_other i hi d e ∙ none_,
    λ j hj. elim (same_or_not j v) [
      | inl q ↦
          let b = h.bounded i hi in omega (arith, ap stamp' q, m.stamp_v, m.stamp_other i hi d)
      | inr q ↦ let k = least j hj in omega (arith, m.stamp_other i hi d, m.stamp_other j hj q)
    ],
  )
  Earlier-other i hi d e (inr (inside, back, below, nearest)) =
      let same = m.prev_other i hi d e in
      let not_v : prev i ≢ v = λ p. e (sym back ∙ ap next p) in
      let not_last : prev i ≢ last = λ p. omega (arith, ap stamp p, below, h.latest i hi) in
      let not_prev : prev i ≢ prev v = λ p. not_shared i d inside back p in
      inr (
        subst (λ p. p < n) (sym same) inside,
        ap next' same ∙ m.next_other (prev i) inside not_last not_v not_prev ∙ back,
        omega (
          arith,
          ap stamp' same,
          m.stamp_other (prev i) inside not_v,
          below,
          m.stamp_other i hi d,
        ),
        (λ j hj k.
            let (q, r) = old_stamp i j hi hj k in
            let near = nearest j hj (omega (arith, k, r, m.stamp_other i hi d)) in
            omega (arith, r, near, ap stamp' same, m.stamp_other (prev i) inside not_v)),
      )

  -- What was between the variable and the next one: nothing.
  pub beyond :
      (stamp v < stamp (next v)) × ((j : ℕ) → j < n → stamp j < stamp (next v) → stamp j ≤ stamp v)
  beyond =
      let (k, l) = next_inside in
      elim (h.earlier (next v) k) [
        | inl (none_, least) ↦ absurd (let f = h.fits in omega (arith, none_, l))
        | inr (inside, back, below, nearest) ↦ (
          omega (arith, below, ap stamp l),
          λ j hj b. let c = nearest j hj b in omega (arith, c, ap stamp l),
        )
      ]

  Earlier-next : Earlier n prev next stamp v → Earlier n prev' next' stamp' (next v)
  Earlier-next e =
      let (k, l) = next_inside in
      let (gap, between) = beyond in
      let moved_on : next v ≢ v = λ p. omega (arith, gap, ap stamp p) in
      let stays = m.stamp_other (next v) k moved_on in
      elim e [
        | inl (none_, least) ↦ inl (
          m.prev_next ∙ none_,
          λ j hj. elim (same_or_not j v) [
            | inl q ↦ let b = h.bounded (next v) k in omega (arith, ap stamp' q, m.stamp_v, stays)
            | inr q ↦
                let apart : stamp j ≢ stamp v = λ p. q (h.differ j v hj lt p) in
                let a = least j hj in
                elim (Bool-cases (leb (stamp (next v)) (stamp j))) [
                  | inl t ↦
                      let le : stamp (next v) ≤ stamp j = ground arith in
                      omega (arith, stays, m.stamp_other j hj q)
                  | inr t ↦ let b = between j hj (ground arith) in absurd (apart (omega arith))
                ]
          ],
        )
        | inr (inside, back, below, nearest) ↦
            let apart : prev v ≢ v = λ p. omega (arith, below, ap stamp p) in
            let kept = m.stamp_other (prev v) inside apart in
            let same = ap stamp' m.prev_next in
            inr (
              subst (λ p. p < n) (sym m.prev_next) inside,
              ap next' m.prev_next ∙ m.next_prev inside,
              omega (arith, same, kept, stays, below, gap),
              (λ j hj c.
                  let (q, r) = old_stamp (next v) j k hj c in
                  let apart_j : stamp j ≢ stamp v = λ p. q (h.differ j v hj lt p) in
                  let b = between j hj (omega (arith, c, r, stays)) in
                  let strictly : stamp j < stamp v = ground arith in
                  let near = nearest j hj strictly in omega (arith, r, near, same, kept)),
            )
      ]

  earlier' : (i : ℕ) → i < n → Earlier n prev' next' stamp' i
  earlier' i hi = elim (same_or_not i v) [
    | inl p ↦ subst (Earlier n prev' next' stamp') (sym p) Earlier-v
    | inr p ↦ elim (same_or_not i (next v)) [
      | inl q ↦ subst (Earlier n prev' next' stamp') (sym q) (Earlier-next (h.earlier v lt))
      | inr q ↦ Earlier-other i hi p q (h.earlier i hi)
    ]
  ]

  Later-rest : (i : ℕ) → i < n → i ≢ v → i ≢ last → i ≢ prev v → Later n prev' next' v i
  Later-rest i hi d e f = elim (h.later i hi) [
    | inl (p, q) ↦ absurd (e p)
    | inr (p, inside, back) ↦
        let same = m.next_other i hi e d f in
        let not_v : next i ≢ v = λ q. f (sym back ∙ ap prev q) in
        let not_next : next i ≢ next v = λ q. d (next_injective i v hi lt e ne q) in
        inr (
          d,
          subst (λ t. t < n) (sym same) inside,
          ap prev' same ∙ m.prev_other (next i) inside not_v not_next ∙ back,
        )
  ]

  later' : (i : ℕ) → i < n → Later n prev' next' v i
  later' i hi = elim (same_or_not i v) [
    | inl p ↦ inl (p, ap next' p ∙ m.next_v)
    | inr p ↦ elim (same_or_not i last) [
      | inl q ↦
          let same = ap next' q ∙ m.next_last in
          inr (p, subst (λ t. t < n) (sym same) lt, ap prev' same ∙ m.prev_v ∙ sym q)
      | inr q ↦ elim (same_or_not i (prev v)) [
        | inl r ↦
            let (k, l) = next_inside in
            let same = ap next' r ∙ m.next_prev (subst (λ t. t < n) r hi) in
            inr (p, subst (λ t. t < n) (sym same) k, ap prev' same ∙ m.prev_next ∙ sym r)
        | inr r ↦ Later-rest i hi p q r
      ]
    ]
  ]

  pub Moved-Linked : Linked n prev' next' stamp' v (suc top)
  Moved-Linked = record {
    fits = h.fits;
    inside = lt;
    earlier = earlier';
    later = later';
    differ = differ';
    bounded = stamps_at_most;
    latest = λ i hi. let b = stamps_at_most i hi in omega (arith, m.stamp_v);
  }
