-- ===== src/VmtfOrder/Queue.antt =====
-- Writes to the links of `VmtfOrder` (src/solver.rs).
use satrap.Prelude.{
  ℕ, ◌<◌, ◌≤◌, true, false, List, ◌==◌, length, set, length-set, get_or-set_self, get_or-set_ne,
  if◌then◌else◌, ◌≡◌, ◌≢◌, ◌⊎◌, refl, sym, ap, ◌∙◌, arith, inl, inr,
}
use satrap.VmtfOrder.{VmtfLink, disconnected, link_of, set_previous, set_next}
use satrap.VmtfOrder.Linked.{Linked, same_or_not}

abbrev pub previous_of : List VmtfLink → ℕ → ℕ
previous_of links i = (link_of links i).previous

abbrev pub next_of : List VmtfLink → ℕ → ℕ
next_of links i = (link_of links i).next

abbrev pub stamp_of : List VmtfLink → ℕ → ℕ
stamp_of links i = (link_of links i).stamp

-- The links of a list with `last` at its end.
abbrev pub Chain : List VmtfLink → ℕ → ℕ → Type 0
Chain links last top =
    Linked (length links) (previous_of links) (next_of links) (stamp_of links) last top

module _ (links : List VmtfLink) (i x : ℕ) (h : i < length links) where
  pub set_self : (l : VmtfLink) → link_of (set links i l) i ≡ l
  set_self l = get_or-set_self links i l _ h

  pub set_other : (l : VmtfLink) (j : ℕ) → j ≢ i → link_of (set links i l) j ≡ link_of links j
  set_other l j d = get_or-set_ne links i j l _ (λ e. d (sym e))

  pub set_next-next : next_of (set_next links i x) i ≡ x
  set_next-next = ap (λ l. l.next) (set_self _)

  pub set_next-previous : (j : ℕ) → previous_of (set_next links i x) j ≡ previous_of links j
  set_next-previous j = elim (same_or_not j i) [
    | inl e ↦
        ap (previous_of (set_next links i x)) e
        ∙ ap (λ l. l.previous) (set_self _)
        ∙ ap (previous_of links) (sym e)
    | inr d ↦ ap (λ l. l.previous) (set_other _ j d)
  ]

  pub set_next-stamp : (j : ℕ) → stamp_of (set_next links i x) j ≡ stamp_of links j
  set_next-stamp j = elim (same_or_not j i) [
    | inl e ↦
        ap (stamp_of (set_next links i x)) e
        ∙ ap (λ l. l.stamp) (set_self _)
        ∙ ap (stamp_of links) (sym e)
    | inr d ↦ ap (λ l. l.stamp) (set_other _ j d)
  ]

  pub set_previous-previous : previous_of (set_previous links i x) i ≡ x
  set_previous-previous = ap (λ l. l.previous) (set_self _)

  pub set_previous-next : (j : ℕ) → next_of (set_previous links i x) j ≡ next_of links j
  set_previous-next j = elim (same_or_not j i) [
    | inl e ↦
        ap (next_of (set_previous links i x)) e
        ∙ ap (λ l. l.next) (set_self _)
        ∙ ap (next_of links) (sym e)
    | inr d ↦ ap (λ l. l.next) (set_other _ j d)
  ]

  pub set_previous-stamp : (j : ℕ) → stamp_of (set_previous links i x) j ≡ stamp_of links j
  set_previous-stamp j = elim (same_or_not j i) [
    | inl e ↦
        ap (stamp_of (set_previous links i x)) e
        ∙ ap (λ l. l.stamp) (set_self _)
        ∙ ap (stamp_of links) (sym e)
    | inr d ↦ ap (λ l. l.stamp) (set_other _ j d)
  ]

-- The link before `v` passes it over, if there is one.
abbrev pub skip : List VmtfLink → ℕ → ℕ → List VmtfLink
skip links p q = if p == disconnected then links else set_next links p q

-- What is left of the links of others.
pub record Skipped (links after : List VmtfLink) (p q : ℕ) : Type 0 where
  pub size : length after ≡ length links
  pub previous : (j : ℕ) → previous_of after j ≡ previous_of links j
  pub stamp : (j : ℕ) → stamp_of after j ≡ stamp_of links j
  pub next : (j : ℕ) → j ≢ p → next_of after j ≡ next_of links j
  pub over : p < length links → next_of after p ≡ q

pub skip-Skipped :
    (links : List VmtfLink) (p q : ℕ)
    → length links ≤ disconnected
    → (p ≡ disconnected) ⊎ (p < length links)
    → Skipped links (skip links p q) p q
skip-Skipped links p q fits (inl e) =
    let test : (p == disconnected) ≡ true = ground arith in
    rw test (record {
      size = refl;
      previous = λ j. refl;
      stamp = λ j. refl;
      next = λ j d. refl;
      over = λ h. absurd (omega arith);
    })
skip-Skipped links p q fits (inr h) =
    let test : (p == disconnected) ≡ false = ground arith in
    rw test (record {
      size = length-set links p _;
      previous = set_next-previous links p q h;
      stamp = set_next-stamp links p q h;
      next = λ j d. ap (λ l. l.next) (set_other links p q h _ j d);
      over = λ k. set_next-next links p q h;
    })
