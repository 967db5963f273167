-- ===== src/VmtfOrder/Moves.antt =====
-- `move_to_front` of `VmtfOrder` (src/solver.rs) keeps the links a list in the order of the stamps.
use satrap.Prelude.{
  ℕ, suc, ◌<◌, false, List, ◌==◌, length, set, length-set, if◌then◌else◌, ◌≡◌, ◌≢◌, ◌⊎◌, refl, sym,
  ap, ◌∙◌, subst, arith, inl, inr,
}
use satrap.Lit.{Var}
use satrap.Elimination.{Value}
use satrap.VmtfOrder.{
  VmtfLink, VmtfOrder, disconnected, max_stamp, link_of, set_previous, set_next, move_to_front,
  advance_stamp, is_assigned, left_search,
}
use satrap.VmtfOrder.Linked.{Linked, Moved, Moved-Linked}
use satrap.VmtfOrder.Queue.{
  previous_of, next_of, stamp_of, Chain, skip, skip-Skipped, set_self, set_other, set_next-next,
  set_next-previous, set_next-stamp, set_previous-previous, set_previous-next, set_previous-stamp,
}

-- The links after `v` has left its place and come after `last`, with a new stamp.
abbrev pub relinked : List VmtfLink → ℕ → ℕ → ℕ → List VmtfLink
relinked links v last stamp =
    let p = previous_of links v in
    let q = next_of links v in
    set_next
      (set (set_previous (skip links p q) q p) v
        (record { previous = last; next = disconnected; stamp = stamp }))
      last v

module _ (links : List VmtfLink) (v last top : ℕ) (lt : v < length links) (ne : v ≢ last)
    (h : Chain links last top) where
  place :
      (previous_of links v ≡ disconnected)
      ⊎ ((previous_of links v < length links)
          × (previous_of links v ≢ v)
          × (previous_of links v ≢ last))
  place = elim (h.earlier v lt) [
    | inl (none_, least) ↦ inl none_
    | inr (inside, back, below, nearest) ↦ inr (
      inside,
      (λ e. omega (arith, below, ap (stamp_of links) e)),
      (λ e. let k = h.latest v lt in omega (arith, below, k, ap (stamp_of links) e)),
    )
  ]

  pub following : (next_of links v < length links) × (next_of links v ≢ v)
  following = elim (h.later v lt) [
    | inl (e, k) ↦ absurd (ne e)
    | inr (d, inside, back) ↦ (
      inside,
      λ e. elim (h.earlier v lt) [
        | inl (none_, least) ↦
            let f = h.fits in omega (arith, none_, sym (ap (previous_of links) e) ∙ back)
        | inr (inside', back', below, nearest) ↦
            omega (arith, below, ap (stamp_of links) (sym (ap (previous_of links) e) ∙ back))
      ],
    )
  ]

  pub relinked-Moved :
      Moved
        (length links)
        (previous_of links)
        (next_of links)
        (stamp_of links)
        (previous_of (relinked links v last (suc top)))
        (next_of (relinked links v last (suc top)))
        (stamp_of (relinked links v last (suc top)))
        last
        top
        v
  relinked-Moved =
      let p = previous_of links v in
      let q = next_of links v in
      let (hq, dq) = following in
      let skipped =
        skip-Skipped links p q h.fits (elim place [ inl e ↦ inl e | inr (i, a, b) ↦ inr i ]) in
      let s = skip links p q in
      let l = set_previous s q p in
      let new : VmtfLink = record { previous = last; next = disconnected; stamp = suc top } in
      let m = set l v new in
      let q_in : q < length s = omega (arith, skipped.size) in
      let size_l : length l ≡ length links = length-set s q _ ∙ skipped.size in
      let v_in : v < length l = omega (arith, size_l) in
      let size_m : length m ≡ length links = length-set l v _ ∙ size_l in
      let last_in : last < length m = omega (arith, size_m, h.inside) in
      let at_v = set_self l v 0 v_in new in
      let off_v = set_other l v 0 v_in new in
      let previous_at = set_next-previous m last v last_in in
      let stamp_at = set_next-stamp m last v last_in in
      let next_at : (j : ℕ) → j ≢ last → next_of (set_next m last v) j ≡ next_of m j =
        λ j d. ap (λ k. k.next) (set_other m last v last_in _ j d) in
      record {
        prev_v = previous_at v ∙ ap (λ k. k.previous) at_v;
        prev_next =
            previous_at q ∙ ap (λ k. k.previous) (off_v q dq) ∙ set_previous-previous s q p q_in;
        prev_other = λ i hi d e.
            previous_at i
            ∙ ap (λ k. k.previous) (off_v i d)
            ∙ ap (λ k. k.previous) (set_other s q p q_in _ i e)
            ∙ skipped.previous i;
        next_last = set_next-next m last v last_in;
        next_v = next_at v ne ∙ ap (λ k. k.next) at_v;
        next_prev = λ hp. elim place [
          | inl e ↦ absurd (let f = h.fits in omega (arith, e, hp))
          | inr (i, a, b) ↦
              next_at p b
              ∙ ap (λ k. k.next) (off_v p a)
              ∙ set_previous-next s q p q_in p
              ∙ skipped.over hp
        ];
        next_other = λ i hi dl dv dp.
            next_at i dl
            ∙ ap (λ k. k.next) (off_v i dv)
            ∙ set_previous-next s q p q_in i
            ∙ skipped.next i dp;
        stamp_v = stamp_at v ∙ ap (λ k. k.stamp) at_v;
        stamp_other = λ i hi d.
            stamp_at i
            ∙ ap (λ k. k.stamp) (off_v i d)
            ∙ set_previous-stamp s q p q_in i
            ∙ skipped.stamp i;
      }

  pub relinked_size : length (relinked links v last (suc top)) ≡ length links
  relinked_size =
      let p = previous_of links v in
      let q = next_of links v in
      let skipped =
        skip-Skipped links p q h.fits (elim place [ inl e ↦ inl e | inr (i, a, b) ↦ inr i ]) in
      length-set _ last _ ∙ length-set _ v _ ∙ length-set (skip links p q) q _ ∙ skipped.size

  pub relinked-Chain : Chain (relinked links v last (suc top)) v (suc top)
  relinked-Chain =
      let after = relinked links v last (suc top) in
      subst (λ n. Linked n (previous_of after) (next_of after) (stamp_of after) v (suc top))
        (sym relinked_size)
        (Moved-Linked (length links) (previous_of links) (next_of links) (stamp_of links)
          (previous_of after) (next_of after) (stamp_of after) last top v lt ne h relinked-Moved)

-- Where stamps are left, moving a variable that is not the last gives these links.
pub move_to_front_links :
    (v : Var) (assignments : List Value) (o : VmtfOrder)
    → v < length o.links
    → v ≢ o.last
    → o.stamp < max_stamp
    → Chain o.links o.last o.stamp
    → move_to_front v assignments o ≡ record {
      links = relinked o.links v o.last (suc o.stamp);
      first = if (link_of o.links v).previous == disconnected then next_of o.links v else o.first;
      last = v;
      search = if is_assigned assignments v then left_search v assignments o else v;
      stamp = suc o.stamp;
    }
unfolding move_to_front advance_stamp
move_to_front_links v assignments o lt ne room h =
    let other : (v == o.last) ≡ false = ground arith in
    let more : (o.stamp == max_stamp) ≡ false = ground arith in
    let (inside, d) = following o.links v o.last o.stamp lt ne h in
    let linked : (next_of o.links v == disconnected) ≡ false = let f = h.fits in ground arith in
    rw (other, more, linked) refl
