-- ===== src/Restart/Trail/Window.antt =====
-- The ring of `TrailRestartState` (src/solver.rs) against the history of the observed lengths.
use satrap.Prelude.{
  ℕ, zero, suc, ◌+◌, ◌-◌, ◌*◌, ◌%◌, ◌≤◌, ◌<◌, true, false, not, ◌&&◌, List, [], ◌∷◌, ◌++◌, ◌==◌,
  ltb, get_or, set, length, min, ◌≡◌, ◌≢◌, ◌↔◌, refl, ◌∙◌, arith, length-set, length-append,
  get_or-set_self, get_or-set_ne,
}
use native.Mathlib.Decide.{dec_le}
use satrap.Restart.History.{newest_sum, newest_sum-suc, get_or_out, get_or-le-newest_sum}
use satrap.Restart.Trail.{TrailRestartState, window, default, observe, unusually_deep}

pub record IsWindow (h : List ℕ) (s : TrailRestartState) : Type 0 where
  pub size : length s.recent ≡ min (length h) window
  pub early : length h < window → s.recent_next ≡ 0
  pub late : window ≤ length h → s.recent_next ≡ length h % window
  pub total : s.recent_sum ≡ newest_sum window h
  pub entries :
      (i : ℕ)
      → i < min (length h) window
      → get_or s.recent ((length h + (window - 1 - i)) % window) 0 ≡ get_or h i 0

pub default-IsWindow : IsWindow [] default
default-IsWindow = record {
  size = refl;
  early = λ k. refl;
  late = λ k. refl;
  total = refl;
  entries = λ i k. absurd (omega arith);
}

get_or-append_left :
    (xs ys : List ℕ) (i : ℕ) → i < length xs → get_or (xs ++ ys) i 0 ≡ get_or xs i 0
get_or-append_left [] ys i k = elim k [ ]
get_or-append_left (x ∷ xs) ys zero k = refl
get_or-append_left (x ∷ xs) ys (suc i) k = get_or-append_left xs ys i (omega arith)

get_or-append_last : (xs : List ℕ) (x : ℕ) → get_or (xs ++ x ∷ []) (length xs) 0 ≡ x
get_or-append_last [] x = refl
get_or-append_last (y ∷ xs) x = get_or-append_last xs x

-- The counts, as facts about numbers.
full_test : (c n : ℕ) → c ≡ min n window → window ≤ n → (c == window) ≡ true
full_test c n e k = ground arith

short_test : (c n : ℕ) → c ≡ min n window → n < window → (c == window) ≡ false
short_test c n e k = ground arith

full_size : (c n : ℕ) → c ≡ min n window → window ≤ n → c ≡ min (suc n) window
full_size c n e k = omega arith

short_size : (c n : ℕ) → c ≡ min n window → n < window → c + 1 ≡ min (suc n) window
short_size c n e k = omega arith

full_next : (r n : ℕ) → r ≡ n % window → (r + 1) % window ≡ suc n % window
full_next r n e = omega arith

short_next : (r n : ℕ) → r ≡ 0 → n < window → window ≤ suc n → r ≡ suc n % window
short_next r n e k l = omega arith

full_total : (sum a b rest x old : ℕ) → sum ≡ a → a ≡ rest + b → old ≡ b → sum - old + x ≡ x + rest
full_total sum a b rest x old e f g = omega arith

short_total : (sum a b rest x : ℕ) → sum ≡ a → a ≡ rest + b → b ≡ 0 → sum + x ≡ x + rest
short_total sum a b rest x e f g = omega arith

depth_iff :
    (c n a b : ℕ) → c ≡ min n window → ((not (c == 0) && ltb a b) ≡ true) ↔ ((0 < n) × (a < b))
depth_iff c n a b e = (λ h. ground arith, λ h. ground arith)

module _ (h : List ℕ) (s : TrailRestartState) (w : IsWindow h s) (x : ℕ) where
  module _ (full : window ≤ length h) where
    at_next : s.recent_next ≡ length h % window
    at_next = w.late full

    oldest : get_or s.recent s.recent_next 0 ≡ get_or h (window - 1) 0
    oldest =
        let at : s.recent_next ≡ (length h + (window - 1 - 4999)) % window =
          omega (arith, at_next) in
        rw at (w.entries 4999 (omega arith))

    replaced :
        (i : ℕ)
        → i < min (suc (length h)) window
        → get_or (set s.recent s.recent_next x) ((suc (length h) + (window - 1 - i)) % window) 0
          ≡ get_or (x ∷ h) i 0
    replaced zero k =
        let at : (suc (length h) + 4999) % window ≡ s.recent_next = omega (arith, at_next) in
        rw at (get_or-set_self s.recent s.recent_next x 0 (omega (arith, w.size, at_next)))
    replaced (suc i) k =
        let at : (suc (length h) + (4999 - suc i)) % window
            ≡ (length h + (window - 1 - i)) % window =
          omega arith in
        let other : s.recent_next ≢ (length h + (window - 1 - i)) % window =
          omega (arith, at_next) in
        rw (at, get_or-set_ne s.recent s.recent_next _ x 0 other) (w.entries i (omega arith))

  module _ (short : length h < window) where
    pushed :
        (i : ℕ)
        → i < min (suc (length h)) window
        → get_or (s.recent ++ x ∷ []) ((suc (length h) + (window - 1 - i)) % window) 0
          ≡ get_or (x ∷ h) i 0
    pushed zero k =
        let at : (suc (length h) + 4999) % window ≡ length s.recent = omega (arith, w.size) in
        rw at (get_or-append_last s.recent x)
    pushed (suc i) k =
        let at : (suc (length h) + (4999 - suc i)) % window
            ≡ (length h + (window - 1 - i)) % window =
          omega arith in
        let inside : (length h + (window - 1 - i)) % window < length s.recent =
          omega (arith, w.size) in
        rw (at, get_or-append_left s.recent (x ∷ []) _ inside) (w.entries i (omega arith))

  observe-full : window ≤ length h → IsWindow (x ∷ h) (observe s x)
  unfolding observe
  observe-full full = rw (full_test _ (length h) w.size full) (record {
    size = length-set s.recent s.recent_next x ∙ full_size _ (length h) w.size full;
    early = λ k. absurd (not_early full k);
    late = λ k. full_next _ (length h) (at_next full);
    total = full_total _ _ _ _ x _ w.total (newest_sum-suc 4999 h) (oldest full);
    entries = replaced full;
  })
    where
      not_early : window ≤ length h → suc (length h) < window → ⊥
      not_early f k = omega arith

  observe-short : length h < window → IsWindow (x ∷ h) (observe s x)
  unfolding observe
  observe-short short = rw (short_test _ (length h) w.size short) (record {
    size = length-append s.recent (x ∷ []) ∙ short_size _ (length h) w.size short;
    early = λ k. w.early short;
    late = λ k. short_next _ (length h) (w.early short) short k;
    total = short_total _ _ _ _ x w.total (newest_sum-suc 4999 h) (get_or_out h 4999 (below short));
    entries = pushed short;
  })
    where
      below : length h < window → length h ≤ 4999
      below k = omega arith

-- Observing a trail length keeps the ring in step with the history, also while it still grows, and
-- the subtraction of the length that leaves the window does not underflow.
pub observe-trail_window :
    (h : List ℕ) (s : TrailRestartState) (x : ℕ)
    → IsWindow h s
    → IsWindow (x ∷ h) (observe s x)
      × (length s.recent ≡ window → get_or s.recent s.recent_next 0 ≤ s.recent_sum)
observe-trail_window h s x w = (
  elim (dec_le window (length h)) [
    | yes full ↦ observe-full h s w x full
    | no short ↦ observe-short h s w x (omega arith)
  ],
  λ size.
      let full : window ≤ length h = omega (arith, w.size) in
      omega (arith, w.total, oldest h s w x full, get_or-le-newest_sum window 4999 h (omega arith)),
)

-- A trail is unusually deep exactly when lengths have been observed and it exceeds 7/5 of the
-- average of those in the window.
pub unusually_deep_iff :
    (h : List ℕ) (s : TrailRestartState) (trail_length : ℕ)
    → IsWindow h s
    → (unusually_deep s trail_length ≡ true)
      ↔ ((0 < length h) × (newest_sum window h * 7 < trail_length * 5 * min (length h) window))
unfolding unusually_deep
unusually_deep_iff h s trail_length w =
    rw (w.total, ← w.size)
      (depth_iff (length s.recent) (length h) (newest_sum window h * 7)
        (trail_length * 5 * length s.recent) w.size)
