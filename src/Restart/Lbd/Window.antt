-- ===== src/Restart/Lbd/Window.antt =====
-- The ring of `LbdRestartState` (src/solver.rs) against the history of the observed values.
use satrap.Prelude.{
  ℕ, zero, suc, ◌+◌, ◌-◌, ◌%◌, ◌≤◌, ◌<◌, List, [], ◌∷◌, ◌==◌, if◌then◌else◌, get_or, set, length,
  min, ◌≡◌, ◌≢◌, refl, ◌∙◌, arith, Bool-cases, inl, inr, length-set, get_or-set_self, get_or-set_ne,
}
use satrap.Restart.History.{newest_sum, newest_sum-suc, get_or_out, get_or-le-newest_sum}
use satrap.Restart.Lbd.{LbdRestartState, window, default, observe, clear_recent}

-- The ring holds the newest values of the history `h` since the last reset.
pub record IsWindow (h : List ℕ) (s : LbdRestartState) : Type 0 where
  pub size : length s.recent ≡ window
  pub next : s.recent_next ≡ length h % window
  pub count : s.recent_len ≡ min (length h) window
  pub total : s.recent_sum ≡ newest_sum window h
  pub entries :
      (i : ℕ)
      → i < min (length h) window
      → get_or s.recent ((length h + (window - 1 - i)) % window) 0 ≡ get_or h i 0

pub default-IsWindow : IsWindow [] default
default-IsWindow = record {
  size = refl;
  next = refl;
  count = refl;
  total = refl;
  entries = λ i h. absurd (omega arith);
}

pub clear_recent-IsWindow :
    (h : List ℕ) (s : LbdRestartState) → IsWindow h s → IsWindow [] (clear_recent s)
unfolding clear_recent
clear_recent-IsWindow h s w = record {
  size = w.size;
  next = refl;
  count = refl;
  total = refl;
  entries = λ i k. absurd (omega arith);
}

count-suc :
    (count n : ℕ)
    → count ≡ min n window
    → (if count == window then count else count + 1) ≡ min (suc n) window
count-suc count n h = ground arith

module _ (h : List ℕ) (s : LbdRestartState) (w : IsWindow h s) (x : ℕ) where
  -- The entry that the write replaces is the one that leaves the window.
  oldest : window ≤ length h → get_or s.recent s.recent_next 0 ≡ get_or h (window - 1) 0
  oldest full =
      let at : s.recent_next ≡ (length h + (window - 1 - 49)) % window = omega (arith, w.next) in
      rw at (w.entries 49 (omega arith))

  observe-entries :
      (i : ℕ)
      → i < min (suc (length h)) window
      → get_or (set s.recent s.recent_next x) ((suc (length h) + (window - 1 - i)) % window) 0
        ≡ get_or (x ∷ h) i 0
  observe-entries zero k =
      let at : (suc (length h) + 49) % window ≡ s.recent_next = omega (arith, w.next) in
      rw at (get_or-set_self s.recent s.recent_next x 0 (omega (arith, w.size, w.next)))
  observe-entries (suc i) k =
      let at : (suc (length h) + (49 - suc i)) % window ≡ (length h + (window - 1 - i)) % window =
        omega arith in
      let other : s.recent_next ≢ (length h + (window - 1 - i)) % window = omega (arith, w.next) in
      rw (at, get_or-set_ne s.recent s.recent_next _ x 0 other) (w.entries i (omega arith))

  observe-total : (observe s x).recent_sum ≡ newest_sum window (x ∷ h)
  unfolding observe
  observe-total = elim (Bool-cases (s.recent_len == window)) [
    | inl full ↦
        rw (full, oldest (ground (arith, w.count))) (omega (arith, w.total, newest_sum-suc 49 h))
    | inr short ↦
        let few : length h ≤ 49 = ground (arith, w.count) in
        rw short (omega (arith, w.total, newest_sum-suc 49 h, get_or_out h 49 few))
  ]

  pub observe-IsWindow : IsWindow (x ∷ h) (observe s x)
  unfolding observe
  observe-IsWindow = record {
    size = length-set s.recent s.recent_next x ∙ w.size;
    next = omega (arith, w.next);
    count = count-suc s.recent_len (length h) w.count;
    total = observe-total;
    entries = observe-entries;
  }

-- Observing a value keeps the ring in step with the history, the subtraction of the value that
-- leaves the window does not underflow, and the sum is that of the newest `window` values.
pub observe-lbd_window :
    (h : List ℕ) (s : LbdRestartState) (x : ℕ)
    → IsWindow h s
    → IsWindow (x ∷ h) (observe s x)
      × ((s.recent_len ≡ window) → get_or s.recent s.recent_next 0 ≤ s.recent_sum)
observe-lbd_window h s x w = (
  observe-IsWindow h s w x,
  λ full. omega (
    arith,
    w.total,
    oldest h s w x (omega (arith, w.count)),
    get_or-le-newest_sum window 49 h (omega arith),
  ),
)
