-- ===== src/Restart/Lbd/Run.antt =====
-- `LbdRestartState` of src/solver.rs over a whole run: the values of all conflicts, and those since
-- the ring was cleared last.
use satrap.Prelude.{
  ℕ, ◌+◌, ◌*◌, ◌≤◌, ◌<◌, true, false, not, ◌||◌, List, [], ◌∷◌, ◌==◌, ltb, if◌then◌else◌, length,
  min, ◌≡◌, ◌↔◌, refl, arith,
}
use satrap.Restart.History.{newest_sum}
use satrap.Restart.Word.{u64_max}
use satrap.Restart.Lbd.{LbdRestartState, window, default, observe, should_restart, clear_recent}
use satrap.Restart.Lbd.Window.{
  IsWindow, default-IsWindow, clear_recent-IsWindow, observe-lbd_window,
}

-- What the solver does with the state: it tells a value after a conflict, and clears the ring.
pub data Event : Type 0 where
  observed : ℕ → Event
  cleared : Event

-- The state after the events, which stand newest first.
abbrev pub run : List Event → LbdRestartState
run [] = default
run (observed lbd ∷ events) = observe (run events) lbd
run (cleared ∷ events) = clear_recent (run events)

abbrev pub all_values : List Event → List ℕ
all_values [] = []
all_values (observed lbd ∷ events) = lbd ∷ all_values events
all_values (cleared ∷ events) = all_values events

abbrev pub since_cleared : List Event → List ℕ
since_cleared [] = []
since_cleared (observed lbd ∷ events) = lbd ∷ since_cleared events
since_cleared (cleared ∷ events) = []

abbrev pub total : List ℕ → ℕ
total [] = 0
total (x ∷ xs) = x + total xs

run-IsWindow : (events : List Event) → IsWindow (since_cleared events) (run events)
run-IsWindow [] = default-IsWindow
run-IsWindow (observed lbd ∷ events) =
    (observe-lbd_window (since_cleared events) (run events) lbd (run-IsWindow events)).0
run-IsWindow (cleared ∷ events) =
    clear_recent-IsWindow (since_cleared events) (run events) (run-IsWindow events)

-- The sum and the count of all values; clearing the ring keeps them.
run_sum : (events : List Event) → (run events).global_sum ≡ min (total (all_values events)) u64_max
unfolding observe clear_recent
run_sum [] = refl
run_sum (observed lbd ∷ events) = omega (arith, run_sum events)
run_sum (cleared ∷ events) = run_sum events

run_count :
    (events : List Event) → (run events).conflicts ≡ min (length (all_values events)) u64_max
unfolding observe clear_recent
run_count [] = refl
run_count (observed lbd ∷ events) = omega (arith, run_count events)
run_count (cleared ∷ events) = run_count events

length-since_cleared :
    (events : List Event) → length (since_cleared events) ≤ length (all_values events)
length-since_cleared [] = omega arith
length-since_cleared (observed lbd ∷ events) = omega (arith, length-since_cleared events)
length-since_cleared (cleared ∷ events) = omega arith

test_iff :
    (count n c a b : ℕ)
    → count ≡ min n window
    → (window ≤ n → 0 < c)
    → ((if not (count == window) || c == 0 then false else ltb a b) ≡ true)
      ↔ ((window ≤ n) × (a < b))
test_iff count n c a b h some_ = (λ e. ground arith, λ e. let k = some_ e.0 in ground arith)

-- After any run, a restart is due exactly when a whole window of values has been seen since the ring
-- was cleared last and its average exceeds 5/4 of the average of all values that were ever seen; the
-- sum and the count of all values stop at the largest u64.
pub should_restart_iff :
    (events : List Event)
    → (should_restart (run events) ≡ true) ↔ (
        (window ≤ length (since_cleared events))
        × (min (total (all_values events)) u64_max * 5 * window
            < newest_sum window (since_cleared events)
              * 4
              * min (length (all_values events)) u64_max))
unfolding should_restart
should_restart_iff events =
    let w = run-IsWindow events in
    rw (w.total, run_sum events, run_count events)
      (test_iff (run events).recent_len (length (since_cleared events))
        (min (length (all_values events)) u64_max) _ _ w.count
        (λ full. let more = length-since_cleared events in omega arith))
