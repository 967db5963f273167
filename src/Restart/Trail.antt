-- ===== src/Restart/Trail.antt =====
-- `TrailRestartState` of src/solver.rs: a ring of trail lengths that grows up to its window.
pub mod Window
use satrap.Prelude.{
  ℕ, ◌+◌, ◌-◌, ◌*◌, ◌%◌, Bool, not, ◌&&◌, List, [], ◌∷◌, ◌++◌, ◌==◌, ltb, if◌then◌else◌, get_or,
  set, length,
}

abbrev pub window : ℕ
window = 5000

pub record TrailRestartState : Type 0 where
  pub recent : List ℕ
  pub recent_next : ℕ
  pub recent_sum : ℕ

abbrev pub default : TrailRestartState
default = record { recent = []; recent_next = 0; recent_sum = 0 }

-- The sum is a u128 and does not overflow; `IsWindow` rules out an underflow of `-=`.
unfoldable pub observe : TrailRestartState → ℕ → TrailRestartState
observe s trail_length =
    if length s.recent == window
    then record {
      recent = set s.recent s.recent_next trail_length;
      recent_next = (s.recent_next + 1) % window;
      recent_sum = s.recent_sum - get_or s.recent s.recent_next 0 + trail_length;
    }
    else record s {
      recent = s.recent ++ trail_length ∷ [];
      recent_sum = s.recent_sum + trail_length;
    }

unfoldable pub unusually_deep : TrailRestartState → ℕ → Bool
unusually_deep s trail_length =
    not (length s.recent == 0) && ltb (s.recent_sum * 7) (trail_length * 5 * length s.recent)
