-- ===== src/Restart/Lbd.antt =====
-- `LbdRestartState` of src/solver.rs: a ring of the last `LBD_RESTART_WINDOW` values with its sum.
pub mod Window
pub mod Run
use satrap.Prelude.{
  ℕ, ◌+◌, ◌-◌, ◌*◌, ◌%◌, Bool, true, false, not, ◌||◌, List, ◌==◌, ltb, if◌then◌else◌, get_or, set,
  replicate,
}
use satrap.Restart.Word.{sat_add}

abbrev pub window : ℕ
window = 50

pub record LbdRestartState : Type 0 where
  pub recent : List ℕ
  pub recent_next : ℕ
  pub recent_len : ℕ
  pub recent_sum : ℕ
  pub global_sum : ℕ
  pub conflicts : ℕ

abbrev pub default : LbdRestartState
default = record {
  recent = replicate window 0;
  recent_next = 0;
  recent_len = 0;
  recent_sum = 0;
  global_sum = 0;
  conflicts = 0;
}

-- `recent_sum -= …` is where an underflow would panic; `IsWindow` rules it out.
unfoldable pub observe : LbdRestartState → ℕ → LbdRestartState
observe s lbd =
    let full = s.recent_len == window in
    record {
      recent = set s.recent s.recent_next lbd;
      recent_next = (s.recent_next + 1) % window;
      recent_len = if full then s.recent_len else s.recent_len + 1;
      recent_sum =
          (if full then s.recent_sum - get_or s.recent s.recent_next 0 else s.recent_sum) + lbd;
      global_sum = sat_add s.global_sum lbd;
      conflicts = sat_add s.conflicts 1;
    }

unfoldable pub is_full : LbdRestartState → Bool
is_full s = s.recent_len == window

-- The products are of u128 numbers and do not overflow.
unfoldable pub should_restart : LbdRestartState → Bool
unfolding is_full
should_restart s =
    if not (is_full s) || s.conflicts == 0
    then false
    else ltb (s.global_sum * 5 * window) (s.recent_sum * 4 * s.conflicts)

unfoldable pub clear_recent : LbdRestartState → LbdRestartState
clear_recent s = record s { recent_next = 0; recent_len = 0; recent_sum = 0 }
