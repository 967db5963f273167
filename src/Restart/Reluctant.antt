-- ===== src/Restart/Reluctant.antt =====
-- `ReluctantRestart` of src/solver.rs: restart intervals by reluctant doubling.
pub mod Schedule
use Prim.Native.Nat.{bit_and}
use satrap.Prelude.{
  ℕ, zero, suc, ◌+◌, ◌-◌, ◌*◌, ◌%◌, ◌^◌, Bool, true, false, ◌==◌, ltb, if◌then◌else◌,
}
use satrap.Restart.Word.{sat_add, sat_mul}

pub record ReluctantRestart : Type 0 where
  pub period : ℕ
  pub limit : ℕ
  pub wait : ℕ
  pub u : ℕ
  pub v : ℕ
  pub triggered : Bool

unfoldable pub reset : ReluctantRestart → ReluctantRestart
reset s = record s { wait = s.period; u = 1; v = 1; triggered = false }

abbrev pub stable_restart_period : ℕ
stable_restart_period = 1024

abbrev pub stable_restart_limit : ℕ
stable_restart_limit = 2 ^ 20

unfoldable pub default : ReluctantRestart
unfolding reset
default = reset (record {
  period = stable_restart_period;
  limit = stable_restart_limit;
  wait = 0;
  u = 1;
  v = 1;
  triggered = false;
})

-- u64 `wrapping_neg`
abbrev wrapping_neg : ℕ → ℕ
wrapping_neg n = (2 ^ 64 - n) % 2 ^ 64

-- The interval that follows from the new `u` and `v`.
renew : ReluctantRestart → ℕ → ℕ → ReluctantRestart
renew s u v =
    let wait = sat_mul v s.period in
    if ltb s.limit wait
    then record s { wait = s.period; u = 1; v = 1; triggered = true }
    else record s { wait = wait; u = u; v = v; triggered = true }

-- What follows when `wait` has run out.
advance : ReluctantRestart → ReluctantRestart
advance s =
    if bit_and s.u (wrapping_neg s.u) == s.v
    then renew s (sat_add s.u 1) 1
    else renew s s.u (sat_mul s.v 2)

-- `self.wait -= 1` would underflow at 0; `IsArmed` rules that out.
pub tick : ReluctantRestart → ReluctantRestart
unfolding advance
tick s =
    if s.triggered
    then s
    else if s.wait - 1 == 0
    then advance (record s { wait = s.wait - 1 })
    else record s { wait = s.wait - 1 }

-- `std::mem::take(&mut self.triggered)`
unfoldable pub take_trigger : ReluctantRestart → Bool × ReluctantRestart
take_trigger s = (s.triggered, record s { triggered = false })

-- So many conflicts in a row.
pub ticks : ℕ → ReluctantRestart → ReluctantRestart
ticks zero s = s
ticks (suc n) s = ticks n (tick s)
