-- ===== src/Restart/Reluctant/Schedule.antt =====
-- When `ReluctantRestart` (src/solver.rs) asks for a restart.
use Prim.Native.Nat.{bit_and}
use satrap.Prelude.{
  ℕ, zero, suc, ◌-◌, ◌≤◌, ◌<◌, true, false, ◌==◌, ltb, ◌≡◌, refl, arith, ap, Bool-cases, inl, inr,
  ltb→le, leb,
}
use satrap.Restart.Word.{sat_add, sat_mul}
use satrap.Restart.Reluctant.{ReluctantRestart, default, wrapping_neg, renew, advance, tick, ticks}

-- The next restart is at least one and at most `limit` conflicts away.
pub record IsArmed (s : ReluctantRestart) : Type 0 where
  pub period_positive : 0 < s.period
  pub period_fits : s.period ≤ s.limit
  pub wait_positive : 0 < s.wait
  pub wait_fits : s.wait ≤ s.limit
  pub v_positive : 0 < s.v

pub default-IsArmed : IsArmed default
unfolding default
default-IsArmed = omega arith

sat_mul_positive : (a b : ℕ) → 0 < a → 0 < b → 0 < sat_mul a b
sat_mul_positive a b p q = grind arith

renew-IsArmed :
    (s : ReluctantRestart) (u v : ℕ)
    → 0 < s.period
    → s.period ≤ s.limit
    → 0 < v
    → IsArmed (renew s u v)
unfolding renew
renew-IsArmed s u v p f w = elim (Bool-cases (ltb s.limit (sat_mul v s.period))) [
  | inl over ↦ rw over (record {
    period_positive = p;
    period_fits = f;
    wait_positive = p;
    wait_fits = f;
    v_positive = omega arith;
  })
  | inr fits ↦ rw fits (record {
    period_positive = p;
    period_fits = f;
    wait_positive = sat_mul_positive v s.period w p;
    wait_fits = ltb→le _ _ fits;
    v_positive = w;
  })
]

advance-IsArmed :
    (s : ReluctantRestart) → 0 < s.period → s.period ≤ s.limit → 0 < s.v → IsArmed (advance s)
unfolding advance
advance-IsArmed s p f v = elim (Bool-cases (bit_and s.u (wrapping_neg s.u) == s.v)) [
  | inl turn ↦ rw turn (renew-IsArmed s (sat_add s.u 1) 1 p f (omega arith))
  | inr on ↦
      rw on (renew-IsArmed s s.u (sat_mul s.v 2) p f (sat_mul_positive s.v 2 v (omega arith)))
]

renew-triggered : (s : ReluctantRestart) (u v : ℕ) → (renew s u v).triggered ≡ true
unfolding renew
renew-triggered s u v = elim (Bool-cases (ltb s.limit (sat_mul v s.period))) [
  | inl over ↦ rw over
  | inr fits ↦ rw fits
]

advance-triggered : (s : ReluctantRestart) → (advance s).triggered ≡ true
unfolding advance
advance-triggered s = elim (Bool-cases (bit_and s.u (wrapping_neg s.u) == s.v)) [
  | inl turn ↦ rw turn (renew-triggered s (sat_add s.u 1) 1)
  | inr on ↦ rw on (renew-triggered s s.u (sat_mul s.v 2))
]

-- A round that only counts down.
waits-IsArmed :
    (s : ReluctantRestart)
    → IsArmed s
    → (s.wait - 1 == 0) ≡ false
    → IsArmed (record s { wait = s.wait - 1 })
waits-IsArmed s a goes = record {
  period_positive = a.period_positive;
  period_fits = a.period_fits;
  wait_positive = ground arith;
  wait_fits = omega arith;
  v_positive = a.v_positive;
}

-- The three ways of a tick.
tick_triggered : (s : ReluctantRestart) → s.triggered ≡ true → tick s ≡ s
unfolding tick
tick_triggered s still = simp still

tick_ends :
    (s : ReluctantRestart)
    → s.triggered ≡ false
    → (s.wait - 1 == 0) ≡ true
    → tick s ≡ advance (record s { wait = s.wait - 1 })
unfolding tick
tick_ends s armed ends = simp (armed, ends)

tick_waits :
    (s : ReluctantRestart)
    → s.triggered ≡ false
    → (s.wait - 1 == 0) ≡ false
    → tick s ≡ record s { wait = s.wait - 1 }
unfolding tick
tick_waits s armed goes = simp (armed, goes)

-- Every tick keeps the next restart between one and `limit` conflicts away, so that the decrement
-- of `wait` does not underflow.
pub tick-IsArmed : (s : ReluctantRestart) → IsArmed s → IsArmed (tick s)
tick-IsArmed s a = elim (Bool-cases s.triggered) [
  | inl still ↦ rw (tick_triggered s still) a
  | inr armed ↦ elim (Bool-cases (s.wait - 1 == 0)) [
    | inl ends ↦ rw (tick_ends s armed ends) (
        advance-IsArmed (record s { wait = s.wait - 1 }) a.period_positive a.period_fits
          a.v_positive)
    | inr goes ↦ rw (tick_waits s armed goes) (waits-IsArmed s a goes)
  ]
]

ticks-suc : (n : ℕ) (s t : ReluctantRestart) → tick s ≡ t → ticks (suc n) s ≡ ticks n t
unfolding ticks
ticks-suc n s t e = ap (ticks n) e

ticks-IsArmed : (n : ℕ) (s : ReluctantRestart) → IsArmed s → IsArmed (ticks n s)
unfolding ticks
ticks-IsArmed zero s a = a
ticks-IsArmed (suc n) s a = ticks-IsArmed n (tick s) (tick-IsArmed s a)

ticks_triggered : (n : ℕ) (s : ReluctantRestart) → s.triggered ≡ true → (ticks n s).triggered ≡ true
ticks_triggered zero s still = unfold ticks in still
ticks_triggered (suc n) s still =
    rw (ticks-suc n s s (tick_triggered s still)) (ticks_triggered n s still)

-- From an armed state the restart is requested by conflict number `wait`, no sooner, and the
-- request stays until it is taken. Every tick on the way leaves an armed state.
pub ticks-triggered :
    (n : ℕ) (s : ReluctantRestart)
    → IsArmed s
    → s.triggered ≡ false
    → ((ticks n s).triggered ≡ leb s.wait n) × IsArmed (ticks n s)
ticks-triggered zero s a armed = unfold ticks in (ground (arith, a.wait_positive), a)
ticks-triggered (suc n) s a armed = elim (Bool-cases (s.wait - 1 == 0)) [
  | inl ends ↦
      let now : leb s.wait (suc n) ≡ true = ground arith in
      let asked : (tick s).triggered ≡ true = rw (tick_ends s armed ends) (advance-triggered _) in
      rw (ticks-suc n s (tick s) refl, now)
        (ticks_triggered n (tick s) asked, ticks-IsArmed n (tick s) (tick-IsArmed s a))
  | inr goes ↦
      let later : leb s.wait (suc n) ≡ leb (s.wait - 1) n = ground arith in
      rw (ticks-suc n s _ (tick_waits s armed goes), later)
        (ticks-triggered n (record s { wait = s.wait - 1 }) (waits-IsArmed s a goes) armed)
]
