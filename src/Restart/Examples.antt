-- ===== src/Restart/Examples.antt =====
-- The theorems on the restart policies (src/solver.rs) at concrete states.
use satrap.Prelude.{
  ℕ, ◌*◌, ◌^◌, ◌++◌, replicate, min, ◌≤◌, ◌<◌, List, [], ◌∷◌, some, true, false, ◌≡◌, ◌↔◌, refl,
  arith, length, get_or, leb,
}
use satrap.Restart.History.{newest_sum}
use satrap.Restart.Word.{u64_max}
use satrap.Restart.Lbd
use satrap.Restart.Trail
use satrap.Restart.Reluctant.{default, ticks}
use satrap.Restart.Reluctant.Schedule.{IsArmed, default-IsArmed, ticks-triggered}
use satrap.Restart.Luby.{luby, grow, shrink}
use satrap.Restart.Luby.Recursion.{rank, luby-rank}

abbrev seen_lbd : List ℕ
seen_lbd = 3 ∷ []

abbrev seen_trail : List ℕ
seen_trail = 40 ∷ []

abbrev one_lbd : Lbd.LbdRestartState
one_lbd = Lbd.observe Lbd.default 3

one_lbd-IsWindow : Lbd.Window.IsWindow seen_lbd one_lbd
one_lbd-IsWindow = (Lbd.Window.observe-lbd_window [] Lbd.default 3 Lbd.Window.default-IsWindow).0

observe-lbd_window_example :
    Lbd.Window.IsWindow (5 ∷ 3 ∷ []) (Lbd.observe one_lbd 5)
    × (one_lbd.recent_len ≡ Lbd.window
        → get_or one_lbd.recent one_lbd.recent_next 0 ≤ one_lbd.recent_sum)
observe-lbd_window_example = Lbd.Window.observe-lbd_window seen_lbd one_lbd 5 one_lbd-IsWindow

-- Sixty values of one, the ring cleared, and fifty values of ten.
abbrev worse : List Lbd.Run.Event
worse = replicate 50 (Lbd.Run.observed 10) ++ Lbd.Run.cleared ∷ replicate 60 (Lbd.Run.observed 1)

restarts_when_worse : Lbd.should_restart (Lbd.Run.run worse) ≡ true
unfolding Lbd.should_restart Lbd.is_full Lbd.observe Lbd.clear_recent
restarts_when_worse = refl

should_restart_iff_example : (Lbd.should_restart (Lbd.Run.run worse) ≡ true) ↔ (
    (Lbd.window ≤ length (Lbd.Run.since_cleared worse))
    × (min (Lbd.Run.total (Lbd.Run.all_values worse)) u64_max * 5 * Lbd.window
        < newest_sum Lbd.window (Lbd.Run.since_cleared worse)
          * 4
          * min (length (Lbd.Run.all_values worse)) u64_max))
should_restart_iff_example = Lbd.Run.should_restart_iff worse

abbrev one_trail : Trail.TrailRestartState
one_trail = Trail.observe Trail.default 40

one_trail-IsWindow : Trail.Window.IsWindow seen_trail one_trail
one_trail-IsWindow =
    (Trail.Window.observe-trail_window [] Trail.default 40 Trail.Window.default-IsWindow).0

triggered-default : default.triggered ≡ false
unfolding default
triggered-default = refl

ticks-triggered_example :
    ((ticks 1000 default).triggered ≡ leb default.wait 1000) × IsArmed (ticks 1000 default)
ticks-triggered_example = ticks-triggered 1000 default default-IsArmed triggered-default

luby-rank_example : luby 6 ≡ some (2 ^ rank 5 6)
luby-rank_example = luby-rank 5 6 (omega arith) (omega arith)

luby_start :
    (luby 0 ≡ some 1)
    × (luby 2 ≡ some 2)
    × (luby 6 ≡ some 4)
    × (luby 7 ≡ some 1)
    × (luby 4294967295 ≡ some 1)
unfolding luby grow shrink
luby_start = (refl, refl, refl, refl, refl)
