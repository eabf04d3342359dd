-- ===== src/Health/Monitor/Adaptive.antt =====
-- The sampling interval as a function of what the samples showed (monitor.rs, compute_interval).
use sentia_linux.Base.{ℕ, suc, ◌≤◌, ◌≡◌, List, [], ◌∷◌, leb, not, if◌then◌else◌, is_empty, ◌⊎◌}
use sentia_linux.Health.Floats.{Floats}
use sentia_linux.Health.Alert.{usize_max}
use sentia_linux.Health.Alert.Evaluate.{Snapshot, evaluate}
use sentia_linux.Health.Monitor.{AdaptiveIntervals, HealthMonitor, changed, sample}

-- What one sample showed.
pub data Verdict : Type 0 where
  alerted different quiet : Verdict

-- The quiet samples since the last that was not, the latest first.
abbrev pub quiet_streak : List Verdict → ℕ
quiet_streak [] = 0
quiet_streak (alerted ∷ vs) = 0
quiet_streak (different ∷ vs) = 0
quiet_streak (quiet ∷ vs) = suc (quiet_streak vs)

-- An alert asks for the shortest interval, five quiet samples in a row for the longest.
abbrev pub interval_after : AdaptiveIntervals → List Verdict → ℕ
interval_after i [] = i.normal
interval_after i (alerted ∷ vs) = i.min
interval_after i (different ∷ vs) = i.normal
interval_after i (quiet ∷ vs) = if leb 5 (suc (quiet_streak vs)) then i.max else i.normal

module _ (f : Floats) where
  verdict : HealthMonitor f → Snapshot f → Verdict
  unfolding changed
  verdict m s =
      if not (is_empty (evaluate f m.alerts s).1)
      then alerted
      else if changed f m.previous s
      then different
      else quiet

  -- The monitor after the samples, and the verdicts, the latest first.
  unfoldable pub run :
      HealthMonitor f → List Verdict → List (Snapshot f) → HealthMonitor f × List Verdict
  unfolding sample verdict
  run m vs [] = (m, vs)
  run m vs (s ∷ ss) = run (sample f m s) (verdict m s ∷ vs) ss

  -- The counter holds the streak, unless both are too large for it.
  abbrev Counts : ℕ → ℕ → Type 0
  Counts ticks streak = (ticks ≡ streak) ⊎ (usize_max ≤ ticks × usize_max ≤ streak)

  abbrev Agrees : HealthMonitor f → List Verdict → Type 0
  Agrees m vs =
      Counts m.stable_ticks (quiet_streak vs)
      × m.next_interval ≡ interval_after m.config.intervals vs
