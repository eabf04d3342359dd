-- ===== src/Health/Monitor.antt =====
-- crates/sentia-health/src/monitor.rs: the health monitor, which samples at an interval that adapts
-- to alerts and to change. The collector's snapshots are an input, as a sequence; a Duration is its
-- seconds.
pub mod Adaptive
use sentia_linux.Base.{
  ℕ, Bool, true, ◌||◌, not, Option, none, some, List, leb, ◌==◌, if◌then◌else◌, is_empty,
}
use sentia_linux.Health.Floats.{Floats}
use sentia_linux.Health.Alert.{AlertRecord, AlertEngine, new_engine, saturating_suc}
use sentia_linux.Health.Alert.Evaluate.{Snapshot, evaluate}

pub record AdaptiveIntervals : Type 0 where
  pub min : ℕ
  pub normal : ℕ
  pub max : ℕ

abbrev pub default_intervals : AdaptiveIntervals
default_intervals = record { min = 2; normal = 5; max = 20 }

pub record MonitorConfig : Type 0 where
  pub intervals : AdaptiveIntervals
  pub alert_log_capacity : ℕ

abbrev pub default_config : MonitorConfig
default_config = record { intervals = default_intervals; alert_log_capacity = 256 }

module _ (f : Floats) where
  open f use {F, le, add, sub, abs, of_nat}

  pub record HealthMonitor : Type 0 where
    pub alerts : AlertEngine f
    pub config : MonitorConfig
    pub stable_ticks : ℕ
    pub next_interval : ℕ
    pub previous : Option (Snapshot f)

  pub new_monitor : MonitorConfig → HealthMonitor
  new_monitor config = record {
    alerts = new_engine f config.alert_log_capacity;
    config = config;
    stable_ticks = 0;
    next_interval = config.intervals.normal;
    previous = none;
  }

  pub is_significant_change : Snapshot f → Snapshot f → Bool
  is_significant_change previous current =
      let cpu_delta = abs (sub previous.cpu_utilization_pct current.cpu_utilization_pct) in
      let memory_delta = abs (sub previous.memory_used_pct current.memory_used_pct) in
      let net_delta = abs (
        sub (add previous.total_rx_bps previous.total_tx_bps)
          (add current.total_rx_bps current.total_tx_bps)) in
      let disk_delta = abs (
        sub (add previous.total_read_bps previous.total_write_bps)
          (add current.total_read_bps current.total_write_bps)) in
      if le (of_nat 10) cpu_delta
      then true
      else if le (of_nat 5) memory_delta
      then true
      else if le (of_nat 5000000) net_delta
      then true
      else if le (of_nat 10000000) disk_delta
      then true
      else not (previous.full_filesystems == current.full_filesystems)
        || not (previous.failed_units == current.failed_units)
        || not (previous.recent_errors == current.recent_errors)

  pub changed : Option (Snapshot f) → Snapshot f → Bool
  unfolding is_significant_change
  changed none current = true
  changed (some previous) current = is_significant_change previous current

  -- The interval, and the new count of stable ticks.
  pub compute_interval : HealthMonitor → List (AlertRecord f) → Snapshot f → ℕ × ℕ
  unfolding changed
  compute_interval m active current =
      let intervals = m.config.intervals in
      if not (is_empty active)
      then (intervals.min, 0)
      else if changed m.previous current
      then (intervals.normal, 0)
      else let ticks = saturating_suc m.stable_ticks in
        (if leb 5 ticks then (intervals.max, ticks) else (intervals.normal, ticks))

  pub sample : HealthMonitor → Snapshot f → HealthMonitor
  unfolding compute_interval
  sample m snapshot =
      let (engine, active, log) = evaluate f m.alerts snapshot in
      let (interval, ticks) = compute_interval m active snapshot in
      record m {
        alerts = engine;
        stable_ticks = ticks;
        next_interval = interval;
        previous = some snapshot;
      }
