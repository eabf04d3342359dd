-- ===== src/Health/Alert/Evaluate.antt =====
-- One pass over a health snapshot (alert.rs, AlertEngine::evaluate): ten conditions, each with its
-- rule, then the active alerts sorted by id.
pub mod Isolation
pub mod Output
use sentia_linux.Base.{
  ℕ, Bool, Option, none, some, List, [], ◌∷◌, ◌++◌, Text, codes, if◌then◌else◌, text_leb,
}
use sentia_linux.Health.Floats.{Floats}
use sentia_linux.Health.Alert.{
  AlertLevel, info, warning, critical, ThresholdRule, ConditionState, AlertRecord, AlertEngine,
  record_of, eval_numeric,
}

module _ (f : Floats) where
  open f use {F, of_nat, ratio, show_tenths, show_hundredths, show_usize}

  -- The parts of a `HealthSnapshot` that the alerts and the sampling intervals read.
  pub record Snapshot : Type 0 where
    pub collected_at_unix_ms : ℕ
    pub cpu_utilization_pct : F
    pub memory_used_pct : F
    pub memory_pressure_some_avg10 : Option F
    pub swap_used_pct : F
    pub full_filesystems : ℕ
    pub failed_units : ℕ
    pub recent_errors : ℕ
    pub disks_degraded : Bool
    pub max_temperature_c : Option F
    pub churned_processes : ℕ
    pub total_rx_bps : F
    pub total_tx_bps : F
    pub total_read_bps : F
    pub total_write_bps : F

  pub record Condition : Type 0 where
    pub id : Text
    pub value : F
    pub rule : ThresholdRule f
    pub message : F → Text

  abbrev rule_of : F → F → ℕ → F → AlertLevel → ThresholdRule f
  rule_of activate_at clear_below required_samples significant_delta level = record {
    activate_at = activate_at;
    clear_below = clear_below;
    required_samples = required_samples;
    significant_delta = significant_delta;
    level = level;
  }

  -- `unwrap_or_default` on f64
  abbrev or_zero : Option F → F
  or_zero none = of_nat 0
  or_zero (some v) = v

  -- The ten conditions of a snapshot, in the order of their evaluation.
  pub conditions : Snapshot → List Condition
  conditions s =
      record {
        id = codes "cpu_high";
        value = s.cpu_utilization_pct;
        rule = rule_of (of_nat 90) (of_nat 80) 2 (of_nat 5) warning;
        message = λ v. codes "CPU utilization sustained at " ++ show_tenths v ++ codes "%";
      }
      ∷ record {
        id = codes "memory_high";
        value = s.memory_used_pct;
        rule = rule_of (of_nat 92) (of_nat 86) 2 (of_nat 3) warning;
        message = λ v. codes "Memory usage sustained at " ++ show_tenths v ++ codes "%";
      }
      ∷ record {
        id = codes "swap_high";
        value = s.swap_used_pct;
        rule = rule_of (of_nat 85) (of_nat 70) 2 (of_nat 5) warning;
        message = λ v. codes "Swap usage sustained at " ++ show_tenths v ++ codes "%";
      }
      ∷ record {
        id = codes "filesystem_full";
        value = of_nat s.full_filesystems;
        rule = rule_of (of_nat 1) (ratio 1 2) 1 (of_nat 1) critical;
        message = λ v. show_usize v ++ codes " filesystem(s) are full or nearly full";
      }
      ∷ record {
        id = codes "memory_pressure";
        value = or_zero s.memory_pressure_some_avg10;
        rule = rule_of (of_nat 1) (ratio 3 10) 3 (ratio 1 2) warning;
        message = λ v. codes "Memory PSI some avg10 elevated (" ++ show_hundredths v ++ codes ")";
      }
      ∷ record {
        id = codes "failed_units";
        value = of_nat s.failed_units;
        rule = rule_of (of_nat 1) (ratio 1 2) 1 (of_nat 1) warning;
        message = λ v. show_usize v ++ codes " failed systemd unit(s) detected";
      }
      ∷ record {
        id = codes "kernel_errors";
        value = of_nat s.recent_errors;
        rule = rule_of (of_nat 1) (ratio 1 2) 1 (of_nat 2) warning;
        message = λ v. show_usize v ++ codes " recent kernel error(s) reported";
      }
      ∷ record {
        id = codes "disk_health";
        value = if s.disks_degraded then of_nat 1 else of_nat 0;
        rule = rule_of (ratio 1 2) (ratio 1 2) 1 (of_nat 1) critical;
        message = λ v. codes "Disk health reported degraded";
      }
      ∷ record {
        id = codes "temperature_high";
        value = or_zero s.max_temperature_c;
        rule = rule_of (of_nat 85) (of_nat 78) 2 (of_nat 2) warning;
        message =
            λ v. codes "Temperature sustained at " ++ show_tenths v ++ (194 ∷ 176 ∷ codes "C");
      }
      ∷ record {
        id = codes "process_churn";
        value = of_nat s.churned_processes;
        rule = rule_of (of_nat 64) (of_nat 16) 2 (of_nat 16) info;
        message =
            λ v. codes "High process churn observed (" ++ show_usize v ++ codes " process delta)";
      }
      ∷ []

  pub eval_all : AlertEngine f → List Condition → ℕ → AlertEngine f
  eval_all e [] now = e
  eval_all e (c ∷ cs) now = eval_all (eval_numeric f e c.id c.value c.rule now c.message) cs now

  -- The loop that collects the records of the active conditions.
  pub active_records : List (Text × ConditionState f) → List (AlertRecord f)
  active_records [] = []
  active_records ((id, s) ∷ states) =
      if s.active then record_of f id s ∷ active_records states else active_records states

  -- The stable sort by id.
  pub insert_sorted : AlertRecord f → List (AlertRecord f) → List (AlertRecord f)
  insert_sorted r [] = r ∷ []
  insert_sorted r (q ∷ qs) = if text_leb r.id q.id then r ∷ q ∷ qs else q ∷ insert_sorted r qs

  pub sort_by_id : List (AlertRecord f) → List (AlertRecord f)
  sort_by_id [] = []
  sort_by_id (r ∷ rs) = insert_sorted r (sort_by_id rs)

  -- The engine after a snapshot, its active alerts, and the log.
  pub evaluate :
      AlertEngine f → Snapshot → AlertEngine f × List (AlertRecord f) × List (AlertRecord f)
  unfolding eval_all conditions sort_by_id insert_sorted active_records
  evaluate e s =
      let e' = eval_all e (conditions s) s.collected_at_unix_ms in
      (e', sort_by_id (active_records e'.states), e'.log)
