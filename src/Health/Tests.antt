-- ===== src/Health/Tests.antt =====
-- The health daemon's alerts and intervals at work, over whole numbers.
use sentia_linux.Base.{
  ℕ, ◌≡◌, ◌+◌, ◌-◌, ◌/◌, refl, false, none, some, [], ◌∷◌, Text, codes, leb, ltb, ◌==◌,
}
use sentia_linux.Health.Floats.{Floats}
use sentia_linux.Health.Alert.{
  warning, ThresholdRule, ConditionState, AlertRecord, AlertEngine, new_engine, record_of, step,
  step_active, step_inactive,
}
use sentia_linux.Health.Alert.Log.{last_n, push_all, push_all-last_n}
use sentia_linux.Health.Alert.Hysteresis.{
  Lately, is_high, is_low, run_activates, run_resolves, values,
}
use sentia_linux.Health.Alert.Evaluate.{Snapshot}

abbrev whole : Floats
whole = record {
  F = ℕ;
  le = leb;
  eq = ◌==◌;
  gt = λ a b. ltb b a;
  add = ◌+◌;
  sub = ◌-◌;
  abs = λ a. a;
  of_nat = λ n. n;
  ratio = λ n d. n / d;
  show_tenths = λ v. [];
  show_hundredths = λ v. [];
  show_usize = λ v. [];
}

abbrev rule : ThresholdRule whole
rule = record {
  activate_at = 90;
  clear_below = 80;
  required_samples = 2;
  significant_delta = 5;
  level = warning;
}

abbrev silent : ℕ → Text
silent v = []

abbrev new_state : ConditionState whole
new_state = record {
  active = false;
  above_samples = 0;
  below_samples = 0;
  first_seen_unix_ms = 0;
  last_seen_unix_ms = 0;
  last_emitted_value = 0;
  message = [];
  level = warning;
}

abbrev alert : AlertRecord whole
alert = record_of whole (codes "cpu_high") new_state

push_all-last_n_example : push_all whole 1 [] (alert ∷ alert ∷ []) ≡ last_n 1 (alert ∷ alert ∷ [])
push_all-last_n_example = push_all-last_n whole 1 (alert ∷ alert ∷ [])

run_activates_example :
    Lately (is_high whole rule silent) 2 (95 ∷ values whole rule silent ((91, 1) ∷ []))
unfolding step step_active step_inactive
run_activates_example =
    run_activates whole rule silent new_state 95 2 ((91, 1) ∷ []) refl refl refl refl

run_resolves_example :
    Lately
      (is_low whole rule silent)
      2
      (70 ∷ values whole rule silent ((75, 3) ∷ (95, 2) ∷ (91, 1) ∷ []))
unfolding step step_active step_inactive
run_resolves_example =
    run_resolves whole rule silent new_state 70 4 ((75, 3) ∷ (95, 2) ∷ (91, 1) ∷ []) refl refl refl
      refl

abbrev busy : Snapshot whole
busy = record {
  collected_at_unix_ms = 5000;
  cpu_utilization_pct = 97;
  memory_used_pct = 40;
  memory_pressure_some_avg10 = none;
  swap_used_pct = 0;
  full_filesystems = 1;
  failed_units = 0;
  recent_errors = 0;
  disks_degraded = false;
  max_temperature_c = some 60;
  churned_processes = 3;
  total_rx_bps = 0;
  total_tx_bps = 0;
  total_read_bps = 0;
  total_write_bps = 0;
}

abbrev engine : AlertEngine whole
engine = new_engine whole 256
