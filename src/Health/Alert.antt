-- ===== src/Health/Alert.antt =====
-- crates/sentia-health/src/alert.rs: alert conditions with hysteresis, and the bounded alert log.
pub mod Log
pub mod Hysteresis
pub mod Evaluate
use sentia_linux.Base.{
  ℕ, ◌+◌, Bool, true, false, ◌&&◌, not, none, some, List, [], ◌∷◌, ◌++◌, Text, codes, leb, ◌==◌,
  if◌then◌else◌, length, drop, lookup, insert, text_eq,
}
use sentia_linux.Health.Floats.{Floats}

pub data AlertLevel : Type 0 where
  info warning critical : AlertLevel

abbrev pub usize_max : ℕ
usize_max = 18446744073709551615

-- `n.saturating_add(1)` on usize
abbrev pub saturating_suc : ℕ → ℕ
saturating_suc n = if leb usize_max n then usize_max else n + 1

module _ (f : Floats) where
  open f use {F, le, sub, abs}

  pub record ThresholdRule : Type 0 where
    pub activate_at : F
    pub clear_below : F
    pub required_samples : ℕ
    pub significant_delta : F
    pub level : AlertLevel

  pub record ConditionState : Type 0 where
    pub active : Bool
    pub above_samples : ℕ
    pub below_samples : ℕ
    pub first_seen_unix_ms : ℕ
    pub last_seen_unix_ms : ℕ
    pub last_emitted_value : F
    pub message : Text
    pub level : AlertLevel

  pub record AlertRecord : Type 0 where
    pub id : Text
    pub level : AlertLevel
    pub active : Bool
    pub message : Text
    pub value : F
    pub first_seen_unix_ms : ℕ
    pub last_seen_unix_ms : ℕ

  pub record AlertEngine : Type 0 where
    pub states : List (Text × ConditionState)
    pub log : List AlertRecord
    pub max_log_entries : ℕ

  pub new_engine : ℕ → AlertEngine
  new_engine max_log_entries = record { states = []; log = []; max_log_entries = max_log_entries }

  pub record_of : Text → ConditionState → AlertRecord
  record_of id s = record {
    id = id;
    level = s.level;
    active = s.active;
    message = s.message;
    value = s.last_emitted_value;
    first_seen_unix_ms = s.first_seen_unix_ms;
    last_seen_unix_ms = s.last_seen_unix_ms;
  }

  -- `or_insert_with`: the state of a condition that was never seen.
  pub initial_state : ThresholdRule → F → ℕ → ConditionState
  initial_state rule value now = record {
    active = false;
    above_samples = 0;
    below_samples = 0;
    first_seen_unix_ms = now;
    last_seen_unix_ms = now;
    last_emitted_value = value;
    message = [];
    level = rule.level;
  }

  -- A new message, value and time, as every branch that emits a record sets them.
  abbrev note : ConditionState → Text → F → ℕ → ConditionState
  note s message value now = record s {
    message = message;
    last_emitted_value = value;
    last_seen_unix_ms = now;
  }

  -- The branch of a condition that is active; the flag says whether a record is emitted.
  unfoldable pub step_active :
      ThresholdRule → (F → Text) → ConditionState → F → ℕ → ConditionState × Bool
  step_active rule message_fn s value now =
      let below = le value rule.clear_below in
      let s1 = record s { below_samples = if below then saturating_suc s.below_samples else 0 } in
      if leb rule.required_samples s1.below_samples
      then (
        note (record s1 { active = false; above_samples = 0 })
            (message_fn value ++ codes " (resolved)") value now,
        true,
      )
      else if not below && le rule.significant_delta (abs (sub value s1.last_emitted_value))
      then (note s1 (message_fn value) value now, true)
      else (s1, false)

  -- The branch of a condition that is not active.
  unfoldable pub step_inactive :
      ThresholdRule → (F → Text) → ConditionState → F → ℕ → ConditionState × Bool
  step_inactive rule message_fn s value now =
      if le rule.activate_at value
      then (let s1 = record s { above_samples = saturating_suc s.above_samples } in
          if leb rule.required_samples s1.above_samples
          then (
            note (record s1 { active = true; below_samples = 0; first_seen_unix_ms = now })
                (message_fn value) value now,
            true,
          )
          else (s1, false))
      else (record s { above_samples = 0 }, false)

  -- One sample of one condition.
  unfoldable pub step : ThresholdRule → (F → Text) → ConditionState → F → ℕ → ConditionState × Bool
  unfolding step_active step_inactive
  step rule message_fn s value now =
      let s0 = record s { level = rule.level } in
      if s0.active
      then step_active rule message_fn s0 value now
      else step_inactive rule message_fn s0 value now

  pub push_record : ℕ → List AlertRecord → AlertRecord → List AlertRecord
  push_record max_log_entries log record' =
      if max_log_entries == 0
      then log
      else if leb max_log_entries (length log)
      then drop 1 log ++ record' ∷ []
      else log ++ record' ∷ []

  -- The state that a condition starts a sample with.
  pub current_state : AlertEngine → Text → ThresholdRule → F → ℕ → ConditionState
  unfolding initial_state
  current_state e id rule value now = elim (lookup id e.states) [
    | none ↦ initial_state rule value now
    | some s ↦ s
  ]

  pub eval_numeric : AlertEngine → Text → F → ThresholdRule → ℕ → (F → Text) → AlertEngine
  unfolding current_state step push_record record_of
  eval_numeric e id value rule now message_fn =
      let (s, emits) = step rule message_fn (current_state e id rule value now) value now in
      record e {
        states = insert id s e.states;
        log = if emits then push_record e.max_log_entries e.log (record_of id s) else e.log;
      }
