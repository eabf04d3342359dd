-- ===== src/Privileged/Executor/Processes.antt =====
-- The state of a process, and the signal to it (executor.rs, parse_start_ticks to ProcessHandle).
use sentia_linux.Base.{
  ℕ, ◌≤◌, ◌<◌, ◌≡◌, sym, ap, ◌∙◌, false, not, Option, some, arith, Text, ◌==◌, get_elem?, Result,
  ok, ◌>>=◌, ◌>>◌, reject, ok_or, split_once, rsplit_once, split_whitespace, parse_unsigned,
  bind-eq-ok, then-eq-ok, reject-eq-ok, ok_or-eq-ok, ok-injective, not-false, ==_iff,
}
use sentia_linux.Privileged.Operation.{
  Error, process_kill, validate, invalid_process_state, process_unavailable,
  cannot_terminate_broker, process_changed,
}
use sentia_linux.Privileged.Operation.Validity.{validate_iff}
use sentia_linux.Privileged.Broker.{u64_max}

pub record ProcessState : Type 0 where
  pub pid : ℕ
  pub start_ticks : ℕ
  pub uid : ℕ
  pub name : Text

-- Field 22 of /proc/PID/stat: the twentieth word behind the last ")".
pub parse_start_ticks : Text → Result Error ℕ
parse_start_ticks stat = do
  halves ← ok_or (rsplit_once b')' stat) invalid_process_state
  field ← ok_or (get_elem? (split_whitespace halves.1) 19) invalid_process_state
  ok_or (parse_unsigned u64_max field) invalid_process_state

-- One reading of /proc/PID/stat, which may fail.
pub process_start : Option Text → Result Error ℕ
unfolding parse_start_ticks
process_start stat = do text ← ok_or stat process_unavailable; parse_start_ticks text

-- The answers of /proc to the four questions of `process_state`, in their order.
pub record ProcReads : Type 0 where
  pub first_stat : Option Text
  pub owner : Option ℕ
  pub name_stat : Option Text
  pub last_stat : Option Text

pub process_name : Text → Result Error Text
process_name stat = do
  halves ← ok_or (split_once b'(' stat) invalid_process_state
  name ← ok_or (rsplit_once b')' halves.1) invalid_process_state
  ok name.0

pub process_state : (broker_pid : ℕ) → ProcReads → ℕ → Result Error ProcessState
unfolding process_start process_name
process_state broker_pid reads pid = do
  validate (process_kill pid)
  reject (pid == broker_pid) cannot_terminate_broker
  start_ticks ← process_start reads.first_stat
  uid ← ok_or reads.owner process_unavailable
  stat ← ok_or reads.name_stat process_unavailable
  name ← process_name stat
  again ← process_start reads.last_stat
  reject (not (start_ticks == again)) process_changed
  ok (record { pid = pid; start_ticks = start_ticks; uid = uid; name = name })

differs : (a b : ℕ) → (a == b) ≡ false → ¬ (a ≡ b)
differs a b h e = ground arith

-- A process state is reported only for a pid above 1 that fits a pid_t and is not the broker's own;
-- the start time is the one that /proc showed both before and after the other readings.
pub process_state-eq-ok :
    (broker_pid : ℕ) (reads : ProcReads) (pid : ℕ) (state : ProcessState)
    → process_state broker_pid reads pid ≡ ok state
    → (1 < pid)
      × (pid ≤ 2147483647)
      × (¬ (pid ≡ broker_pid))
      × (state.pid ≡ pid)
      × (process_start reads.first_stat ≡ ok state.start_ticks)
      × (process_start reads.last_stat ≡ ok state.start_ticks)
      × (reads.owner ≡ some state.uid)
unfolding process_state
process_state-eq-ok broker_pid reads pid state h =
    let (valid, r1) = then-eq-ok (validate (process_kill pid)) _ h in
    let (other, r2) = then-eq-ok (reject (pid == broker_pid) cannot_terminate_broker) _ r1 in
    let (start, e1, r3) = bind-eq-ok (process_start reads.first_stat) _ r2 in
    let (uid, e2, r4) = bind-eq-ok (ok_or reads.owner process_unavailable) _ r3 in
    let (stat, e3, r5) = bind-eq-ok (ok_or reads.name_stat process_unavailable) _ r4 in
    let (name, e4, r6) = bind-eq-ok (process_name stat) _ r5 in
    let (again, e5, r7) = bind-eq-ok (process_start reads.last_stat) _ r6 in
    let (unchanged, r8) = then-eq-ok (reject (not (start == again)) process_changed) _ r7 in
    let same = (==_iff start again).0 (not-false _ (reject-eq-ok _ _ unchanged)) in
    let bounds = (validate_iff (process_kill pid)).0 valid in
    let made = ok-injective r8 in
    (
      bounds.0,
      bounds.1,
      λ e. differs pid broker_pid (reject-eq-ok _ _ other) e,
      ap (λ s. s.pid) (sym made),
      e1 ∙ ap (λ s. ok s.start_ticks) made,
      e5 ∙ ap ok (sym same) ∙ ap (λ s. ok s.start_ticks) made,
      ok_or-eq-ok _ process_unavailable e2 ∙ ap (λ s. some s.uid) made,
    )
