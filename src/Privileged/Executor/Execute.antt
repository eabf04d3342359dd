-- ===== src/Privileged/Executor/Execute.antt =====
-- Executing a plan (executor.rs, ensure_unexpired, apt_call, execute). The answers of the system at
-- the moments where the code asks are a record; the effects are a part of the result.
pub mod Safety
use sentia_linux.Base.{
  ℕ, zero, suc, Bool, true, false, ◌||◌, not, Option, none, some, [], ◌∷◌, Text, codes,
  if◌then◌else◌, Result, ok, err, reject, ok_or,
}
use sentia_linux.Privileged.Operation.{
  Error, ServiceAction, Operation, service, process_kill, validate, clock_unavailable, plan_expired,
  state_changed_prepare_again, process_changed, pidfd_unavailable, process_check_failed,
  process_signal_denied, serialization_failed,
}
use sentia_linux.Privileged.Json.{Json}
use sentia_linux.Privileged.Broker.{CanonicalPlan, Digests, is_expired}
use sentia_linux.Privileged.Executor.Effects.{terminate, Act, ◌>>=◌, ◌>>◌, look, effect}
use sentia_linux.Privileged.Executor.Helpers.{
  HelperRun, systemctl, apt_worker, service_arguments, run_helper, run_fixed,
}
use sentia_linux.Privileged.Executor.Snapshots.{Looks, service_state, process_snapshot}
use sentia_linux.Privileged.Executor.Apt.{apt_request, interpret_apt_response}

-- `ensure_unexpired`; `clock` is none if the clock stands before 1970.
unfoldable pub ensure_unexpired :
    {Value : Type 0} → Option ℕ → CanonicalPlan Value → Result Error (Unit {0})
ensure_unexpired none plan = err clock_unavailable
ensure_unexpired (some now) plan = reject (is_expired plan now) plan_expired

-- The loop that waits for a process to go: `polls` answers the questions one after the other.
pub wait_exit : (polls : ℕ → Option Bool) (i rounds : ℕ) → Result Error Bool
wait_exit polls i zero = ok false
wait_exit polls i (suc rounds) = elim (polls i) [
  | none ↦ err process_check_failed
  | some true ↦ ok true
  | some false ↦ wait_exit polls (suc i) rounds
]

module _ (j : Json) where
  open j use {Value, equality, object, string, number, encode}

  pub record Answers : Type 0 where
    -- the target before the effect, and the unit after it
    pub before : Looks
    pub after : Looks
    pub clock : Option ℕ
    pub run : HelperRun
    -- the pidfd: whether it opens, whether the process is gone, whether the signal is delivered
    pub opens : Bool
    pub gone : Option Bool
    pub signalled : Bool
    pub polls : ℕ → Option Bool

  unfoldable pub completed : Value → Value
  completed state = object (
      (codes "version", number 1)
      ∷ (codes "status", string (codes "completed"))
      ∷ (codes "state", state)
      ∷ [])

  pub signal_report : Bool → Value
  signal_report exited = object (
      (codes "version", number 1)
      ∷ (
        codes "status",
        string (if exited then codes "terminated" else codes "signal_sent_process_still_running"),
      )
      ∷ (codes "signal", string (codes "SIGTERM"))
      ∷ [])

  unfoldable pub execute_service : Answers → CanonicalPlan Value → ServiceAction → Text → Act Value
  unfolding completed service_state
  execute_service a plan action unit = do
    state ← service_state j a.before unit
    look (reject (not (equality.beq state plan.state)) state_changed_prepare_again)
    look (ensure_unexpired a.clock plan)
    arguments ← look (service_arguments action unit)
    _ ← run_fixed a.run systemctl arguments none
    after ← service_state j a.after unit
    look (ok (completed after))

  pub execute_kill : Answers → CanonicalPlan Value → ℕ → Act Value
  unfolding signal_report process_snapshot
  execute_kill a plan pid = do
    look (reject (not a.opens) pidfd_unavailable)
    current ← look (process_snapshot j a.before pid)
    gone ← look (ok_or a.gone process_check_failed)
    look (reject (gone || not (equality.beq current plan.state)) process_changed)
    look (ensure_unexpired a.clock plan)
    look (reject (not a.signalled) process_signal_denied)
    effect (terminate pid)
    exited ← look (wait_exit a.polls 0 30)
    look (ok (signal_report exited))

  module _ (digests : Digests Value) (utc_timestamp : ℕ → Result Error Text) where
    -- `apt_call` with a plan.
    pub execute_apt : Answers → CanonicalPlan Value → Act Value
    execute_apt a plan = do
      look (ensure_unexpired a.clock plan)
      request ← look (apt_request j digests utc_timestamp plan.operation (some plan))
      input ← look (ok_or (encode request) serialization_failed)
      output ← run_helper a.run apt_worker [] (some input)
      look (interpret_apt_response j output.stdout output.success request true)

    unfoldable pub execute_operation : Answers → CanonicalPlan Value → Operation → Act Value
    unfolding execute_service execute_kill execute_apt
    execute_operation a plan (service action unit) = execute_service a plan action unit
    execute_operation a plan (process_kill pid) = execute_kill a plan pid
    execute_operation a plan _ = execute_apt a plan

    unfoldable pub execute : Answers → CanonicalPlan Value → Act Value
    unfolding execute_operation
    execute a plan = do look (validate plan.operation); execute_operation a plan plan.operation
