-- ===== src/Privileged/Executor/Snapshots.antt =====
-- What the executor looks at (executor.rs, service_state, process_state as a value, apt_plan,
-- snapshot). A unit is looked at by a run of systemctl, a package operation by a run of the worker in
-- plan mode: both are effects. The answers of the system to one snapshot are a record.
use sentia_linux.Base.{
  ℕ, ◌≡◌, sym, subst, false, then-eq-ok, bind-eq-ok, ok-injective, Option, none, some, List, [],
  ◌∷◌, Text, codes, Result, ok, err, All, All-map_imp, ok_or, ok_or-eq-ok,
}
use sentia_linux.Privileged.Operation.{
  Error, Operation, service, process_kill, apt_install, apt_remove, apt_update, apt_upgrade,
  validate, validate_unit, serialization_failed,
}
use sentia_linux.Privileged.Json.{Json}
use sentia_linux.Privileged.Broker.{Digests}
use sentia_linux.Privileged.Executor.Effects.{Effect, Act, ◌>>=◌, ◌>>◌, look, All-bind}
use sentia_linux.Privileged.Executor.Helpers.{
  HelperRun, systemctl, apt_worker, run_helper, run_fixed, IsHelperEffect, run_helper-All,
  run_fixed-All,
}
use sentia_linux.Privileged.Executor.Paths.{Component}
use sentia_linux.Privileged.Executor.Files.{FileAnswers, trusted_file_digest}
use sentia_linux.Privileged.Executor.Units.{show_arguments, read_state}
use sentia_linux.Privileged.Executor.Processes.{ProcessState, ProcReads, process_state}
use sentia_linux.Privileged.Executor.Apt.{
  worker_call, with_packages, base_request, mode, request_id, with_approval, apt_request,
  interpret_apt_response,
}

-- The answers to one snapshot: the run of the helper, the decoding of its output, what
-- `Path::components` makes of a path of a unit file, the kernel's answers about it, SHA-256, the
-- readings of /proc, and the broker's own pid.
pub record Looks : Type 0 where
  pub run : HelperRun
  pub from_utf8 : Text → Option Text
  pub components : Text → List Component
  pub files : Text → FileAnswers
  pub sha256 : Text → Text
  pub reads : ProcReads
  pub broker_pid : ℕ

-- `trusted_file_digest` on the text of a path.
abbrev pub digest_of : Looks → Text → Result Error Text
digest_of l path = trusted_file_digest l.sha256 (l.files path) (l.components path)

module _ (j : Json) where
  open j use {Value, object, string, number, encode}

  unfoldable pub service_state : Looks → Text → Act Value
  service_state l unit = do
    look (validate_unit unit)
    output ← run_fixed l.run systemctl (show_arguments unit) none
    look (read_state j l.from_utf8 (digest_of l) output)

  -- `serde_json::to_value` of a process state.
  abbrev pub process_value : ProcessState → Value
  process_value s = object (
      (codes "pid", number s.pid)
      ∷ (codes "start_ticks", number s.start_ticks)
      ∷ (codes "uid", number s.uid)
      ∷ (codes "name", string s.name)
      ∷ [])

  abbrev pub as_value : Result Error ProcessState → Result Error Value
  as_value (ok s) = ok (process_value s)
  as_value (err e) = err e

  unfoldable pub process_snapshot : Looks → ℕ → Result Error Value
  process_snapshot l pid = as_value (process_state l.broker_pid l.reads pid)

  -- Looking at a unit is a run of systemctl that shows it.
  abbrev pub ShowEffect : Text → Effect → Type 0
  ShowEffect unit = IsHelperEffect systemctl (show_arguments unit) none

  pub service_state-All : (l : Looks) (unit : Text) → All (ShowEffect unit) (service_state l unit).0
  unfolding service_state
  service_state-All l unit =
      let P = ShowEffect unit in
      All-bind P (look (validate_unit unit)) _ tt λ _ _.
        All-bind P (run_fixed l.run systemctl (show_arguments unit) none) _
          (run_fixed-All l.run systemctl (show_arguments unit) none) (λ output e. tt)

  module _ (digests : Digests Value) (utc_timestamp : ℕ → Result Error Text) where
    -- `apt_call` without a plan.
    pub apt_plan : Looks → Operation → Act Value
    apt_plan l operation = do
      request ← look (apt_request j digests utc_timestamp operation none)
      input ← look (ok_or (encode request) serialization_failed)
      output ← run_helper l.run apt_worker [] (some input)
      look (interpret_apt_response j output.stdout output.success request false)

    unfoldable pub snapshot : Looks → Operation → Act Value
    unfolding service_state process_snapshot apt_plan
    snapshot l (service action unit) = service_state l unit
    snapshot l (process_kill pid) = look (process_snapshot l pid)
    snapshot l operation = apt_plan l operation

    -- Planning a package operation is a run of the worker on a request in plan mode.
    abbrev pub plan_request : Text → Option (List Text) → Value
    plan_request name packages = object (
        (codes "request_id", string (codes "sentia-root-plan"))
        ∷ (codes "protocol_version", string (codes "1.0"))
        ∷ (codes "operation", string name)
        ∷ (
          codes "arguments",
          with_packages j packages (object ((codes "mode", string (codes "plan")) ∷ [])),
        )
        ∷ [])

    abbrev pub PlanEffect : Operation → Effect → Type 0
    PlanEffect operation e =
        (name : Text) × (packages : Option (List Text)) × (input : Text) × (worker_call operation
          ≡ ok (name, packages))
        × (encode (plan_request name packages) ≡ some input)
        × IsHelperEffect apt_worker [] (some input) e

    abbrev pub LookEffect : Operation → Effect → Type 0
    LookEffect (service action unit) = ShowEffect unit
    LookEffect (process_kill pid) = λ e. ⊥
    LookEffect operation = PlanEffect operation

    -- Without a plan, the worker is asked to plan.
    apt_request-plan :
        (operation : Operation) (request : Value)
        → apt_request j digests utc_timestamp operation none ≡ ok request
        → (name : Text) × (packages : Option (List Text)) × (worker_call operation
            ≡ ok (name, packages))
          × (request ≡ plan_request name packages)
    unfolding apt_request with_approval base_request mode request_id
    apt_request-plan operation request h =
        let (valid, r1) = then-eq-ok (validate operation) _ h in
        let ((name, packages), called, r2) = bind-eq-ok (worker_call operation) _ r1 in
        (name, packages, called, sym (ok-injective r2))

    apt_plan-All :
        (l : Looks) (operation : Operation) → All (PlanEffect operation) (apt_plan l operation).0
    unfolding apt_plan
    apt_plan-All l operation =
        let P = PlanEffect operation in
        All-bind P (look (apt_request j digests utc_timestamp operation none)) _ tt λ request made.
          All-bind P (look (ok_or (encode request) serialization_failed)) _ tt λ input encoded.
            All-bind P (run_helper l.run apt_worker [] (some input)) _
              (All-map_imp (IsHelperEffect apt_worker [] (some input)) P
                (run_helper l.run apt_worker [] (some input)).0
                (λ e i.
                  let (name, packages, called, same) = apt_request-plan operation request made in
                  (
                    name,
                    packages,
                    input,
                    called,
                    subst (λ r. encode r ≡ some input) same
                        (ok_or-eq-ok _ serialization_failed encoded),
                    i,
                  ))
                (run_helper-All l.run apt_worker [] (some input)))
              (λ output e. tt)

    -- A snapshot does nothing to the system but look.
    pub snapshot-All :
        (l : Looks) (operation : Operation) → All (LookEffect operation) (snapshot l operation).0
    unfolding snapshot
    snapshot-All l (service action unit) = service_state-All l unit
    snapshot-All l (process_kill pid) = tt
    snapshot-All l (apt_install packages) = apt_plan-All l (apt_install packages)
    snapshot-All l (apt_remove packages) = apt_plan-All l (apt_remove packages)
    snapshot-All l apt_update = apt_plan-All l apt_update
    snapshot-All l apt_upgrade = apt_plan-All l apt_upgrade
