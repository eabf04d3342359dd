-- ===== src/Privileged/Tests/Execution.antt =====
-- Execution at work: helpers, unit states, package requests and answers.
use sentia_linux.Base.{
  ◌≡◌, ◌⊎◌, refl, true, none, some, [], ◌∷◌, codes, All, ok, split_whitespace, lines_from,
  split_once,
}
use sentia_linux.Privileged.Operation.{apt_update, validate, validate_unit, strip_suffix, argument}
use sentia_linux.Privileged.Operation.Validity.{IsValid}
use sentia_linux.Privileged.Broker.{CanonicalPlan}
use sentia_linux.Privileged.Executor.Effects.{spawn, Only}
use sentia_linux.Privileged.Executor.Paths.{Metadata}
use sentia_linux.Privileged.Executor.Helpers.{
  systemctl, apt_worker, is_usable, IsHelperEffect, run_helper, run_fixed, execution, finish,
  bounded_read, take_output, service_arguments, run_helper-effects,
}
use sentia_linux.Privileged.Executor.Apt.{echoes, interpret_apt_response}
use sentia_linux.Privileged.Executor.Apt.Answers.{IsAnswered, interpret_apt_response-eq-ok}
use sentia_linux.Privileged.Executor.Files.{trusted_file_digest, parent, is_unit_path, lies_in}
use sentia_linux.Privileged.Executor.Paths.{trusted_path, walk}
use sentia_linux.Privileged.Executor.Units.{show_arguments, read_state}
use sentia_linux.Privileged.Executor.Snapshots.{service_state}
use sentia_linux.Privileged.Executor.Execute.{
  execute, execute_operation, execute_service, ensure_unexpired,
}
use sentia_linux.Privileged.Executor.Execute.Safety.{Executed, execute-Only}
use sentia_linux.Privileged.Tests.{
  Flat, flat_json, answer, sha, digests, timestamp, ssh, plan, plan_of, good_run, good_answers,
  apt_state,
}

-- Paths are split at a no-break space too, and nowhere inside another character.
splits_paths :
    split_whitespace (b'a' ∷ 194 ∷ 160 ∷ 194 ∷ 161 ∷ 32 ∷ []) ≡ (b'a' ∷ []) ∷ (194 ∷ 161 ∷ []) ∷ []
unfolding split_whitespace
splits_paths = refl

execute-Only_example :
    Only
      (IsValid plan.operation)
      (Executed flat_json digests timestamp good_answers plan plan.operation)
      (execute flat_json digests timestamp good_answers plan)
execute-Only_example = execute-Only flat_json digests timestamp good_answers plan

-- With good answers, restarting a unit shows it, restarts it, and shows it again.
restarts_ssh :
    (execute flat_json digests timestamp good_answers plan).0
    ≡ spawn systemctl (show_arguments ssh) none
      ∷ spawn systemctl
          (codes "--no-ask-password" ∷ codes "--no-pager" ∷ codes "restart" ∷ codes "--" ∷ ssh ∷ [])
          none
      ∷ spawn systemctl (show_arguments ssh) none
      ∷ []
unfolding execute execute_operation execute_service service_state ensure_unexpired service_arguments
    argument run_fixed run_helper execution finish bounded_read take_output validate validate_unit
    strip_suffix read_state trusted_file_digest parent trusted_path walk is_unit_path lies_in
    lines_from split_once
restarts_ssh = refl

run_helper-effects_example :
    ((run_helper good_run systemctl [] none).0 ≡ [])
    ⊎ (((systemctl ≡ systemctl) ⊎ (systemctl ≡ apt_worker))
        × (good_run.trusted ≡ ok tt)
        × ((m : Metadata) × (good_run.metadata ≡ some m) × (is_usable m ≡ true))
        × All (IsHelperEffect systemctl [] none) (run_helper good_run systemctl [] none).0)
run_helper-effects_example = run_helper-effects good_run systemctl [] none

abbrev update_plan : CanonicalPlan Flat
update_plan = record (plan_of apt_update (codes "org.sentia.system.package-update")) {
  state = apt_state;
}

abbrev update_request : Flat
update_request =
    (codes "request_id", update_plan.id)
    ∷ (codes "protocol_version", codes "1.0")
    ∷ (codes "operation", codes "apt_update")
    ∷ (codes "arguments", codes "execute")
    ∷ (codes "approval", sha)
    ∷ []

interpret_apt_response-eq-ok_example : IsAnswered flat_json (codes "{}") true answer true answer
unfolding interpret_apt_response echoes
interpret_apt_response-eq-ok_example =
    interpret_apt_response-eq-ok flat_json (codes "{}") true answer true answer refl
