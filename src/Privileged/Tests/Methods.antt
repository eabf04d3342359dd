-- ===== src/Privileged/Tests/Methods.antt =====
-- The methods Prepare and Apply at work.
use sentia_linux.Base.{
  ℕ, ◌≡◌, ◌≢◌, ◌⊎◌, refl, Option, some, List, [], ◌∷◌, Text, codes, arith, All, length, ap,
  lines_from, split_once,
}
use sentia_linux.Privileged.Operation.{
  Operation, validate, validate_unit, strip_suffix, action_id, argument,
}
use sentia_linux.Privileged.Broker.{
  Prepared, pending_of, consume, consume_found, check_taken, revalidate,
}
use sentia_linux.Privileged.Broker.Invariant.{IsWellFormed}
use sentia_linux.Privileged.Executor.Helpers.{
  run_helper, run_fixed, execution, finish, bounded_read, take_output, service_arguments,
}
use sentia_linux.Privileged.Executor.Files.{trusted_file_digest, parent, is_unit_path, lies_in}
use sentia_linux.Privileged.Executor.Paths.{trusted_path, walk}
use sentia_linux.Privileged.Executor.Units.{read_state}
use sentia_linux.Privileged.Executor.Snapshots.{service_state, snapshot}
use sentia_linux.Privileged.Executor.Execute.{
  execute, execute_operation, execute_service, ensure_unexpired, completed,
}
use sentia_linux.Privileged.Service.{
  admit, perform, apply_consumed, apply_timed, apply_entered, handle_apply, Outcome,
}
use sentia_linux.Privileged.Callers.{enter, identify, authorize, known_actions, decide}
use sentia_linux.Privileged.Callers.Identity.{IsIdentified, identify-eq-ok}
use sentia_linux.Privileged.Service.Gate.{IsGated, handle_apply-Gated}
use sentia_linux.Privileged.Service.Once.{
  Request, prepares, applies, RequestAvoids, serve_all, handle_apply_once,
}
use sentia_linux.Privileged.Tests.{
  flat_json, sha, digests, timestamp, alice, plan, store, no_plans, good_peer, preparing, applying,
  restart_ssh, other_nonce, other_id, Flat,
}

identify-eq-ok_example : IsIdentified good_peer (codes ":1.42") alice
unfolding identify
identify-eq-ok_example = identify-eq-ok good_peer (codes ":1.42") alice refl

abbrev applied : Outcome flat_json digests timestamp
applied = handle_apply flat_json digests timestamp applying store plan.id sha

handle_apply-Gated_example :
    (applied.effects ≡ [])
    ⊎ IsGated flat_json digests timestamp applying store plan.id sha applied.store applied.effects
handle_apply-Gated_example =
    handle_apply-Gated flat_json digests timestamp applying store plan.id sha

-- The first use looks at the unit four times and restarts it.
five_effects : length applied.effects ≡ 5
unfolding handle_apply apply_entered apply_timed apply_consumed perform admit snapshot service_state
    enter identify authorize known_actions decide consume consume_found check_taken revalidate
    execute execute_operation execute_service completed ensure_unexpired service_arguments argument
    run_fixed run_helper execution finish bounded_read take_output validate validate_unit
    strip_suffix action_id read_state trusted_file_digest parent trusted_path walk is_unit_path
    lies_in lines_from split_once
five_effects = refl

has_effect : applied.effects ≢ []
has_effect h = absurd (omega (arith, five_effects, ap length h))

-- Another plan is prepared, and the first is asked for again.
abbrev between : List (Request flat_json)
between =
    prepares (record (preparing) { entropy = some other_nonce }) (codes "{}")
    ∷ applies applying plan.id sha
    ∷ []

parsed : Text → Option (ℕ × Operation)
parsed t = some (1, restart_ssh)

shown_digest : Prepared Flat → Option Text
shown_digest p = some (p.digest)

all_other : All (RequestAvoids plan.id) between
all_other = (other_id, (tt, tt))

handle_apply_once_example :
    (handle_apply flat_json digests timestamp applying
      (serve_all flat_json digests timestamp shown_digest parsed applied.store between)
      plan.id
      sha).effects
    ≡ []
handle_apply_once_example =
    handle_apply_once flat_json digests timestamp shown_digest parsed applying applying store
      between plan.id sha sha has_effect all_other

empty-IsWellFormed : IsWellFormed digests no_plans
unfolding pending_of
empty-IsWellFormed = record { entries = tt; bounded = omega arith; fair = λ name. omega arith }
