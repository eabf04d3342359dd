-- ===== src/Privileged/Executor/Execute/Safety.antt =====
-- An effect happens only for a valid, unexpired plan whose target is as the plan saw it.
use sentia_linux.Base.{
  ℕ, ◌≤◌, ◌<◌, ◌≡◌, ◌⊎◌, All, refl, ap, ◌∙◌, inl, inr, true, false, ◌||◌, not, Option, none, some,
  List, [], arith, Text, Result, ok, reject, ok_or, All-map_imp, reject-eq-ok, not-false, or_false,
  reject-false, ok_or-eq-ok,
}
use sentia_linux.Privileged.Operation.{
  Error, ServiceAction, Operation, service, process_kill, apt_install, apt_remove, apt_update,
  apt_upgrade, validate, state_changed_prepare_again, pidfd_unavailable, process_changed,
  process_check_failed, process_signal_denied, serialization_failed,
}
use sentia_linux.Privileged.Operation.Validity.{IsValid, validate_iff}
use sentia_linux.Privileged.Json.{Json}
use sentia_linux.Privileged.Broker.{CanonicalPlan, Digests}
use sentia_linux.Privileged.Executor.Effects.{
  Effect, Act, terminate, look, All-bind, Only, Only-look,
}
use sentia_linux.Privileged.Executor.Helpers.{
  systemctl, apt_worker, service_arguments, run_helper, run_fixed, IsHelperEffect, run_helper-All,
  run_fixed-All,
}
use sentia_linux.Privileged.Executor.Snapshots.{
  Looks, service_state, process_snapshot, ShowEffect, service_state-All,
}
use sentia_linux.Privileged.Executor.Apt.{apt_request}
use sentia_linux.Privileged.Executor.Execute.{
  Answers, ensure_unexpired, wait_exit, execute_service, execute_kill, execute_apt,
  execute_operation, execute,
}

-- The plan is alive by the clock.
pub record IsAlive {Value : Type 0} (clock : Option ℕ) (plan : CanonicalPlan Value) : Type 0 where
  pub now : ℕ
  pub read : clock ≡ some now
  pub not_early : plan.issued_at ≤ now
  pub not_late : now < plan.expires_at

ensure_unexpired-IsAlive :
    {Value : Type 0} (clock : Option ℕ) (plan : CanonicalPlan Value)
    → ensure_unexpired clock plan ≡ ok tt
    → IsAlive clock plan
unfolding ensure_unexpired
ensure_unexpired-IsAlive none plan h = absurd (cc)
ensure_unexpired-IsAlive (some now) plan h = record {
  now = now;
  read = refl;
  not_early = ground arith;
  not_late = ground arith;
}

module _ (j : Json) where
  open j use {Value, equality}

  -- Before an effect the target was seen in the state that the plan recorded, and after that the
  -- clock was read and the plan found alive.
  pub record IsFresh (seen : Result Error Value) (a : Answers j) (plan : CanonicalPlan Value)
      : Type 0 where
    pub same_state : seen ≡ ok plan.state
    pub alive : IsAlive a.clock plan

  -- Before a signal the process was also found running, under a pidfd that was opened first.
  pub record IsHeld (a : Answers j) (plan : CanonicalPlan Value) (pid : ℕ) : Type 0 where
    pub fresh : IsFresh (process_snapshot j a.before pid) a plan
    pub running : a.gone ≡ some false
    pub opened : a.opens ≡ true

  -- The effects that a service operation may have.
  abbrev pub ServiceEffect : ServiceAction → Text → Effect → Type 0
  ServiceEffect action unit e =
      (arguments : List Text) × (service_arguments action unit ≡ ok arguments)
      × IsHelperEffect systemctl arguments none e

  same_value :
      (r : Result Error Value) (state want : Value) (x : Error)
      → r ≡ ok state
      → reject (not (equality.beq state want)) x ≡ ok tt
      → r ≡ ok want
  same_value r state want x e h =
      e ∙ ap ok ((equality.beq_iff state want).0 (not-false _ (reject-eq-ok _ x h)))

  -- The unit of the plan was seen in the state of the plan.
  abbrev pub IsSeen : Answers j → CanonicalPlan Value → Text → Type 0
  IsSeen a plan unit = IsFresh (service_state j a.before unit).1 a plan

  -- Either a look at the unit, or an effect of the operation behind what must hold before.
  abbrev ServiceStep : Answers j → CanonicalPlan Value → ServiceAction → Text → Effect → Type 0
  ServiceStep a plan action unit e =
      ShowEffect j unit e ⊎ (IsSeen a plan unit × ServiceEffect action unit e)

  looks-step :
      (a : Answers j) (plan : CanonicalPlan Value) (action : ServiceAction) (unit : Text)
      (l : Looks)
      → All (ServiceStep a plan action unit) (service_state j l unit).0
  looks-step a plan action unit l =
      All-map_imp (ShowEffect j unit) (ServiceStep a plan action unit) (service_state j l unit).0
        (λ e i. inl i) (service_state-All j l unit)

  execute_service-All :
      (a : Answers j) (plan : CanonicalPlan Value) (action : ServiceAction) (unit : Text)
      → All (ServiceStep a plan action unit) (execute_service j a plan action unit).0
  unfolding execute_service
  execute_service-All a plan action unit =
      let P = ServiceStep a plan action unit in
      All-bind P (service_state j a.before unit) _ (looks-step a plan action unit a.before)
        λ state seen.
          All-bind P
            (look (reject (not (equality.beq state plan.state)) state_changed_prepare_again)) _ tt
            λ _ same. All-bind P (look (ensure_unexpired a.clock plan)) _ tt λ _ live.
              All-bind P (look (service_arguments action unit)) _ tt λ arguments args.
                let guard : IsSeen a plan unit = record {
                  same_state =
                      same_value (service_state j a.before unit).1 state plan.state
                        state_changed_prepare_again seen same;
                  alive = ensure_unexpired-IsAlive a.clock plan live;
                } in
                All-bind P (run_fixed a.run systemctl arguments none) _
                  (All-map_imp (IsHelperEffect systemctl arguments none) P
                    (run_fixed a.run systemctl arguments none).0
                    (λ e i. inr (guard, (arguments, args, i)))
                    (run_fixed-All a.run systemctl arguments none))
                  (λ output e.
                    All-bind P (service_state j a.after unit) _
                      (looks-step a plan action unit a.after) (λ v f. tt))

  execute_kill-Only :
      (a : Answers j) (plan : CanonicalPlan Value) (pid : ℕ)
      → Only (IsHeld a plan pid) (λ e. e ≡ terminate pid) (execute_kill j a plan pid)
  unfolding execute_kill
  execute_kill-Only a plan pid =
      let G = IsHeld a plan pid in
      let P = λ (e : Effect). e ≡ terminate pid in
      Only-look G P (reject (not a.opens) pidfd_unavailable) _ λ _ opened.
        Only-look G P (process_snapshot j a.before pid) _ λ current seen.
          Only-look G P (ok_or a.gone process_check_failed) _ λ gone asked.
            Only-look G P (reject (gone || not (equality.beq current plan.state)) process_changed) _
              λ _ same. Only-look G P (ensure_unexpired a.clock plan) _ λ _ live.
                Only-look G P (reject (not a.signalled) process_signal_denied) _ λ _ _.
                  let (running, unchanged) =
                    or_false gone (not (equality.beq current plan.state))
                      (reject-eq-ok _ process_changed same) in
                  inr (
                    record {
                      fresh = record {
                        same_state =
                            same_value (process_snapshot j a.before pid) current plan.state
                              process_changed seen (reject-false _ process_changed unchanged);
                        alive = ensure_unexpired-IsAlive a.clock plan live;
                      };
                      running = ok_or-eq-ok a.gone process_check_failed asked ∙ ap some running;
                      opened = not-false a.opens (reject-eq-ok _ pidfd_unavailable opened);
                    },
                    (refl, All-bind P (look (wait_exit a.polls 0 30)) _ tt (λ v f. tt)),
                  )

  module _ (digests : Digests Value) (utc_timestamp : ℕ → Result Error Text) where
    -- The effects that a package operation may have: a run of the worker on the request that
    -- `apt_request` makes of the plan.
    abbrev pub AptEffect : CanonicalPlan Value → Effect → Type 0
    AptEffect plan e =
        (request : Value) × (input : Text) × (apt_request j digests utc_timestamp plan.operation
            (some plan)
          ≡ ok request)
        × (j.encode request ≡ some input)
        × IsHelperEffect apt_worker [] (some input) e

    execute_apt-Only :
        (a : Answers j) (plan : CanonicalPlan Value)
        → Only (IsAlive a.clock plan) (AptEffect plan) (execute_apt j digests utc_timestamp a plan)
    unfolding execute_apt
    execute_apt-Only a plan =
        let G = IsAlive a.clock plan in
        let P = AptEffect plan in
        Only-look G P (ensure_unexpired a.clock plan) _ λ _ live.
          Only-look G P (apt_request j digests utc_timestamp plan.operation (some plan)) _
            λ request made.
              Only-look G P (ok_or (j.encode request) serialization_failed) _ λ input encoded. inr (
                ensure_unexpired-IsAlive a.clock plan live,
                All-bind P (run_helper a.run apt_worker [] (some input)) _
                    (All-map_imp (IsHelperEffect apt_worker [] (some input)) P
                      (run_helper a.run apt_worker [] (some input)).0
                      (λ e i. (request, input, made, ok_or-eq-ok _ serialization_failed encoded, i))
                      (run_helper-All a.run apt_worker [] (some input)))
                    (λ output e. tt),
              )

    -- What must hold of the system before an operation has an effect.
    abbrev pub Guard : Answers j → CanonicalPlan Value → Operation → Type 0
    Guard a plan (service action unit) = IsSeen a plan unit
    Guard a plan (process_kill pid) = IsHeld a plan pid
    Guard a plan _ = IsAlive a.clock plan

    -- The effects that an operation may have.
    abbrev pub Allowed : CanonicalPlan Value → Operation → Effect → Type 0
    Allowed plan (service action unit) = ServiceEffect action unit
    Allowed plan (process_kill pid) = λ e. e ≡ terminate pid
    Allowed plan _ = AptEffect plan

    -- What the execution of an operation starts in order to look at its target.
    abbrev pub Shows : Operation → Effect → Type 0
    Shows (service action unit) = ShowEffect j unit
    Shows _ = λ e. ⊥

    abbrev pub Executed : Answers j → CanonicalPlan Value → Operation → Effect → Type 0
    Executed a plan op e = Shows op e ⊎ (Guard a plan op × Allowed plan op e)

    Only-All :
        {A : Type 0} (G : Type 0) (P : Effect → Type 0) (m : Act A)
        → Only G P m
        → All (λ e. ⊥ ⊎ (G × P e)) m.0
    Only-All G P m (inl nothing) = rw nothing tt
    Only-All G P m (inr (g, all)) = All-map_imp P (λ e. ⊥ ⊎ (G × P e)) m.0 (λ e p. inr (g, p)) all

    execute_operation-All :
        (a : Answers j) (plan : CanonicalPlan Value) (op : Operation)
        → All (Executed a plan op) (execute_operation j digests utc_timestamp a plan op).0
    unfolding execute_operation
    execute_operation-All a plan (service action unit) = execute_service-All a plan action unit
    execute_operation-All a plan (process_kill pid) =
        Only-All _ _ (execute_kill j a plan pid) (execute_kill-Only a plan pid)
    execute_operation-All a plan (apt_install packages) =
        Only-All _ _ (execute_apt j digests utc_timestamp a plan) (execute_apt-Only a plan)
    execute_operation-All a plan (apt_remove packages) =
        Only-All _ _ (execute_apt j digests utc_timestamp a plan) (execute_apt-Only a plan)
    execute_operation-All a plan apt_update =
        Only-All _ _ (execute_apt j digests utc_timestamp a plan) (execute_apt-Only a plan)
    execute_operation-All a plan apt_upgrade =
        Only-All _ _ (execute_apt j digests utc_timestamp a plan) (execute_apt-Only a plan)

    -- Executing a plan does nothing to the system unless its operation is valid. All that it does is
    -- then a look at the plan's own unit (a run of `systemctl show`, for a service), or an effect of
    -- the plan's operation alone: systemctl with the arguments of the action and the unit, SIGTERM to
    -- the pid, or the package worker on the request of the plan. An effect of the operation happens
    -- only if the clock lies in the life of the plan and (for a service or a process) that unit or
    -- process was seen just as the plan recorded it, a process also running under a pidfd.
    pub execute-Only :
        (a : Answers j) (plan : CanonicalPlan Value)
        → Only
            (IsValid plan.operation)
            (Executed a plan plan.operation)
            (execute j digests utc_timestamp a plan)
    unfolding execute
    execute-Only a plan =
        Only-look (IsValid plan.operation) (Executed a plan plan.operation)
          (validate plan.operation) _
          λ _ valid.
            inr ((validate_iff plan.operation).0 valid, execute_operation-All a plan plan.operation)
