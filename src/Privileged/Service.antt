-- ===== src/Privileged/Service.antt =====
-- crates/sentia-privileged/src/service.rs: the D-Bus methods Prepare and Apply. D-Bus, logind and
-- polkit answer through records; every question that the code asks is a field, in its order.
pub mod Gate
pub mod Store
pub mod Once
use sentia_linux.Base.{
  ℕ, Bool, not, Option, none, some, List, [], Text, text_eq, Result, ok, err, reject, ok_or,
}
use sentia_linux.Privileged.Operation.{
  Error, Operation, parse_request, action_id, inactive_or_remote_session, caller_changed,
  authorization_denied, clock_unavailable, serialization_failed,
}
use sentia_linux.Privileged.Json.{Json}
use sentia_linux.Privileged.Broker.{
  Caller, caller_beq, CanonicalPlan, Prepared, PlanStore, Digests, prepare, consume, revalidate,
}
use sentia_linux.Privileged.Callers.{Peer, identify, Polkit, authorize, enter}
use sentia_linux.Privileged.Executor.Effects.{Effect, Act, ◌>>=◌, ◌>>◌, look}
use sentia_linux.Privileged.Executor.Snapshots.{Looks, snapshot}
use sentia_linux.Privileged.Executor.Execute.{Answers, execute}

pub data BusError : Type 0 where
  access_denied failed : Error → BusError

pub dbus_error : Error → BusError
dbus_error authorization_denied = access_denied authorization_denied
dbus_error inactive_or_remote_session = access_denied inactive_or_remote_session
dbus_error caller_changed = access_denied caller_changed
dbus_error e = failed e

pub to_bus {ℓ} : {A : Type ℓ} → Result Error A → Result BusError A
unfolding dbus_error
to_bus (ok a) = ok a
to_bus (err e) = err (dbus_error e)

module _ (j : Json) where
  open j use {Value, equality, encode}

  pub record PrepareAnswers : Type 0 where
    pub sender : Option Text
    pub peer : Peer
    pub lock_free : Bool
    pub snapshot : Looks
    pub peer_again : Peer
    pub clock : Option ℕ
    pub entropy : Option (List ℕ)

  pub record ApplyAnswers : Type 0 where
    pub sender : Option Text
    pub peer : Peer
    pub lock_free : Bool
    pub clock : Option ℕ
    pub before : Looks
    pub clock_before : Option ℕ
    pub polkit : Caller → Text → Polkit
    pub peer_again : Peer
    pub after : Looks
    pub clock_after : Option ℕ
    pub execution : Answers j

  module _ (digests : Digests Value) (utc_timestamp : ℕ → Result Error Text) where
    -- The store after a method, what the method did, and its reply.
    pub record Outcome : Type 0 where
      pub store : PlanStore Value
      pub effects : List Effect
      pub reply : Result BusError Text

    -- What Prepare learns before it touches the store, with what it started to learn it.
    pub observe :
        PrepareAnswers
        → (Text → Option (ℕ × Operation))
        → Text
        → Act (Operation × Caller × Value × ℕ)
    unfolding enter snapshot
    observe a parse request = do
      operation ← look (parse_request parse request)
      entered ← look (enter a.sender a.peer a.lock_free)
      state ← snapshot j digests utc_timestamp a.snapshot operation
      current ← look (identify a.peer_again entered.0)
      look (reject (not (caller_beq current entered.1)) caller_changed)
      now ← look (ok_or a.clock clock_unavailable)
      look (ok (operation, entered.1, state, now))

    pub prepare_observed :
        PrepareAnswers
        → PlanStore Value
        → Result Error (Operation × Caller × Value × ℕ)
        → PlanStore Value × Result Error (Prepared Value)
    prepare_observed a store (err e) = (store, err e)
    prepare_observed a store (ok (operation, caller, state, now)) =
        prepare digests a.entropy store caller operation state now

    -- A result in its text, by a parameter.
    abbrev pub printed : {A : Type 0} → (A → Option Text) → Result Error A → Result Error Text
    printed print (err e) = err e
    printed print (ok a) = ok_or (print a) serialization_failed

    -- The method Prepare; the reply is the serialized plan, by the parameter `print`.
    pub handle_prepare :
        (Prepared Value → Option Text)
        → PrepareAnswers
        → (Text → Option (ℕ × Operation))
        → PlanStore Value
        → Text
        → Outcome
    unfolding observe prepare_observed to_bus
    handle_prepare print a parse store request =
        let (effects, seen) = observe a parse request in
        let (store', prepared) = prepare_observed a store seen in
        record { store = store'; effects = effects; reply = to_bus (printed print prepared) }

    -- What Apply asks of the system between the use of the plan and its execution.
    unfoldable pub admit : ApplyAnswers → Text → Caller → CanonicalPlan Value → Act (Unit {0})
    unfolding snapshot
    admit a name caller plan = do
      before ← snapshot j digests utc_timestamp a.before plan.operation
      now ← look (ok_or a.clock_before clock_unavailable)
      look (revalidate ⦃eq = equality⦄ digests plan caller before now)
      look (authorize a.polkit caller plan.action_id)
      current ← look (identify a.peer_again name)
      after ← snapshot j digests utc_timestamp a.after plan.operation
      later ← look (ok_or a.clock_after clock_unavailable)
      look (revalidate ⦃eq = equality⦄ digests plan current after later)

    abbrev refused : PlanStore Value → Error → Outcome
    refused store e = record { store = store; effects = []; reply = err (dbus_error e) }

    -- What Apply does with a plan it has consumed: admission, then execution.
    unfoldable pub perform : ApplyAnswers → Text → Caller → CanonicalPlan Value → Act Value
    unfolding admit
    perform a name caller plan = do
      admit a name caller plan
      execute j digests utc_timestamp a.execution plan

    unfoldable pub apply_consumed :
        ApplyAnswers
        → Text
        → Caller
        → PlanStore Value × Result Error (CanonicalPlan Value)
        → Outcome
    unfolding perform to_bus
    apply_consumed a name caller (store, err e) = refused store e
    apply_consumed a name caller (store, ok plan) =
        let (effects, result) = perform a name caller plan in
        record { store = store; effects = effects; reply = to_bus (printed encode result) }

    unfoldable pub apply_timed :
        ApplyAnswers → PlanStore Value → Text → Text → Text → Caller → Option ℕ → Outcome
    apply_timed a store id digest name caller none = refused store clock_unavailable
    apply_timed a store id digest name caller (some now) =
        apply_consumed a name caller (consume store id digest caller now)

    unfoldable pub apply_entered :
        ApplyAnswers → PlanStore Value → Text → Text → Result Error (Text × Caller) → Outcome
    apply_entered a store id digest (err e) = refused store e
    apply_entered a store id digest (ok (name, caller)) =
        apply_timed a store id digest name caller a.clock

    -- The method Apply.
    unfoldable pub handle_apply : ApplyAnswers → PlanStore Value → Text → Text → Outcome
    unfolding enter apply_entered apply_timed apply_consumed
    handle_apply a store id digest =
        apply_entered a store id digest (enter a.sender a.peer a.lock_free)
