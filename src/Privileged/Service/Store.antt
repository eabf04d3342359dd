-- ===== src/Privileged/Service/Store.antt =====
-- Both methods keep the plan store well formed, and what Prepare hands out (service.rs).
use sentia_linux.Base.{ℕ, ◌≡◌, Option, none, some, Text, Result, ok, err, lookup, text_eq}
use sentia_linux.Privileged.Operation.{Error, Operation}
use sentia_linux.Privileged.Json.{Json}
use sentia_linux.Privileged.Broker.{Caller, CanonicalPlan, Prepared, PlanStore, Digests, consume}
use sentia_linux.Privileged.Broker.Invariant.{
  IsWellFormed, prepare-IsWellFormed, consume-IsWellFormed,
}
use sentia_linux.Privileged.Broker.Spent.{Avoids, prepare-unknown}
use sentia_linux.Privileged.Callers.{enter}
use sentia_linux.Privileged.Service.{
  PrepareAnswers, ApplyAnswers, observe, prepare_observed, handle_prepare, apply_consumed,
  apply_timed, apply_entered, handle_apply,
}

module _ (j : Json) (digests : Digests j.Value) (utc_timestamp : ℕ → Result Error Text) where
  open j use {Value}

  prepare_observed-IsWellFormed :
      (a : PrepareAnswers j) (store : PlanStore Value)
      (seen : Result Error (Operation × Caller × Value × ℕ))
      → IsWellFormed digests store
      → IsWellFormed digests (prepare_observed j digests utc_timestamp a store seen).0
  unfolding prepare_observed
  prepare_observed-IsWellFormed a store (err e) w = w
  prepare_observed-IsWellFormed a store (ok (operation, caller, state, now)) w =
      prepare-IsWellFormed digests a.entropy store caller operation state now w

  -- Prepare keeps the store well formed, whatever the request and the answers of the system.
  pub handle_prepare-IsWellFormed :
      (print : Prepared Value → Option Text) (a : PrepareAnswers j)
      (parse : Text → Option (ℕ × Operation)) (store : PlanStore Value) (request : Text)
      → IsWellFormed digests store
      → IsWellFormed digests
          (handle_prepare j digests utc_timestamp print a parse store request).store
  unfolding handle_prepare
  handle_prepare-IsWellFormed print a parse store request w =
      prepare_observed-IsWellFormed a store (observe j digests utc_timestamp a parse request).1 w

  -- Apply leaves the store as it is, or as a use of the plan leaves it.
  module _ (P : PlanStore Value → Type 0) (a : ApplyAnswers j) (store : PlanStore Value)
      (id digest : Text) (as_it_is : P store)
      (after_use : (caller : Caller) (now : ℕ) → P (consume store id digest caller now).0) where
    apply_consumed-store :
        (name : Text) (caller : Caller) (left : PlanStore Value)
        (r : Result Error (CanonicalPlan Value))
        → P left
        → P (apply_consumed j digests utc_timestamp a name caller (left, r)).store
    unfolding apply_consumed
    apply_consumed-store name caller left (err e) p = p
    apply_consumed-store name caller left (ok plan) p = p

    apply_timed-store :
        (name : Text) (caller : Caller) (clock : Option ℕ)
        → P (apply_timed j digests utc_timestamp a store id digest name caller clock).store
    unfolding apply_timed
    apply_timed-store name caller none = as_it_is
    apply_timed-store name caller (some now) =
        apply_consumed-store name caller (consume store id digest caller now).0
          (consume store id digest caller now).1 (after_use caller now)

    apply_entered-store :
        (entered : Result Error (Text × Caller))
        → P (apply_entered j digests utc_timestamp a store id digest entered).store
    unfolding apply_entered
    apply_entered-store (err e) = as_it_is
    apply_entered-store (ok (name, caller)) = apply_timed-store name caller a.clock

    pub handle_apply-store : P (handle_apply j digests utc_timestamp a store id digest).store
    unfolding handle_apply
    handle_apply-store = apply_entered-store (enter a.sender a.peer a.lock_free)

  -- Apply keeps the store well formed, whatever the arguments and the answers of the system.
  pub handle_apply-IsWellFormed :
      (a : ApplyAnswers j) (store : PlanStore Value) (id digest : Text)
      → IsWellFormed digests store
      → IsWellFormed digests (handle_apply j digests utc_timestamp a store id digest).store
  handle_apply-IsWellFormed a store id digest w =
      handle_apply-store (IsWellFormed digests) a store id digest w
        (λ caller now. consume-IsWellFormed digests store id digest caller now w)

  prepare_observed-unknown :
      (a : PrepareAnswers j) (store : PlanStore Value)
      (seen : Result Error (Operation × Caller × Value × ℕ)) (id : Text)
      → Avoids id a.entropy
      → lookup id store.plans ≡ none
      → lookup id (prepare_observed j digests utc_timestamp a store seen).0.plans ≡ none
  unfolding prepare_observed
  prepare_observed-unknown a store (err e) id free h = h
  prepare_observed-unknown a store (ok (operation, caller, state, now)) id free h =
      prepare-unknown digests a.entropy store caller operation state now id free h

  pub handle_prepare-unknown :
      (print : Prepared Value → Option Text) (a : PrepareAnswers j)
      (parse : Text → Option (ℕ × Operation)) (store : PlanStore Value) (request id : Text)
      → Avoids id a.entropy
      → lookup id store.plans ≡ none
      → lookup id (handle_prepare j digests utc_timestamp print a parse store request).store.plans
        ≡ none
  unfolding handle_prepare
  handle_prepare-unknown print a parse store request id free h =
      prepare_observed-unknown a store (observe j digests utc_timestamp a parse request).1 id free h
