-- ===== src/Privileged/Executor/Apt/Requests.antt =====
-- What stands behind an execution request to the package worker (executor.rs, apt_request).
use sentia_linux.Base.{ℕ, ◌≡◌, true, Option, some, List, Text, codes, text_eq, Result, ok}
use sentia_linux.Privileged.Operation.{Error, Operation, validate}
use sentia_linux.Privileged.Json.{Json}
use sentia_linux.Privileged.Broker.{CanonicalPlan, Digests}
use sentia_linux.Privileged.Executor.Apt.{
  is_digest, operation_beq, worker_call, text_at, base_request, approval,
}

module _ (j : Json) (digests : Digests j.Value) (utc_timestamp : ℕ → Result Error Text) where
  open j use {Value, assign}

  -- What stands behind an execution request.
  pub record IsApproved (operation : Operation) (plan : CanonicalPlan Value) (request : Value)
      : Type 0 where
    pub name : Text
    pub packages : Option (List Text)
    pub worker_digest : Text
    pub given : Value
    pub valid : validate operation ≡ ok tt
    pub called : worker_call operation ≡ ok (name, packages)
    pub recorded : text_at j plan.state (codes "plan_digest") ≡ some worker_digest
    pub well_formed : is_digest worker_digest ≡ true
    pub same_operation : operation_beq plan.operation operation ≡ true
    pub approved : approval j digests utc_timestamp plan worker_digest ≡ ok given
    pub sent : request ≡ assign (base_request j (some plan) name packages) (codes "approval") given
