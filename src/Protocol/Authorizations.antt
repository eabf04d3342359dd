-- ===== src/Protocol/Authorizations.antt =====
-- crates/sentia-protocol/src/transactions.rs: the messages by which a plan is prepared and applied.
use sentia_linux.Base.{
  ℕ, Bool, true, false, not, Option, none, some, List, Text, codes, ltb, is_empty, text_beq, Result,
  ok, err, ◌>>◌,
}
use sentia_linux.Protocol.Errors.{
  ContractError, unsupported_version, validation_failed, contract_error, ensure,
}
use sentia_linux.Protocol.Requests.{protocol_version}
use sentia_linux.Protocol.Transactions.{
  TransactionKind, RequiredEvidence, ApprovalPlan, validate_approval,
}

pub record ApprovalGrant : Type 0 where
  pub approval_id : Text
  pub grant_id : Text
  pub broker_token : Text
  pub granted_at_ms : ℕ
  pub expires_at_ms : ℕ

pub validate_grant : ApprovalGrant → Result ContractError (Unit {0})
validate_grant g =
    ensure (ltb g.granted_at_ms g.expires_at_ms) validation_failed
      (codes "approval grant expiry must be after granted timestamp")

pub data AuthorizationOperation : Type 0 where
  prepare apply : AuthorizationOperation

pub record AuthorizationPrepareRequest : Type 0 where
  pub version : Text
  pub request_id : Text
  pub session_id : Text
  pub caller_uid : ℕ
  pub kind : TransactionKind
  pub requested_targets : List Text
  pub state_fingerprint_sha256 : Text
  pub require_non_cached_auth : Bool

pub validate_prepare_request : AuthorizationPrepareRequest → Result ContractError (Unit {0})
validate_prepare_request r = do
  ensure (text_beq r.version protocol_version) unsupported_version
      (codes "authorization prepare request version is not sentia.v1")
  ensure (not (is_empty r.requested_targets)) validation_failed
      (codes "authorization prepare request requires at least one requested target")

pub record AuthorizationPrepareResult : Type 0 where
  pub version : Text
  pub request_id : Text
  pub operation : AuthorizationOperation
  pub approval_plan : ApprovalPlan

abbrev is_prepare : AuthorizationOperation → Bool
is_prepare prepare = true
is_prepare apply = false

pub validate_prepare_result : AuthorizationPrepareResult → Result ContractError (Unit {0})
unfolding validate_approval
validate_prepare_result r = do
  ensure (text_beq r.version protocol_version) unsupported_version
      (codes "authorization prepare result version is not sentia.v1")
  ensure (is_prepare r.operation) validation_failed
      (codes "authorization prepare result operation must be prepare")
  validate_approval r.approval_plan

pub record AuthorizationApplyRequest : Type 0 where
  pub version : Text
  pub request_id : Text
  pub session_id : Text
  pub caller_uid : ℕ
  pub approval_grant : ApprovalGrant
  pub expected_operation_digest_sha256 : Text
  pub expected_state_digest_sha256 : Text

pub validate_apply_request : AuthorizationApplyRequest → Result ContractError (Unit {0})
unfolding validate_grant
validate_apply_request r = do
  ensure (text_beq r.version protocol_version) unsupported_version
      (codes "authorization apply request version is not sentia.v1")
  validate_grant r.approval_grant

pub record AuthorizationApplyResult : Type 0 where
  pub version : Text
  pub request_id : Text
  pub operation : AuthorizationOperation
  pub approval_id : Text
  pub applied : Bool
  pub applied_at_ms : ℕ
  pub evidence : List RequiredEvidence
  pub error : Option ContractError

-- What was applied has no error; what was not has one.
check_applied : Bool → Option ContractError → Result ContractError (Unit {0})
check_applied true none = ok tt
check_applied true (some e) = err (
    contract_error validation_failed (codes "applied authorization result cannot include error")
      false)
check_applied false (some e) = ok tt
check_applied false none = err (
    contract_error validation_failed
      (codes "failed authorization apply result requires structured error") false)

pub validate_apply_result : AuthorizationApplyResult → Result ContractError (Unit {0})
unfolding check_applied
validate_apply_result r = do
  ensure (text_beq r.version protocol_version) unsupported_version
      (codes "authorization apply result version is not sentia.v1")
  ensure (not (is_prepare r.operation)) validation_failed
      (codes "authorization apply result operation must be apply")
  check_applied r.applied r.error
