-- ===== src/Protocol/Errors.antt =====
-- crates/sentia-protocol/src, errors.rs and provider.rs: the errors that a service reports, and what a
-- provider says of itself. The details of an error are always empty where this library makes one, and
-- are left out.
use sentia_linux.Base.{ℕ, ◌≡◌, ◌↔◌, Bool, true, false, Option, Text, Result, ok, err, ◌>>◌, arith}

pub data ContractErrorCode : Type 0 where
  invalid_request unsupported_version permission_denied policy_denied payload_too_large timeout
        cancelled provider_unavailable tool_unavailable validation_failed internal :
      ContractErrorCode

pub record ContractError : Type 0 where
  pub code : ContractErrorCode
  pub message : Text
  pub retryable : Bool

abbrev pub contract_error : ContractErrorCode → Text → Bool → ContractError
contract_error code message retryable = record {
  code = code;
  message = message;
  retryable = retryable;
}

-- `if !holds { return Err(ContractError::new(code, message, false)) }`
abbrev pub ensure : Bool → ContractErrorCode → Text → Result ContractError (Unit {0})
ensure true code message = ok tt
ensure false code message = err (contract_error code message false)

pub data ProviderHealth : Type 0 where
  healthy degraded unavailable disabled starting : ProviderHealth

pub data ProviderState : Type 0 where
  idle warming serving backoff failed : ProviderState

pub record ProviderStatus : Type 0 where
  pub provider_id : Text
  pub health : ProviderHealth
  pub state : ProviderState
  pub checked_at_ms : ℕ
  pub message : Option Text
  pub observed_latency_ms : Option ℕ

pub data ProviderErrorCode : Type 0 where
  network dns authentication quota timed_out unsupported_capability malformed_response
        process_failure circuit_open internal_error :
      ProviderErrorCode

-- What passes a check, and a sequence of checks.
pub ensure_iff :
    (b : Bool) (code : ContractErrorCode) (message : Text)
    → (ensure b code message ≡ ok tt) ↔ (b ≡ true)
ensure_iff true code message = ground arith
ensure_iff false code message = ground arith

pub then_iff :
    (m k : Result ContractError (Unit {0})) → ((m >> k) ≡ ok tt) ↔ ((m ≡ ok tt) × (k ≡ ok tt))
then_iff (ok tt) k = ground arith
then_iff (err e) k = ground arith
