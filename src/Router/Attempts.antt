-- ===== src/Router/Attempts.antt =====
-- crates/sentia-router/src/router.rs: the check of a chat request, the errors that a chat reports, and
-- what the system does while a candidate is tried: an `Attempt`, read in the order of the code.
use sentia_linux.Base.{
  ℕ, Bool, true, false, ◌||◌, Option, some, List, [], ◌∷◌, Text, codes, ltb, all, is_empty, length,
  Result, ◌>>◌, reject,
}
use sentia_linux.Protocol.Errors.{ProviderHealth, healthy, ProviderStatus}
use sentia_linux.Router.Redaction.{len, is_space}
use sentia_linux.Router.Breakers.{CircuitBreakers, failure}
use sentia_linux.Router.Requests.{
  ContractErrorCode, policy_denied, provider_unavailable, timeout, cancelled, ProviderErrorCode,
  network, dns, authentication, quota, timed_out, unsupported_capability, malformed_response,
  process_failure, circuit_open, internal_error, FailureKind, provider_failure, privacy_denied,
  request_cancelled, ChatInput,
}
use sentia_linux.Router.Events.{InternalEvent, error, done, ProviderError, Effect, emit}
use sentia_linux.Router.Agent.{Round}

abbrev is_blank : Text → Bool
is_blank s = all is_space s

unfoldable pub validate_chat : ChatInput → Result Text (Unit {0})
validate_chat request = do
  reject (is_empty request.request_id || ltb 64 (len request.request_id))
      (codes "request_id must contain 1 to 64 bytes")
  reject (is_empty request.session_id || ltb 64 (len request.session_id))
      (codes "session_id must contain 1 to 64 bytes")
  reject (is_blank request.question || ltb 65536 (len request.question))
      (codes "question must contain 1 to 65536 bytes")
  reject (ltb 64 (length request.context)) (codes "too many context items")

abbrev pub contract_code_for_failure : FailureKind → ContractErrorCode
contract_code_for_failure request_cancelled = cancelled
contract_code_for_failure privacy_denied = policy_denied
contract_code_for_failure (provider_failure timed_out) = timeout
contract_code_for_failure (provider_failure _) = provider_unavailable

-- The names of `ProviderErrorCode` in JSON.
abbrev pub provider_code_name : ProviderErrorCode → Text
provider_code_name network = codes "network"
provider_code_name dns = codes "dns"
provider_code_name authentication = codes "authentication"
provider_code_name quota = codes "quota"
provider_code_name timed_out = codes "timeout"
provider_code_name unsupported_capability = codes "unsupported_capability"
provider_code_name malformed_response = codes "malformed_response"
provider_code_name process_failure = codes "process_failure"
provider_code_name circuit_open = codes "circuit_open"
provider_code_name internal_error = codes "internal"

abbrev pub failure_finish_reason : FailureKind → Text
failure_finish_reason privacy_denied = codes "privacy_denied"
failure_finish_reason request_cancelled = codes "cancelled"
failure_finish_reason (provider_failure code) = provider_code_name code

abbrev pub error_event : Text → ContractErrorCode → Text → Bool → Option FailureKind → InternalEvent
error_event request_id code message retryable failure = error (record {
  request_id = request_id;
  code = code;
  message = message;
  retryable = retryable;
  failure = failure;
})

-- A request that was cancelled, and its end.
abbrev pub cancelled_end : {P : Type 0} → Text → List (Effect P)
cancelled_end request_id =
    emit
      (error_event request_id cancelled (codes "request cancelled") false (some request_cancelled))
    ∷ emit (done request_id)
    ∷ []

abbrev pub is_healthy : ProviderHealth → Bool
is_healthy healthy = true
is_healthy _ = false

-- The answers of the system for one candidate.
pub record Attempt : Type 0 where
  pub is_cancelled : Bool
  pub allowed_at : ℕ
  pub health : ProviderStatus
  pub unhealthy_at : ℕ
  pub serving_status : ProviderStatus
  pub rounds : ℕ → Round
  pub failed_at : ℕ

-- What a chat carries from candidate to candidate, besides what it has sent.
pub record ChatState : Type 0 where
  pub breakers : CircuitBreakers
  pub answer_sequence : ℕ
  pub fallback_reason : Option FailureKind
  pub last_error : Option ProviderError

-- What a chat reads of `RouterConfig`, and the identifier of the process.
pub record ChatConfig : Type 0 where
  pub max_agent_rounds : ℕ
  pub max_generation_tokens : ℕ
  pub process_id : ℕ
