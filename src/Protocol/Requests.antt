-- ===== src/Protocol/Requests.antt =====
-- crates/sentia-protocol/src/router.rs: requests to the router and their results, with the checks that
-- a receiver makes. A text is its bytes, and a bound of a `BoundedString` is checked where the
-- program makes one.
pub mod Checked
use sentia_linux.Base.{
  ℕ, Bool, true, false, not, Option, none, some, Text, codes, ltb, leb, ◌==◌, length, text_beq,
  Result, ok, ◌>>=◌, ◌>>◌,
}
use sentia_linux.Protocol.Errors.{
  ContractError, ProviderStatus, unsupported_version, policy_denied, payload_too_large,
  validation_failed, ensure,
}
use sentia_linux.Protocol.Status.{RequestStatus, completed, failed}

abbrev pub protocol_version : Text
protocol_version = codes "sentia.v1"

abbrev pub max_payload_bytes : ℕ
max_payload_bytes = 262144

pub data RoutingPolicy : Type 0 where
  local_only local_preferred remote_preferred ask_before_remote : RoutingPolicy

pub data RouterCapability : Type 0 where
  inference tooling package_planning health retrieval intent_classification : RouterCapability

pub data ProvenanceSource : Type 0 where
  user_input terminal_output file_snippet system_tool provider_response : ProvenanceSource

pub data DataSensitivity : Type 0 where
  public_data internal_data sensitive_data restricted_data : DataSensitivity

pub record DataProvenance : Type 0 where
  pub source : ProvenanceSource
  pub sensitivity : DataSensitivity
  pub redaction_applied : Bool
  pub origin_label : Text
  pub trace_id : Option Text

-- `RequestPayload` and `ResultPayload`, which have the same fields.
pub record Payload : Type 0 where
  pub mime_type : Text
  pub content : Text
  pub byte_count : ℕ
  pub truncated : Bool

-- `RequestPayload::validate` and `ResultPayload::validate`, with their messages.
validate_payload : Text → Text → Payload → Result ContractError (Unit {0})
validate_payload too_large mismatch p = do
  ensure (leb (length p.content) max_payload_bytes) payload_too_large too_large
  ensure (length p.content == p.byte_count) validation_failed mismatch

validate_request_payload : Payload → Result ContractError (Unit {0})
unfolding validate_payload
validate_request_payload =
    validate_payload (codes "request payload exceeds v1 byte bound")
      (codes "request payload byte_count does not match content length")

validate_result_payload : Payload → Result ContractError (Unit {0})
unfolding validate_payload
validate_result_payload =
    validate_payload (codes "result payload exceeds v1 byte bound")
      (codes "result payload byte_count does not match content length")

pub record ConsentToken : Type 0 where
  pub token_id : Text
  pub payload_sha256 : Text
  pub provider_id : Option Text
  pub issued_at_ms : ℕ
  pub expires_at_ms : ℕ

pub record RouterRequest : Type 0 where
  pub version : Text
  pub request_id : Text
  pub session_id : Text
  pub created_at_ms : ℕ
  pub capability : RouterCapability
  pub policy : RoutingPolicy
  pub provider_id : Option Text
  pub provenance : DataProvenance
  pub payload : Payload
  pub consent_token : Option ConsentToken

-- Whether the policy does without a consent token.
has_consent : RoutingPolicy → Option ConsentToken → Bool
has_consent ask_before_remote none = false
has_consent _ _ = true

expires_later : Option ConsentToken → Bool
expires_later none = true
expires_later (some token) = ltb token.issued_at_ms token.expires_at_ms

pub validate_request : RouterRequest → Result ContractError (Unit {0})
unfolding validate_request_payload has_consent expires_later
validate_request r = do
  ensure (text_beq r.version protocol_version) unsupported_version
      (codes "router request version is not sentia.v1")
  validate_request_payload r.payload
  ensure (has_consent r.policy r.consent_token) policy_denied
      (codes "ASK_BEFORE_REMOTE requires a consent token issued by trusted UI")
  ensure (expires_later r.consent_token) validation_failed
      (codes "consent token expiry must be after issue timestamp")

-- A `RouterResult`, less its metrics, which no check reads.
pub record RouterResult : Type 0 where
  pub version : Text
  pub request_id : Text
  pub status : RequestStatus
  pub provider_status : Option ProviderStatus
  pub payload : Option Payload
  pub error : Option ContractError

validate_optional : Option Payload → Result ContractError (Unit {0})
unfolding validate_result_payload
validate_optional none = ok tt
validate_optional (some p) = validate_result_payload p

-- A completed result has a payload; a failed one has an error.
has_payload : RequestStatus → Option Payload → Bool
has_payload completed none = false
has_payload _ _ = true

has_error : RequestStatus → Option ContractError → Bool
has_error failed none = false
has_error _ _ = true

pub validate_result : RouterResult → Result ContractError (Unit {0})
unfolding validate_optional has_payload has_error
validate_result r = do
  ensure (text_beq r.version protocol_version) unsupported_version
      (codes "router result version is not sentia.v1")
  validate_optional r.payload
  ensure (has_payload r.status r.payload) validation_failed
      (codes "completed result requires payload")
  ensure (has_error r.status r.error) validation_failed
      (codes "failed result requires structured error")
