-- ===== src/Protocol/Tools/Calls.antt =====
-- crates/sentia-protocol/src/tools.rs: requests for a tool and their results. A JSON value is an
-- element of a type `V`; `json_size` gives the number of bytes that serde_json writes for it, or the
-- text of its failure.
use sentia_linux.Base.{
  ℕ, Bool, false, ◌||◌, not, Option, none, some, List, ◌++◌, Text, codes, leb, ltb, ◌==◌, text_beq,
  Result, ok, err, ◌>>=◌, ◌>>◌,
}
use sentia_linux.Protocol.Errors.{
  ContractError, unsupported_version, payload_too_large, validation_failed, internal,
  contract_error, ensure,
}
use sentia_linux.Protocol.Requests.{protocol_version}
use sentia_linux.Protocol.Tools.Names.{ToolName}
use sentia_linux.Protocol.Tools.{ToolProvenance, ToolResultStatus, success, ToolEvidence}

abbrev pub max_tool_input_bytes : ℕ
max_tool_input_bytes = 65536

abbrev pub max_tool_output_bytes : ℕ
max_tool_output_bytes = 262144

module _ (V : Type 0) (json_size : V → Result Text ℕ) where
  pub record ToolRequest : Type 0 where
    pub version : Text
    pub request_id : Text
    pub name : ToolName
    pub args : V
    pub max_input_bytes : ℕ
    pub provenance : ToolProvenance

  pub record ToolResult : Type 0 where
    pub version : Text
    pub request_id : Text
    pub name : ToolName
    pub status : ToolResultStatus
    pub content : V
    pub evidence : List ToolEvidence
    pub error : Option ContractError
    pub max_output_bytes : ℕ
    pub duration_ms : ℕ
    pub truncated : Bool

  sized : Text → Result Text ℕ → Result ContractError ℕ
  sized context (ok n) = ok n
  sized context (err e) = err (
      contract_error internal
        (context ++ (codes " failed to serialize for bounded-size check: " ++ e)) false)

  json_serialized_size : V → Text → Result ContractError ℕ
  unfolding sized
  json_serialized_size value context = sized context (json_size value)

  pub validate_tool_request : ToolRequest → Result ContractError (Unit {0})
  unfolding json_serialized_size
  validate_tool_request r = do
    ensure (text_beq r.version protocol_version) unsupported_version
        (codes "tool request version is not sentia.v1")
    ensure (not (r.max_input_bytes == 0 || ltb max_tool_input_bytes r.max_input_bytes))
        validation_failed (codes "tool request max_input_bytes exceeds protocol bounds")
    size ← json_serialized_size r.args (codes "tool request args")
    ensure (leb size r.max_input_bytes) payload_too_large
        (codes "tool request args exceed declared max_input_bytes")

  check_status : ToolResultStatus → Option ContractError → Result ContractError (Unit {0})
  check_status success (some e) =
      err (
        contract_error validation_failed (codes "tool result status=ok cannot include error") false)
  check_status success none = ok tt
  check_status _ (some e) = ok tt
  check_status _ none = err (
      contract_error validation_failed
        (codes "tool result status requires structured error details") false)

  pub validate_tool_result : ToolResult → Result ContractError (Unit {0})
  unfolding json_serialized_size check_status
  validate_tool_result r = do
    ensure (text_beq r.version protocol_version) unsupported_version
        (codes "tool result version is not sentia.v1")
    ensure (not (r.max_output_bytes == 0 || ltb max_tool_output_bytes r.max_output_bytes))
        validation_failed (codes "tool result max_output_bytes exceeds protocol bounds")
    size ← json_serialized_size r.content (codes "tool result data")
    ensure (leb size r.max_output_bytes) payload_too_large
        (codes "tool result data exceeds declared max_output_bytes")
    check_status r.status r.error
