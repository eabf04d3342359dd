-- ===== src/Router/Tools/Without.antt =====
-- A provider that is told of no tools.
use sentia_linux.Base.{
  ◌≡◌, refl, inl, inr, Bool, true, false, ◌||◌, List, [], Text, codes, ltb, mem, is_empty, text_eq,
  Result, err, Bool-cases,
}
use sentia_linux.Router.Redaction.{len}
use sentia_linux.Router.Values.{Value}
use sentia_linux.Router.Schemas.{ToolError, unknown, invalid_arguments}
use sentia_linux.Router.Tools.{
  ModelToolResult, ToolCall, Invocation, admitted_arguments, invoke_admitted, validate_and_invoke,
}

-- The errors of a call whose tool is not even looked up, or has no definition.
pub data IsRefusal : ToolError → Type 0 where
  undefined : IsRefusal unknown
  repeated : IsRefusal (invalid_arguments (codes "duplicate tool call identifier"))
  oversized :
      IsRefusal
        (invalid_arguments (codes "tool call identifier or arguments exceed protocol bounds"))

pub record IsRefused (made : List Invocation × Result ToolError ModelToolResult) : Type 0 where
  pub nothing : made.0 ≡ []
  pub why : ToolError
  pub refused : made.1 ≡ err why
  pub fixed : IsRefusal why

admitted_nil :
    (from_str : Text → Result Text Value)
    (invoke : Text → Text → Value → Result ToolError ModelToolResult) (call : ToolCall)
    (repeats : Bool)
    → (e : ToolError) × (admitted_arguments from_str invoke [] call repeats ≡ err e) × IsRefusal e
unfolding admitted_arguments
admitted_nil from_str invoke call true = (_, refl, repeated)
admitted_nil from_str invoke call false =
    elim (Bool-cases (is_empty call.id || ltb 64 (len call.id) || ltb 65536 (len call.arguments))) [
      | inl large ↦ (_, rw large refl, oversized)
      | inr fits ↦ (_, rw fits refl, undefined)
    ]

-- Without definitions no call is made, and the answer is one of three fixed errors.
pub validate_and_invoke_nil :
    (from_str : Text → Result Text Value)
    (invoke : Text → Text → Value → Result ToolError ModelToolResult) (call : ToolCall)
    (seen : List Text)
    → IsRefused (validate_and_invoke from_str invoke [] call seen)
unfolding validate_and_invoke invoke_admitted
validate_and_invoke_nil from_str invoke call seen =
    let (e, h, fixed) = admitted_nil from_str invoke call (mem call.id seen) in
    rw h (record { nothing = refl; why = e; refused = refl; fixed = fixed })
