-- ===== src/Router/Tools.antt =====
-- crates/sentia-router/src/tools.rs: the tools that the model is told of, and the guarded call of one.
-- The tool service behind `invoke_read_only` and the parser of serde_json are parameters.
pub mod Guarded
pub mod Without
use sentia_linux.Base.{
  ℕ, Bool, true, false, ◌||◌, not, Option, none, some, List, [], ◌∷◌, Text, codes, ltb, any, find,
  mem, contains, is_empty, text_beq, text_eq, to_ascii_lowercase, if◌then◌else◌, Result, ok, err,
  ◌>>=◌, ◌>>◌, reject, ok_or,
}
use sentia_linux.Protocol.Tools.{user}
use sentia_linux.Router.Redaction.{len}
use sentia_linux.Router.Values.{Value, object, get, as_str}
use sentia_linux.Router.Schemas.{
  ToolError, unknown, invalid_arguments, unavailable, failed, validate_schema,
}

abbrev pub max_tool_argument_bytes : ℕ
max_tool_argument_bytes = 65536

abbrev pub max_tool_result_bytes : ℕ
max_tool_result_bytes = 262144

pub data ToolClass : Type 0 where
  read_only action_proposal : ToolClass

pub record ModelToolDefinition : Type 0 where
  pub name : Text
  pub description : Text
  pub input_schema : Value
  pub class : ToolClass
  pub provenance : Text

pub record ModelToolResult : Type 0 where
  pub content : Text
  pub provenance : Text

-- `BrokerToolCall` of sentia-local-broker
pub record ToolCall : Type 0 where
  pub id : Text
  pub name : Text
  pub arguments : Text

abbrev pub is_read_only : ToolClass → Bool
is_read_only read_only = true
is_read_only action_proposal = false

abbrev pub forbidden_needles : List Text
forbidden_needles =
    codes "/.ssh/"
    ∷ codes "/.gnupg/"
    ∷ codes "/.aws/"
    ∷ codes "/.config/gcloud/"
    ∷ codes "/.config/gh/"
    ∷ codes "/.local/share/keyrings/"
    ∷ codes "/keyrings/"
    ∷ codes "/cookies"
    ∷ codes "/login data"
    ∷ codes "/.bash_history"
    ∷ codes "/.zsh_history"
    ∷ codes "/etc/shadow"
    ∷ codes "/etc/ssl/private/"
    ∷ []

unfoldable pub forbidden_tool_path : Text → Bool
forbidden_tool_path path = any (contains (to_ascii_lowercase path)) forbidden_needles

-- `arguments.get("path").and_then(Value::as_str)`
abbrev pub path_argument : Value → Option Text
path_argument (object fields) = as_str (get (codes "path") fields)
path_argument _ = none

pub names_forbidden : Option Text → Bool
unfolding forbidden_tool_path
names_forbidden none = false
names_forbidden (some path) = forbidden_tool_path path

-- A call that reached the tool service.
pub record Invocation : Type 0 where
  pub call_id : Text
  pub tool : Text
  pub arguments : Value

abbrev pub find_definition : List ModelToolDefinition → Text → Option ModelToolDefinition
find_definition definitions name = find (λ d. text_beq d.name name) definitions

parsed : Result Text Value → Result ToolError Value
parsed (ok v) = ok v
parsed (err e) = err (invalid_arguments e)

-- The size of the answer.
bounded_result : Result ToolError ModelToolResult → Result ToolError ModelToolResult
bounded_result (err e) = err e
bounded_result (ok result) =
    if ltb max_tool_result_bytes (len result.content)
    then err (failed (codes "tool result exceeds size limit"))
    else ok result

module _ (from_str : Text → Result Text Value)
    (invoke_read_only : Text → Text → Value → Result ToolError ModelToolResult) where
  -- Every check before the call: the arguments that are passed on.
  pub admitted_arguments : List ModelToolDefinition → ToolCall → Bool → Result ToolError Value
  unfolding parsed names_forbidden
  admitted_arguments definitions call is_duplicate = do
    reject is_duplicate (invalid_arguments (codes "duplicate tool call identifier"))
    reject
        (is_empty call.id
          || ltb 64 (len call.id)
          || ltb max_tool_argument_bytes (len call.arguments))
        (invalid_arguments (codes "tool call identifier or arguments exceed protocol bounds"))
    definition ← ok_or (find_definition definitions call.name) unknown
    reject (not (is_read_only definition.class)) (
        unavailable
          (codes "action proposals require a separate user approval through the privileged broker"))
    arguments ← parsed (from_str call.arguments)
    validate_schema definition.input_schema arguments
    reject (names_forbidden (path_argument arguments))
        (unavailable (codes "credential and private-state paths are not available to the model"))
    ok arguments

  invoke_admitted :
      ToolCall → Result ToolError Value → List Invocation × Result ToolError ModelToolResult
  unfolding bounded_result
  invoke_admitted call (err e) = ([], err e)
  invoke_admitted call (ok arguments) = (
    record { call_id = call.id; tool = call.name; arguments = arguments } ∷ [],
    bounded_result (invoke_read_only call.id call.name arguments),
  )

  -- The calls that were made, and the result; the identifier has then been seen.
  pub validate_and_invoke :
      List ModelToolDefinition
      → ToolCall
      → List Text
      → List Invocation × Result ToolError ModelToolResult
  unfolding admitted_arguments invoke_admitted
  validate_and_invoke definitions call seen =
      invoke_admitted call (admitted_arguments definitions call (mem call.id seen))
