-- ===== src/Router/Offers/Offered.antt =====
-- Which tools the model is offered.
use sentia_linux.Base.{◌≡◌, ◌≢◌, refl, ap, ◌∙◌, none, List, [], Text, Result}
use sentia_linux.Protocol.Tools.Names.{
  ToolName, tool_name, apt_install, apt_remove, apt_update, apt_upgrade, service_start,
  service_stop, service_restart, service_enable, journal_recent, journal_errors, kernel_messages,
  disk_health, temperature_status, process_details, process_kill,
}
use sentia_linux.Protocol.Tools.{required_definition, user}
use sentia_linux.Router.Values.{Value}
use sentia_linux.Router.Schemas.{ToolError}
use sentia_linux.Router.Tools.{ModelToolResult, ToolCall, find_definition, validate_and_invoke}
use sentia_linux.Router.Tools.Guarded.{validate_and_invoke_undefined}
use sentia_linux.Router.Offers.{safe_definitions_of, safe_tool_definitions}

-- A tool that needs a broker has no definition.
not_offered :
    (t : ToolName)
    → (required_definition t).privilege_class ≢ user
    → find_definition safe_tool_definitions (tool_name t) ≡ none
unfolding safe_tool_definitions safe_definitions_of
not_offered apt_install h = refl
not_offered apt_remove h = refl
not_offered apt_update h = refl
not_offered apt_upgrade h = refl
not_offered service_start h = refl
not_offered service_stop h = refl
not_offered service_restart h = refl
not_offered service_enable h = refl
not_offered process_kill h = refl
not_offered disk_health h = refl
not_offered temperature_status h = refl
not_offered journal_recent h = refl
not_offered journal_errors h = refl
not_offered kernel_messages h = refl
not_offered process_details h = refl
not_offered _ h = absurd (h refl)

-- With the definitions that the router offers, a call by the model of a tool that the registry gives to
-- a broker (the changes of packages, services and processes among them) never reaches the tool
-- service, whatever the call's identifier and arguments are and however the service would answer.
pub validate_and_invoke_privileged :
    (from_str : Text → Result Text Value)
    (invoke : Text → Text → Value → Result ToolError ModelToolResult) (t : ToolName)
    (call : ToolCall) (seen : List Text)
    → (required_definition t).privilege_class ≢ user
    → call.name ≡ tool_name t
    → (validate_and_invoke from_str invoke safe_tool_definitions call seen).0 ≡ []
validate_and_invoke_privileged from_str invoke t call seen h e =
    validate_and_invoke_undefined from_str invoke safe_tool_definitions call seen
      (ap (find_definition safe_tool_definitions) e ∙ not_offered t h)
