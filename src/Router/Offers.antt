-- ===== src/Router/Offers.antt =====
-- crates/sentia-router/src/tools.rs, safe_tool_definitions: the tools of the registry that the model
-- is told of.
pub mod Offered
use sentia_linux.Base.{
  Bool, true, false, Option, none, some, List, [], ◌∷◌, ◌++◌, Text, codes, text_eq, if◌then◌else◌,
}
use sentia_linux.Protocol.Tools.Names.{
  ToolName, tool_name, command_exists, command_lookup, command_help, apt_search, apt_package_info,
  apt_package_policy, apt_simulate_install, service_list, service_status, cpu_status, memory_status,
  swap_status, filesystem_status, network_status, network_interfaces, listening_ports, process_list,
  file_exists, file_type, file_permissions, directory_contents, disk_usage, os_information,
  hardware_information,
}
use sentia_linux.Protocol.Tools.{ToolDefinition, required_v1, PrivilegeClass, user}
use sentia_linux.Router.Values.{Value, end, field, nil, item, object, text, boolean, natural, array}
use sentia_linux.Router.Tools.{ModelToolDefinition, read_only}

abbrev pub no_args : Value
no_args = object (
    field (codes "type") (text (codes "object")) (
      field (codes "properties") (object end)
        (field (codes "additionalProperties") (boolean false) end)))

abbrev pub string_arg : Text → Value
string_arg argument = object (
    field (codes "type") (text (codes "object")) (
      field (codes "properties")
        (object (
          field argument
            (object (
              field (codes "type") (text (codes "string"))
                (field (codes "maxLength") (natural 4096) end)))
            end))
        (field (codes "required") (array (item (text argument) nil))
          (field (codes "additionalProperties") (boolean false) end))))

abbrev pub safe_model_schema : ToolName → Option (Text × Value)
safe_model_schema command_exists =
    some (codes "Check whether a command exists", string_arg (codes "command"))
safe_model_schema command_lookup =
    some (codes "Look up commands by name", string_arg (codes "query"))
safe_model_schema command_help =
    some (codes "Read installed command help", string_arg (codes "command"))
safe_model_schema apt_search = some (codes "Search available packages", string_arg (codes "query"))
safe_model_schema apt_package_info =
    some (codes "Read package metadata", string_arg (codes "package"))
safe_model_schema apt_package_policy =
    some (codes "Read package installation policy", string_arg (codes "package"))
safe_model_schema apt_simulate_install = some (
  codes "Simulate a package installation without changing the system",
  string_arg (codes "package"),
)
safe_model_schema service_list = some (codes "List system services", no_args)
safe_model_schema service_status = some (codes "Read service status", string_arg (codes "unit"))
safe_model_schema cpu_status = some (codes "Read CPU status", no_args)
safe_model_schema memory_status = some (codes "Read memory status", no_args)
safe_model_schema swap_status = some (codes "Read swap status", no_args)
safe_model_schema filesystem_status = some (codes "Read filesystem capacity status", no_args)
safe_model_schema network_status = some (codes "Read local network status", no_args)
safe_model_schema network_interfaces = some (codes "List local network interfaces", no_args)
safe_model_schema listening_ports = some (codes "List listening local ports", no_args)
safe_model_schema process_list = some (codes "List running processes", no_args)
safe_model_schema file_exists =
    some (codes "Check whether a local path exists", string_arg (codes "path"))
safe_model_schema file_type = some (codes "Read a local path type", string_arg (codes "path"))
safe_model_schema file_permissions =
    some (codes "Read local path permissions", string_arg (codes "path"))
safe_model_schema directory_contents =
    some (codes "List a local directory without modifying it", string_arg (codes "path"))
safe_model_schema disk_usage =
    some (codes "Read disk usage for a local path", string_arg (codes "path"))
safe_model_schema os_information = some (codes "Read operating system information", no_args)
safe_model_schema hardware_information = some (codes "Read bounded hardware information", no_args)
safe_model_schema _ = none

abbrev is_user : PrivilegeClass → Bool
is_user user = true
is_user _ = false

abbrev model_definition : ToolName → Text × Value → ModelToolDefinition
model_definition name (description, schema) = record {
  name = tool_name name;
  description = description;
  input_schema = schema;
  class = read_only;
  provenance = codes "sentia-tools:" ++ tool_name name;
}

abbrev offer :
    ToolName → Option (Text × Value) → List ModelToolDefinition → List ModelToolDefinition
offer name none rest = rest
offer name (some schema) rest = model_definition name schema ∷ rest

-- `filter` and `filter_map` over the registry.
pub safe_definitions_of : List ToolDefinition → List ModelToolDefinition
safe_definitions_of [] = []
safe_definitions_of (tool ∷ tools) =
    let rest = safe_definitions_of tools in
    if is_user tool.privilege_class
    then offer tool.name (safe_model_schema tool.name) rest
    else rest

pub safe_tool_definitions : List ModelToolDefinition
unfolding safe_definitions_of
safe_tool_definitions = safe_definitions_of required_v1.tools
