-- ===== src/Protocol/Tools.antt =====
-- crates/sentia-protocol/src/tools.rs: the registry of tools, and the requests for a tool and their
-- results. A JSON value is an element of a type `V`; the number of bytes that serde_json writes for
-- it, or its failure, is a parameter.
pub mod Names
pub mod Registry
pub mod Calls
use sentia_linux.Base.{
  ℕ, Bool, true, false, ◌||◌, not, Option, List, [], ◌∷◌, ◌++◌, Text, codes, map, ◌==◌, mem,
  text_beq, Result, ok, err, ◌>>=◌, ◌>>◌, if◌then◌else◌,
}
use sentia_linux.Protocol.Errors.{
  ContractError, unsupported_version, validation_failed, contract_error, ensure,
}
use sentia_linux.Protocol.Requests.{protocol_version}
use sentia_linux.Protocol.Tools.Names.*

pub data ToolArea : Type 0 where
  commands packages services logs resources network_processes files_system : ToolArea

pub data PrivilegeClass : Type 0 where
  user elevated_broker root_broker : PrivilegeClass

pub data PrivacyClass : Type 0 where
  public_class session host_sensitive restricted secret : PrivacyClass

pub data CancellationPolicy : Type 0 where
  not_cancellable best_effort must_cancel : CancellationPolicy

pub data ToolProvenanceSource : Type 0 where
  router cli ui system_task : ToolProvenanceSource

pub record ToolProvenance : Type 0 where
  pub source : ToolProvenanceSource
  pub timestamp_ms : ℕ
  pub request_id : Option Text

pub data ToolResultStatus : Type 0 where
  success unavailable permission_denied timed_out failed cancelled : ToolResultStatus

pub data ToolEvidenceKind : Type 0 where
  command_output log json snapshot checksum : ToolEvidenceKind

pub record ToolEvidence : Type 0 where
  pub kind : ToolEvidenceKind
  pub path : Text
  pub sha256 : Option Text

pub record ToolDefinition : Type 0 where
  pub name : ToolName
  pub area : ToolArea
  pub privilege_class : PrivilegeClass
  pub privacy_class : PrivacyClass
  pub input_schema_ref : Text
  pub output_schema_ref : Text
  pub provenance_required : Bool
  pub timeout_ms : ℕ
  pub cancellation_policy : CancellationPolicy
  pub max_input_bytes : ℕ
  pub max_output_bytes : ℕ

pub record ToolRegistry : Type 0 where
  pub version : Text
  pub tools : List ToolDefinition

abbrev pub inferred_area : ToolName → ToolArea
inferred_area command_exists = commands
inferred_area command_lookup = commands
inferred_area command_help = commands
inferred_area command_history = commands
inferred_area apt_search = packages
inferred_area apt_package_info = packages
inferred_area apt_package_policy = packages
inferred_area apt_simulate_install = packages
inferred_area apt_install = packages
inferred_area apt_remove = packages
inferred_area apt_update = packages
inferred_area apt_upgrade = packages
inferred_area package_owns_file = packages
inferred_area service_list = services
inferred_area service_status = services
inferred_area service_start = services
inferred_area service_stop = services
inferred_area service_restart = services
inferred_area service_enable = services
inferred_area journal_recent = logs
inferred_area journal_errors = logs
inferred_area kernel_messages = logs
inferred_area cpu_status = resources
inferred_area memory_status = resources
inferred_area swap_status = resources
inferred_area filesystem_status = resources
inferred_area disk_status = resources
inferred_area disk_health = resources
inferred_area temperature_status = resources
inferred_area network_status = network_processes
inferred_area network_interfaces = network_processes
inferred_area listening_ports = network_processes
inferred_area process_list = network_processes
inferred_area process_details = network_processes
inferred_area process_kill = network_processes
inferred_area file_exists = files_system
inferred_area file_type = files_system
inferred_area file_permissions = files_system
inferred_area directory_contents = files_system
inferred_area disk_usage = files_system
inferred_area os_information = files_system
inferred_area hardware_information = files_system

abbrev pub inferred_privacy : ToolName → PrivacyClass
inferred_privacy command_history = session
inferred_privacy journal_recent = host_sensitive
inferred_privacy journal_errors = host_sensitive
inferred_privacy kernel_messages = host_sensitive
inferred_privacy network_status = host_sensitive
inferred_privacy network_interfaces = host_sensitive
inferred_privacy listening_ports = host_sensitive
inferred_privacy process_list = host_sensitive
inferred_privacy process_details = host_sensitive
inferred_privacy process_kill = host_sensitive
inferred_privacy file_permissions = host_sensitive
inferred_privacy directory_contents = host_sensitive
inferred_privacy disk_usage = host_sensitive
inferred_privacy hardware_information = host_sensitive
inferred_privacy disk_health = host_sensitive
inferred_privacy temperature_status = host_sensitive
inferred_privacy apt_install = restricted
inferred_privacy apt_remove = restricted
inferred_privacy apt_update = restricted
inferred_privacy apt_upgrade = restricted
inferred_privacy service_start = restricted
inferred_privacy service_stop = restricted
inferred_privacy service_restart = restricted
inferred_privacy service_enable = restricted
inferred_privacy _ = public_class

-- What `required_definition` chooses by the name.
pub record ToolProfile : Type 0 where
  pub area : ToolArea
  pub privilege_class : PrivilegeClass
  pub privacy_class : PrivacyClass
  pub timeout_ms : ℕ
  pub cancellation_policy : CancellationPolicy

abbrev pub profile : ToolArea → PrivilegeClass → PrivacyClass → ℕ → CancellationPolicy → ToolProfile
profile area privilege privacy timeout_ms policy = record {
  area = area;
  privilege_class = privilege;
  privacy_class = privacy;
  timeout_ms = timeout_ms;
  cancellation_policy = policy;
}

abbrev pub required_profile : ToolName → ToolProfile
required_profile apt_install = profile packages root_broker restricted 120000 best_effort
required_profile apt_remove = profile packages root_broker restricted 120000 best_effort
required_profile apt_update = profile packages root_broker restricted 120000 best_effort
required_profile apt_upgrade = profile packages root_broker restricted 120000 best_effort
required_profile service_start = profile services root_broker restricted 30000 best_effort
required_profile service_stop = profile services root_broker restricted 30000 best_effort
required_profile service_restart = profile services root_broker restricted 30000 best_effort
required_profile service_enable = profile services root_broker restricted 30000 best_effort
required_profile process_kill =
    profile network_processes elevated_broker host_sensitive 10000 best_effort
required_profile disk_health =
    profile (inferred_area disk_health) elevated_broker host_sensitive 10000 must_cancel
required_profile temperature_status =
    profile (inferred_area temperature_status) elevated_broker host_sensitive 10000 must_cancel
required_profile journal_recent =
    profile (inferred_area journal_recent) elevated_broker host_sensitive 10000 must_cancel
required_profile journal_errors =
    profile (inferred_area journal_errors) elevated_broker host_sensitive 10000 must_cancel
required_profile kernel_messages =
    profile (inferred_area kernel_messages) elevated_broker host_sensitive 10000 must_cancel
required_profile process_details =
    profile (inferred_area process_details) elevated_broker host_sensitive 10000 must_cancel
required_profile name = profile (inferred_area name) user (inferred_privacy name) 5000 must_cancel

abbrev pub required_definition : ToolName → ToolDefinition
required_definition name =
    let p = required_profile name in
    record {
      name = name;
      area = p.area;
      privilege_class = p.privilege_class;
      privacy_class = p.privacy_class;
      input_schema_ref = codes "schemas/tools/tool-invocation-v1.schema.json#/$defs/tool_request";
      output_schema_ref = codes "schemas/tools/tool-invocation-v1.schema.json#/$defs/tool_result";
      provenance_required = true;
      timeout_ms = p.timeout_ms;
      cancellation_policy = p.cancellation_policy;
      max_input_bytes = 65536;
      max_output_bytes = 262144;
    }

-- `ToolRegistry::required_v1`
abbrev pub required_v1 : ToolRegistry
required_v1 = record { version = protocol_version; tools = map required_definition all_tools }

abbrev pub duplicate_error : ToolName → ContractError
duplicate_error name =
    contract_error validation_failed (codes "duplicate tool registration: " ++ tool_name name) false

-- The first loop: each tool is new, and has bounds. It returns the tools that were seen.
pub check_tools : List ToolName → List ToolDefinition → Result ContractError (List ToolName)
check_tools seen [] = ok seen
check_tools seen (tool ∷ tools) =
    let rest = check_tools (tool.name ∷ seen) tools in
    if mem tool.name seen
    then err (duplicate_error tool.name)
    else if tool.max_input_bytes == 0 || tool.max_output_bytes == 0
    then err (
        contract_error validation_failed
          (codes "tool " ++ (tool_name tool.name ++ codes " has invalid payload bounds")) false)
    else rest

-- The second loop: each required tool was seen.
unfoldable pub check_required : List ToolName → List ToolName → Result ContractError (Unit {0})
check_required seen [] = ok tt
check_required seen (name ∷ names) = do
  ensure (mem name seen) validation_failed (codes "missing required tool " ++ tool_name name)
  check_required seen names

-- `ToolRegistry::validate_complete_required_set`
unfoldable pub validate_complete_required_set : ToolRegistry → Result ContractError (Unit {0})
unfolding check_tools check_required
validate_complete_required_set r = do
  ensure (text_beq r.version protocol_version) unsupported_version
      (codes "tool registry version is not sentia.v1")
  seen ← check_tools [] r.tools
  check_required seen all_tools
