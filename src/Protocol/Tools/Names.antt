-- ===== src/Protocol/Tools/Names.antt =====
-- crates/sentia-protocol/src/tools.rs: the names of the tools, in the order of the enum, which is also
-- their derived order.
use sentia_linux.Base.{
  ℕ, Bool, true, some, List, [], ◌∷◌, Text, codes, get_elem?, ◌==◌, ◌≡◌, ◌↔◌, ap, ==_iff, Eq, arith,
}

pub data ToolName : Type 0 where
  command_exists command_lookup command_help command_history apt_search apt_package_info
        apt_package_policy apt_simulate_install apt_install apt_remove apt_update apt_upgrade
        package_owns_file service_list service_status service_start service_stop service_restart
        service_enable journal_recent journal_errors kernel_messages cpu_status memory_status
        swap_status filesystem_status disk_status disk_health temperature_status network_status
        network_interfaces listening_ports process_list process_details process_kill file_exists
        file_type file_permissions directory_contents disk_usage os_information
        hardware_information :
      ToolName

abbrev pub all_tools : List ToolName
all_tools =
    command_exists ∷ command_lookup ∷ command_help ∷ command_history ∷ apt_search ∷ apt_package_info
    ∷ apt_package_policy ∷ apt_simulate_install ∷ apt_install ∷ apt_remove ∷ apt_update
    ∷ apt_upgrade ∷ package_owns_file ∷ service_list ∷ service_status ∷ service_start ∷ service_stop
    ∷ service_restart ∷ service_enable ∷ journal_recent ∷ journal_errors ∷ kernel_messages
    ∷ cpu_status ∷ memory_status ∷ swap_status ∷ filesystem_status ∷ disk_status ∷ disk_health
    ∷ temperature_status ∷ network_status ∷ network_interfaces ∷ listening_ports ∷ process_list
    ∷ process_details ∷ process_kill ∷ file_exists ∷ file_type ∷ file_permissions
    ∷ directory_contents ∷ disk_usage ∷ os_information ∷ hardware_information ∷ []

-- `ToolName::as_str`, and its `snake_case` name in JSON.
abbrev pub tool_name : ToolName → Text
tool_name command_exists = codes "command_exists"
tool_name command_lookup = codes "command_lookup"
tool_name command_help = codes "command_help"
tool_name command_history = codes "command_history"
tool_name apt_search = codes "apt_search"
tool_name apt_package_info = codes "apt_package_info"
tool_name apt_package_policy = codes "apt_package_policy"
tool_name apt_simulate_install = codes "apt_simulate_install"
tool_name apt_install = codes "apt_install"
tool_name apt_remove = codes "apt_remove"
tool_name apt_update = codes "apt_update"
tool_name apt_upgrade = codes "apt_upgrade"
tool_name package_owns_file = codes "package_owns_file"
tool_name service_list = codes "service_list"
tool_name service_status = codes "service_status"
tool_name service_start = codes "service_start"
tool_name service_stop = codes "service_stop"
tool_name service_restart = codes "service_restart"
tool_name service_enable = codes "service_enable"
tool_name journal_recent = codes "journal_recent"
tool_name journal_errors = codes "journal_errors"
tool_name kernel_messages = codes "kernel_messages"
tool_name cpu_status = codes "cpu_status"
tool_name memory_status = codes "memory_status"
tool_name swap_status = codes "swap_status"
tool_name filesystem_status = codes "filesystem_status"
tool_name disk_status = codes "disk_status"
tool_name disk_health = codes "disk_health"
tool_name temperature_status = codes "temperature_status"
tool_name network_status = codes "network_status"
tool_name network_interfaces = codes "network_interfaces"
tool_name listening_ports = codes "listening_ports"
tool_name process_list = codes "process_list"
tool_name process_details = codes "process_details"
tool_name process_kill = codes "process_kill"
tool_name file_exists = codes "file_exists"
tool_name file_type = codes "file_type"
tool_name file_permissions = codes "file_permissions"
tool_name directory_contents = codes "directory_contents"
tool_name disk_usage = codes "disk_usage"
tool_name os_information = codes "os_information"
tool_name hardware_information = codes "hardware_information"

-- The place of a tool in the order.
abbrev pub tool_index : ToolName → ℕ
tool_index command_exists = 0
tool_index command_lookup = 1
tool_index command_help = 2
tool_index command_history = 3
tool_index apt_search = 4
tool_index apt_package_info = 5
tool_index apt_package_policy = 6
tool_index apt_simulate_install = 7
tool_index apt_install = 8
tool_index apt_remove = 9
tool_index apt_update = 10
tool_index apt_upgrade = 11
tool_index package_owns_file = 12
tool_index service_list = 13
tool_index service_status = 14
tool_index service_start = 15
tool_index service_stop = 16
tool_index service_restart = 17
tool_index service_enable = 18
tool_index journal_recent = 19
tool_index journal_errors = 20
tool_index kernel_messages = 21
tool_index cpu_status = 22
tool_index memory_status = 23
tool_index swap_status = 24
tool_index filesystem_status = 25
tool_index disk_status = 26
tool_index disk_health = 27
tool_index temperature_status = 28
tool_index network_status = 29
tool_index network_interfaces = 30
tool_index listening_ports = 31
tool_index process_list = 32
tool_index process_details = 33
tool_index process_kill = 34
tool_index file_exists = 35
tool_index file_type = 36
tool_index file_permissions = 37
tool_index directory_contents = 38
tool_index disk_usage = 39
tool_index os_information = 40
tool_index hardware_information = 41

abbrev pub tool_beq : ToolName → ToolName → Bool
tool_beq a b = tool_index a == tool_index b

get_elem?-tool_index : (t : ToolName) → get_elem? all_tools (tool_index t) ≡ some t
get_elem?-tool_index t = ground arith

tool_index-injective : (a b : ToolName) → tool_index a ≡ tool_index b → a ≡ b
tool_index-injective a b h =
    cc (get_elem?-tool_index a, get_elem?-tool_index b, ap (get_elem? all_tools) h)

pub tool_beq_iff : (a b : ToolName) → (tool_beq a b ≡ true) ↔ (a ≡ b)
tool_beq_iff a b =
    (λ h. tool_index-injective a b ((==_iff _ _).0 h), λ e. (==_iff _ _).1 (ap tool_index e))

instance abbrev pub tool_eq : Eq ToolName
tool_eq = record { beq = tool_beq; beq_iff = tool_beq_iff }
