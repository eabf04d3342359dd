-- ===== src/Router/Tests/Chats.antt =====
-- Chats and tool calls at work: a remote provider that fails, the local one that answers with a tool.
use sentia_linux.Base.{
  ℕ, ◌≤◌, ◌*◌, ◌≡◌, ◌≢◌, refl, Bool, true, false, none, some, List, [], ◌∷◌, Text, codes, ◌==◌,
  if◌then◌else◌, text_beq, Result, ok, err,
}
use sentia_linux.Protocol.Errors.{ProviderStatus, healthy, idle}
use sentia_linux.Protocol.Tools.{required_definition, user}
use sentia_linux.Protocol.Tools.Names.{apt_install}
use sentia_linux.Router.Breakers.{new_breakers}
use sentia_linux.Router.Requests.{provider_failure, timed_out}
use sentia_linux.Router.Values.{Value, object, end}
use sentia_linux.Router.Schemas.{ToolError}
use sentia_linux.Router.Tools.{ModelToolResult, ToolCall, validate_and_invoke, forbidden_tool_path}
use sentia_linux.Router.Tools.Guarded.{IsGuardedCall, validate_and_invoke-IsGuardedCall}
use sentia_linux.Router.Offers.{safe_tool_definitions}
use sentia_linux.Router.Offers.Offered.{validate_and_invoke_privileged}
use sentia_linux.Router.Events.{text_chunk, Effect}
use sentia_linux.Router.Conversation.{fresh, closed, follow}
use sentia_linux.Router.Agent.{Round, returned, provider_error}
use sentia_linux.Router.Agent.Rounds.{asks}
use sentia_linux.Router.Attempts.{Attempt, ChatConfig}
use sentia_linux.Router.Chat.{RouterState, chat}
use sentia_linux.Router.Chat.Course.{chat-closed}
use sentia_linux.Router.Chat.Bounds.{asks-chat-le}
use sentia_linux.Router.Settings.{
  other, SettingsPatch, SettingsStore, default_settings, WriteAnswers, update,
}
use sentia_linux.Router.Settings.Kept.{IsUpdated, update-IsUpdated}
use sentia_linux.Router.Tests.{mint, guard, request, settings, registry}

abbrev provider_name : ℕ → Text
provider_name p = if p == 0 then codes "local" else codes "acme"

abbrev is_local : ℕ → Bool
is_local p = p == 0

-- The only text of arguments that parses is the empty object.
abbrev parse : Text → Result Text Value
parse s = if text_beq s (codes "{}") then ok (object end) else err (codes "unexpected")

abbrev invoke : Text → Text → Value → Result ToolError ModelToolResult
invoke id name arguments = ok (record { content = codes "busy"; provenance = codes "sentia-tools" })

abbrev config : ChatConfig
config = record { max_agent_rounds = 3; max_generation_tokens = 1000; process_id = 7 }

abbrev status : ProviderStatus
status = record {
  provider_id = codes "p";
  health = healthy;
  state = idle;
  checked_at_ms = 1;
  message = none;
  observed_latency_ms = none;
}

abbrev cpu_call : ToolCall
cpu_call = record { id = codes "c1"; name = codes "cpu_status"; arguments = codes "{}" }

abbrev local_rounds : ℕ → Round
local_rounds round =
    if round == 0
    then record {
      chunks = text_chunk (codes "let me see") ∷ [];
      outcome =
          returned (ok (record { finish_reason = codes "tool_calls"; tool_calls = cpu_call ∷ [] }));
      late = [];
    }
    else record {
      chunks = [];
      outcome = returned (ok (record { finish_reason = codes "stop"; tool_calls = [] }));
      late = text_chunk (codes "it is busy") ∷ [];
    }

abbrev remote_rounds : ℕ → Round
remote_rounds round = record {
  chunks = text_chunk (codes "well") ∷ [];
  outcome = returned (err (provider_error (provider_failure timed_out) (codes "late") true));
  late = [];
}

abbrev attempts : ℕ → Attempt
attempts turn = record {
  is_cancelled = false;
  allowed_at = 1;
  health = status;
  unhealthy_at = 2;
  serving_status = status;
  rounds = if turn == 0 then remote_rounds else local_rounds;
  failed_at = 3;
}

abbrev state :
    RouterState provider_name is_local parse invoke safe_tool_definitions config request attempts
state = record { breakers = new_breakers 2 60; consents = guard; answer_sequence = 1 }

abbrev made : List (Effect ℕ)
made =
    (chat provider_name is_local parse invoke safe_tool_definitions config request attempts mint
      registry settings 2000 state).1

chat-closed_example : follow (some fresh) made ≡ some closed
chat-closed_example =
    chat-closed provider_name is_local parse invoke safe_tool_definitions config request attempts
      mint registry settings 2000 state

asks-chat-le_example : asks made ≤ 2 * 3
asks-chat-le_example =
    asks-chat-le provider_name is_local parse invoke safe_tool_definitions config request attempts
      mint registry settings 2000 state

validate_and_invoke-IsGuardedCall_example :
    IsGuardedCall parse invoke safe_tool_definitions cpu_call []
      (validate_and_invoke parse invoke safe_tool_definitions cpu_call [])
validate_and_invoke-IsGuardedCall_example =
    validate_and_invoke-IsGuardedCall parse invoke safe_tool_definitions cpu_call []

abbrev install_call : ToolCall
install_call = record { id = codes "c2"; name = codes "apt_install"; arguments = codes "{}" }

install_is_privileged : (required_definition apt_install).privilege_class ≢ user
install_is_privileged e = cc

validate_and_invoke_privileged_example :
    (validate_and_invoke parse invoke safe_tool_definitions install_call []).0 ≡ []
validate_and_invoke_privileged_example =
    validate_and_invoke_privileged parse invoke apt_install install_call [] install_is_privileged
      refl

-- A directory of credentials passes where its entries do not.
ssh_directory_passes : forbidden_tool_path (codes "/home/alice/.ssh") ≡ false
unfolding forbidden_tool_path
ssh_directory_passes = refl

ssh_key_refused : forbidden_tool_path (codes "/home/alice/.ssh/id_ed25519") ≡ true
unfolding forbidden_tool_path
ssh_key_refused = refl

abbrev stored_settings : SettingsStore
stored_settings = record { path = true; value = default_settings; file = none }

abbrev patch : SettingsPatch
patch = record {
  default_policy = none;
  preferred_remote_provider = some (some (codes " acme "));
  remote_categories = none;
}

abbrev writes : WriteAnswers
writes = record {
  has_parent = true;
  is_parent_symlink = ok false;
  directory = ok tt;
  is_symlink = ok false;
  temporary = ok tt;
  renamed = ok tt;
  sealed = err (other (codes "read-only file system"));
}

update-IsUpdated_example :
    IsUpdated (codes "sentia.v1") stored_settings (update writes stored_settings patch)
update-IsUpdated_example =
    update-IsUpdated (codes "sentia.v1") writes stored_settings patch ((refl, tt), tt)
