-- ===== src/Router/Agent.antt =====
-- crates/sentia-router/src/router.rs, run_agent_loop: the rounds in which a provider answers and asks
-- for tools. What a provider does in a round is a `Round`, read in the order of the code.
pub mod Answers
pub mod Every
pub mod Rounds
use sentia_linux.Base.{
  ℕ, zero, suc, ◌+◌, Bool, true, false, Option, none, some, List, [], ◌∷◌, ◌++◌, Text, codes, map,
  if◌then◌else◌, Result, ok, err, decimal,
}
use sentia_linux.Router.Values.{Value, object, end}
use sentia_linux.Router.Schemas.{ToolError, unknown, invalid_arguments, unavailable, failed}
use sentia_linux.Router.Requests.{
  FailureKind, provider_failure, request_cancelled, unsupported_capability, process_failure,
}
use sentia_linux.Router.Tools.{
  read_only, action_proposal, ModelToolDefinition, ModelToolResult, ToolCall, find_definition,
  validate_and_invoke,
}
use sentia_linux.Router.Events.{
  progress, delta, tool_result, action_proposed, ModelMessage, ModelTool, RequestBoundary,
  ProviderRequest, ProviderChunk, progress_chunk, text_chunk, ProviderOutput, ProviderError, Effect,
  emit, ask, use_tool,
}

-- How the task of a provider ends: the request is cancelled first, the task itself fails, or it
-- returns.
pub data Outcome : Type 0 where
  stopped : Outcome
  broken : Text → Outcome
  returned : Result ProviderError ProviderOutput → Outcome

-- The chunks that are received before the end, and those that were still in the channel.
pub record Round : Type 0 where
  pub chunks : List ProviderChunk
  pub outcome : Outcome
  pub late : List ProviderChunk

abbrev pub provider_error : FailureKind → Text → Bool → ProviderError
provider_error kind message retryable = record {
  kind = kind;
  message = message;
  retryable = retryable;
  emitted_output = false;
}

abbrev pub cancelled_error : ProviderError
cancelled_error = provider_error request_cancelled (codes "request cancelled") false

abbrev pub task_failed : Text → ProviderError
task_failed e =
    provider_error (provider_failure process_failure) (codes "provider task failed: " ++ e) true

abbrev pub round_limit : ProviderError
round_limit =
    provider_error (provider_failure unsupported_capability)
      (codes "agent loop reached its configured round limit") false

-- The texts of a `ToolError`.
abbrev pub tool_error_text : ToolError → Text
tool_error_text unknown = codes "unknown tool"
tool_error_text (invalid_arguments e) = codes "tool arguments are invalid: " ++ e
tool_error_text (unavailable e) = codes "tool is unavailable: " ++ e
tool_error_text (failed e) = codes "tool invocation failed: " ++ e

abbrev pub tool_message : ToolCall → Text → ModelMessage
tool_message call content = record {
  role = codes "tool";
  content = content;
  name = some call.name;
  tool_call_id = some call.id;
  tool_calls = [];
}

abbrev pub assistant_message : List ToolCall → ModelMessage
assistant_message calls = record {
  role = codes "assistant";
  content = [];
  name = none;
  tool_call_id = none;
  tool_calls = calls;
}

abbrev pub not_executed : Text
not_executed =
    codes "Action was not executed. A separate user-authorized privileged workflow is required."

abbrev pub proposal_notice : Text
proposal_notice =
    codes
      "Proposal only. A typed plan and separate user authorization through the privileged broker are required."

abbrev pub is_proposal : Option ModelToolDefinition → Bool
is_proposal none = false
is_proposal (some d) = elim d.class [ action_proposal ↦ true | read_only ↦ false ]

abbrev pub model_schema : ModelToolDefinition → ModelTool
model_schema d = record { name = d.name; description = d.description; parameters = d.input_schema }

-- `unwrap_or(json!({}))`
abbrev pub or_empty_object : Result Text Value → Value
or_empty_object (ok v) = v
or_empty_object (err e) = object end

module _ {P : Type 0} (from_str : Text → Result Text Value)
    (invoke : Text → Text → Value → Result ToolError ModelToolResult) (provider : P)
    (request_id answer_id : Text) (definitions : List ModelToolDefinition) where
  pub chunk_effect : ProviderChunk → Effect P
  chunk_effect (progress_chunk state detail) = emit (progress request_id state detail)
  chunk_effect (text_chunk content) = emit (delta request_id answer_id content)

  -- Of the chunks left in the channel only the text is sent on.
  pub late_effects : List ProviderChunk → List (Effect P)
  late_effects [] = []
  late_effects (progress_chunk state detail ∷ chunks) = late_effects chunks
  late_effects (text_chunk content ∷ chunks) =
      emit (delta request_id answer_id content) ∷ late_effects chunks

  -- The effects of the calls of a round, the messages about them, and the identifiers seen after.
  pub record Handled : Type 0 where
    pub effects : List (Effect P)
    pub messages : List ModelMessage
    pub seen : List Text

  invoked_effects : ToolCall → Result ToolError ModelToolResult → List (Effect P)
  invoked_effects call (ok result) =
      emit (tool_result request_id call.id call.name result.provenance) ∷ []
  invoked_effects call (err e) = []

  unfoldable pub invoked_message : ToolCall → Result ToolError ModelToolResult → ModelMessage
  invoked_message call (ok result) = tool_message call result.content
  invoked_message call (err e) = tool_message call (codes "Tool unavailable: " ++ tool_error_text e)

  -- A call that is no proposal.
  handle_tool : ToolCall → List Text → Handled
  unfolding invoked_effects invoked_message
  handle_tool call seen =
      let answer = validate_and_invoke from_str invoke definitions call seen in
      record {
        effects = map (use_tool provider) answer.0 ++ invoked_effects call answer.1;
        messages = invoked_message call answer.1 ∷ [];
        seen = call.id ∷ seen;
      }

  handle_proposal : ToolCall → List Text → Handled
  handle_proposal call seen = record {
    effects =
        emit (
          action_proposed request_id call.id call.name (or_empty_object (from_str call.arguments))
            proposal_notice)
        ∷ [];
    messages = tool_message call not_executed ∷ [];
    seen = seen;
  }

  pub handle_call : ToolCall → List Text → Handled
  unfolding handle_tool handle_proposal
  handle_call call seen =
      if is_proposal (find_definition definitions call.name)
      then handle_proposal call seen
      else handle_tool call seen

  pub handle_calls : List ToolCall → List Text → Handled
  unfolding handle_call
  handle_calls [] seen = record { effects = []; messages = []; seen = seen }
  handle_calls (call ∷ calls) seen =
      let first = handle_call call seen in
      let rest = handle_calls calls first.seen in
      record {
        effects = first.effects ++ rest.effects;
        messages = first.messages ++ rest.messages;
        seen = rest.seen;
      }

  module _ (max_tokens : ℕ) (boundary : RequestBoundary) (rounds : ℕ → Round) where
    unfoldable pub provider_request : ℕ → List ModelMessage → ProviderRequest
    provider_request round messages = record {
      request_id = request_id ++ (codes "-round-" ++ decimal (round + 1));
      messages = messages;
      tools = map model_schema definitions;
      max_tokens = max_tokens;
      boundary = boundary;
    }

    -- What a round does before its outcome is known.
    pub round_effects : ℕ → List ModelMessage → List (Effect P)
    unfolding provider_request chunk_effect
    round_effects round messages =
        ask provider (provider_request round messages) ∷ map chunk_effect (rounds round).chunks

    -- An answer of the provider in the end, or after its calls the rest of the rounds.
    after_output :
        List ProviderChunk
        → ProviderOutput
        → List ToolCall
        → List ModelMessage
        → List Text
        → (List ModelMessage → List Text → List (Effect P) × Result ProviderError Text)
        → List (Effect P) × Result ProviderError Text
    unfolding late_effects handle_calls
    after_output late output [] messages seen rest = (late_effects late, ok output.finish_reason)
    after_output late output (call ∷ calls) messages seen rest =
        let handled = handle_calls (call ∷ calls) seen in
        let next =
          rest (messages ++ (assistant_message (call ∷ calls) ∷ handled.messages)) handled.seen in
        (late_effects late ++ (handled.effects ++ next.0), next.1)

    after_round :
        Outcome
        → List ProviderChunk
        → List ModelMessage
        → List Text
        → (List ModelMessage → List Text → List (Effect P) × Result ProviderError Text)
        → List (Effect P) × Result ProviderError Text
    unfolding after_output
    after_round stopped late messages seen rest = ([], err cancelled_error)
    after_round (broken e) late messages seen rest = ([], err (task_failed e))
    after_round (returned (err e)) late messages seen rest = ([], err e)
    after_round (returned (ok output)) late messages seen rest =
        after_output late output output.tool_calls messages seen rest

    pub agent_rounds :
        ℕ → ℕ → List ModelMessage → List Text → List (Effect P) × Result ProviderError Text
    unfolding round_effects after_round
    agent_rounds zero round messages seen = ([], err round_limit)
    agent_rounds (suc left) round messages seen =
        let after =
          after_round (rounds round).outcome (rounds round).late messages seen
            (agent_rounds left (round + 1)) in
        (round_effects round messages ++ after.0, after.1)

    pub run_agent_loop : ℕ → List ModelMessage → List (Effect P) × Result ProviderError Text
    unfolding agent_rounds
    run_agent_loop max_agent_rounds messages = agent_rounds max_agent_rounds 0 messages []
