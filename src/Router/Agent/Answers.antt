-- ===== src/Router/Agent/Answers.antt =====
-- The rounds of a provider keep to the answer that was started.
use sentia_linux.Base.{
  ℕ, zero, suc, ◌+◌, refl, List, [], ◌∷◌, Text, map, Result, ok, err, Bool-cases, inl, inr, text_eq,
}
use sentia_linux.Router.Values.{Value}
use sentia_linux.Router.Schemas.{ToolError}
use sentia_linux.Router.Tools.{
  ModelToolDefinition, ModelToolResult, ToolCall, Invocation, find_definition, validate_and_invoke,
}
use sentia_linux.Router.Events.{
  ModelMessage, RequestBoundary, ProviderChunk, progress_chunk, text_chunk, ProviderOutput,
  ProviderError, Effect, use_tool,
}
use sentia_linux.Router.Agent.{
  Round, Outcome, stopped, broken, returned, is_proposal, chunk_effect, late_effects,
  invoked_effects, handle_tool, handle_proposal, handle_call, handle_calls, round_effects,
  after_output, after_round, agent_rounds, run_agent_loop,
}
use sentia_linux.Router.Conversation.{answering, Stays, Leads-nil, Leads-append, Leads-delta}

module _ {P : Type 0} (from_str : Text → Result Text Value)
    (invoke : Text → Text → Value → Result ToolError ModelToolResult) (provider : P)
    (request_id a : Text) (definitions : List ModelToolDefinition) where
  chunks-Stays :
      (chunks : List ProviderChunk)
      → Stays a (map (chunk_effect from_str invoke provider request_id a definitions) chunks)
  unfolding chunk_effect
  chunks-Stays [] = Leads-nil (answering a)
  chunks-Stays (progress_chunk state detail ∷ chunks) = record {
    leads = (chunks-Stays chunks).leads;
  }
  chunks-Stays (text_chunk content ∷ chunks) = Leads-delta request_id content (chunks-Stays chunks)

  late-Stays :
      (chunks : List ProviderChunk)
      → Stays a (late_effects from_str invoke provider request_id a definitions chunks)
  unfolding late_effects
  late-Stays [] = Leads-nil (answering a)
  late-Stays (progress_chunk state detail ∷ chunks) = late-Stays chunks
  late-Stays (text_chunk content ∷ chunks) = Leads-delta request_id content (late-Stays chunks)

  tools-Stays : (made : List Invocation) → Stays a (map (use_tool provider) made)
  tools-Stays [] = Leads-nil (answering a)
  tools-Stays (i ∷ made) = record { leads = (tools-Stays made).leads }

  invoked-Stays :
      (call : ToolCall) (answer : Result ToolError ModelToolResult)
      → Stays a (invoked_effects from_str invoke provider request_id a definitions call answer)
  unfolding invoked_effects
  invoked-Stays call (ok r) = record { leads = refl }
  invoked-Stays call (err e) = Leads-nil (answering a)

  call-Stays :
      (call : ToolCall) (seen : List Text)
      → Stays a (handle_call from_str invoke provider request_id a definitions call seen).effects
  unfolding handle_call handle_tool handle_proposal
  call-Stays call seen = elim (Bool-cases (is_proposal (find_definition definitions call.name))) [
    | inl proposal ↦ rw proposal (record { leads = refl })
    | inr tool ↦
        let answer = validate_and_invoke from_str invoke definitions call seen in
        rw tool (Leads-append (tools-Stays answer.0) (invoked-Stays call answer.1))
  ]

  calls-Stays :
      (calls : List ToolCall) (seen : List Text)
      → Stays a (handle_calls from_str invoke provider request_id a definitions calls seen).effects
  unfolding handle_calls
  calls-Stays [] seen = Leads-nil (answering a)
  calls-Stays (call ∷ calls) seen = Leads-append (call-Stays call seen) (calls-Stays calls _)

  module _ (max_tokens : ℕ) (boundary : RequestBoundary) (rounds : ℕ → Round) where
    abbrev Rest : Type 0
    Rest = List ModelMessage → List Text → List (Effect P) × Result ProviderError Text

    abbrev RestStays : Rest → Type 0
    RestStays rest =
        (messages : List ModelMessage) (seen : List Text) → Stays a (rest messages seen).0

    output-Stays :
        (late : List ProviderChunk) (output : ProviderOutput) (calls : List ToolCall)
        (messages : List ModelMessage) (seen : List Text) (rest : Rest)
        → RestStays rest
        → Stays a
            (after_output from_str invoke provider request_id a definitions max_tokens boundary
              rounds late output calls messages seen rest).0
    unfolding after_output
    output-Stays late output [] messages seen rest h = late-Stays late
    output-Stays late output (call ∷ calls) messages seen rest h =
        Leads-append (late-Stays late) (Leads-append (calls-Stays (call ∷ calls) seen) (h _ _))

    round-Stays :
        (outcome : Outcome) (late : List ProviderChunk) (messages : List ModelMessage)
        (seen : List Text) (rest : Rest)
        → RestStays rest
        → Stays a
            (after_round from_str invoke provider request_id a definitions max_tokens boundary
              rounds outcome late messages seen rest).0
    unfolding after_round
    round-Stays stopped late messages seen rest h = Leads-nil (answering a)
    round-Stays (broken e) late messages seen rest h = Leads-nil (answering a)
    round-Stays (returned (err e)) late messages seen rest h = Leads-nil (answering a)
    round-Stays (returned (ok output)) late messages seen rest h =
        output-Stays late output output.tool_calls messages seen rest h

    asked-Stays :
        (round : ℕ) (messages : List ModelMessage)
        → Stays a (
            round_effects from_str invoke provider request_id a definitions max_tokens boundary
              rounds round messages)
    unfolding round_effects
    asked-Stays round messages = record { leads = (chunks-Stays (rounds round).chunks).leads }

    rounds-Stays :
        (left round : ℕ) (messages : List ModelMessage) (seen : List Text)
        → Stays a
            (agent_rounds from_str invoke provider request_id a definitions max_tokens boundary
              rounds left round messages seen).0
    unfolding agent_rounds
    rounds-Stays zero round messages seen = Leads-nil (answering a)
    rounds-Stays (suc left) round messages seen = Leads-append (asked-Stays round messages) (
        round-Stays (rounds round).outcome (rounds round).late messages seen
          (agent_rounds from_str invoke provider request_id a definitions max_tokens boundary rounds
            left (round + 1))
          (rounds-Stays left (round + 1)))

    pub run_agent_loop-Stays :
        (max : ℕ) (messages : List ModelMessage)
        → Stays a
            (run_agent_loop from_str invoke provider request_id a definitions max_tokens boundary
              rounds max messages).0
    unfolding run_agent_loop
    run_agent_loop-Stays max messages = rounds-Stays max 0 messages []
