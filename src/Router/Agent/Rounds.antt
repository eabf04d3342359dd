-- ===== src/Router/Agent/Rounds.antt =====
-- How often the rounds ask their provider.
use sentia_linux.Base.{
  ℕ, zero, suc, ◌+◌, ◌≤◌, ◌≡◌, refl, ◌∙◌, List, [], ◌∷◌, ◌++◌, Text, arith, map, Result, ok, err,
  Bool-cases, inl, inr,
}
use sentia_linux.Router.Values.{Value}
use sentia_linux.Router.Schemas.{ToolError}
use sentia_linux.Router.Tools.{
  ModelToolDefinition, ModelToolResult, ToolCall, Invocation, find_definition, validate_and_invoke,
}
use sentia_linux.Router.Events.{
  ModelMessage, RequestBoundary, ProviderChunk, progress_chunk, text_chunk, ProviderOutput,
  ProviderError, Effect, emit, ask, use_tool,
}
use sentia_linux.Router.Agent.{
  Round, Outcome, stopped, broken, returned, is_proposal, assistant_message, chunk_effect,
  late_effects, invoked_effects, handle_tool, handle_proposal, handle_call, handle_calls,
  round_effects, after_output, after_round, agent_rounds, run_agent_loop,
}

-- The number of requests to providers.
abbrev pub asks : {P : Type 0} → List (Effect P) → ℕ
asks [] = 0
asks (emit e ∷ effects) = asks effects
asks (ask p r ∷ effects) = suc (asks effects)
asks (use_tool p i ∷ effects) = asks effects

pub asks-append : {P : Type 0} (xs ys : List (Effect P)) → asks (xs ++ ys) ≡ asks xs + asks ys
asks-append [] ys = omega arith
asks-append (emit e ∷ xs) ys = asks-append xs ys
asks-append (ask p r ∷ xs) ys = omega (arith, asks-append xs ys)
asks-append (use_tool p i ∷ xs) ys = asks-append xs ys

module _ {P : Type 0} (from_str : Text → Result Text Value)
    (invoke : Text → Text → Value → Result ToolError ModelToolResult) (provider : P)
    (request_id a : Text) (definitions : List ModelToolDefinition) where
  asks-chunks :
      (chunks : List ProviderChunk)
      → asks (map (chunk_effect from_str invoke provider request_id a definitions) chunks) ≡ 0
  unfolding chunk_effect
  asks-chunks [] = refl
  asks-chunks (progress_chunk state detail ∷ chunks) = asks-chunks chunks
  asks-chunks (text_chunk content ∷ chunks) = asks-chunks chunks

  asks-late :
      (chunks : List ProviderChunk)
      → asks (late_effects from_str invoke provider request_id a definitions chunks) ≡ 0
  unfolding late_effects
  asks-late [] = refl
  asks-late (progress_chunk state detail ∷ chunks) = asks-late chunks
  asks-late (text_chunk content ∷ chunks) = asks-late chunks

  asks-tools : (made : List Invocation) → asks (map (use_tool provider) made) ≡ 0
  asks-tools [] = refl
  asks-tools (i ∷ made) = asks-tools made

  asks-invoked :
      (call : ToolCall) (answer : Result ToolError ModelToolResult)
      → asks (invoked_effects from_str invoke provider request_id a definitions call answer) ≡ 0
  unfolding invoked_effects
  asks-invoked call (ok r) = refl
  asks-invoked call (err e) = refl

  asks-call :
      (call : ToolCall) (seen : List Text)
      → asks (handle_call from_str invoke provider request_id a definitions call seen).effects ≡ 0
  unfolding handle_call handle_tool handle_proposal
  asks-call call seen = elim (Bool-cases (is_proposal (find_definition definitions call.name))) [
    | inl proposal ↦ rw proposal refl
    | inr tool ↦
        let answer = validate_and_invoke from_str invoke definitions call seen in
        rw tool (
          asks-append (map (use_tool provider) answer.0) _
          ∙ omega (arith, asks-tools answer.0, asks-invoked call answer.1))
  ]

  asks-calls :
      (calls : List ToolCall) (seen : List Text)
      → asks (handle_calls from_str invoke provider request_id a definitions calls seen).effects ≡ 0
  unfolding handle_calls
  asks-calls [] seen = refl
  asks-calls (call ∷ calls) seen =
      let first = handle_call from_str invoke provider request_id a definitions call seen in
      asks-append first.effects _ ∙ omega (arith, asks-call call seen, asks-calls calls first.seen)

  module _ (max_tokens : ℕ) (boundary : RequestBoundary) (rounds : ℕ → Round) where
    abbrev Rest : Type 0
    Rest = List ModelMessage → List Text → List (Effect P) × Result ProviderError Text

    abbrev AtMost : ℕ → Rest → Type 0
    AtMost n rest =
        (messages : List ModelMessage) (seen : List Text) → asks (rest messages seen).0 ≤ n

    asks-output :
        (n : ℕ) (late : List ProviderChunk) (output : ProviderOutput) (calls : List ToolCall)
        (messages : List ModelMessage) (seen : List Text) (rest : Rest)
        → AtMost n rest
        → asks
            (after_output from_str invoke provider request_id a definitions max_tokens boundary
              rounds late output calls messages seen rest).0
          ≤ n
    unfolding after_output
    asks-output n late output [] messages seen rest h = omega (arith, asks-late late)
    asks-output n late output (call ∷ calls) messages seen rest h =
        let handled =
          handle_calls from_str invoke provider request_id a definitions (call ∷ calls) seen in
        let next =
          h (messages ++ (assistant_message (call ∷ calls) ∷ handled.messages)) handled.seen in
        omega (
          arith,
          asks-append (late_effects from_str invoke provider request_id a definitions late) _,
          asks-append handled.effects _,
          asks-late late,
          asks-calls (call ∷ calls) seen,
          next,
        )

    asks-round :
        (n : ℕ) (outcome : Outcome) (late : List ProviderChunk) (messages : List ModelMessage)
        (seen : List Text) (rest : Rest)
        → AtMost n rest
        → asks
            (after_round from_str invoke provider request_id a definitions max_tokens boundary
              rounds outcome late messages seen rest).0
          ≤ n
    unfolding after_round
    asks-round n stopped late messages seen rest h = omega arith
    asks-round n (broken e) late messages seen rest h = omega arith
    asks-round n (returned (err e)) late messages seen rest h = omega arith
    asks-round n (returned (ok output)) late messages seen rest h =
        asks-output n late output output.tool_calls messages seen rest h

    asks-rounds :
        (left round : ℕ) (messages : List ModelMessage) (seen : List Text)
        → asks
            (agent_rounds from_str invoke provider request_id a definitions max_tokens boundary
              rounds left round messages seen).0
          ≤ left
    unfolding agent_rounds round_effects
    asks-rounds zero round messages seen = omega arith
    asks-rounds (suc left) round messages seen = omega (
      arith,
      asks-append
          (map (chunk_effect from_str invoke provider request_id a definitions)
            (rounds round).chunks)
          _,
      asks-chunks (rounds round).chunks,
      asks-round left (rounds round).outcome (rounds round).late messages seen
          (agent_rounds from_str invoke provider request_id a definitions max_tokens boundary rounds
            left (round + 1))
          (asks-rounds left (round + 1)),
    )

    pub asks-run_agent_loop-le :
        (max : ℕ) (messages : List ModelMessage)
        → asks
            (run_agent_loop from_str invoke provider request_id a definitions max_tokens boundary
              rounds max messages).0
          ≤ max
    unfolding run_agent_loop
    asks-run_agent_loop-le max messages = asks-rounds max 0 messages []
