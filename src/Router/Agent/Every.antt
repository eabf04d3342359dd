-- ===== src/Router/Agent/Every.antt =====
-- What holds of every effect of the rounds: an induction over them.
use sentia_linux.Base.{
  ℕ, zero, suc, ◌+◌, ◌≡◌, refl, sym, subst, true, List, [], ◌∷◌, ◌++◌, Text, map, All, All-append,
  append_assoc, append-nil, Result, ok, err, Bool-cases, inl, inr,
}
use sentia_linux.Router.Values.{Value}
use sentia_linux.Router.Schemas.{ToolError}
use sentia_linux.Router.Tools.{
  ModelToolDefinition, ModelToolResult, ToolCall, find_definition, validate_and_invoke,
}
use sentia_linux.Router.Events.{
  InternalEvent, ModelMessage, RequestBoundary, ProviderChunk, progress_chunk, text_chunk,
  ProviderOutput, ProviderError, Effect, emit, ask, use_tool,
}
use sentia_linux.Router.Agent.{
  Round, Outcome, stopped, broken, returned, is_proposal, assistant_message, tool_message,
  not_executed, chunk_effect, late_effects, invoked_effects, invoked_message, handle_tool,
  handle_proposal, handle_call, handle_calls, provider_request, round_effects, after_output,
  after_round, agent_rounds, run_agent_loop,
}

-- The calls that the provider has made in one of its rounds.
pub record IsOwn (rounds : ℕ → Round) (calls : List ToolCall) : Type 0 where
  pub round : ℕ
  pub output : ProviderOutput
  pub came : (rounds round).outcome ≡ returned (ok output)
  pub made : output.tool_calls ≡ calls

-- A call that the provider has made.
pub record IsOwnCall (rounds : ℕ → Round) (call : ToolCall) : Type 0 where
  pub earlier : List ToolCall
  pub later : List ToolCall
  pub own : IsOwn rounds (earlier ++ (call ∷ later))

module _ {P : Type 0} (from_str : Text → Result Text Value)
    (invoke : Text → Text → Value → Result ToolError ModelToolResult) (provider : P)
    (request_id a : Text) (definitions : List ModelToolDefinition) (max_tokens : ℕ)
    (boundary : RequestBoundary) (rounds : ℕ → Round) (base : List ModelMessage)
    (Q : Effect P → Type 0) (M : ModelMessage → Type 0) where
  -- Every event is fine, and a request is if its messages are: those that the provider was given at
  -- first, and later ones, each fine; a call is fine in its effects and in its message.
  pub record IsStable : Type 0 where
    pub emits : (e : InternalEvent) → Q (emit e)
    pub asks :
        (round : ℕ) (later : List ModelMessage)
        → All M later
        → Q (
            ask provider (
              provider_request from_str invoke provider request_id a definitions max_tokens boundary
                rounds round
                (base ++ later)))
    pub calls : (calls : List ToolCall) → IsOwn rounds calls → M (assistant_message calls)
    pub proposals :
        (call : ToolCall)
        → IsOwnCall rounds call
        → is_proposal (find_definition definitions call.name) ≡ true
        → M (tool_message call not_executed)
    pub tools :
        (call : ToolCall) (seen : List Text)
        → All Q
            (map (use_tool provider) (validate_and_invoke from_str invoke definitions call seen).0)
    pub answers :
        (call : ToolCall) (seen : List Text)
        → IsOwnCall rounds call
        → M (
            invoked_message from_str invoke provider request_id a definitions call
              (validate_and_invoke from_str invoke definitions call seen).1)

  module _ (st : IsStable) where
    chunks-All :
        (chunks : List ProviderChunk)
        → All Q (map (chunk_effect from_str invoke provider request_id a definitions) chunks)
    unfolding chunk_effect
    chunks-All [] = tt
    chunks-All (progress_chunk state detail ∷ chunks) = (st.emits _, chunks-All chunks)
    chunks-All (text_chunk content ∷ chunks) = (st.emits _, chunks-All chunks)

    late-All :
        (chunks : List ProviderChunk)
        → All Q (late_effects from_str invoke provider request_id a definitions chunks)
    unfolding late_effects
    late-All [] = tt
    late-All (progress_chunk state detail ∷ chunks) = late-All chunks
    late-All (text_chunk content ∷ chunks) = (st.emits _, late-All chunks)

    invoked-All :
        (call : ToolCall) (answer : Result ToolError ModelToolResult)
        → All Q (invoked_effects from_str invoke provider request_id a definitions call answer)
    unfolding invoked_effects
    invoked-All call (ok r) = (st.emits _, tt)
    invoked-All call (err e) = tt

    call-All :
        (call : ToolCall) (seen : List Text)
        → IsOwnCall rounds call
        → All Q (handle_call from_str invoke provider request_id a definitions call seen).effects
          × All M (handle_call from_str invoke provider request_id a definitions call seen).messages
    unfolding handle_call handle_tool handle_proposal
    call-All call seen own =
        elim (Bool-cases (is_proposal (find_definition definitions call.name))) [
          | inl proposal ↦ rw proposal ((st.emits _, tt), (st.proposals call own proposal, tt))
          | inr tool ↦
              let answer = validate_and_invoke from_str invoke definitions call seen in
              rw tool (
                All-append Q (map (use_tool provider) answer.0) _ (st.tools call seen)
                    (invoked-All call answer.1),
                (st.answers call seen own, tt),
              )
        ]

    calls-All :
        (earlier calls : List ToolCall) (seen : List Text)
        → IsOwn rounds (earlier ++ calls)
        → All Q (handle_calls from_str invoke provider request_id a definitions calls seen).effects
          × All M
              (handle_calls from_str invoke provider request_id a definitions calls seen).messages
    unfolding handle_calls
    calls-All earlier [] seen own = (tt, tt)
    calls-All earlier (call ∷ calls) seen own =
        let first = handle_call from_str invoke provider request_id a definitions call seen in
        let (e, m) = call-All call seen (record { earlier = earlier; later = calls; own = own }) in
        let (es, ms) =
          calls-All (earlier ++ (call ∷ [])) calls first.seen
            (subst (IsOwn rounds) (sym (append_assoc earlier (call ∷ []) calls)) own) in
        (All-append Q first.effects _ e es, All-append M first.messages _ m ms)

    abbrev Rest : Type 0
    Rest = List ModelMessage → List Text → List (Effect P) × Result ProviderError Text

    abbrev RestAll : Rest → Type 0
    RestAll rest =
        (later : List ModelMessage) (seen : List Text)
        → All M later
        → All Q (rest (base ++ later) seen).0

    output-All :
        (late : List ProviderChunk) (output : ProviderOutput) (calls : List ToolCall)
        (later : List ModelMessage) (seen : List Text) (rest : Rest)
        → IsOwn rounds calls
        → All M later
        → RestAll rest
        → All Q
            (after_output from_str invoke provider request_id a definitions max_tokens boundary
              rounds late output calls
              (base ++ later)
              seen
              rest).0
    unfolding after_output
    output-All late output [] later seen rest own m h = late-All late
    output-All late output (call ∷ calls) later seen rest own m h =
        let handled =
          handle_calls from_str invoke provider request_id a definitions (call ∷ calls) seen in
        let (es, ms) = calls-All [] (call ∷ calls) seen own in
        let more = assistant_message (call ∷ calls) ∷ handled.messages in
        All-append Q (late_effects from_str invoke provider request_id a definitions late) _
          (late-All late)
          (All-append Q handled.effects _ es (
            subst (λ ms. All Q (rest ms handled.seen).0) (sym (append_assoc base later more))
              (h (later ++ more) handled.seen
                (All-append M later more m (st.calls (call ∷ calls) own, ms)))))

    round-All :
        (round : ℕ) (outcome : Outcome) (late : List ProviderChunk) (later : List ModelMessage)
        (seen : List Text) (rest : Rest)
        → (rounds round).outcome ≡ outcome
        → All M later
        → RestAll rest
        → All Q
            (after_round from_str invoke provider request_id a definitions max_tokens boundary
              rounds outcome late
              (base ++ later)
              seen
              rest).0
    unfolding after_round
    round-All round stopped late later seen rest e m h = tt
    round-All round (broken failure) late later seen rest e m h = tt
    round-All round (returned (err failure)) late later seen rest e m h = tt
    round-All round (returned (ok output)) late later seen rest e m h =
        output-All late output output.tool_calls later seen rest
          (record { round = round; output = output; came = e; made = refl }) m h

    rounds-All :
        (left round : ℕ) (later : List ModelMessage) (seen : List Text)
        → All M later
        → All Q
            (agent_rounds from_str invoke provider request_id a definitions max_tokens boundary
              rounds left round
              (base ++ later)
              seen).0
    unfolding agent_rounds round_effects
    rounds-All zero round later seen m = tt
    rounds-All (suc left) round later seen m = (
      st.asks round later m,
      All-append Q
          (map (chunk_effect from_str invoke provider request_id a definitions)
            (rounds round).chunks)
          _ (chunks-All (rounds round).chunks)
          (round-All round (rounds round).outcome (rounds round).late later seen
            (agent_rounds from_str invoke provider request_id a definitions max_tokens boundary
              rounds left (round + 1))
            refl m (rounds-All left (round + 1))),
    )

    pub run_agent_loop-All :
        (max : ℕ)
        → All Q
            (run_agent_loop from_str invoke provider request_id a definitions max_tokens boundary
              rounds max base).0
    unfolding run_agent_loop
    run_agent_loop-All max =
        subst
          (λ ms.
            All Q
              (agent_rounds from_str invoke provider request_id a definitions max_tokens boundary
                rounds max 0 ms []).0)
          (append-nil base) (rounds-All max 0 [] [] tt)
