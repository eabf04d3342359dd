-- ===== src/Router/Chat/Private.antt =====
-- What a chat tells a remote provider: only what the privacy boundary lets through.
use sentia_linux.Base.{
  length, ℕ, ◌≡◌, Bool, true, false, Option, some, List, [], ◌∷◌, ◌++◌, Text, codes, All, Result,
  ok,
}
use sentia_linux.Router.Privacy.{Mint, ConsentState, SanitizedPayload}
use sentia_linux.Router.Values.{Value}
use sentia_linux.Router.Schemas.{ToolError}
use sentia_linux.Router.Tools.{
  ModelToolDefinition, ModelToolResult, ToolCall, Invocation, read_only, find_definition,
  path_argument,
}
use sentia_linux.Router.Tools.Guarded.{NamesNone}
use sentia_linux.Router.Tools.Without.{IsRefusal}
use sentia_linux.Router.Requests.{ChatInput, UserSettings, bound_tokens}
use sentia_linux.Router.Route.{ProviderRegistry, RouteCandidate, RoutePlan, candidate, build_route}
use sentia_linux.Router.Route.Boundary.{IsAllowed}
use sentia_linux.Router.Events.{
  ModelMessage, ProviderRequest, sanitized_remote, Effect, emit, ask, use_tool,
}
use sentia_linux.Router.Messages.{build_messages}
use sentia_linux.Router.Agent.{
  Round, run_agent_loop, assistant_message, tool_message, tool_error_text,
}
use sentia_linux.Router.Agent.Every.{IsOwn, IsOwnCall}
use sentia_linux.Router.Attempts.{Attempt, ChatConfig}
use sentia_linux.Router.Chat.{routed}
use sentia_linux.Router.Candidates.{boundary_of}

-- A message that tells a provider nothing but what it said itself in its rounds, and that a call of
-- its own was refused.
pub data IsEcho (rounds : ℕ → Round) : ModelMessage → Type 0 where
  own_calls : (calls : List ToolCall) → IsOwn rounds calls → IsEcho rounds (assistant_message calls)
  refusal :
      (call : ToolCall) (e : ToolError)
      → IsOwnCall rounds call
      → IsRefusal e
      → IsEcho rounds (tool_message call (codes "Tool unavailable: " ++ tool_error_text e))

module _ {P : Type 0} (name : P → Text) (is_local_provider : P → Bool)
    (from_str : Text → Result Text Value)
    (invoke : Text → Text → Value → Result ToolError ModelToolResult)
    (tools : List ModelToolDefinition) (config : ChatConfig) (request : ChatInput)
    (attempts : ℕ → Attempt) (m : Mint) (registry : ProviderRegistry P) (settings : UserSettings)
    (now : ℕ) (consents : ConsentState) where
  abbrev Allowed : RouteCandidate P → Type 0
  Allowed =
      IsAllowed P m consents registry request settings config.max_generation_tokens now
        request.policy

  -- The candidate is the one of the chat's route that has this turn.
  pub record IsPlanned (turn : ℕ) (c : RouteCandidate P) : Type 0 where
    pub plan : RoutePlan P
    pub planned :
        (build_route P m consents registry request settings config.max_generation_tokens now).1
        ≡ ok plan
    pub earlier : List (RouteCandidate P)
    pub further : List (RouteCandidate P)
    pub in_turn : plan.candidates ≡ earlier ++ (c ∷ further)
    pub turns : length earlier ≡ turn

  -- What a request to a remote provider holds.
  pub record IsDisclosed (p : P) (r : ProviderRequest) : Type 0 where
    pub payload : SanitizedPayload
    pub turn : ℕ
    pub routed : IsPlanned turn (candidate P p (some payload))
    pub allowed : Allowed (candidate P p (some payload))
    pub boundary : r.boundary ≡ sanitized_remote (m.digest payload)
    pub later : List ModelMessage
    pub messages : r.messages ≡ build_messages (some payload) request ++ later
    pub echoes : All (IsEcho (attempts turn).rounds) later
    pub untooled : r.tools ≡ []

  -- A call of a tool that only reads, whose path holds no forbidden fragment.
  abbrev pub IsHarmless : Invocation → Type 0
  IsHarmless i =
      (d : ModelToolDefinition) × (find_definition tools i.tool ≡ some d)
      × (d.class ≡ read_only)
      × NamesNone (path_argument i.arguments)

  abbrev pub IsPermitted : Effect P → Type 0
  IsPermitted (emit e) = Unit {0}
  IsPermitted (ask p r) = is_local_provider p ≡ false → IsDisclosed p r
  IsPermitted (use_tool p i) = (is_local_provider p ≡ true) × IsHarmless i

  -- The local provider is known as such.
  abbrev pub Agrees : Type 0
  Agrees = (p : P) → registry.local ≡ some p → is_local_provider p ≡ true

  -- The run of a provider with a payload and its definitions.
  abbrev RunOf :
      RouteCandidate P → ℕ → Text → List ModelToolDefinition → Option SanitizedPayload → Type 0
  RunOf c turn answer ds payload =
      All IsPermitted
        (run_agent_loop from_str invoke c.provider request.request_id answer ds
          (bound_tokens config.max_generation_tokens request.max_tokens)
          (boundary_of name is_local_provider from_str invoke tools config request attempts payload
            m.digest)
          (attempts turn).rounds config.max_agent_rounds (build_messages payload request)).0

  -- A candidate of the route in its turn, which is allowed.
  abbrev Good : ℕ → RouteCandidate P → Type 0
  Good turn c = IsPlanned turn c × Allowed c
