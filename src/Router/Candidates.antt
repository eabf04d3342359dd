-- ===== src/Router/Candidates.antt =====
-- crates/sentia-router/src/router.rs, chat: the loop over the candidates of the route.
pub mod Every
use sentia_linux.Base.{
  ℕ, ◌^◌, ◌%◌, suc, ◌+◌, Bool, true, false, Option, none, some, List, [], ◌∷◌, ◌++◌, Text, codes,
  if◌then◌else◌, Result, ok, err, decimal,
}
use sentia_linux.Protocol.Errors.{serving}
use sentia_linux.Protocol.Status.{
  RequestStatus, queued, running_local, running_remote, fallback_to_local,
}
use sentia_linux.Router.Privacy.{SanitizedPayload}
use sentia_linux.Router.Breakers.{CircuitBreakers, allow, success, failure}
use sentia_linux.Router.Values.{Value}
use sentia_linux.Router.Schemas.{ToolError}
use sentia_linux.Router.Requests.{
  network, unsupported_capability, circuit_open, FailureKind, provider_failure, request_cancelled,
  ChatInput, bound_tokens,
}
use sentia_linux.Router.Route.{RouteCandidate}
use sentia_linux.Router.Tools.{ModelToolDefinition, ModelToolResult}
use sentia_linux.Router.Events.{
  state_transition, progress, answer_started, answer_finished, done, RequestBoundary,
  local_boundary, sanitized_remote, ProviderError, Effect, emit,
}
use sentia_linux.Router.Messages.{build_messages}
use sentia_linux.Router.Agent.{provider_error, run_agent_loop}
use sentia_linux.Router.Attempts.{
  contract_code_for_failure, failure_finish_reason, error_event, cancelled_end, is_healthy, Attempt,
  ChatState, ChatConfig,
}

module _ {P : Type 0} (name : P → Text) (is_local : P → Bool) (from_str : Text → Result Text Value)
    (invoke : Text → Text → Value → Result ToolError ModelToolResult)
    (tools : List ModelToolDefinition) (config : ChatConfig) (request : ChatInput)
    (attempts : ℕ → Attempt) where
  abbrev pub circuit_error : ProviderError
  circuit_error =
      provider_error (provider_failure circuit_open)
        (codes "remote provider circuit breaker is open") true

  abbrev pub network_error : ProviderError
  network_error =
      provider_error (provider_failure network) (codes "remote provider is unavailable") true

  -- A remote provider must be allowed by its breaker, and healthy.
  pub check_health : P → Attempt → CircuitBreakers × Bool → CircuitBreakers × Option ProviderError
  check_health p a (breakers, false) = (breakers, some circuit_error)
  check_health p a (breakers, true) =
      if is_healthy a.health.health
      then (breakers, none)
      else (failure breakers (name p) a.unhealthy_at, some network_error)

  pub check_remote : P → Attempt → CircuitBreakers → CircuitBreakers × Option ProviderError
  unfolding check_health
  check_remote p a breakers =
      if is_local p
      then (breakers, none)
      else check_health p a (allow breakers (name p) a.allowed_at)

  pub answer_id : ℕ → Text
  answer_id sequence =
      codes "answer-" ++ (decimal config.process_id ++ (codes "-" ++ decimal sequence))

  abbrev pub move : RequestStatus → RequestStatus → Effect P
  move from to = emit (state_transition request.request_id from to)

  -- The first provider that runs leaves the queue; after a failure only the local one reports.
  unfoldable pub transitions : Bool → Option ProviderError → List (Effect P)
  transitions true none = move queued running_local ∷ []
  transitions false none = move queued running_remote ∷ []
  transitions true (some e) =
      move running_remote fallback_to_local ∷ move fallback_to_local running_local ∷ []
  transitions false (some e) = []

  unfoldable pub start_effects : P → Attempt → Text → ChatState → List (Effect P)
  unfolding transitions
  start_effects p a answer s =
      transitions (is_local p) s.last_error
      ++ emit (
          answer_started request.request_id answer (record a.serving_status { state = serving })
            s.fallback_reason)
        ∷ []

  abbrev pub boundary_of : Option SanitizedPayload → (SanitizedPayload → Text) → RequestBoundary
  boundary_of none digest = local_boundary
  boundary_of (some payload) digest = sanitized_remote (digest payload)

  abbrev pub definitions_for : P → List ModelToolDefinition
  definitions_for p = if is_local p then tools else []

  -- The breaker of a remote provider after its answer, or after its failure.
  pub succeeded : P → CircuitBreakers → CircuitBreakers
  succeeded p breakers = if is_local p then breakers else success breakers (name p)

  pub failed_again : P → Attempt → CircuitBreakers → CircuitBreakers
  failed_again p a breakers = if is_local p then breakers else failure breakers (name p) a.failed_at

  unfoldable pub finish_effect : P → Text → Bool → Text → Effect P
  finish_effect p answer incomplete reason =
      emit (answer_finished request.request_id answer (name p) incomplete reason)

  abbrev pub is_cancellation : FailureKind → Bool
  is_cancellation request_cancelled = true
  is_cancellation _ = false

  -- The end of a chat after an answer, a cancellation, or no candidate.
  abbrev pub end_answered : List (Effect P)
  end_answered = emit (done request.request_id) ∷ []

  -- What is sent after a provider has answered or failed: the end of the chat, or the next candidate.
  unfoldable pub after_answer :
      P
      → Attempt
      → Text
      → ChatState
      → Result ProviderError Text
      → (ChatState → ChatState × List (Effect P))
      → ChatState × List (Effect P)
  unfolding succeeded failed_again finish_effect
  after_answer p a answer s (ok reason) rest = (
    record s { breakers = succeeded p s.breakers },
    finish_effect p answer false reason ∷ end_answered,
  )
  after_answer p a answer s (err e) rest =
      let finished = finish_effect p answer true (failure_finish_reason e.kind) in
      let after = record s { breakers = failed_again p a s.breakers } in
      let next = rest (record after { fallback_reason = some e.kind; last_error = some e }) in
      if is_cancellation e.kind then (after, finished ∷ cancelled_end request.request_id) else (
        next.0,
        finished
            ∷ emit (
                progress request.request_id (codes "fallback")
                  (codes "Starting a distinct fallback answer"))
            ∷ next.1,
      )

  abbrev pub run_provider :
      (SanitizedPayload → Text)
      → RouteCandidate P
      → Attempt
      → Text
      → List (Effect P) × Result ProviderError Text
  run_provider digest c a answer =
      run_agent_loop from_str invoke c.provider request.request_id answer
        (definitions_for c.provider) (bound_tokens config.max_generation_tokens request.max_tokens)
        (boundary_of c.payload digest) a.rounds config.max_agent_rounds
        (build_messages c.payload request)

  -- A candidate that passed the checks.
  unfoldable pub try_candidate :
      (SanitizedPayload → Text)
      → RouteCandidate P
      → Attempt
      → ChatState
      → (ChatState → ChatState × List (Effect P))
      → ChatState × List (Effect P)
  unfolding start_effects after_answer answer_id
  try_candidate digest c a s rest =
      let answer = answer_id s.answer_sequence in
      let run = run_provider digest c a answer in
      let after =
        after_answer c.provider a answer
          (record s { answer_sequence = (s.answer_sequence + 1) % 2 ^ 64 }) run.1 rest in
      (after.0, start_effects c.provider a answer s ++ (run.0 ++ after.1))

  -- Skip a candidate that did not pass, or try it.
  unfoldable pub consider :
      (SanitizedPayload → Text)
      → RouteCandidate P
      → Attempt
      → ChatState
      → CircuitBreakers × Option ProviderError
      → (ChatState → ChatState × List (Effect P))
      → ChatState × List (Effect P)
  unfolding try_candidate
  consider digest c a s (breakers, none) rest =
      try_candidate digest c a (record s { breakers = breakers }) rest
  consider digest c a s (breakers, some e) rest = rest (record {
    breakers = breakers;
    answer_sequence = s.answer_sequence;
    fallback_reason = some e.kind;
    last_error = some e;
  })

  abbrev pub or_no_provider : Option ProviderError → ProviderError
  or_no_provider (some e) = e
  or_no_provider none =
      provider_error (provider_failure unsupported_capability)
        (codes "no eligible provider is configured") false

  -- No candidate is left.
  unfoldable pub exhausted : ChatState → ChatState × List (Effect P)
  exhausted s =
      let e = or_no_provider s.last_error in
      (
        s,
        emit (
              error_event request.request_id (contract_code_for_failure e.kind) e.message
                e.retryable (some e.kind))
            ∷ emit (done request.request_id)
            ∷ [],
      )

  unfoldable pub try_candidates :
      (SanitizedPayload → Text)
      → ℕ
      → List (RouteCandidate P)
      → ChatState
      → ChatState × List (Effect P)
  unfolding check_remote consider exhausted
  try_candidates digest turn [] s = exhausted s
  try_candidates digest turn (c ∷ candidates) s =
      let a = attempts turn in
      let next =
        consider digest c a s (check_remote c.provider a s.breakers)
          (try_candidates digest (suc turn) candidates) in
      if a.is_cancelled then (s, cancelled_end request.request_id) else next
