-- ===== src/Router/Chat/Course.antt =====
-- Every chat runs its course: its events keep to the conversation, up to its end.
use sentia_linux.Base.{
  ℕ, suc, ◌≡◌, refl, Bool, true, false, Option, none, some, List, [], ◌∷◌, Text, Result, ok, err,
}
use sentia_linux.Protocol.Status.{is_valid_status_transition}
use sentia_linux.Router.Privacy.{Mint, ConsentState, SanitizedPayload}
use sentia_linux.Router.Breakers.{CircuitBreakers}
use sentia_linux.Router.Values.{Value}
use sentia_linux.Router.Schemas.{ToolError}
use sentia_linux.Router.Tools.{ModelToolDefinition, ModelToolResult}
use sentia_linux.Router.Requests.{ChatInput, UserSettings, ErrorEvent}
use sentia_linux.Router.Route.{ProviderRegistry, RouteCandidate, RoutePlan}
use sentia_linux.Router.Events.{ProviderError, Effect}
use sentia_linux.Router.Attempts.{
  Attempt, ChatState, ChatConfig, validate_chat, failure_finish_reason,
}
use sentia_linux.Router.Conversation.{
  fresh, between, closed, answering, follow, Leads, Leads-nil, Leads-append, Leads-emit,
  Leads-finished, Leads-if,
}
use sentia_linux.Router.Agent.Answers.{run_agent_loop-Stays}
use sentia_linux.Router.Chat.{RouterState, routed, chat_checked, chat}
use sentia_linux.Router.Candidates.{
  check_remote, answer_id, transitions, start_effects, finish_effect, is_cancellation, after_answer,
  run_provider, try_candidate, consider, exhausted, try_candidates,
}

module _ {P : Type 0} (name : P → Text) (is_local : P → Bool) (from_str : Text → Result Text Value)
    (invoke : Text → Text → Value → Result ToolError ModelToolResult)
    (tools : List ModelToolDefinition) (config : ChatConfig) (request : ChatInput)
    (attempts : ℕ → Attempt) where
  -- Effects that end a chat which stands between two answers.
  abbrev Ends : List (Effect P) → Type 0
  Ends effects = Leads between effects closed

  abbrev Rest : Type 0
  Rest = ChatState → ChatState × List (Effect P)

  abbrev RestEnds : Rest → Type 0
  RestEnds rest = (s : ChatState) → Ends (rest s).1

  transitions-between :
      (l : Bool) (e : Option ProviderError)
      → Leads between
          (transitions name is_local from_str invoke tools config request attempts l e)
          between
  unfolding transitions is_valid_status_transition
  transitions-between true none = record { leads = refl }
  transitions-between true (some e) = record { leads = refl }
  transitions-between false none = record { leads = refl }
  transitions-between false (some e) = record { leads = refl }

  start-answering :
      (p : P) (a : Attempt) (answer : Text) (s : ChatState)
      → Leads between
          (start_effects name is_local from_str invoke tools config request attempts p a answer s)
          (answering answer)
  unfolding start_effects
  start-answering p a answer s =
      Leads-append (transitions-between (is_local p) s.last_error)
        (Leads-emit _ refl (Leads-nil (answering answer)))

  after_answer-ends :
      (p : P) (a : Attempt) (answer : Text) (s : ChatState) (r : Result ProviderError Text)
      (rest : Rest)
      → RestEnds rest
      → Leads
          (answering answer)
          (after_answer name is_local from_str invoke tools config request attempts p a answer s r
            rest).1
          closed
  unfolding after_answer finish_effect
  after_answer-ends p a answer s (ok reason) rest h =
      Leads-finished request.request_id answer (name p) false reason
        (Leads-emit _ refl (Leads-nil closed))
  after_answer-ends p a answer s (err e) rest h =
      let reason = failure_finish_reason e.kind in
      Leads-if (is_cancellation name is_local from_str invoke tools config request attempts e.kind)
        _ _
        (Leads-finished request.request_id answer (name p) true reason
          (Leads-emit _ refl (Leads-emit _ refl (Leads-nil closed))))
        (Leads-finished request.request_id answer (name p) true reason (Leads-emit _ refl (h _)))

  try_candidate-Ends :
      (digest : SanitizedPayload → Text) (c : RouteCandidate P) (a : Attempt) (s : ChatState)
      (rest : Rest)
      → RestEnds rest
      → Ends
          (try_candidate name is_local from_str invoke tools config request attempts digest c a s
            rest).1
  unfolding try_candidate
  try_candidate-Ends digest c a s rest h =
      let answer =
        answer_id name is_local from_str invoke tools config request attempts s.answer_sequence in
      let run =
        run_provider name is_local from_str invoke tools config request attempts digest c a
          answer in
      Leads-append (start-answering c.provider a answer s) (
        Leads-append
          (run_agent_loop-Stays from_str invoke c.provider request.request_id answer _ _ _ a.rounds
            config.max_agent_rounds _)
          (after_answer-ends c.provider a answer _ run.1 rest h))

  consider-Ends :
      (digest : SanitizedPayload → Text) (c : RouteCandidate P) (a : Attempt) (s : ChatState)
      (checked : CircuitBreakers × Option ProviderError) (rest : Rest)
      → RestEnds rest
      → Ends
          (consider name is_local from_str invoke tools config request attempts digest c a s checked
            rest).1
  unfolding consider
  consider-Ends digest c a s (breakers, none) rest h = try_candidate-Ends digest c a _ rest h
  consider-Ends digest c a s (breakers, some e) rest h = h _

  candidates-end :
      (digest : SanitizedPayload → Text) (turn : ℕ) (candidates : List (RouteCandidate P))
      (s : ChatState)
      → Ends
          (try_candidates name is_local from_str invoke tools config request attempts digest turn
            candidates s).1
  unfolding try_candidates exhausted
  candidates-end digest turn [] s = record { leads = refl }
  candidates-end digest turn (c ∷ candidates) s =
      Leads-if (attempts turn).is_cancelled _ _ (record { leads = refl })
        (consider-Ends digest c (attempts turn) s
          (check_remote name is_local from_str invoke tools config request attempts c.provider
            (attempts turn) s.breakers)
          (try_candidates name is_local from_str invoke tools config request attempts digest
            (suc turn) candidates)
          (candidates-end digest (suc turn) candidates))

  routed-Ends :
      (digest : SanitizedPayload → Text)
      (state : RouterState name is_local from_str invoke tools config request attempts)
      (route : ConsentState × Result ErrorEvent (RoutePlan P))
      → Ends
          (routed name is_local from_str invoke tools config request attempts digest state route).1
  unfolding routed
  routed-Ends digest state (consents, err e) = record { leads = refl }
  routed-Ends digest state (consents, ok plan) = candidates-end digest 0 plan.candidates _

  checked-closed :
      (m : Mint) (registry : ProviderRegistry P) (settings : UserSettings) (now : ℕ)
      (state : RouterState name is_local from_str invoke tools config request attempts)
      (checked : Result Text (Unit {0}))
      → Leads fresh
          (chat_checked name is_local from_str invoke tools config request attempts m registry
            settings now state checked).1
          closed
  unfolding chat_checked is_valid_status_transition
  checked-closed m registry settings now state (err message) = record { leads = refl }
  checked-closed m registry settings now state (ok u) =
      Leads-emit _ refl (Leads-emit _ refl (routed-Ends m.digest state _))

  -- Whatever the system, the providers and the tools answer: a chat ends. Its events are Accepted
  -- (unless the request is refused), then answers one after another, then Done, which is sent once
  -- and last. Each answer is started, its deltas carry its identifier, and it is finished before
  -- another starts. After a complete answer only Done follows; otherwise exactly one error is sent,
  -- just before Done. Every transition of the status is a valid one and is sent between answers.
  pub chat-closed :
      (m : Mint) (registry : ProviderRegistry P) (settings : UserSettings) (now : ℕ)
      (state : RouterState name is_local from_str invoke tools config request attempts)
      → follow
          (some fresh)
          (chat name is_local from_str invoke tools config request attempts m registry settings now
            state).1
        ≡ some closed
  unfolding chat
  chat-closed m registry settings now state =
      (checked-closed m registry settings now state (validate_chat request)).leads
