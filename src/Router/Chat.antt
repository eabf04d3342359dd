-- ===== src/Router/Chat.antt =====
-- crates/sentia-router/src/router.rs, chat: the whole handler of a chat request.
pub mod Course
pub mod Private
pub mod Bounds
use sentia_linux.Base.{ℕ, Bool, false, none, List, [], ◌∷◌, Text, Result, ok, err}
use sentia_linux.Protocol.Status.{received, queued}
use sentia_linux.Router.Privacy.{Mint, ConsentState, SanitizedPayload}
use sentia_linux.Router.Breakers.{CircuitBreakers}
use sentia_linux.Router.Values.{Value}
use sentia_linux.Router.Schemas.{ToolError}
use sentia_linux.Router.Requests.{invalid_request, ErrorEvent, ChatInput, UserSettings}
use sentia_linux.Router.Route.{ProviderRegistry, RoutePlan, build_route}
use sentia_linux.Router.Tools.{ModelToolDefinition, ModelToolResult}
use sentia_linux.Router.Events.{accepted, error, done, Effect, emit}
use sentia_linux.Router.Attempts.{validate_chat, error_event, Attempt, ChatConfig}
use sentia_linux.Router.Candidates.{try_candidates, move}

module _ {P : Type 0} (name : P → Text) (is_local : P → Bool) (from_str : Text → Result Text Value)
    (invoke : Text → Text → Value → Result ToolError ModelToolResult)
    (tools : List ModelToolDefinition) (config : ChatConfig) (request : ChatInput)
    (attempts : ℕ → Attempt) where
  -- What a router keeps from chat to chat.
  pub record RouterState : Type 0 where
    pub breakers : CircuitBreakers
    pub consents : ConsentState
    pub answer_sequence : ℕ

  routed :
      (SanitizedPayload → Text)
      → RouterState
      → ConsentState × Result ErrorEvent (RoutePlan P)
      → RouterState × List (Effect P)
  unfolding try_candidates
  routed digest state (consents, err event) = (
    record state { consents = consents },
    emit (error event) ∷ emit (done request.request_id) ∷ [],
  )
  routed digest state (consents, ok plan) =
      let (s, effects) =
        try_candidates name is_local from_str invoke tools config request attempts digest 0
          plan.candidates
          (record {
            breakers = state.breakers;
            answer_sequence = state.answer_sequence;
            fallback_reason = plan.initial_fallback_reason;
            last_error = none;
          }) in
      (
        record { breakers = s.breakers; consents = consents; answer_sequence = s.answer_sequence },
        effects,
      )

  chat_checked :
      Mint
      → ProviderRegistry P
      → UserSettings
      → ℕ
      → RouterState
      → Result Text (Unit {0})
      → RouterState × List (Effect P)
  unfolding routed
  chat_checked m registry settings now state (err message) = (
    state,
    emit (error_event request.request_id invalid_request message false none)
        ∷ emit (done request.request_id)
        ∷ [],
  )
  chat_checked m registry settings now state (ok _) =
      let after = routed m.digest state (
        build_route P m state.consents registry request settings config.max_generation_tokens
          now) in
      (
        after.0,
        emit (accepted request.request_id request.policy)
            ∷ move name is_local from_str invoke tools config request attempts received queued
            ∷ after.1,
      )

  pub chat :
      Mint → ProviderRegistry P → UserSettings → ℕ → RouterState → RouterState × List (Effect P)
  unfolding validate_chat chat_checked
  chat m registry settings now state =
      chat_checked m registry settings now state (validate_chat request)
