-- ===== src/Router/Events.antt =====
-- crates/sentia-router/src, api.rs and provider.rs: the events of a chat, and what the router and a
-- provider say to each other. The events that answer a control or a cancellation are left out.
use sentia_linux.Base.{ℕ, Bool, Option, List, Text}
use sentia_linux.Protocol.Errors.{ProviderStatus}
use sentia_linux.Protocol.Status.{RequestStatus}
use sentia_linux.Router.Values.{Value}
use sentia_linux.Router.Tools.{ToolCall, Invocation}
use sentia_linux.Router.Requests.{RoutingPolicy, FailureKind, ErrorEvent}

-- `InternalEvent`; the first text is the identifier of the request.
pub data InternalEvent : Type 0 where
  accepted : Text → RoutingPolicy → InternalEvent
  state_transition : Text → RequestStatus → RequestStatus → InternalEvent
  progress : Text → Text → Text → InternalEvent
  answer_started : Text → Text → ProviderStatus → Option FailureKind → InternalEvent
  delta : Text → Text → Text → InternalEvent
  tool_result : Text → Text → Text → Text → InternalEvent
  action_proposed : Text → Text → Text → Value → Text → InternalEvent
  answer_finished : Text → Text → Text → Bool → Text → InternalEvent
  error : ErrorEvent → InternalEvent
  done : Text → InternalEvent

pub record ModelMessage : Type 0 where
  pub role : Text
  pub content : Text
  pub name : Option Text
  pub tool_call_id : Option Text
  pub tool_calls : List ToolCall

-- `BrokerTool` of sentia-local-broker
pub record ModelTool : Type 0 where
  pub name : Text
  pub description : Text
  pub parameters : Value

pub data RequestBoundary : Type 0 where
  local_boundary : RequestBoundary
  sanitized_remote : Text → RequestBoundary

pub record ProviderRequest : Type 0 where
  pub request_id : Text
  pub messages : List ModelMessage
  pub tools : List ModelTool
  pub max_tokens : ℕ
  pub boundary : RequestBoundary

pub data ProviderChunk : Type 0 where
  progress_chunk : Text → Text → ProviderChunk
  text_chunk : Text → ProviderChunk

pub record ProviderOutput : Type 0 where
  pub finish_reason : Text
  pub tool_calls : List ToolCall

pub record ProviderError : Type 0 where
  pub kind : FailureKind
  pub message : Text
  pub retryable : Bool
  pub emitted_output : Bool

-- What a chat does, in order: an event that it sends, a request to a provider, and a call of the tool
-- service on behalf of a provider.
pub data Effect (P : Type 0) : Type 0 where
  emit : InternalEvent → Effect P
  ask : P → ProviderRequest → Effect P
  use_tool : P → Invocation → Effect P
