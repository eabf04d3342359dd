-- ===== src/Router/Requests.antt =====
-- What a chat request, the settings of a user and an error are to the router (crates/sentia-router/src,
-- api.rs and router.rs; the policies and sensitivities of crates/sentia-protocol/src/router.rs).
use sentia_linux.Base.{
  ℕ, Bool, true, false, Option, none, some, List, ◌++◌, Text, codes, ltb, if◌then◌else◌, text_eq,
}
pub use sentia_linux.Protocol.Requests.{
  RoutingPolicy, local_only, local_preferred, remote_preferred, ask_before_remote, DataSensitivity,
  public_data, internal_data, sensitive_data, restricted_data,
}
pub use sentia_linux.Protocol.Errors.{
  ContractErrorCode, invalid_request, policy_denied, provider_unavailable, timeout, cancelled,
  ProviderErrorCode, network, dns, authentication, quota, timed_out, unsupported_capability,
  malformed_response, process_failure, circuit_open, internal_error,
}
use sentia_linux.Router.Privacy.{
  PrivacyCategory, user_prompt, file_content, command_history, hostname, ip_address, process_name,
  journal, diagnostic, ContextItem, PrivacyError, category_denied, forbidden_source_error,
  invalid_consent, too_large, ConsentToken,
}

pub data FailureKind : Type 0 where
  provider_failure : ProviderErrorCode → FailureKind
  privacy_denied request_cancelled : FailureKind

pub record ErrorEvent : Type 0 where
  pub request_id : Text
  pub code : ContractErrorCode
  pub message : Text
  pub retryable : Bool
  pub failure : Option FailureKind

-- A `ChatInput`; of its provenance the sensitivity is kept, which alone is read.
pub record ChatInput : Type 0 where
  pub request_id : Text
  pub session_id : Text
  pub question : Text
  pub policy : RoutingPolicy
  pub provider : Option Text
  pub context : List ContextItem
  pub consent_token : Option ConsentToken
  pub max_tokens : Option ℕ
  pub sensitivity : DataSensitivity

pub record UserSettings : Type 0 where
  pub version : Text
  pub default_policy : RoutingPolicy
  pub preferred_remote_provider : Option Text
  pub remote_categories : List PrivacyCategory

abbrev pub category_name : PrivacyCategory → Text
category_name user_prompt = codes "UserPrompt"
category_name file_content = codes "FileContent"
category_name command_history = codes "CommandHistory"
category_name hostname = codes "Hostname"
category_name ip_address = codes "IpAddress"
category_name process_name = codes "ProcessName"
category_name journal = codes "Journal"
category_name diagnostic = codes "Diagnostic"

-- The texts of a `PrivacyError`.
abbrev pub privacy_message : PrivacyError → Text
privacy_message (category_denied c) =
    codes "context category is not permitted for remote disclosure: " ++ category_name c
privacy_message forbidden_source_error = codes "context source is forbidden from remote disclosure"
privacy_message invalid_consent =
    codes "remote consent is missing, expired, already used, or does not match the payload"
privacy_message too_large = codes "request exceeds privacy boundary limits"

pub privacy_error_event : Text → PrivacyError → ErrorEvent
privacy_error_event request_id e = record {
  request_id = request_id;
  code = policy_denied;
  message = privacy_message e;
  retryable = false;
  failure = some privacy_denied;
}

abbrev pub is_private : DataSensitivity → Bool
is_private sensitive_data = true
is_private restricted_data = true
is_private _ = false

-- `requested.unwrap_or(most).clamp(1, most)`, where a configuration has at least 1 for `most`.
unfoldable pub bound_tokens : ℕ → Option ℕ → ℕ
bound_tokens most none = if ltb most 1 then 1 else most
bound_tokens most (some n) = if ltb n 1 then 1 else if ltb most n then most else n

abbrev pub or_else : Option Text → Option Text → Option Text
or_else (some a) b = some a
or_else none b = b

abbrev pub remote_name : ChatInput → UserSettings → Option Text
remote_name request settings = or_else request.provider settings.preferred_remote_provider
