-- ===== src/Router/Route.antt =====
-- crates/sentia-router/src/router.rs, build_route: the providers that a request may be sent to, in
-- order, each with the payload that it may see. A provider is an element of a type `P`; one without a
-- payload sees the request itself.
pub mod Boundary
pub mod Fallback
pub mod Length
use sentia_linux.Base.{
  ℕ, false, Option, none, some, List, [], ◌∷◌, ◌++◌, Text, codes, if◌then◌else◌, lookup, text_eq,
  Result, ok, err,
}
use sentia_linux.Router.Requests.{
  RoutingPolicy, local_only, local_preferred, remote_preferred, ask_before_remote, FailureKind,
  provider_failure, unsupported_capability, privacy_denied, policy_denied, provider_unavailable,
  ErrorEvent, ChatInput, UserSettings, privacy_error_event, is_private, bound_tokens, remote_name,
}
use sentia_linux.Router.Privacy.{
  SanitizedPayload, PrivacyError, sanitize, Mint, ConsentState, consume_consent,
}

module _ (P : Type 0) where
  pub record ProviderRegistry : Type 0 where
    pub local : Option P
    pub remotes : List (Text × P)

  pub record RouteCandidate : Type 0 where
    pub provider : P
    pub payload : Option SanitizedPayload

  pub record RoutePlan : Type 0 where
    pub candidates : List RouteCandidate
    pub initial_fallback_reason : Option FailureKind

  abbrev pub candidate : P → Option SanitizedPayload → RouteCandidate
  candidate p payload = record { provider = p; payload = payload }

  abbrev pub only_local : Option P → List RouteCandidate
  only_local none = []
  only_local (some p) = candidate p none ∷ []

  abbrev pub local_route : ProviderRegistry → List RouteCandidate
  local_route registry = only_local registry.local

  abbrev pub plan : List RouteCandidate → Option FailureKind → RoutePlan
  plan candidates reason = record { candidates = candidates; initial_fallback_reason = reason }

  -- `remote_name.and_then(|name| providers.remote(name).map(|provider| (name, provider)))`
  unfoldable pub find_remote : ProviderRegistry → Option Text → Option (Text × P)
  find_remote registry none = none
  find_remote registry (some name) = elim (lookup name registry.remotes) [
    | none ↦ none
    | some p ↦ some (name, p)
  ]

  -- The remote candidate of a sanitized payload, before or after the local one.
  pub prefer_local : List RouteCandidate → P → Result PrivacyError SanitizedPayload → RoutePlan
  prefer_local route p (err e) = plan route none
  prefer_local route p (ok payload) = plan (route ++ candidate p (some payload) ∷ []) none

  unfoldable pub prefer_remote :
      List RouteCandidate → P → Result PrivacyError SanitizedPayload → RoutePlan
  prefer_remote route p (err e) = plan route (some privacy_denied)
  prefer_remote route p (ok payload) = plan (candidate p (some payload) ∷ route) none

  pub consent_error : Text → ErrorEvent
  consent_error request_id = record {
    request_id = request_id;
    code = policy_denied;
    message = codes "exact outbound payload consent is missing, expired, used, or mismatched";
    retryable = false;
    failure = some privacy_denied;
  }

  pub not_configured : Text → ErrorEvent
  not_configured request_id = record {
    request_id = request_id;
    code = provider_unavailable;
    message = codes "requested remote provider is not configured";
    retryable = false;
    failure = some (provider_failure unsupported_capability);
  }

  -- The remote provider with a payload that the user consented to.
  unfoldable pub consented :
      List RouteCandidate
      → P
      → SanitizedPayload
      → Text
      → ConsentState × Result PrivacyError (Unit {0})
      → ConsentState × Result ErrorEvent RoutePlan
  unfolding consent_error
  consented route p payload request_id (state, err e) = (state, err (consent_error request_id))
  consented route p payload request_id (state, ok _) =
      (state, ok (plan (candidate p (some payload) ∷ route) none))

  unfoldable pub ask :
      Mint
      → ConsentState
      → List RouteCandidate
      → ChatInput
      → ℕ
      → P
      → Result PrivacyError SanitizedPayload
      → ConsentState × Result ErrorEvent RoutePlan
  unfolding consented
  ask m state route request now p (err e) = (state, err (privacy_error_event request.request_id e))
  ask m state route request now p (ok payload) =
      consented route p payload request.request_id
        (consume_consent m state request.consent_token payload now)

  -- The route under each policy, given the remote provider that the request or the settings name.
  unfoldable pub route_for :
      Mint
      → ConsentState
      → ProviderRegistry
      → ChatInput
      → UserSettings
      → ℕ
      → ℕ
      → RoutingPolicy
      → Option (Text × P)
      → ConsentState × Result ErrorEvent RoutePlan
  unfolding prefer_local prefer_remote ask not_configured
  route_for m state registry request settings tokens now local_only remote =
      (state, ok (plan (local_route registry) none))
  route_for m state registry request settings tokens now local_preferred none =
      (state, ok (plan (local_route registry) none))
  route_for m state registry request settings tokens now local_preferred (some (name, p)) = (
    state,
    ok (
        if is_private request.sensitivity
        then plan (local_route registry) (some privacy_denied)
        else prefer_local (local_route registry) p (
            sanitize name request.question request.context tokens
              (some settings.remote_categories))),
  )
  route_for m state registry request settings tokens now remote_preferred none =
      (state, ok (plan (local_route registry) (some (provider_failure unsupported_capability))))
  route_for m state registry request settings tokens now remote_preferred (some (name, p)) = (
    state,
    ok (
        if is_private request.sensitivity
        then plan (local_route registry) (some privacy_denied)
        else prefer_remote (local_route registry) p (
            sanitize name request.question request.context tokens
              (some settings.remote_categories))),
  )
  route_for m state registry request settings tokens now ask_before_remote none =
      (state, err (not_configured request.request_id))
  route_for m state registry request settings tokens now ask_before_remote (some (name, p)) =
      ask m state (local_route registry) request now p
        (sanitize name request.question request.context tokens none)

  unfoldable pub build_route :
      Mint
      → ConsentState
      → ProviderRegistry
      → ChatInput
      → UserSettings
      → ℕ
      → ℕ
      → ConsentState × Result ErrorEvent RoutePlan
  unfolding route_for find_remote
  build_route m state registry request settings max_generation_tokens now =
      route_for m state registry request settings
        (bound_tokens max_generation_tokens request.max_tokens) now request.policy
        (find_remote registry (remote_name request settings))
