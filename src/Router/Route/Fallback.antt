-- ===== src/Router/Route/Fallback.antt =====
-- The local provider stays on the route, whatever becomes of the remote one (router.rs, build_route).
use sentia_linux.Base.{
  ℕ, ◌≡◌, ◌≢◌, refl, ap, Bool, true, false, Option, none, some, List, [], ◌∷◌, ◌++◌, Text,
  if◌then◌else◌, Result, ok, err,
}
use sentia_linux.Router.Privacy.{SanitizedPayload, PrivacyError, Mint, ConsentState}
use sentia_linux.Router.Requests.{
  RoutingPolicy, local_only, local_preferred, remote_preferred, ask_before_remote, ChatInput,
  UserSettings, ErrorEvent, FailureKind, provider_failure, privacy_denied, unsupported_capability,
  is_private, remote_name, bound_tokens,
}
use sentia_linux.Router.Route.{
  ProviderRegistry, RouteCandidate, RoutePlan, candidate, only_local, local_route, plan,
  find_remote, prefer_local, prefer_remote, route_for, build_route,
}

module _ (P : Type 0) (registry : ProviderRegistry P) (p : P)
    (has_local : registry.local ≡ some p) where
  -- The local provider is on the route, with no payload.
  abbrev pub Offers : RoutePlan P → Type 0
  Offers r =
      (before after : List (RouteCandidate P)) × r.candidates ≡ before ++ candidate P p none ∷ after

  local_route-Offers :
      (reason : Option FailureKind) → Offers (plan P (local_route P registry) reason)
  local_route-Offers reason = ([], [], ap (only_local P) has_local)

  prefer_local-Offers :
      (q : P) (made : Result PrivacyError SanitizedPayload)
      → Offers (prefer_local P (local_route P registry) q made)
  unfolding prefer_local
  prefer_local-Offers q (err e) = local_route-Offers none
  prefer_local-Offers q (ok payload) =
      let remote = candidate P q (some payload) in
      ([], remote ∷ [], ap (λ o. only_local P o ++ remote ∷ []) has_local)

  prefer_remote-Offers :
      (q : P) (made : Result PrivacyError SanitizedPayload)
      → Offers (prefer_remote P (local_route P registry) q made)
  unfolding prefer_remote
  prefer_remote-Offers q (err e) = ([], [], ap (only_local P) has_local)
  prefer_remote-Offers q (ok payload) =
      let remote = candidate P q (some payload) in
      (remote ∷ [], [], ap (λ o. remote ∷ only_local P o) has_local)

  if-Offers : (b : Bool) (r q : RoutePlan P) → Offers r → Offers q → Offers (if b then r else q)
  if-Offers true r q h k = h
  if-Offers false r q h k = k

  module _ (m : Mint) (state : ConsentState) (request : ChatInput) (settings : UserSettings)
      (most now : ℕ) where
    -- A route was built, the consents are as before, and the local provider is on the route.
    abbrev pub IsServed : ConsentState × Result ErrorEvent (RoutePlan P) → Type 0
    IsServed answer = (r : RoutePlan P) × answer ≡ (state, ok r) × Offers r

    route_for-IsServed :
        (policy : RoutingPolicy) (remote : Option (Text × P))
        → policy ≢ ask_before_remote
        → IsServed (
            route_for P m state registry request settings
              (bound_tokens most request.max_tokens)
              now
              policy
              remote)
    unfolding route_for
    route_for-IsServed local_only remote h = (_, refl, local_route-Offers none)
    route_for-IsServed local_preferred none h = (_, refl, local_route-Offers none)
    route_for-IsServed local_preferred (some (name, q)) h = (
      _,
      refl,
      if-Offers (is_private request.sensitivity) _ _ (local_route-Offers (some privacy_denied))
          (prefer_local-Offers q _),
    )
    route_for-IsServed remote_preferred none h =
        (_, refl, local_route-Offers (some (provider_failure unsupported_capability)))
    route_for-IsServed remote_preferred (some (name, q)) h = (
      _,
      refl,
      if-Offers (is_private request.sensitivity) _ _ (local_route-Offers (some privacy_denied))
          (prefer_remote-Offers q _),
    )
    route_for-IsServed ask_before_remote remote h = absurd (h refl)

    -- With a local provider and any policy but the one that asks first, a route is always built, the
    -- stored consents stay as they are, and the local provider is on the route, with no payload:
    -- also for sensitive data, a remote provider that is not configured, and a request that the
    -- privacy boundary refuses.
    pub build_route-IsServed :
        request.policy ≢ ask_before_remote
        → IsServed (build_route P m state registry request settings most now)
    unfolding build_route
    build_route-IsServed h =
        route_for-IsServed request.policy (find_remote P registry (remote_name request settings)) h
