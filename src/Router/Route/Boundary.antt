-- ===== src/Router/Route/Boundary.antt =====
-- Nothing leaves the machine but what a policy lets through (router.rs, build_route).
use sentia_linux.Base.{
  ℕ, ◌≡◌, refl, ap, subst, Bool, true, false, Option, none, some, List, Text, arith, if◌then◌else◌,
  lookup, text_eq, Result, ok, err, All, Option-cases, inl, inr, All-append, ok-injective,
}
use sentia_linux.Router.Privacy.{
  SanitizedPayload, sanitize, Mint, ConsentState, consume_consent, PrivacyError, PrivacyCategory,
}
use sentia_linux.Router.Route.{
  ProviderRegistry, RouteCandidate, RoutePlan, candidate, only_local, local_route, find_remote,
  prefer_local, prefer_remote, consented, ask, route_for, build_route,
}
use sentia_linux.Router.Requests.{
  RoutingPolicy, local_only, local_preferred, remote_preferred, ask_before_remote, ChatInput,
  UserSettings, is_private, remote_name, bound_tokens,
}

module _ (P : Type 0) (m : Mint) (state : ConsentState) (registry : ProviderRegistry P)
    (request : ChatInput) (settings : UserSettings) (most now : ℕ) where
  -- The payload that the privacy boundary makes for a named provider.
  abbrev pub payload_for :
      Text → Option (List PrivacyCategory) → Result PrivacyError SanitizedPayload
  payload_for name allowed =
      sanitize name request.question request.context (bound_tokens most request.max_tokens) allowed

  abbrev IsRemote : Text → P → Type 0
  IsRemote name p = remote_name request settings ≡ some name × lookup name registry.remotes ≡ some p

  -- Why a candidate may see what it is given: it is the local provider; or the user's settings let
  -- the request's categories go to a remote provider, and its data is not sensitive; or the user
  -- consented to exactly this payload.
  pub data IsAllowed : RoutingPolicy → RouteCandidate P → Type 0 where
    is_local :
        (policy : RoutingPolicy) (p : P)
        → registry.local ≡ some p
        → IsAllowed policy (candidate P p none)
    by_settings_after :
        (name : Text) (p : P) (payload : SanitizedPayload)
        → IsRemote name p
        → is_private request.sensitivity ≡ false
        → payload_for name (some settings.remote_categories) ≡ ok payload
        → IsAllowed local_preferred (candidate P p (some payload))
    by_settings_before :
        (name : Text) (p : P) (payload : SanitizedPayload)
        → IsRemote name p
        → is_private request.sensitivity ≡ false
        → payload_for name (some settings.remote_categories) ≡ ok payload
        → IsAllowed remote_preferred (candidate P p (some payload))
    by_consent :
        (name : Text) (p : P) (payload : SanitizedPayload)
        → IsRemote name p
        → payload_for name none ≡ ok payload
        → (consume_consent m state request.consent_token payload now).1 ≡ ok tt
        → IsAllowed ask_before_remote (candidate P p (some payload))

  only_local-IsAllowed :
      (policy : RoutingPolicy) (local : Option P)
      → registry.local ≡ local
      → All (IsAllowed policy) (only_local P local)
  only_local-IsAllowed policy none h = tt
  only_local-IsAllowed policy (some p) h = (is_local policy p h, tt)

  local_route-IsAllowed : (policy : RoutingPolicy) → All (IsAllowed policy) (local_route P registry)
  local_route-IsAllowed policy = only_local-IsAllowed policy registry.local refl

  find_remote-eq-some :
      (wanted : Option Text) (name : Text) (p : P)
      → find_remote P registry wanted ≡ some (name, p)
      → wanted ≡ some name × lookup name registry.remotes ≡ some p
  unfolding find_remote
  find_remote-eq-some none name p h = absurd (ground arith)
  find_remote-eq-some (some n) name p h = elim (Option-cases (lookup n registry.remotes)) [
    | inl missing ↦ absurd (ground arith)
    | inr (q, found) ↦ ground (arith, found)
  ]

  -- Every candidate of a plan is allowed.
  abbrev IsAllowedPlan : RoutingPolicy → RoutePlan P → Type 0
  IsAllowedPlan policy r = All (IsAllowed policy) r.candidates

  prefer_local-IsAllowed :
      (name : Text) (p : P) (made : Result PrivacyError SanitizedPayload)
      → IsRemote name p
      → is_private request.sensitivity ≡ false
      → payload_for name (some settings.remote_categories) ≡ made
      → IsAllowedPlan local_preferred (prefer_local P (local_route P registry) p made)
  unfolding prefer_local
  prefer_local-IsAllowed name p (err e) remote open_data h = local_route-IsAllowed local_preferred
  prefer_local-IsAllowed name p (ok payload) remote open_data h =
      All-append (IsAllowed local_preferred) (local_route P registry) _
        (local_route-IsAllowed local_preferred)
        (by_settings_after name p payload remote open_data h, tt)

  prefer_remote-IsAllowed :
      (name : Text) (p : P) (made : Result PrivacyError SanitizedPayload)
      → IsRemote name p
      → is_private request.sensitivity ≡ false
      → payload_for name (some settings.remote_categories) ≡ made
      → IsAllowedPlan remote_preferred (prefer_remote P (local_route P registry) p made)
  unfolding prefer_remote
  prefer_remote-IsAllowed name p (err e) remote open_data h = local_route-IsAllowed remote_preferred
  prefer_remote-IsAllowed name p (ok payload) remote open_data h =
      (by_settings_before name p payload remote open_data h, local_route-IsAllowed remote_preferred)

  consented-IsAllowed :
      (name : Text) (p : P) (payload : SanitizedPayload)
      (given : ConsentState × Result PrivacyError (Unit {0})) (r : RoutePlan P)
      → IsRemote name p
      → payload_for name none ≡ ok payload
      → consume_consent m state request.consent_token payload now ≡ given
      → (consented P (local_route P registry) p payload request.request_id given).1 ≡ ok r
      → IsAllowedPlan ask_before_remote r
  unfolding consented
  consented-IsAllowed name p payload (after, err e) r remote made h k = absurd (ground arith)
  consented-IsAllowed name p payload (after, ok tt) r remote made h k =
      subst (IsAllowedPlan ask_before_remote) (ok-injective k) (
        by_consent name p payload remote made (ap (λ g. g.1) h),
        local_route-IsAllowed ask_before_remote,
      )

  ask-IsAllowed :
      (name : Text) (p : P) (made : Result PrivacyError SanitizedPayload) (r : RoutePlan P)
      → IsRemote name p
      → payload_for name none ≡ made
      → (ask P m state (local_route P registry) request now p made).1 ≡ ok r
      → IsAllowedPlan ask_before_remote r
  unfolding ask
  ask-IsAllowed name p (err e) r remote made k = absurd (ground arith)
  ask-IsAllowed name p (ok payload) r remote made k =
      consented-IsAllowed name p payload (consume_consent m state request.consent_token payload now)
        r remote made refl k

  if-IsAllowed :
      (b : Bool) (policy : RoutingPolicy) (r q : RoutePlan P)
      → IsAllowedPlan policy r
      → (b ≡ false → IsAllowedPlan policy q)
      → IsAllowedPlan policy (if b then r else q)
  if-IsAllowed true policy r q h k = h
  if-IsAllowed false policy r q h k = k refl

  route_for-IsAllowed :
      (policy : RoutingPolicy) (remote : Option (Text × P)) (r : RoutePlan P)
      → find_remote P registry (remote_name request settings) ≡ remote
      → (route_for P m state registry request settings
          (bound_tokens most request.max_tokens)
          now
          policy
          remote).1
        ≡ ok r
      → IsAllowedPlan policy r
  unfolding route_for
  route_for-IsAllowed local_only remote r h k =
      subst (IsAllowedPlan local_only) (ok-injective k) (local_route-IsAllowed local_only)
  route_for-IsAllowed local_preferred none r h k =
      subst (IsAllowedPlan local_preferred) (ok-injective k) (local_route-IsAllowed local_preferred)
  route_for-IsAllowed local_preferred (some (name, p)) r h k =
      subst (IsAllowedPlan local_preferred) (ok-injective k) (
        if-IsAllowed (is_private request.sensitivity) local_preferred _ _
          (local_route-IsAllowed local_preferred)
          (λ open_data.
            prefer_local-IsAllowed name p (payload_for name (some settings.remote_categories))
              (find_remote-eq-some (remote_name request settings) name p h) open_data refl))
  route_for-IsAllowed remote_preferred none r h k =
      subst (IsAllowedPlan remote_preferred) (ok-injective k)
        (local_route-IsAllowed remote_preferred)
  route_for-IsAllowed remote_preferred (some (name, p)) r h k =
      subst (IsAllowedPlan remote_preferred) (ok-injective k) (
        if-IsAllowed (is_private request.sensitivity) remote_preferred _ _
          (local_route-IsAllowed remote_preferred)
          (λ open_data.
            prefer_remote-IsAllowed name p (payload_for name (some settings.remote_categories))
              (find_remote-eq-some (remote_name request settings) name p h) open_data refl))
  route_for-IsAllowed ask_before_remote none r h k = absurd (ground arith)
  route_for-IsAllowed ask_before_remote (some (name, p)) r h k =
      ask-IsAllowed name p (payload_for name none) r
        (find_remote-eq-some (remote_name request settings) name p h) refl k

  -- Every candidate of the route that the router builds is allowed by the policy of the request.
  pub build_route-IsAllowed :
      (r : RoutePlan P)
      → (build_route P m state registry request settings most now).1 ≡ ok r
      → All (IsAllowed request.policy) r.candidates
  unfolding build_route
  build_route-IsAllowed r h =
      route_for-IsAllowed request.policy (find_remote P registry (remote_name request settings)) r
        refl h
