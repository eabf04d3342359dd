-- ===== src/Router/Route/Length.antt =====
-- A route has at most two candidates: a remote provider and the local one.
use sentia_linux.Base.{
  ℕ, ◌≤◌, Bool, true, false, Option, none, some, List, [], ◌∷◌, Text, arith, length, length-append,
  if◌then◌else◌, Result, ok, err,
}
use sentia_linux.Router.Privacy.{SanitizedPayload, Mint, ConsentState, PrivacyError}
use sentia_linux.Router.Route.{
  ProviderRegistry, RouteCandidate, RoutePlan, candidate, only_local, local_route, prefer_local,
  prefer_remote, consented, ask, route_for, build_route,
}
use sentia_linux.Router.Requests.{
  RoutingPolicy, local_only, local_preferred, remote_preferred, ask_before_remote, ChatInput,
  UserSettings, ErrorEvent, is_private,
}

module _ (P : Type 0) where
  only_local-length : (local : Option P) → length (only_local P local) ≤ 1
  only_local-length none = omega arith
  only_local-length (some p) = omega arith

  -- At most two candidates, where there is a plan.
  abbrev pub IsShort : Result ErrorEvent (RoutePlan P) → Type 0
  IsShort (ok r) = length r.candidates ≤ 2
  IsShort (err e) = Unit {0}

  prefer_local-IsShort :
      (route : List (RouteCandidate P)) (p : P) (made : Result PrivacyError SanitizedPayload)
      → length route ≤ 1
      → length (prefer_local P route p made).candidates ≤ 2
  unfolding prefer_local
  prefer_local-IsShort route p (err e) h = omega arith
  prefer_local-IsShort route p (ok x) h =
      omega (arith, length-append {0} route (candidate P p (some x) ∷ []))

  prefer_remote-IsShort :
      (route : List (RouteCandidate P)) (p : P) (made : Result PrivacyError SanitizedPayload)
      → length route ≤ 1
      → length (prefer_remote P route p made).candidates ≤ 2
  unfolding prefer_remote
  prefer_remote-IsShort route p (err e) h = omega arith
  prefer_remote-IsShort route p (ok x) h = omega arith

  consented-IsShort :
      (route : List (RouteCandidate P)) (p : P) (payload : SanitizedPayload) (id : Text)
      (given : ConsentState × Result PrivacyError (Unit {0}))
      → length route ≤ 1
      → IsShort (consented P route p payload id given).1
  unfolding consented
  consented-IsShort route p payload id (s, err e) h = tt
  consented-IsShort route p payload id (s, ok u) h = omega arith

  ask-IsShort :
      (m : Mint) (s : ConsentState) (route : List (RouteCandidate P)) (request : ChatInput)
      (now : ℕ) (p : P) (made : Result PrivacyError SanitizedPayload)
      → length route ≤ 1
      → IsShort (ask P m s route request now p made).1
  unfolding ask
  ask-IsShort m s route request now p (err e) h = tt
  ask-IsShort m s route request now p (ok x) h = consented-IsShort route p x _ _ h

  if-IsShort :
      (b : Bool) (r q : RoutePlan P)
      → length r.candidates ≤ 2
      → length q.candidates ≤ 2
      → length (if b then r else q).candidates ≤ 2
  if-IsShort true r q hr hq = hr
  if-IsShort false r q hr hq = hq

  module _ (m : Mint) (s : ConsentState) (registry : ProviderRegistry P) (request : ChatInput)
      (settings : UserSettings) (tokens now : ℕ) where
    local-length : length (local_route P registry) ≤ 1
    local-length = only_local-length registry.local

    route_for-IsShort :
        (policy : RoutingPolicy) (remote : Option (Text × P))
        → IsShort (route_for P m s registry request settings tokens now policy remote).1
    unfolding route_for
    route_for-IsShort local_only remote = omega (arith, local-length)
    route_for-IsShort local_preferred none = omega (arith, local-length)
    route_for-IsShort local_preferred (some (name, p)) =
        if-IsShort (is_private request.sensitivity) _ _ (omega (arith, local-length))
          (prefer_local-IsShort _ p _ local-length)
    route_for-IsShort remote_preferred none = omega (arith, local-length)
    route_for-IsShort remote_preferred (some (name, p)) =
        if-IsShort (is_private request.sensitivity) _ _ (omega (arith, local-length))
          (prefer_remote-IsShort _ p _ local-length)
    route_for-IsShort ask_before_remote none = tt
    route_for-IsShort ask_before_remote (some (name, p)) =
        ask-IsShort m s _ request now p _ local-length

  pub build_route-IsShort :
      (m : Mint) (s : ConsentState) (registry : ProviderRegistry P) (request : ChatInput)
      (settings : UserSettings) (most now : ℕ)
      → IsShort (build_route P m s registry request settings most now).1
  unfolding build_route
  build_route-IsShort m s registry request settings most now =
      route_for-IsShort m s registry request settings _ now request.policy _
