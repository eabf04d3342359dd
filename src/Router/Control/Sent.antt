-- ===== src/Router/Control/Sent.antt =====
-- What a consent preview shows is what is sent: consent_preview and build_route of router.rs together.
use sentia_linux.Base.{ℕ, ◌≡◌, none, some, List, ◌∷◌, Text, text_eq, Result, ok}
use sentia_linux.Router.Privacy.{
  SanitizedPayload, PrivacyError, ConsentToken, Mint, ConsentState, preview,
}
use sentia_linux.Router.Values.{Value}
use sentia_linux.Router.Requests.{ChatInput, UserSettings, ErrorEvent}
use sentia_linux.Router.Route.{ProviderRegistry, RoutePlan, candidate, local_route, plan}
use sentia_linux.Router.Control.{canonical_value}

-- The payload behind the answer to a preview.
pub record IsShown (m : Mint) (state : ConsentState) (now process_id : ℕ) (token : ConsentToken)
    (value : Value) (redactions : List Text) (made : Result PrivacyError SanitizedPayload)
    (after : ConsentState) : Type 0 where
  pub payload : SanitizedPayload
  pub is_made : made ≡ ok payload
  pub is_issued : (preview m state payload now process_id).1 ≡ ok token
  pub is_after : after ≡ (preview m state payload now process_id).0
  pub is_value : canonical_value payload ≡ value
  pub is_redacted : payload.redactions ≡ redactions

module _ (P : Type 0) (m : Mint) (registry : ProviderRegistry P) (p : P) (request : ChatInput)
    (settings : UserSettings) (most later : ℕ) where
  -- The route with the remote provider first, which sees the payload.
  abbrev pub Sends : SanitizedPayload → ConsentState × Result ErrorEvent (RoutePlan P) → Type 0
  Sends payload answer =
      answer.1 ≡ ok (plan P (candidate P p (some payload) ∷ local_route P registry) none)
