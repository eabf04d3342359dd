-- ===== src/Router/Control.antt =====
-- crates/sentia-router/src/router.rs, status and consent_preview: the control requests that a router
-- answers besides a chat, with `ControlResponse` of api.rs. `providers.remotes.values()` is in the
-- order of the map.
pub mod Sent
use sentia_linux.Base.{
  ℕ, suc, Bool, true, false, ◌&&◌, not, Option, none, some, List, [], ◌∷◌, Text, codes, text_leb,
  is_empty, any, if◌then◌else◌, Result, ok, err,
}
use sentia_linux.Protocol.Errors.{
  ProviderHealth, healthy, unavailable, starting, ProviderState, failed, backoff, ProviderStatus,
}
use sentia_linux.Protocol.Transactions.{sort_by}
use sentia_linux.Router.Privacy.{
  PrivacyCategory, user_prompt, file_content, command_history, hostname, ip_address, process_name,
  journal, diagnostic, ContextItem, SanitizedPayload, PrivacyError, ConsentToken, Mint,
  ConsentState, sanitize, preview,
}
use sentia_linux.Router.Breakers.{CircuitBreakers, allow}
use sentia_linux.Router.Values.{Value, Items, nil, item, end, field, text, natural, array, object}
use sentia_linux.Router.Requests.{
  provider_unavailable, unsupported_capability, provider_failure, ErrorEvent, bound_tokens,
  privacy_error_event,
}
use sentia_linux.Router.Route.{ProviderRegistry, find_remote}

-- The responses of `status` and `consent_preview`.
pub data ControlResponse : Type 0 where
  status_response : Text → ProviderStatus → List ProviderStatus → ControlResponse
  consent_response : Text → ConsentToken → Value → List Text → ControlResponse

-- The names of the categories in JSON.
abbrev pub category_json : PrivacyCategory → Text
category_json user_prompt = codes "user_prompt"
category_json file_content = codes "file_content"
category_json command_history = codes "command_history"
category_json hostname = codes "hostname"
category_json ip_address = codes "ip_address"
category_json process_name = codes "process_name"
category_json journal = codes "journal"
category_json diagnostic = codes "diagnostic"

abbrev pub item_value : ContextItem → Value
item_value i = object (
    field (codes "category") (text (category_json i.category))
      (field (codes "content") (text i.content) (field (codes "source") (text i.source) end)))

abbrev pub item_values : List ContextItem → Items
item_values [] = nil
item_values (i ∷ items) = item (item_value i) (item_values items)

-- `SanitizedPayload::canonical_value`, whose keys are sorted.
abbrev pub canonical_value : SanitizedPayload → Value
canonical_value p = object (
    field (codes "context") (array (item_values p.context)) (
      field (codes "max_tokens") (natural p.max_tokens) (
        field (codes "provider") (text p.provider)
          (field (codes "question") (text p.question) end))))

abbrev pub unavailable_preview : Text → ErrorEvent
unavailable_preview request_id = record {
  request_id = request_id;
  code = provider_unavailable;
  message = codes "requested remote provider is not configured";
  retryable = false;
  failure = some (provider_failure unsupported_capability);
}

-- The answer to a consent preview, from the token that was issued.
unfoldable pub shown :
    Text
    → Text
    → SanitizedPayload
    → ConsentState × Result PrivacyError ConsentToken
    → ConsentState × Result ErrorEvent ControlResponse
shown request_id provider payload (state, ok token) =
    (state, ok (consent_response provider token (canonical_value payload) payload.redactions))
shown request_id provider payload (state, err e) = (state, err (privacy_error_event request_id e))

unfoldable pub issued :
    Mint
    → ConsentState
    → Text
    → Text
    → ℕ
    → ℕ
    → Result PrivacyError SanitizedPayload
    → ConsentState × Result ErrorEvent ControlResponse
unfolding shown
issued m state request_id provider now process_id (err e) =
    (state, err (privacy_error_event request_id e))
issued m state request_id provider now process_id (ok payload) =
    shown request_id provider payload (preview m state payload now process_id)

module _ (P : Type 0) where
  -- Only for a provider that is configured.
  unfoldable pub answered :
      Mint
      → ConsentState
      → Text
      → Text
      → ℕ
      → ℕ
      → Result PrivacyError SanitizedPayload
      → Option (Text × P)
      → ConsentState × Result ErrorEvent ControlResponse
  unfolding issued
  answered m state request_id provider now process_id made none =
      (state, err (unavailable_preview request_id))
  answered m state request_id provider now process_id made (some _) =
      issued m state request_id provider now process_id made

  unfoldable pub consent_preview :
      Mint
      → ConsentState
      → ProviderRegistry P
      → ℕ
      → Text
      → Text
      → Text
      → List ContextItem
      → Option ℕ
      → ℕ
      → ℕ
      → ConsentState × Result ErrorEvent ControlResponse
  unfolding answered
  consent_preview m state registry max_generation_tokens request_id provider question context
        max_tokens now process_id =
      answered m state request_id provider now process_id
        (sanitize provider question context (bound_tokens max_generation_tokens max_tokens) none)
        (find_remote P registry (some provider))

  -- A remote provider whose breaker is open is shown as unavailable.
  pub shown_status : ProviderStatus → CircuitBreakers × Bool → ProviderStatus
  shown_status s (breakers, true) = s
  shown_status s (breakers, false) = record s {
    health = unavailable;
    state = backoff;
    message = some (codes "remote provider circuit breaker is open");
  }

  -- The remote providers in turn; each question to the breaker may close it.
  pub remote_statuses :
      (P → Text)
      → (P → ProviderStatus)
      → (ℕ → ℕ)
      → ℕ
      → List (Text × P)
      → CircuitBreakers
      → CircuitBreakers × List ProviderStatus
  unfolding shown_status
  remote_statuses name health clock turn [] breakers = (breakers, [])
  remote_statuses name health clock turn (remote ∷ remotes) breakers =
      let allowed = allow breakers (name remote.1) (clock turn) in
      let rest = remote_statuses name health clock (suc turn) remotes allowed.0 in
      (rest.0, shown_status (health remote.1) allowed ∷ rest.1)

  abbrev pub is_ready : ProviderHealth → Bool
  is_ready healthy = true
  is_ready _ = false

  abbrev pub is_starting : ProviderHealth → Bool
  is_starting starting = true
  is_starting _ = false

  -- `make_status`, at the time `now`
  abbrev pub make_status : Text → ProviderHealth → ProviderState → Text → ℕ → ProviderStatus
  make_status provider health state message now = record {
    provider_id = provider;
    health = health;
    state = state;
    checked_at_ms = now;
    message = some message;
    observed_latency_ms = none;
  }

  abbrev pub local_status : Option P → (P → ProviderStatus) → ℕ → ProviderStatus
  local_status (some p) health now = health p
  local_status none health now =
      make_status (codes "local") unavailable failed (codes "local provider is not configured") now

  -- What the user reads.
  pub display : ProviderStatus → List ProviderStatus → Text
  display local remotes =
      if any (λ (s : ProviderStatus). is_ready s.health) remotes
      then codes "Remote AI connected"
      else if is_starting local.health
      then codes "Local AI starting"
      else if is_ready local.health && not (is_empty remotes)
      then codes "Remote unavailable - local AI active"
      else if is_ready local.health
      then codes "Local AI ready"
      else codes "Local AI unavailable"

  pub status :
      (P → Text)
      → (P → ProviderStatus)
      → (ℕ → ℕ)
      → ProviderRegistry P
      → CircuitBreakers
      → ℕ
      → CircuitBreakers × ControlResponse
  unfolding remote_statuses display
  status name health clock registry breakers now =
      let local = local_status registry.local health now in
      let asked = remote_statuses name health clock 0 registry.remotes breakers in
      let remotes =
        sort_by (λ (a b : ProviderStatus). text_leb a.provider_id b.provider_id) asked.1 in
      (asked.0, status_response (display local remotes) local remotes)
