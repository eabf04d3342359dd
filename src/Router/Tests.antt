-- ===== src/Router/Tests.antt =====
-- The privacy boundary at work.
mod Chats
use sentia_linux.Base.{
  text_beq_iff, Option, ℕ, ◌≡◌, ◌≢◌, ◌↔◌, ◌+◌, refl, true, false, none, some, List, [], ◌∷◌, ◌++◌,
  Text, codes, arith, All, lookup, leb, if◌then◌else◌, length, suc, rsplit_once, text_eq, ok, err,
}
use sentia_linux.Router.Redaction.{
  split_inclusive, trim_end, secret_label, redact_split, redact_token, redact_tokens,
  redact_secrets, forbidden_source, safe_source,
}
use sentia_linux.Router.Redaction.Clean.{is_clean, words, redact_secrets-is_clean}
use sentia_linux.Router.Privacy.{
  PrivacyCategory, user_prompt, file_content, ContextItem, SanitizedPayload, invalid_consent,
  sanitize_items, sanitize, Mint, ConsentEntry, ConsentState, ConsentToken, preview,
  consume_consent,
}
use sentia_linux.Router.Privacy.Disclosure.{IsDisclosure, sanitize-eq-ok}
use sentia_linux.Router.Privacy.Consent.{IsConsent, consume_consent_iff}
use sentia_linux.Router.Privacy.Once.{Event, previews, uses, run, Avoids, consume_consent_twice}
use sentia_linux.Router.Breakers.{CircuitBreakers, new_breakers, allow, success}
use sentia_linux.Router.Breakers.Opening.{fail_at, allow-fail_at}
use sentia_linux.Router.Route.{
  ProviderRegistry, RoutePlan, candidate, build_route, route_for, find_remote, prefer_remote,
}
use sentia_linux.Router.Requests.{
  remote_preferred, public_data, ChatInput, UserSettings, bound_tokens,
}
use sentia_linux.Router.Route.Fallback.{IsServed, build_route-IsServed}
use sentia_linux.Router.Requests.{ask_before_remote}
use sentia_linux.Router.Route.Boundary.{IsAllowed, build_route-IsAllowed}

abbrev header : Text
header = codes "Authorization: Bearer abc password=x"

redacts_header : (redact_secrets header).0 ≡ codes "Authorization: Bearer [REDACTED] [REDACTED]"
unfolding redact_secrets redact_tokens redact_token redact_split split_inclusive trim_end
    secret_label
redacts_header = refl

redact_secrets-is_clean_example : is_clean false (words (redact_secrets header).0) ≡ true
redact_secrets-is_clean_example = redact_secrets-is_clean header

-- Two spaces behind a header: the empty word between them is what gets redacted.
leaks_after_two_spaces :
    (redact_secrets (codes "Authorization:  abc")).0 ≡ codes "Authorization: [REDACTED] abc"
unfolding redact_secrets redact_tokens redact_token redact_split split_inclusive trim_end
    secret_label
leaks_after_two_spaces = refl

abbrev note : ContextItem
note = record {
  category = file_content;
  source = codes "/home/a/notes.txt";
  content = codes "the token=abc";
}

abbrev allowed : List PrivacyCategory
allowed = user_prompt ∷ file_content ∷ []

abbrev payload : SanitizedPayload
payload = record {
  provider = codes "acme";
  question = codes "why";
  context =
      record {
        category = file_content;
        source = codes "notes.txt";
        content = codes "the [REDACTED]";
      }
      ∷ [];
  max_tokens = 100;
  redactions = codes "credential_assignment" ∷ [];
}

sanitize-eq-ok_example :
    IsDisclosure (some allowed) (codes "acme") (codes "why") (note ∷ []) payload
unfolding sanitize sanitize_items redact_secrets redact_tokens redact_token redact_split
    split_inclusive trim_end secret_label forbidden_source safe_source rsplit_once
sanitize-eq-ok_example =
    sanitize-eq-ok (some allowed) (codes "acme") (codes "why") (note ∷ []) 100 payload refl

abbrev pub mint : Mint
mint = record {
  digest = λ p. p.question;
  token = λ secret provider digest nonce. provider ++ digest;
}

abbrev pub guard : ConsentState
guard = record { secret = []; entries = [] }

abbrev token : ConsentToken
token = record {
  token_id = codes "acmewhy";
  payload_sha256 = codes "why";
  provider_id = some (codes "acme");
  issued_at_ms = 1000;
  expires_at_ms = 301000;
}

-- The guard after the payload was shown.
abbrev previewed : ConsentState
previewed = (preview mint guard payload 1000 7).0

consume_consent_iff_example :
    ((consume_consent mint previewed (some token) payload 2000).1 ≡ ok tt) ↔ (
      (t : ConsentToken) × (e : ConsentEntry) × (◌≡◌ {A = Option ConsentToken}
        (some token)
        (some t))
      × (lookup t.token_id previewed.entries ≡ some e)
      × IsConsent mint t e payload 2000)
consume_consent_iff_example = consume_consent_iff mint previewed (some token) payload 2000

-- Between two uses, another question is shown and the first token is used again.
abbrev between : List Event
between =
    previews (record (payload) { question = codes "how" }) 2001 7
    ∷ uses (some token) payload 2002
    ∷ []

other_token :
    Avoids mint token.token_id (consume_consent mint previewed (some token) payload 2000).0 between
other_token =
    (λ e. absurd (ground (arith, (text_beq_iff (codes "acmehow") (codes "acmewhy")).1 e)), (tt, tt))

consume_consent_twice_example :
    (consume_consent mint
      (run mint (consume_consent mint previewed (some token) payload 2000).0 between)
      (some token)
      payload
      2003).1
    ≡ err invalid_consent
consume_consent_twice_example =
    consume_consent_twice mint previewed token token payload payload 2000 2003 between refl
      other_token

abbrev breakers : CircuitBreakers
breakers = new_breakers 2 60

allow-fail_at_example :
    (allow
      (fail_at (success breakers (codes "acme")) (codes "acme") (10 ∷ 5 ∷ []))
      (codes "acme")
      20).1
    ≡ (if leb breakers.threshold (suc (length {A = ℕ} (5 ∷ [])))
        then leb (10 + breakers.cooldown) 20
        else true)
allow-fail_at_example = allow-fail_at breakers (codes "acme") 10 (5 ∷ []) 20 (omega arith)

abbrev pub request : ChatInput
request = record {
  request_id = codes "r";
  session_id = codes "s";
  question = codes "why";
  policy = remote_preferred;
  provider = some (codes "acme");
  context = note ∷ [];
  consent_token = none;
  max_tokens = some 100;
  sensitivity = public_data;
}

abbrev pub settings : UserSettings
settings = record {
  version = codes "sentia.v1";
  default_policy = remote_preferred;
  preferred_remote_provider = none;
  remote_categories = allowed;
}

-- Provider 0 is the local one.
abbrev pub registry : ProviderRegistry ℕ
registry = record { local = some 0; remotes = (codes "acme", 1) ∷ [] }

abbrev route : RoutePlan ℕ
route = record {
  candidates = candidate ℕ 1 (some payload) ∷ candidate ℕ 0 none ∷ [];
  initial_fallback_reason = none;
}

build_route-IsAllowed_example :
    All (IsAllowed ℕ mint guard registry request settings 1000 2000 request.policy) route.candidates
unfolding build_route route_for find_remote prefer_remote bound_tokens sanitize sanitize_items
    redact_secrets redact_tokens redact_token redact_split split_inclusive trim_end secret_label
    forbidden_source safe_source rsplit_once
build_route-IsAllowed_example =
    build_route-IsAllowed ℕ mint guard registry request settings 1000 2000 route refl

remote_is_not_ask : request.policy ≢ ask_before_remote
remote_is_not_ask e = cc

build_route-IsServed_example :
    IsServed ℕ registry 0 refl mint guard request settings 1000 2000
      (build_route ℕ mint guard registry request settings 1000 2000)
build_route-IsServed_example =
    build_route-IsServed ℕ registry 0 refl mint guard request settings 1000 2000 remote_is_not_ask

abbrev asking : ChatInput
asking = record request { policy = ask_before_remote; consent_token = some token }
