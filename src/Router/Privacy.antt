-- ===== src/Router/Privacy.antt =====
-- crates/sentia-router/src/privacy.rs: what is sent to a remote provider, and the one-time consent to
-- it. SHA-256 over serde_json's bytes is the parameter `Mint`; a time is an argument. A string is its
-- code points.
pub mod Disclosure
pub mod Consent
pub mod Preview
pub mod Once
use sentia_linux.Base.{
  ℕ, zero, suc, ◌+◌, ◌*◌, ◌/◌, ◌%◌, ◌^◌, Bool, false, ◌||◌, not, Option, none, some, List, [], ◌∷◌,
  ◌++◌, Text, leb, ltb, ◌==◌, if◌then◌else◌, length, retain, any, lookup, insert, remove, text_eq,
  Result, ok, err, ◌>>=◌, ◌>>◌, reject, ok_or, sort_texts, dedup, option_text_beq,
}
pub use sentia_linux.Protocol.Requests.{ConsentToken}
use sentia_linux.Router.Redaction.{len, forbidden_source, redact_secrets, safe_source}

pub data PrivacyCategory : Type 0 where
  user_prompt file_content command_history hostname ip_address process_name journal diagnostic :
      PrivacyCategory

-- The derived order of the categories.
abbrev pub rank : PrivacyCategory → ℕ
rank user_prompt = 0
rank file_content = 1
rank command_history = 2
rank hostname = 3
rank ip_address = 4
rank process_name = 5
rank journal = 6
rank diagnostic = 7

pub record ContextItem : Type 0 where
  pub category : PrivacyCategory
  pub source : Text
  pub content : Text

pub record SanitizedPayload : Type 0 where
  pub provider : Text
  pub question : Text
  pub context : List ContextItem
  pub max_tokens : ℕ
  pub redactions : List Text

pub data PrivacyError : Type 0 where
  category_denied : PrivacyCategory → PrivacyError
  forbidden_source_error invalid_consent too_large : PrivacyError

abbrev pub max_context_item_bytes : ℕ
max_context_item_bytes = 65536

abbrev pub max_total_context_bytes : ℕ
max_total_context_bytes = 262144

abbrev pub consent_lifetime_ms : ℕ
consent_lifetime_ms = 300000

-- `saturating_add` on usize
abbrev pub saturating_add : ℕ → ℕ → ℕ
saturating_add a b = if ltb 18446744073709551615 (a + b) then 18446744073709551615 else a + b

-- Whether an optional set of allowed categories leaves this one out.
abbrev pub is_denied : Option (List PrivacyCategory) → PrivacyCategory → Bool
is_denied none c = false
is_denied (some allowed) c = not (any (λ a. rank a == rank c) allowed)

-- The loop over the context: the sanitized items, and what was redacted in them.
unfoldable pub sanitize_items :
    Option (List PrivacyCategory)
    → ℕ
    → List ContextItem
    → Result PrivacyError (List ContextItem × List Text)
sanitize_items allowed total [] = ok ([], [])
sanitize_items allowed total (item ∷ items) = do
  reject (forbidden_source item.source) forbidden_source_error
  reject (is_denied allowed item.category) (category_denied item.category)
  reject (ltb max_context_item_bytes (len item.content)) too_large
  reject (ltb max_total_context_bytes (saturating_add total (len item.content))) too_large
  rest ← sanitize_items allowed (saturating_add total (len item.content)) items
  let clean = redact_secrets item.content
  ok (
    record { category = item.category; source = safe_source item.source; content = clean.0 }
        ∷ rest.0,
    clean.1 ++ rest.1,
  )

unfoldable pub sanitize :
    Text
    → Text
    → List ContextItem
    → ℕ
    → Option (List PrivacyCategory)
    → Result PrivacyError SanitizedPayload
unfolding sanitize_items
sanitize provider question context max_tokens allowed_categories = do
  reject (ltb max_context_item_bytes (len question)) too_large
  reject (is_denied allowed_categories user_prompt) (category_denied user_prompt)
  let asked = redact_secrets question
  sanitized ← sanitize_items allowed_categories (len asked.0) context
  ok (record {
    provider = provider;
    question = asked.0;
    context = sanitized.0;
    max_tokens = max_tokens;
    redactions = dedup (sort_texts (asked.1 ++ sanitized.1));
  })

-- The digest of a payload, and the token of a secret, a provider, a digest and a nonce.
pub record Mint : Type 0 where
  pub digest : SanitizedPayload → Text
  pub token : List ℕ → Text → Text → ℕ → Text

pub record ConsentEntry : Type 0 where
  pub provider : Text
  pub digest : Text
  pub expires_at_ms : ℕ

pub record ConsentState : Type 0 where
  pub secret : List ℕ
  pub entries : List (Text × ConsentEntry)

-- `BoundedString::<MAX>::new`
abbrev pub bounded : ℕ → Text → Option Text
bounded most s = if ltb most (len s) then none else some s

-- `^` on the first n bits
unfoldable pub xor : ℕ → ℕ → ℕ → ℕ
xor zero a b = 0
xor (suc n) a b = (a % 2 + b % 2) % 2 + 2 * xor n (a / 2) (b / 2)

-- The token that a preview returns, within the bounds of its fields.
unfoldable pub bounded_token : Text → Text → Text → ℕ → ℕ → Result PrivacyError ConsentToken
bounded_token token digest provider now expires_at_ms = do
  token_id ← ok_or (bounded 64 token) too_large
  payload_sha256 ← ok_or (bounded 64 digest) too_large
  provider_id ← ok_or (bounded 48 provider) too_large
  ok (record {
    token_id = token_id;
    payload_sha256 = payload_sha256;
    provider_id = some provider_id;
    issued_at_ms = now;
    expires_at_ms = expires_at_ms;
  })

unfoldable pub preview :
    Mint → ConsentState → SanitizedPayload → ℕ → ℕ → ConsentState × Result PrivacyError ConsentToken
unfolding bounded_token
preview m state payload now process_id =
    let expires_at_ms = (now + consent_lifetime_ms) % 2 ^ 64 in
    let digest = m.digest payload in
    let kept = retain (λ p. leb now p.1.expires_at_ms) state.entries in
    let nonce = xor 64 (xor 64 (length kept) now) process_id in
    let token = m.token state.secret payload.provider digest nonce in
    let entry : ConsentEntry = record {
      provider = payload.provider;
      digest = digest;
      expires_at_ms = expires_at_ms;
    } in
    (
      record state { entries = insert token entry kept },
      bounded_token token digest payload.provider now expires_at_ms,
    )

-- What refuses an entry that was found for a token.
pub is_mismatch : Mint → ConsentToken → ConsentEntry → SanitizedPayload → ℕ → Bool
is_mismatch m token entry payload now =
    ltb token.expires_at_ms now
    || not (token.expires_at_ms == entry.expires_at_ms)
    || leb token.expires_at_ms token.issued_at_ms
    || not (text_eq.beq entry.provider payload.provider)
    || not (text_eq.beq entry.digest (m.digest payload))
    || not (text_eq.beq token.payload_sha256 entry.digest)
    || not (option_text_beq token.provider_id (some entry.provider))

pub consume_entry :
    Mint
    → ConsentState
    → ConsentToken
    → SanitizedPayload
    → ℕ
    → Option ConsentEntry
    → ConsentState × Result PrivacyError (Unit {0})
unfolding is_mismatch
consume_entry m state token payload now none = (state, err invalid_consent)
consume_entry m state token payload now (some entry) = (
  record state { entries = remove token.token_id state.entries },
  reject (is_mismatch m token entry payload now) invalid_consent,
)

pub consume_consent :
    Mint
    → ConsentState
    → Option ConsentToken
    → SanitizedPayload
    → ℕ
    → ConsentState × Result PrivacyError (Unit {0})
unfolding consume_entry
consume_consent m state none payload now = (state, err invalid_consent)
consume_consent m state (some token) payload now =
    consume_entry m state token payload now (lookup token.token_id state.entries)
