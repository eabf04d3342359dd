-- ===== src/Protocol/Requests/Checked.antt =====
-- What the checks of requests and results establish.
use sentia_linux.Base.{
  ◌≤◌, ◌<◌, ◌≡◌, ◌↔◌, refl, true, Option, none, some, Text, arith, length, text_beq, text_beq_iff,
  ok,
}
use sentia_linux.Protocol.Errors.{ensure, ensure_iff, then_iff}
use sentia_linux.Protocol.Requests.{
  protocol_version, RoutingPolicy, local_only, local_preferred, remote_preferred, ask_before_remote,
  Payload, ConsentToken, validate_payload, validate_request_payload, RouterRequest, has_consent,
  expires_later, validate_request,
}

abbrev pub IsPayload : Payload → Type 0
IsPayload p = (length p.content ≤ 262144) × (length p.content ≡ p.byte_count)

validate_payload_iff : (a b : Text) (p : Payload) → (validate_payload a b p ≡ ok tt) ↔ IsPayload p
unfolding validate_payload
validate_payload_iff a b p = ground arith

-- What a request that passes has, besides its version.
pub record IsRequest (r : RouterRequest) : Type 0 where
  pub bounded : IsPayload r.payload
  pub consented : r.policy ≡ ask_before_remote → (t : ConsentToken) × (r.consent_token ≡ some t)
  pub lives : (t : ConsentToken) → r.consent_token ≡ some t → t.issued_at_ms < t.expires_at_ms

has_consent_sound :
    (policy : RoutingPolicy) (token : Option ConsentToken)
    → has_consent policy token ≡ true
    → policy ≡ ask_before_remote
    → (t : ConsentToken) × (token ≡ some t)
unfolding has_consent
has_consent_sound policy none h e = absurd (ground arith)
has_consent_sound policy (some t) h e = (t, refl)

has_consent_complete :
    (policy : RoutingPolicy) (token : Option ConsentToken)
    → (policy ≡ ask_before_remote → (t : ConsentToken) × (token ≡ some t))
    → has_consent policy token ≡ true
unfolding has_consent
has_consent_complete ask_before_remote none h = absurd (cc (h refl).1)
has_consent_complete ask_before_remote (some t) h = refl
has_consent_complete local_only token h = refl
has_consent_complete local_preferred token h = refl
has_consent_complete remote_preferred token h = refl

expires_later_sound :
    (token : Option ConsentToken) (t : ConsentToken)
    → expires_later token ≡ true
    → token ≡ some t
    → t.issued_at_ms < t.expires_at_ms
unfolding expires_later
expires_later_sound none t h e = absurd (cc)
expires_later_sound (some u) t h e = ground arith

expires_later_complete :
    (token : Option ConsentToken)
    → ((t : ConsentToken) → token ≡ some t → t.issued_at_ms < t.expires_at_ms)
    → expires_later token ≡ true
unfolding expires_later
expires_later_complete none h = refl
expires_later_complete (some t) h = ground (arith, h t refl)

-- `RouterRequest::validate` accepts a request exactly if its version is sentia.v1, its payload has
-- at most 262144 bytes and declares their number, ASK_BEFORE_REMOTE comes with a consent token, and
-- a token expires after it was issued.
pub validate_request_iff :
    (r : RouterRequest)
    → (validate_request r ≡ ok tt) ↔ ((r.version ≡ protocol_version) × IsRequest r)
unfolding validate_request validate_request_payload
validate_request_iff r = (
  λ h.
      let (v, h') = (then_iff (ensure (text_beq r.version protocol_version) _ _) _).0 h in
      let (p, h'') = (then_iff (validate_request_payload r.payload) _).0 h' in
      let (c, e) = (then_iff (ensure (has_consent r.policy r.consent_token) _ _) _).0 h'' in
      (
        (text_beq_iff r.version protocol_version).0 ((ensure_iff _ _ _).0 v),
        record {
          bounded = (validate_payload_iff _ _ r.payload).0 p;
          consented = has_consent_sound r.policy r.consent_token ((ensure_iff _ _ _).0 c);
          lives = λ t. expires_later_sound r.consent_token t ((ensure_iff _ _ _).0 e);
        },
      ),
  λ (v, i). (then_iff (ensure (text_beq r.version protocol_version) _ _) _).1 (
    (ensure_iff _ _ _).1 ((text_beq_iff r.version protocol_version).1 v),
    (then_iff (validate_request_payload r.payload) _).1 (
      (validate_payload_iff _ _ r.payload).1 i.bounded,
      (then_iff (ensure (has_consent r.policy r.consent_token) _ _) _).1 (
        (ensure_iff _ _ _).1 (has_consent_complete r.policy r.consent_token i.consented),
        (ensure_iff _ _ _).1 (expires_later_complete r.consent_token i.lives),
      ),
    ),
  ),
)
