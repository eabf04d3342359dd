-- ===== src/Router/Privacy/Consent.antt =====
-- A consent is for one payload, one provider and one use (privacy.rs, preview and consume_consent).
use sentia_linux.Base.{
  ℕ, ◌≤◌, ◌<◌, ◌≡◌, refl, sym, ap, subst, ◌∙◌, ◌↔◌, false, Option, none, some, arith, lookup,
  text_eq, text_beq_iff, ok, err, reject, reject-eq-ok, reject-false, lookup-remove,
  option_text_beq, option_text_beq-some, Option-cases, inl, inr,
}
use sentia_linux.Router.Privacy.{
  invalid_consent, SanitizedPayload, Mint, ConsentEntry, ConsentState, ConsentToken, is_mismatch,
  consume_entry, consume_consent,
}

-- What makes a token a consent to a payload, given the entry that is stored for it.
pub record IsConsent (m : Mint) (t : ConsentToken) (e : ConsentEntry) (p : SanitizedPayload)
    (now : ℕ) : Type 0 where
  pub is_fresh : now ≤ t.expires_at_ms
  pub expires : t.expires_at_ms ≡ e.expires_at_ms
  pub is_ordered : t.issued_at_ms < t.expires_at_ms
  pub for_provider : e.provider ≡ p.provider
  pub for_payload : e.digest ≡ m.digest p
  pub token_payload : t.payload_sha256 ≡ e.digest
  pub token_provider : t.provider_id ≡ some e.provider

is_mismatch-IsConsent :
    (m : Mint) (t : ConsentToken) (e : ConsentEntry) (p : SanitizedPayload) (now : ℕ)
    → is_mismatch m t e p now ≡ false
    → IsConsent m t e p now
unfolding is_mismatch
is_mismatch-IsConsent m t e p now h = record {
  is_fresh = ground arith;
  expires = ground arith;
  is_ordered = ground arith;
  for_provider = (text_beq_iff e.provider p.provider).0 (ground arith);
  for_payload = (text_beq_iff e.digest (m.digest p)).0 (ground arith);
  token_payload = (text_beq_iff t.payload_sha256 e.digest).0 (ground arith);
  token_provider = option_text_beq-some t.provider_id e.provider (ground arith);
}

IsConsent-is_mismatch :
    (m : Mint) (t : ConsentToken) (e : ConsentEntry) (p : SanitizedPayload) (now : ℕ)
    → IsConsent m t e p now
    → is_mismatch m t e p now ≡ false
unfolding is_mismatch
IsConsent-is_mismatch m t e p now h = ground (
  arith,
  h.is_fresh,
  h.expires,
  h.is_ordered,
  (text_beq_iff e.provider p.provider).1 h.for_provider,
  (text_beq_iff e.digest (m.digest p)).1 h.for_payload,
  (text_beq_iff t.payload_sha256 e.digest).1 h.token_payload,
  ap (λ o. option_text_beq o (some e.provider)) h.token_provider,
  (text_beq_iff e.provider e.provider).1 refl,
)

consume_consent-found :
    (m : Mint) (s : ConsentState) (t : ConsentToken) (p : SanitizedPayload) (now : ℕ)
    (e : ConsentEntry)
    → lookup t.token_id s.entries ≡ some e
    → (consume_consent m s (some t) p now).1 ≡ reject (is_mismatch m t e p now) invalid_consent
unfolding consume_consent consume_entry
consume_consent-found m s t p now e found = ap (λ o. (consume_entry m s t p now o).1) found

pub consume_consent-missing :
    (m : Mint) (s : ConsentState) (t : ConsentToken) (p : SanitizedPayload) (now : ℕ)
    → lookup t.token_id s.entries ≡ none
    → (consume_consent m s (some t) p now).1 ≡ err invalid_consent
unfolding consume_consent consume_entry
consume_consent-missing m s t p now found = ap (λ o. (consume_entry m s t p now o).1) found

pub consume_consent-given_iff :
    (m : Mint) (s : ConsentState) (t : ConsentToken) (p : SanitizedPayload) (now : ℕ)
    → ((consume_consent m s (some t) p now).1 ≡ ok tt)
      ↔ ((e : ConsentEntry) × lookup t.token_id s.entries ≡ some e × IsConsent m t e p now)
consume_consent-given_iff m s t p now = elim (Option-cases (lookup t.token_id s.entries)) [
  | inl missing ↦ (
    λ h. absurd (ground (arith, h, consume_consent-missing m s t p now missing)),
    λ (e, found, _). absurd (ground (arith, found, missing)),
  )
  | inr (e, found) ↦ (
    λ h. (
      e,
      found,
      is_mismatch-IsConsent m t e p now (
          reject-eq-ok (is_mismatch m t e p now) invalid_consent
            (sym (consume_consent-found m s t p now e found) ∙ h)),
    ),
    λ (d, same, consent).
        consume_consent-found m s t p now d same
        ∙ reject-false (is_mismatch m t d p now) invalid_consent
            (IsConsent-is_mismatch m t d p now consent),
  )
]

-- With consent (a token whose expiry, order, provider and digests agree with the entry that is stored
-- for its id, with the payload and with the time), and only with it, a payload may be sent. Without
-- a token it may not.
pub consume_consent_iff :
    (m : Mint) (s : ConsentState) (o : Option ConsentToken) (p : SanitizedPayload) (now : ℕ)
    → ((consume_consent m s o p now).1 ≡ ok tt) ↔ (
        (t : ConsentToken) × (e : ConsentEntry) × (o ≡ some t)
        × (lookup t.token_id s.entries ≡ some e)
        × IsConsent m t e p now)
unfolding consume_consent
consume_consent_iff m s none p now = (λ h. absurd (cc), λ (t, e, given, _, _). absurd (cc))
consume_consent_iff m s (some t) p now = (
  λ h.
      let (e, found, consent) = (consume_consent-given_iff m s t p now).0 h in
      (t, e, refl, found, consent),
  λ (u, e, given, found, consent).
      let same : t ≡ u = ground (arith, given) in
      (consume_consent-given_iff m s t p now).1 (
        subst
          (λ v. (d : ConsentEntry) × (lookup v.token_id s.entries ≡ some d) × IsConsent m v d p now)
          (sym same) (e, found, consent)),
)

pub lookup-consumed :
    (m : Mint) (s : ConsentState) (t : ConsentToken) (p : SanitizedPayload) (now : ℕ)
    → lookup t.token_id (consume_consent m s (some t) p now).0.entries ≡ none
unfolding consume_consent consume_entry
lookup-consumed m s t p now = elim (Option-cases (lookup t.token_id s.entries)) [
  | inl missing ↦ rw missing missing
  | inr (e, found) ↦ rw found (
      ground (
        arith,
        lookup-remove t.token_id t.token_id s.entries,
        (text_beq_iff t.token_id t.token_id).1 refl,
      ))
]
