-- ===== src/Router/Privacy/Preview.antt =====
-- The consent that a preview hands out is accepted (privacy.rs, preview and consume_consent).
use sentia_linux.Base.{
  ℕ, ◌+◌, ◌%◌, ◌^◌, ◌≤◌, ◌<◌, ◌≡◌, refl, sym, ap, subst, ◌∙◌, some, List, Text, arith, leb,
  if◌then◌else◌, lookup, insert, length, retain, text_eq, text_beq_iff, ok, lookup-insert,
}
use sentia_linux.Router.Privacy.{
  SanitizedPayload, Mint, ConsentEntry, ConsentState, ConsentToken, bounded_token, preview,
  consume_consent, consent_lifetime_ms, xor,
}
use sentia_linux.Router.Privacy.Consent.{consume_consent-given_iff}

bounded_token-eq-ok :
    (token digest provider : Text) (now expires_at_ms : ℕ) (t : ConsentToken)
    → bounded_token token digest provider now expires_at_ms ≡ ok t
    → t ≡ record {
      token_id = token;
      payload_sha256 = digest;
      provider_id = some provider;
      issued_at_ms = now;
      expires_at_ms = expires_at_ms;
    }
unfolding bounded_token
bounded_token-eq-ok token digest provider now expires_at_ms t h = ground arith

wraps_not : (n : ℕ) → n < 2 ^ 64 → n % 2 ^ 64 ≡ n
wraps_not n h = omega arith

fresh-consent :
    (m : Mint) (secret : List ℕ) (kept : List (Text × ConsentEntry)) (token : Text)
    (p : SanitizedPayload) (now later : ℕ) (t : ConsentToken)
    → later ≤ now + consent_lifetime_ms
    → bounded_token token (m.digest p) p.provider now (now + consent_lifetime_ms) ≡ ok t
    → (consume_consent m
        (record {
          secret = secret;
          entries =
              insert token
                (record {
                  provider = p.provider;
                  digest = m.digest p;
                  expires_at_ms = now + consent_lifetime_ms;
                })
                kept;
        })
        (some t)
        p
        later).1
      ≡ ok tt
fresh-consent m secret kept token p now later t in_time h =
    let entry : ConsentEntry = record {
      provider = p.provider;
      digest = m.digest p;
      expires_at_ms = now + consent_lifetime_ms;
    } in
    let state : ConsentState = record { secret = secret; entries = insert token entry kept } in
    let issued =
      bounded_token-eq-ok token (m.digest p) p.provider now (now + consent_lifetime_ms) t h in
    let found : lookup t.token_id state.entries ≡ some entry =
      ap (λ (u : ConsentToken). lookup u.token_id state.entries) issued
      ∙ lookup-insert token token entry kept
      ∙ ap (λ b. if b then some entry else lookup token kept) ((text_beq_iff token token).1 refl) in
    (consume_consent-given_iff m state t p later).1 (
      entry,
      found,
      record {
        is_fresh = subst (λ (u : ConsentToken). later ≤ u.expires_at_ms) (sym issued) in_time;
        expires = ap (λ (u : ConsentToken). u.expires_at_ms) issued;
        is_ordered =
            subst (λ (u : ConsentToken). u.issued_at_ms < u.expires_at_ms) (sym issued)
              (omega arith);
        for_provider = refl;
        for_payload = refl;
        token_payload = ap (λ (u : ConsentToken). u.payload_sha256) issued;
        token_provider = ap (λ (u : ConsentToken). u.provider_id) issued;
      },
    )

abbrev pub previewed_token : Mint → ConsentState → SanitizedPayload → ℕ → ℕ → Text
previewed_token m s p now process_id =
    m.token s.secret p.provider (m.digest p)
      (xor 64 (xor 64 (length (retain (λ q. leb now q.1.expires_at_ms) s.entries)) now) process_id)

abbrev stored : Mint → ConsentState → SanitizedPayload → ℕ → ℕ → ℕ → ConsentState
stored m s p now process_id expires_at_ms = record {
  secret = s.secret;
  entries =
      insert (previewed_token m s p now process_id)
        (record { provider = p.provider; digest = m.digest p; expires_at_ms = expires_at_ms })
        (retain (λ q. leb now q.1.expires_at_ms) s.entries);
}

-- The consent that a preview returns is accepted for the payload that was shown, until it expires
-- five minutes later, in a time where the expiry fits into 64 bits.
pub preview-consume_consent :
    (m : Mint) (s : ConsentState) (p : SanitizedPayload) (now process_id later : ℕ)
    (t : ConsentToken)
    → now + consent_lifetime_ms < 2 ^ 64
    → (preview m s p now process_id).1 ≡ ok t
    → later ≤ now + consent_lifetime_ms
    → (consume_consent m (preview m s p now process_id).0 (some t) p later).1 ≡ ok tt
unfolding preview
preview-consume_consent m s p now process_id later t fits h in_time =
    subst
      (λ x.
        bounded_token (previewed_token m s p now process_id) (m.digest p) p.provider now x ≡ ok t
        → (consume_consent m (stored m s p now process_id x) (some t) p later).1 ≡ ok tt)
      (sym (wraps_not (now + consent_lifetime_ms) fits))
      (fresh-consent m s.secret (retain (λ q. leb now q.1.expires_at_ms) s.entries)
        (previewed_token m s p now process_id) p now later t in_time)
      h
