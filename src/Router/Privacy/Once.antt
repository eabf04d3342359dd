-- ===== src/Router/Privacy/Once.antt =====
-- A consent is used once: histories of the consent state (privacy.rs, preview and consume_consent).
use sentia_linux.Base.{
  ℕ, ◌≡◌, ◌≢◌, subst, ◌∙◌, Option, none, some, List, [], ◌∷◌, Text, arith, lookup, text_eq, err,
  lookup-insert, lookup-remove, lookup-retain, leb,
}
use sentia_linux.Router.Privacy.{
  invalid_consent, SanitizedPayload, Mint, ConsentEntry, ConsentState, ConsentToken, preview,
  consume_entry, consume_consent,
}
use sentia_linux.Router.Privacy.Consent.{consume_consent-missing, lookup-consumed}
use sentia_linux.Router.Privacy.Preview.{previewed_token}

pub data Event : Type 0 where
  previews : (payload : SanitizedPayload) (now process_id : ℕ) → Event
  uses : (token : Option ConsentToken) (payload : SanitizedPayload) (now : ℕ) → Event

module _ (m : Mint) where
  unfoldable pub step : ConsentState → Event → ConsentState
  step s (previews payload now process_id) = (preview m s payload now process_id).0
  step s (uses token payload now) = (consume_consent m s token payload now).0

  unfoldable pub run : ConsentState → List Event → ConsentState
  unfolding step
  run s [] = s
  run s (event ∷ events) = run (step s event) events

  -- No preview of a history makes the id.
  abbrev pub EventAvoids : Text → ConsentState → Event → Type 0
  EventAvoids id s (previews payload now process_id) =
      previewed_token m s payload now process_id ≢ id
  EventAvoids id s (uses token payload now) = Unit

  abbrev pub Avoids : Text → ConsentState → List Event → Type 0
  Avoids id s [] = Unit
  Avoids id s (event ∷ events) = EventAvoids id s event × Avoids id (step s event) events

  preview-unknown :
      (s : ConsentState) (p : SanitizedPayload) (now process_id : ℕ) (id : Text)
      → previewed_token m s p now process_id ≢ id
      → lookup id s.entries ≡ none
      → lookup id (preview m s p now process_id).0.entries ≡ none
  unfolding preview
  preview-unknown s p now process_id id other h =
      let made = previewed_token m s p now process_id in
      let left = lookup-retain (λ q. leb now q.1.expires_at_ms) id s.entries h in
      lookup-insert made id _ _ ∙ ground (arith, left, other, text_eq.beq_iff made id)

  consume_entry-unknown :
      (s : ConsentState) (t : ConsentToken) (p : SanitizedPayload) (now : ℕ)
      (found : Option ConsentEntry) (id : Text)
      → lookup id s.entries ≡ none
      → lookup id (consume_entry m s t p now found).0.entries ≡ none
  unfolding consume_entry
  consume_entry-unknown s t p now none id h = h
  consume_entry-unknown s t p now (some e) id h =
      lookup-remove t.token_id id s.entries ∙ ground (arith, h, text_eq.beq_iff t.token_id id)

  step-unknown :
      (s : ConsentState) (event : Event) (id : Text)
      → EventAvoids id s event
      → lookup id s.entries ≡ none
      → lookup id (step s event).entries ≡ none
  unfolding step consume_consent
  step-unknown s (previews payload now process_id) id other h =
      preview-unknown s payload now process_id id other h
  step-unknown s (uses none payload now) id other h = h
  step-unknown s (uses (some t) payload now) id other h =
      consume_entry-unknown s t payload now (lookup t.token_id s.entries) id h

  run-unknown :
      (s : ConsentState) (events : List Event) (id : Text)
      → Avoids id s events
      → lookup id s.entries ≡ none
      → lookup id (run s events).entries ≡ none
  unfolding run
  run-unknown s [] id others h = h
  run-unknown s (event ∷ events) id (other, others) h =
      run-unknown (step s event) events id others (step-unknown s event id other h)

  -- Whatever came of the first use of a token, no later use of its id is accepted, after any history
  -- of previews and of uses, as long as no preview in between makes the same id again.
  pub consume_consent_twice :
      (s : ConsentState) (t u : ConsentToken) (p q : SanitizedPayload) (now later : ℕ)
      (events : List Event)
      → t.token_id ≡ u.token_id
      → Avoids t.token_id (consume_consent m s (some t) p now).0 events
      → (consume_consent m (run (consume_consent m s (some t) p now).0 events) (some u) q later).1
        ≡ err invalid_consent
  consume_consent_twice s t u p q now later events h others =
      let after = (consume_consent m s (some t) p now).0 in
      consume_consent-missing m (run after events) u q later (
        subst (λ id. lookup id (run after events).entries ≡ none) h
          (run-unknown after events t.token_id others (lookup-consumed m s t p now)))
