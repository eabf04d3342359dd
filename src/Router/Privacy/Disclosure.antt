-- ===== src/Router/Privacy/Disclosure.antt =====
-- What a sanitized payload discloses (privacy.rs, sanitize).
use sentia_linux.Base.{
  ℕ, ◌+◌, ◌≤◌, ◌≡◌, sym, ap, subst, ◌∙◌, true, false, Option, List, [], ◌∷◌, Text, arith, ltb, All,
  map, ok, reject, bind-eq-ok, then-eq-ok, reject-eq-ok, ok-injective, ◌⊎◌, inl, inr, refl,
}
use sentia_linux.Router.Redaction.{len, forbidden_source, redact_secrets, safe_source}
use sentia_linux.Router.Redaction.Clean.{is_clean, words, redact_secrets-is_clean}
use sentia_linux.Router.Privacy.{
  PrivacyCategory, user_prompt, ContextItem, SanitizedPayload, max_context_item_bytes,
  max_total_context_bytes, is_denied, saturating_add, sanitize_items, sanitize,
}

-- An item that may be disclosed.
abbrev pub IsPermitted : Option (List PrivacyCategory) → ContextItem → Type 0
IsPermitted allowed item =
    forbidden_source item.source ≡ false
    × is_denied allowed item.category ≡ false
    × len item.content ≤ max_context_item_bytes

-- What is disclosed of an item.
abbrev pub disclosed : ContextItem → ContextItem
disclosed item = record {
  category = item.category;
  source = safe_source item.source;
  content = (redact_secrets item.content).0;
}

abbrev pub total_len : List ContextItem → ℕ
total_len [] = 0
total_len (item ∷ items) = len item.content + total_len items

sanitize_items-eq-ok :
    (allowed : Option (List PrivacyCategory)) (total : ℕ) (items : List ContextItem)
    (r : List ContextItem × List Text)
    → sanitize_items allowed total items ≡ ok r
    → total ≤ max_total_context_bytes
    → All (IsPermitted allowed) items
      × r.0 ≡ map disclosed items
      × total + total_len items ≤ max_total_context_bytes
unfolding sanitize_items
sanitize_items-eq-ok allowed total [] r h k = (tt, ground arith, ground arith)
sanitize_items-eq-ok allowed total (item ∷ items) r h k =
    let sum = saturating_add total (len item.content) in
    let (source, h1) = then-eq-ok (reject (forbidden_source item.source) _) _ h in
    let (category, h2) = then-eq-ok (reject (is_denied allowed item.category) _) _ h1 in
    let (size, h3) = then-eq-ok (reject (ltb max_context_item_bytes (len item.content)) _) _ h2 in
    let (room, h4) = then-eq-ok (reject (ltb max_total_context_bytes sum) _) _ h3 in
    let (rest, later, h5) = bind-eq-ok (sanitize_items allowed sum items) _ h4 in
    let fits = reject-eq-ok _ _ room in
    let (permitted, same, total_fits) =
      sanitize_items-eq-ok allowed sum items rest later (ground (arith, fits)) in
    (
      (
        (reject-eq-ok _ _ source, reject-eq-ok _ _ category, ground (arith, reject-eq-ok _ _ size)),
        permitted,
      ),
      ap (λ p. p.0) (sym (ok-injective h5)) ∙ ap (λ l. disclosed item ∷ l) same,
      ground (arith, fits, total_fits),
    )

sanitize_items-within :
    (allowed : Option (List PrivacyCategory)) (total : ℕ) (items : List ContextItem)
    (r : List ContextItem × List Text)
    → sanitize_items allowed total items ≡ ok r
    → All (IsPermitted allowed) items
      × r.0 ≡ map disclosed items
      × ((items ≡ []) ⊎ (total + total_len items ≤ max_total_context_bytes))
unfolding sanitize_items
sanitize_items-within allowed total [] r h = (tt, ground arith, inl refl)
sanitize_items-within allowed total (item ∷ items) r h =
    let sum = saturating_add total (len item.content) in
    let (source, h1) = then-eq-ok (reject (forbidden_source item.source) _) _ h in
    let (category, h2) = then-eq-ok (reject (is_denied allowed item.category) _) _ h1 in
    let (size, h3) = then-eq-ok (reject (ltb max_context_item_bytes (len item.content)) _) _ h2 in
    let (room, h4) = then-eq-ok (reject (ltb max_total_context_bytes sum) _) _ h3 in
    let fits = reject-eq-ok _ _ room in
    let (permitted, same, total_fits) =
      sanitize_items-eq-ok allowed total (item ∷ items) r h (ground (arith, fits)) in
    (permitted, same, inr total_fits)

-- What a payload that passed the privacy boundary says of its request.
pub record IsDisclosure (allowed : Option (List PrivacyCategory)) (provider question : Text)
    (context : List ContextItem) (p : SanitizedPayload) : Type 0 where
  pub to_provider : p.provider ≡ provider
  pub prompt_permitted : is_denied allowed user_prompt ≡ false
  pub context_permitted : All (IsPermitted allowed) context
  pub shown_context : p.context ≡ map disclosed context
  pub shown_question : p.question ≡ (redact_secrets question).0
  pub question_fits : len question ≤ max_context_item_bytes
  pub context_fits : (context ≡ []) ⊎ (len p.question + total_len context ≤ max_total_context_bytes)
  pub question_clean : is_clean false (words p.question) ≡ true
  pub context_clean : All (λ (i : ContextItem). is_clean false (words i.content) ≡ true) p.context

disclosed-is_clean :
    (items : List ContextItem)
    → All (λ (i : ContextItem). is_clean false (words i.content) ≡ true) (map disclosed items)
disclosed-is_clean [] = tt
disclosed-is_clean (i ∷ items) = (redact_secrets-is_clean i.content, disclosed-is_clean items)

-- A request that passes the privacy boundary names no forbidden source and no category that is not
-- allowed. Its question has at most `max_context_item_bytes`, so has each item, and the redacted
-- question with the items (where there are any) has at most `max_total_context_bytes`. Of its
-- question and of each item it shows a redacted text whose words are clean, in the order of the
-- request.
pub sanitize-eq-ok :
    (allowed : Option (List PrivacyCategory)) (provider question : Text)
    (context : List ContextItem) (max_tokens : ℕ) (p : SanitizedPayload)
    → sanitize provider question context max_tokens allowed ≡ ok p
    → IsDisclosure allowed provider question context p
unfolding sanitize
sanitize-eq-ok allowed provider question context max_tokens p h =
    let (size, h1) = then-eq-ok (reject (ltb max_context_item_bytes (len question)) _) _ h in
    let (prompt, h2) = then-eq-ok (reject (is_denied allowed user_prompt) _) _ h1 in
    let asked = redact_secrets question in
    let (sanitized, items, h3) = bind-eq-ok (sanitize_items allowed (len asked.0) context) _ h2 in
    let same = sym (ok-injective h3) in
    let (permitted, shown, fits) =
      sanitize_items-within allowed (len asked.0) context sanitized items in
    let context_shown = ap (λ (q : SanitizedPayload). q.context) same ∙ shown in
    record {
      to_provider = ap (λ (q : SanitizedPayload). q.provider) same;
      prompt_permitted = reject-eq-ok _ _ prompt;
      context_permitted = permitted;
      shown_context = context_shown;
      shown_question = ap (λ (q : SanitizedPayload). q.question) same;
      question_fits = ground (arith, reject-eq-ok _ _ size);
      context_fits =
          subst
            (λ (q : SanitizedPayload).
              (context ≡ []) ⊎ (len q.question + total_len context ≤ max_total_context_bytes))
            (sym same) fits;
      question_clean =
          ap (λ (q : SanitizedPayload). is_clean false (words q.question)) same
          ∙ redact_secrets-is_clean question;
      context_clean =
          subst (All (λ (i : ContextItem). is_clean false (words i.content) ≡ true))
            (sym context_shown) (disclosed-is_clean context);
    }
