-- ===== src/Router/Redaction/Clean.antt =====
-- The words of a redacted text (privacy.rs, redact_secrets).
use sentia_linux.Base.{
  ℕ, ◌≡◌, refl, sym, ap, ◌∙◌, inl, inr, Bool, true, false, ◌&&◌, none, some, List, [], ◌∷◌, ◌++◌,
  Text, codes, arith, if◌then◌else◌, length, drop, text_beq, Bool-cases, Option-cases, append_assoc,
  append-nil, map, subst, to_ascii_lowercase,
}
use sentia_linux.Router.Redaction.{
  is_space, split_inclusive, trim_end, secret_label, redacted, is_bearer, announces_secret,
  redact_split, redact_token, redact_tokens, redact_secrets, holds_private_key,
}
use sentia_linux.Router.Redaction.Tokens.{
  IsWord, IsTokens, split-closed, split-open, trim_end-closed, trim_end-word, drop-append_length,
  split_inclusive-IsTokens,
}

-- What the output shows of a word, and whether the word after it is redacted.
abbrev shown : Bool → Text → Text
shown redact_next w =
    if redact_next && is_bearer w
    then w
    else if redact_next
    then redacted
    else if announces_secret w
    then w
    else elim (secret_label w) [ some _ ↦ redacted | none ↦ w ]

abbrev next : Bool → Text → Bool
next redact_next w =
    if redact_next && is_bearer w then true else if redact_next then false else announces_secret w

redact_split-shown :
    (b : Bool) (w x : Text)
    → ((redact_split b (w ++ x) w x).0 ≡ shown b w ++ x)
      × ((redact_split b (w ++ x) w x).2 ≡ next b w)
unfolding redact_split
redact_split-shown b w x = elim (Option-cases (secret_label w)) [
  | inl none_found ↦ ground arith
  | inr (label, found) ↦ ground arith
]

redact_token-split :
    (b : Bool) (w x : Text)
    → trim_end (w ++ x) ≡ w
    → redact_token b (w ++ x) ≡ redact_split b (w ++ x) w x
unfolding redact_token
redact_token-split b w x h =
    ap (λ t. redact_split b (w ++ x) t (drop (length t) (w ++ x))) h
    ∙ ap (λ s. redact_split b (w ++ x) w s) (drop-append_length w x)

-- The output, token by token.
redact_tokens-cons :
    (b : Bool) (w x : Text) (ts : List Text)
    → trim_end (w ++ x) ≡ w
    → (redact_tokens b ((w ++ x) ∷ ts)).0 ≡ shown b w ++ (x ++ (redact_tokens (next b w) ts).0)
unfolding redact_tokens
redact_tokens-cons b w x ts h =
    let (text, after) = redact_split-shown b w x in
    ap (λ p. p.0 ++ (redact_tokens p.2 ts).0) (redact_token-split b w x h)
    ∙ ap (λ t. t ++ (redact_tokens (redact_split b (w ++ x) w x).2 ts).0) text
    ∙ ap (λ n. (shown b w ++ x) ++ (redact_tokens n ts).0) after
    ∙ append_assoc (shown b w) x (redact_tokens (next b w) ts).0

-- The words of a text.
abbrev pub words : Text → List Text
words s = map trim_end (split_inclusive s)

-- No word carries a secret that the label test knows, and the word that an authorization header or
-- a bearer announces is the placeholder.
abbrev pub is_clean : Bool → List Text → Bool
is_clean pending [] = true
is_clean pending (w ∷ ws) =
    let rest = is_clean pending ws in
    let after_secret = is_clean false ws in
    let after_header = is_clean true ws in
    if pending && is_bearer w
    then after_header
    else if pending
    then text_beq w redacted && after_secret
    else if announces_secret w
    then after_header
    else elim (secret_label w) [ some _ ↦ false | none ↦ after_secret ]

secret_label-redacted : secret_label redacted ≡ none
unfolding secret_label
secret_label-redacted = refl

is_clean-shown :
    (b : Bool) (w : Text) (ws : List Text)
    → is_clean (next b w) ws ≡ true
    → is_clean b (shown b w ∷ ws) ≡ true
is_clean-shown true w ws h = elim (Bool-cases (is_bearer w)) [
  | inl bearer ↦ ground arith
  | inr other ↦ ground arith
]
is_clean-shown false w ws h = elim (Bool-cases (announces_secret w)) [
  | inl announces ↦ ground arith
  | inr other ↦ elim (Option-cases (secret_label w)) [
    | inl none_found ↦ ground arith
    | inr (label, found) ↦ ground (arith, secret_label-redacted)
  ]
]

shown-IsWord : (b : Bool) (w : Text) → IsWord w → IsWord (shown b w)
shown-IsWord b w h = elim (Option-cases (secret_label w)) [
  | inl none_found ↦ ground arith
  | inr (label, found) ↦ ground arith
]

-- One closed token, and the words of the output after it.
is_clean-closed :
    (b : Bool) (w : Text) (s : ℕ) (ts : List Text)
    → IsWord w
    → is_space s ≡ true
    → is_clean (next b w) (words (redact_tokens (next b w) ts).0) ≡ true
    → is_clean b (words (redact_tokens b ((w ++ s ∷ []) ∷ ts)).0) ≡ true
is_clean-closed b w s ts hw hs h =
    let rest = (redact_tokens (next b w) ts).0 in
    ap (λ t. is_clean b (words t)) (redact_tokens-cons b w (s ∷ []) ts (trim_end-closed w s hw hs))
    ∙ ap (λ l. is_clean b (map trim_end l))
        (split-closed (shown b w) s rest (shown-IsWord b w hw) hs)
    ∙ ap (λ v. is_clean b (v ∷ words rest)) (trim_end-closed (shown b w) s (shown-IsWord b w hw) hs)
    ∙ is_clean-shown b w (words rest) h

-- The last token.
shown-open : (b : Bool) (c : ℕ) (v : Text) → (d : ℕ) × (u : Text) × shown b (c ∷ v) ≡ d ∷ u
shown-open true c v = elim (Bool-cases (is_bearer (c ∷ v))) [
  | inl bearer ↦ (c, v, rw bearer refl)
  | inr other ↦ (b'[', codes "REDACTED]", rw other refl)
]
shown-open false c v = elim (Bool-cases (announces_secret (c ∷ v))) [
  | inl announces ↦ (c, v, rw announces refl)
  | inr other ↦ elim (Option-cases (secret_label (c ∷ v))) [
    | inl none_found ↦ (c, v, ground arith)
    | inr (label, found) ↦ (b'[', codes "REDACTED]", ground arith)
  ]
]

words-open : (w : Text) (d : ℕ) (u : Text) → w ≡ d ∷ u → IsWord w → words w ≡ w ∷ []
words-open w d u e h =
    ap words e
    ∙ ap (map trim_end) (split-open d u (subst IsWord e h))
    ∙ ap (λ t. t ∷ []) (trim_end-word (d ∷ u) (subst IsWord e h))
    ∙ ap (λ t. t ∷ []) (sym e)

is_clean-open :
    (b : Bool) (c : ℕ) (v : Text)
    → IsWord (c ∷ v)
    → is_clean b (words (redact_tokens b ((c ∷ v) ∷ [])).0) ≡ true
unfolding redact_tokens
is_clean-open b c v h =
    let (d, u, e) = shown-open b c v in
    let w = c ∷ v in
    ap (λ t. is_clean b (words (redact_tokens b (t ∷ [])).0)) (sym (append-nil w))
    ∙ ap (λ t. is_clean b (words t))
        (redact_tokens-cons b w [] [] (ap trim_end (append-nil w) ∙ trim_end-word w h))
    ∙ ap (λ t. is_clean b (words t)) (append-nil (shown b w))
    ∙ ap (is_clean b) (words-open (shown b w) d u e (shown-IsWord b w h))
    ∙ is_clean-shown b w [] refl

redact_tokens-is_clean :
    (b : Bool) (ts : List Text) → IsTokens ts → is_clean b (words (redact_tokens b ts).0) ≡ true
unfolding redact_tokens split_inclusive
redact_tokens-is_clean b [] h = refl
redact_tokens-is_clean b (t ∷ []) (inl (w, s, hw, hs, e)) =
    ap (λ u. is_clean b (words (redact_tokens b (u ∷ [])).0)) e
    ∙ is_clean-closed b w s [] hw hs (redact_tokens-is_clean (next b w) [] tt)
redact_tokens-is_clean b (t ∷ []) (inr (hw, c, v, e)) =
    ap (λ u. is_clean b (words (redact_tokens b (u ∷ [])).0)) e
    ∙ is_clean-open b c v (subst IsWord e hw)
redact_tokens-is_clean b (t ∷ u ∷ ts) ((w, s, hw, hs, e), k) =
    ap (λ v. is_clean b (words (redact_tokens b (v ∷ u ∷ ts)).0)) e
    ∙ is_clean-closed b w s (u ∷ ts) hw hs (redact_tokens-is_clean (next b w) (u ∷ ts) k)

-- In the text that a redaction returns, no word is a secret that the label test knows, except the
-- header words `authorization:` themselves, and a word that follows such a header or a `bearer` (and
-- is no `bearer` itself) is the placeholder.
pub redact_secrets-is_clean :
    (input : Text) → is_clean false (words (redact_secrets input).0) ≡ true
unfolding redact_secrets split_inclusive trim_end secret_label
redact_secrets-is_clean input = elim (Bool-cases (holds_private_key (to_ascii_lowercase input))) [
  | inl key ↦ rw key refl
  | inr other ↦
      rw other
        (redact_tokens-is_clean false (split_inclusive input) (split_inclusive-IsTokens input))
]
