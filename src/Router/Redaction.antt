-- ===== src/Router/Redaction.antt =====
-- crates/sentia-router/src/privacy.rs: the redaction of secrets, and the sources that may not leave
-- the machine. A string is its code points here; `len` is the length of its UTF-8 bytes.
pub mod Tokens
pub mod Clean
use sentia_linux.Base.{
  ℕ, ◌+◌, Bool, true, false, ◌&&◌, ◌||◌, Option, none, some, List, [], ◌∷◌, ◌++◌, Text, codes, leb,
  ltb, ◌==◌, if◌then◌else◌, length, drop, take, any, is_empty, rsplit_once, starts_with, contains,
  to_ascii_lowercase, text_beq,
}

abbrev pub len_utf8 : ℕ → ℕ
len_utf8 c = if ltb c 128 then 1 else if ltb c 2048 then 2 else if ltb c 65536 then 3 else 4

-- `str::len`
abbrev pub len : Text → ℕ
len [] = 0
len (c ∷ s) = len_utf8 c + len s

-- `char::is_whitespace`: the characters that Unicode counts as white space.
abbrev pub is_space : ℕ → Bool
is_space c =
    (leb 9 c && leb c 13)
    || c == 32
    || c == 133
    || c == 160
    || c == 5760
    || (leb 8192 c && leb c 8202)
    || c == 8232
    || c == 8233
    || c == 8239
    || c == 8287
    || c == 12288

abbrev pub eq_ignore_ascii_case : Text → Text → Bool
eq_ignore_ascii_case s t = text_beq (to_ascii_lowercase s) (to_ascii_lowercase t)

abbrev pub onto_first : ℕ → List Text → List Text
onto_first c [] = (c ∷ []) ∷ []
onto_first c (t ∷ ts) = (c ∷ t) ∷ ts

-- `split_inclusive(char::is_whitespace)`
unfoldable pub split_inclusive : Text → List Text
split_inclusive [] = []
split_inclusive (c ∷ s) =
    let rest = split_inclusive s in if is_space c then (c ∷ []) ∷ rest else onto_first c rest

abbrev pub before_end : ℕ → Text → Text
before_end c [] = if is_space c then [] else c ∷ []
before_end c (d ∷ t) = c ∷ d ∷ t

-- `trim_end_matches(char::is_whitespace)`
unfoldable pub trim_end : Text → Text
trim_end [] = []
trim_end (c ∷ s) = before_end c (trim_end s)

abbrev pub forbidden : List Text
forbidden =
    codes "/.ssh/"
    ∷ codes "/.gnupg/"
    ∷ codes "/.aws/"
    ∷ codes "/.config/gcloud/"
    ∷ codes "/.config/gh/"
    ∷ codes "/.local/share/keyrings/"
    ∷ codes "/keyrings/"
    ∷ codes "/cookies"
    ∷ codes "/login data"
    ∷ codes "/shadow"
    ∷ codes "/etc/ssl/private/"
    ∷ codes "command_history"
    ∷ codes ".bash_history"
    ∷ codes ".zsh_history"
    ∷ codes "environment"
    ∷ []

unfoldable pub forbidden_source : Text → Bool
forbidden_source source =
    let normalized = to_ascii_lowercase source in
    any (λ needle. contains normalized needle) forbidden

unfoldable pub secret_label : Text → Option Text
secret_label token =
    let lower = to_ascii_lowercase token in
    if starts_with lower (codes "authorization:")
      || starts_with lower (codes "bearer:")
      || starts_with lower (codes "password=")
      || starts_with lower (codes "passwd=")
      || starts_with lower (codes "token=")
      || starts_with lower (codes "secret=")
      || starts_with lower (codes "api_key=")
      || starts_with lower (codes "apikey=")
      || starts_with lower (codes "aws_secret_access_key=")
      || starts_with lower (codes "aws_session_token=")
      || starts_with lower (codes "github_token=")
    then some (codes "credential_assignment")
    else if starts_with token (codes "sk-") && leb 20 (len token)
    then some (codes "api_key")
    else if starts_with token (codes "ghp_") || starts_with token (codes "github_pat_")
    then some (codes "github_token")
    else if starts_with token (codes "AKIA") && leb 16 (len token)
    then some (codes "aws_access_key")
    else if contains token (codes "-----BEGIN") || contains lower (codes "private_key")
    then some (codes "private_key")
    else none

abbrev pub redacted : Text
redacted = codes "[REDACTED]"

abbrev pub is_bearer : Text → Bool
is_bearer trimmed = eq_ignore_ascii_case trimmed (codes "bearer")

abbrev pub announces_secret : Text → Bool
announces_secret trimmed =
    eq_ignore_ascii_case trimmed (codes "authorization:") || is_bearer trimmed

-- What one token adds to the output and to the labels, and whether the next one is redacted.
unfoldable pub redact_split : Bool → Text → Text → Text → Text × List Text × Bool
redact_split redact_next token trimmed suffix =
    if redact_next && is_bearer trimmed
    then (trimmed ++ suffix, [], redact_next)
    else if redact_next
    then (redacted ++ suffix, codes "authorization_token" ∷ [], false)
    else if announces_secret trimmed
    then (trimmed ++ suffix, [], true)
    else elim (secret_label trimmed) [
      | some label ↦ (redacted ++ suffix, label ∷ [], redact_next)
      | none ↦ (token, [], redact_next)
    ]

unfoldable pub redact_token : Bool → Text → Text × List Text × Bool
unfolding redact_split
redact_token redact_next token =
    let trimmed = trim_end token in
    redact_split redact_next token trimmed (drop (length trimmed) token)

-- The loop over the tokens.
unfoldable pub redact_tokens : Bool → List Text → Text × List Text
redact_tokens redact_next [] = ([], [])
redact_tokens redact_next (token ∷ tokens) =
    let (shown, label, next) = redact_token redact_next token in
    let (output, labels) = redact_tokens next tokens in (shown ++ output, label ++ labels)

abbrev pub holds_private_key : Text → Bool
holds_private_key lowercase =
    contains lowercase (codes "-----begin") && contains lowercase (codes "private key-----")

unfoldable pub redact_secrets : Text → Text × List Text
redact_secrets input =
    if holds_private_key (to_ascii_lowercase input)
    then (codes "[REDACTED PRIVATE KEY]", codes "private_key" ∷ [])
    else redact_tokens false (split_inclusive input)

-- The part of a source that is shown.
unfoldable pub safe_source : Text → Text
safe_source source =
    if starts_with source (codes "/")
    then (let last : Text = elim (rsplit_once b'/' source) [ none ↦ source | some (a, b) ↦ b ] in
        if is_empty last then codes "local-context" else last)
    else take 256 source
