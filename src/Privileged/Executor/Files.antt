-- ===== src/Privileged/Executor/Files.antt =====
-- The digest of a unit file (executor.rs, trusted_file_digest). A path is what `Path::components`
-- makes of it; the kernel's answers, in the order of the questions, are a record.
use sentia_linux.Base.{
  ◌≡◌, Bool, true, false, ◌||◌, not, any, Option, none, some, List, [], ◌∷◌, sym, Text, codes,
  length, ltb, ◌≤◌, ◌==◌, text_eq, text_beq, ◌&&◌, Result, ok, ◌>>=◌, ◌>>◌, reject, ok_or,
  then-eq-ok, bind-eq-ok, reject-eq-ok, ok_or-eq-ok, ok-injective, within, not-false,
}
use sentia_linux.Privileged.Operation.{
  Error, untrusted_path, path_unavailable, untrusted_unit_file, unit_file_unavailable,
  unit_file_too_large,
}
use sentia_linux.Privileged.Executor.Paths.{
  Component, root_dir, normal, prefix, Metadata, is_shared, Trusted, is_absolute, trusted_path,
  trusted_path_iff,
}
use sentia_linux.Privileged.Executor.Helpers.{max_output}

-- What the kernel says of a path: the metadata of the prefixes of its parent, its own, where it
-- leads, the metadata of the prefixes of that, and the file there. `content` is what is read of the
-- file, of which at most `max_output` and one more bytes are taken.
pub record FileAnswers : Type 0 where
  pub parent_metadata : List Component → Option Metadata
  pub link_metadata : Option Metadata
  pub canonical : Option (List Component)
  pub canonical_metadata : List Component → Option Metadata
  pub opens : Bool
  pub file_metadata : Option Metadata
  pub content : Option Text

-- `Path::parent`: the components before the last, if that is neither a root nor a prefix.
unfoldable pub parent : List Component → Option (List Component)
parent [] = none
parent (root_dir ∷ []) = none
parent (prefix name ∷ []) = none
parent (component ∷ []) = some []
parent (component ∷ c ∷ path) = elim (parent (c ∷ path)) [
  | none ↦ none
  | some before ↦ some (component ∷ before)
]

-- `Path::starts_with` of a root and names.
unfoldable pub lies_in : List Text → List Component → Bool
lies_in [] path = true
lies_in (name ∷ names) (normal n ∷ path) = text_beq name n && lies_in names path
lies_in (name ∷ names) path = false

abbrev pub unit_roots : List (List Text)
unit_roots =
    (codes "etc" ∷ codes "systemd" ∷ codes "system" ∷ [])
    ∷ (codes "usr" ∷ codes "lib" ∷ codes "systemd" ∷ codes "system" ∷ [])
    ∷ (codes "run" ∷ codes "systemd" ∷ [])
    ∷ []

unfoldable pub is_unit_path : List Component → Bool
unfolding lies_in
is_unit_path (root_dir ∷ path) = any (λ root. lies_in root path) unit_roots
is_unit_path _ = false

-- `sha256` is the digest in lower-case hexadecimal digits.
unfoldable pub trusted_file_digest :
    (sha256 : Text → Text) → FileAnswers → List Component → Result Error Text
unfolding parent trusted_path is_unit_path
trusted_file_digest sha256 a original = do
  directory ← ok_or (parent original) untrusted_path
  trusted_path a.parent_metadata directory
  link ← ok_or a.link_metadata path_unavailable
  reject (not (link.uid == 0)) untrusted_path
  canonical ← ok_or a.canonical path_unavailable
  reject (not (is_unit_path canonical)) untrusted_unit_file
  trusted_path a.canonical_metadata canonical
  reject (not a.opens) unit_file_unavailable
  metadata ← ok_or a.file_metadata unit_file_unavailable
  reject (not metadata.is_file || not (metadata.uid == 0) || is_shared metadata.mode)
      untrusted_unit_file
  bytes ← ok_or a.content unit_file_unavailable
  reject (ltb max_output (length bytes)) unit_file_too_large
  ok (sha256 bytes)

-- What a digest of a unit file vouches for.
pub record IsTrustedFile (sha256 : Text → Text) (a : FileAnswers) (d : Text) : Type 0 where
  pub canonical : List Component
  pub leads_to : a.canonical ≡ some canonical
  pub unit_path : is_unit_path canonical ≡ true
  pub absolute : is_absolute canonical ≡ true
  pub trusted : Trusted a.canonical_metadata [] canonical
  pub bytes : Text
  pub read : a.content ≡ some bytes
  pub bounded : length bytes ≤ max_output
  pub hashed : d ≡ sha256 bytes

-- A digest is that of at most `max_output` bytes, read from a file below one of the three roots of
-- unit files, to which only root can write, as to each directory on the way.
pub trusted_file_digest-eq-ok :
    (sha256 : Text → Text) (a : FileAnswers) (original : List Component) (d : Text)
    → trusted_file_digest sha256 a original ≡ ok d
    → IsTrustedFile sha256 a d
unfolding trusted_file_digest
trusted_file_digest-eq-ok sha256 a original d h =
    let (directory, _, r1) = bind-eq-ok (ok_or (parent original) untrusted_path) _ h in
    let (_, r2) = then-eq-ok (trusted_path a.parent_metadata directory) _ r1 in
    let (link, _, r3) = bind-eq-ok (ok_or a.link_metadata path_unavailable) _ r2 in
    let (_, r4) = then-eq-ok (reject (not (link.uid == 0)) untrusted_path) _ r3 in
    let (canonical, leads, r5) = bind-eq-ok (ok_or a.canonical path_unavailable) _ r4 in
    let (below, r6) = then-eq-ok (reject (not (is_unit_path canonical)) untrusted_unit_file) _ r5 in
    let (trusted, r7) = then-eq-ok (trusted_path a.canonical_metadata canonical) _ r6 in
    let (_, r8) = then-eq-ok (reject (not a.opens) unit_file_unavailable) _ r7 in
    let (metadata, _, r9) = bind-eq-ok (ok_or a.file_metadata unit_file_unavailable) _ r8 in
    let (_, r10) =
      then-eq-ok
        (reject (not metadata.is_file || not (metadata.uid == 0) || is_shared metadata.mode)
          untrusted_unit_file)
        _ r9 in
    let (bytes, read, r11) = bind-eq-ok (ok_or a.content unit_file_unavailable) _ r10 in
    let (size, r12) =
      then-eq-ok (reject (ltb max_output (length bytes)) unit_file_too_large) _ r11 in
    let (absolute, every) = (trusted_path_iff a.canonical_metadata canonical).0 trusted in
    record {
      canonical = canonical;
      leads_to = ok_or-eq-ok a.canonical path_unavailable leads;
      unit_path = not-false _ (reject-eq-ok _ _ below);
      absolute = absolute;
      trusted = every;
      bytes = bytes;
      read = ok_or-eq-ok a.content unit_file_unavailable read;
      bounded = within max_output (length bytes) (reject-eq-ok _ _ size);
      hashed = sym (ok-injective r12);
    }
