-- ===== src/Privileged/Executor/Units.antt =====
-- The state of a systemd unit (executor.rs, service_state): systemctl's answer, parsed and checked.
use sentia_linux.Base.{
  ◌≡◌, sym, subst, Bool, true, ◌||◌, not, Option, none, some, List, [], ◌∷◌, arith, Text, codes,
  is_empty, if◌then◌else◌, text_eq, lookup, insert, Result, ok, ◌>>=◌, ◌>>◌, reject, ok_or,
  split_once, split_whitespace, lines_from, bind-eq-ok, then-eq-ok, ok_or-eq-ok, ok-injective, map,
  lookup-insert, option_text_beq, option_text_beq-some,
}
use sentia_linux.Privileged.Operation.{
  Error, invalid_helper_output, unit_unavailable_or_stale, transient_units_not_allowed,
}
use sentia_linux.Privileged.Json.{Json}

abbrev pub Table : Type 0
Table = List (Text × Text)

abbrev pub shown_properties : Text
shown_properties =
    codes
      "--property=Id,LoadState,ActiveState,SubState,UnitFileState,FragmentPath,DropInPaths,NeedDaemonReload"

abbrev pub show_arguments : Text → List Text
show_arguments unit = codes "--no-pager" ∷ codes "show" ∷ shown_properties ∷ codes "--" ∷ unit ∷ []

-- The loop that fills `properties`.
pub read_properties : Table → List Text → Result Error Table
read_properties properties [] = ok properties
read_properties properties (line ∷ lines) = do
  pair ← ok_or (split_once b'=' line) invalid_helper_output
  read_properties (insert pair.0 pair.1 properties) lines

-- The loop over the drop-in files; `digest` is `trusted_file_digest`.
pub digest_files : (Text → Result Error Text) → Table → List Text → Result Error Table
digest_files digest files [] = ok files
digest_files digest files (path ∷ paths) = do
  d ← digest path
  digest_files digest (insert path d files) paths

-- `properties.get("FragmentPath").filter(|p| !p.is_empty())`
abbrev pub fragment_path : Table → Option Text
fragment_path properties = elim (lookup (codes "FragmentPath") properties) [
  | none ↦ none
  | some path ↦ if is_empty path then none else some path
]

abbrev pub drop_ins : Table → List Text
drop_ins properties = elim (lookup (codes "DropInPaths") properties) [
  | none ↦ []
  | some paths ↦ split_whitespace paths
]

module _ (j : Json) where
  open j use {Value, object, string}

  pub table_value : Table → Value
  table_value table = object (map (λ e. (e.0, string e.1)) table)

  pub unit_value : Table → Table → Value
  unfolding table_value
  unit_value properties files =
      object
        ((codes "properties", table_value properties) ∷ (codes "files", table_value files) ∷ [])

  module _ (from_utf8 : Text → Option Text) (digest : Text → Result Error Text) where
    unfoldable pub read_state : Text → Result Error Value
    unfolding read_properties digest_files unit_value
    read_state output = do
      text ← ok_or (from_utf8 output) invalid_helper_output
      properties ← read_properties [] (lines_from [] text)
      reject
          (not (option_text_beq (lookup (codes "LoadState") properties) (some (codes "loaded")))
            || not (
                option_text_beq (lookup (codes "NeedDaemonReload") properties) (some (codes "no"))))
          unit_unavailable_or_stale
      fragment ← ok_or (fragment_path properties) transient_units_not_allowed
      d ← digest fragment
      files ← digest_files digest (insert fragment d []) (drop_ins properties)
      ok (unit_value properties files)

    -- What a unit state vouches for.
    pub record IsReadState (text : Text) (value : Value) : Type 0 where
      pub properties : Table
      pub files : Table
      pub fragment : Text
      pub parsed : read_properties [] (lines_from [] text) ≡ ok properties
      pub loaded : lookup (codes "LoadState") properties ≡ some (codes "loaded")
      pub up_to_date : lookup (codes "NeedDaemonReload") properties ≡ some (codes "no")
      pub has_file : fragment_path properties ≡ some fragment
      pub digested : (path d : Text) → lookup path files ≡ some d → digest path ≡ ok d
      pub shown : value ≡ unit_value properties files

    insert_sound :
        (files : Table) (p dp : Text)
        → ((path d : Text) → lookup path files ≡ some d → digest path ≡ ok d)
        → digest p ≡ ok dp
        → (path d : Text) → lookup path (insert p dp files) ≡ some d
        → digest path ≡ ok d
    insert_sound files p dp inv found path d e =
        ground (arith, lookup-insert p path dp files, text_eq.beq_iff p path, inv path d, found)

    digest_files_sound :
        (start files : Table) (paths : List Text)
        → ((path d : Text) → lookup path start ≡ some d → digest path ≡ ok d)
        → digest_files digest start paths ≡ ok files
        → (path d : Text) → lookup path files ≡ some d
        → digest path ≡ ok d
    unfolding digest_files
    digest_files_sound start files [] inv h path d e =
        inv path d (subst (λ t. lookup path t ≡ some d) (sym (ok-injective h)) e)
    digest_files_sound start files (p ∷ paths) inv h path d e =
        let (dp, found, rest) = bind-eq-ok (digest p) _ h in
        digest_files_sound (insert p dp start) files paths (insert_sound start p dp inv found) rest
          path d e

    state_tests :
        (loaded fresh : Bool)
        → reject (not loaded || not fresh) unit_unavailable_or_stale ≡ ok tt
        → (loaded ≡ true) × (fresh ≡ true)
    state_tests loaded fresh h = ground arith

    -- A unit state is read only from UTF-8 text, for a unit that is loaded, is not stale and has a
    -- unit file; every file digest in it is the one that the trusted reading of that file gave.
    pub read_state-eq-ok :
        (output : Text) (value : Value)
        → read_state output ≡ ok value
        → (text : Text) × (from_utf8 output ≡ some text) × IsReadState text value
    unfolding read_state
    read_state-eq-ok output value h =
        let (text, decoded, r1) = bind-eq-ok (ok_or (from_utf8 output) invalid_helper_output) _ h in
        let (properties, parsed, r2) = bind-eq-ok (read_properties [] (lines_from [] text)) _ r1 in
        let (tests, r3) =
          then-eq-ok
            (reject
              (not (option_text_beq (lookup (codes "LoadState") properties) (some (codes "loaded")))
                || not (
                    option_text_beq (lookup (codes "NeedDaemonReload") properties)
                      (some (codes "no"))))
              unit_unavailable_or_stale)
            _ r2 in
        let (loaded, fresh) =
          state_tests
            (option_text_beq (lookup (codes "LoadState") properties) (some (codes "loaded")))
            (option_text_beq (lookup (codes "NeedDaemonReload") properties) (some (codes "no")))
            tests in
        let (fragment, has_file, r4) =
          bind-eq-ok (ok_or (fragment_path properties) transient_units_not_allowed) _ r3 in
        let (d, first, r5) = bind-eq-ok (digest fragment) _ r4 in
        let (files, rest, r6) =
          bind-eq-ok (digest_files digest (insert fragment d []) (drop_ins properties)) _ r5 in
        (
          text,
          ok_or-eq-ok _ invalid_helper_output decoded,
          record {
            properties = properties;
            files = files;
            fragment = fragment;
            parsed = parsed;
            loaded = option_text_beq-some _ _ loaded;
            up_to_date = option_text_beq-some _ _ fresh;
            has_file = ok_or-eq-ok _ transient_units_not_allowed has_file;
            digested =
                digest_files_sound (insert fragment d []) files (drop_ins properties)
                  (insert_sound [] fragment d (λ path t e. absurd (cc)) first) rest;
            shown = sym (ok-injective r6);
          },
        )
