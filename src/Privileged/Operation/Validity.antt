-- ===== src/Privileged/Operation/Validity.antt =====
-- What `Operation::validate` establishes (lib.rs): bounds, distinct packages, and words that no
-- helper program can take for an option or a path.
use sentia_linux.Base.{
  ℕ, ◌≤◌, ◌<◌, ◌≡◌, refl, ap, subst, ◌↔◌, false, not, List, [], ◌∷◌, arith, Text, length, is_empty,
  All, mem, text_eq, Result, ok, then-eq-ok, reject, reject-eq-ok, ◌>>◌, ltb, ◌||◌, Option, some,
  bind-eq-ok, ok_or, ok_or-eq-ok, ok-injective, ◌∙◌, ◌==◌, All-map_imp, Distinct, Fresh,
  Fresh-Distinct, Distinct-Fresh, none_seen,
}
use sentia_linux.Privileged.Operation.{
  Error, Operation, service, process_kill, apt_install, apt_remove, apt_update, apt_upgrade,
  validate, validate_packages, validate_package, request_too_large, invalid_request,
  unsupported_version, duplicate_package, invalid_packages, parse_request,
}
use sentia_linux.Privileged.Operation.Names.{
  UnitName, PackageName, validate_unit_iff, validate_package_iff, IsInert, UnitName-IsInert,
  PackageName-IsInert,
}

validate_packages_sound :
    (seen packages : List Text)
    → validate_packages seen packages ≡ ok tt
    → All PackageName packages × Fresh seen packages
unfolding validate_packages
validate_packages_sound seen [] h = (tt, tt)
validate_packages_sound seen (x ∷ xs) h =
    let (name, rest) = then-eq-ok (validate_package x) _ h in
    let (new, later) = then-eq-ok (reject (mem x seen) duplicate_package) _ rest in
    let (names, fresh) = validate_packages_sound (x ∷ seen) xs later in
    (((validate_package_iff x).0 name, names), (reject-eq-ok _ _ new, fresh))

validate_packages_complete :
    (seen packages : List Text)
    → All PackageName packages
    → Fresh seen packages
    → validate_packages seen packages ≡ ok tt
unfolding validate_packages
validate_packages_complete seen [] n f = refl
validate_packages_complete seen (x ∷ xs) n f =
    rw ((validate_package_iff x).1 n.0) (rw f.0 (validate_packages_complete (x ∷ seen) xs n.1 f.1))

-- A list of packages that the broker accepts: 1 to 64 distinct valid names.
pub record PackageList (packages : List Text) : Type 0 where
  pub nonempty : 1 ≤ length packages
  pub bounded : length packages ≤ 64
  pub names : All PackageName packages
  pub distinct : Distinct packages

packages_accepted : List Text → Result Error (Unit {0})
packages_accepted packages = do
  reject (is_empty packages || ltb 64 (length packages)) invalid_packages
  validate_packages [] packages

length_test :
    {A : Type 0} (xs : List A)
    → ((is_empty xs || ltb 64 (length xs)) ≡ false) ↔ ((1 ≤ length xs) × (length xs ≤ 64))
length_test [] = ground arith
length_test (x ∷ xs) = ground arith

packages_accepted_iff : (ps : List Text) → (packages_accepted ps ≡ ok tt) ↔ PackageList ps
unfolding packages_accepted
packages_accepted_iff ps = (
  λ h.
      let (size, rest) =
        then-eq-ok (reject (is_empty ps || ltb 64 (length ps)) invalid_packages) _ h in
      let (lo, hi) = (length_test ps).0 (reject-eq-ok _ _ size) in
      let (names, fresh) = validate_packages_sound [] ps rest in
      record { nonempty = lo; bounded = hi; names = names; distinct = Fresh-Distinct [] ps fresh },
  λ p.
      rw ((length_test ps).1 (p.nonempty, p.bounded))
        (validate_packages_complete [] ps p.names (Distinct-Fresh [] ps (none_seen ps) p.distinct)),
)

-- What a valid operation is.
abbrev pub IsValid : Operation → Type 0
IsValid (service action unit) = UnitName unit
IsValid (process_kill pid) = (1 < pid) × (pid ≤ 2147483647)
IsValid (apt_install packages) = PackageList packages
IsValid (apt_remove packages) = PackageList packages
IsValid apt_update = Unit {0}
IsValid apt_upgrade = Unit {0}

-- `Operation::validate` accepts an operation exactly if: a service names a unit in the grammar; a
-- process is neither 0 nor 1 and fits a pid; a package operation lists 1 to 64 distinct names in
-- the grammar.
pub validate_iff : (op : Operation) → (validate op ≡ ok tt) ↔ IsValid op
unfolding validate packages_accepted
validate_iff (service action unit) = validate_unit_iff unit
validate_iff (process_kill pid) = ground arith
validate_iff (apt_install packages) = packages_accepted_iff packages
validate_iff (apt_remove packages) = packages_accepted_iff packages
validate_iff apt_update = (λ h. tt, λ h. refl)
validate_iff apt_upgrade = (λ h. tt, λ h. refl)

-- The words of an operation that reach the command line of a helper program.
abbrev pub words : Operation → List Text
words (service action unit) = unit ∷ []
words (apt_install packages) = packages
words (apt_remove packages) = packages
words _ = []

-- The words of a validated operation start with no dash and hold no slash, no space and no control
-- byte of ASCII (those below 32, and DEL).
pub validate-words-IsInert : (op : Operation) → validate op ≡ ok tt → All IsInert (words op)
validate-words-IsInert op h = inert op ((validate_iff op).0 h)
  where
    inert : (op : Operation) → IsValid op → All IsInert (words op)
    inert (service action unit) v = (UnitName-IsInert unit v, tt)
    inert (process_kill pid) v = tt
    inert (apt_install ps) v = All-map_imp PackageName IsInert ps PackageName-IsInert v.names
    inert (apt_remove ps) v = All-map_imp PackageName IsInert ps PackageName-IsInert v.names
    inert apt_update v = tt
    inert apt_upgrade v = tt

size_bound : (json : Text) → ltb 16384 (length json) ≡ false → length json ≤ 16384
size_bound json h = ground arith

le-test : (n : ℕ) → n ≤ 16384 → ltb 16384 n ≡ false
le-test n h = ground arith

request_eq :
    (r : ℕ × Operation) (op : Operation)
    → not (r.0 == 1) ≡ false
    → ◌≡◌ {A = Result Error Operation} (ok r.1) (ok op)
    → r ≡ (1, op)
request_eq (v, o) op h e = ground arith

-- A request is accepted exactly if it has at most 16384 bytes, parses with version 1, and asks for
-- a valid operation, which is then the result.
pub parse_request_iff :
    (parse : Text → Option (ℕ × Operation)) (json : Text) (op : Operation)
    → (parse_request parse json ≡ ok op)
      ↔ ((length json ≤ 16384) × (parse json ≡ some (1, op)) × IsValid op)
unfolding parse_request
parse_request_iff parse json op = (
  λ h.
      let (size, r1) = then-eq-ok (reject (ltb 16384 (length json)) request_too_large) _ h in
      let (request, parsed, r2) = bind-eq-ok (ok_or (parse json) invalid_request) _ r1 in
      let (version, r3) = then-eq-ok (reject (not (request.0 == 1)) unsupported_version) _ r2 in
      let (valid, result) = then-eq-ok (validate request.1) _ r3 in
      let v = reject-eq-ok (not (request.0 == 1)) unsupported_version version in
      (
        size_bound json (reject-eq-ok _ _ size),
        ok_or-eq-ok (parse json) invalid_request parsed ∙ ap some (request_eq request op v result),
        subst IsValid (ok-injective result) ((validate_iff request.1).0 valid),
      ),
  λ (size, parsed, valid).
      rw (le-test (length json) size) (rw parsed (rw ((validate_iff op).1 valid) refl)),
)
