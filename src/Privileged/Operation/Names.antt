-- ===== src/Privileged/Operation/Names.antt =====
-- What a validated unit name or package name looks like (lib.rs, validate_unit, validate_package).
use sentia_linux.Base.{
  ℕ, ◌≤◌, ◌≡◌, refl, sym, ap, subst, ◌&&◌, is_ascii_lowercase, is_ascii_digit, ◌==◌, leb, ltb,
  reject, is_empty, ◌||◌, not, ◌↔◌, ◌⊎◌, inl, inr, Bool, true, false, [], ◌∷◌, ◌++◌, none, some,
  arith, Text, codes, length, All, all, all-All, ends_with, contains, ok, Bool-cases,
  ends_with-split, ends_with-append, take-append_length, length-append, is_ascii_alphanumeric,
  All-map_imp, All-append,
}
use sentia_linux.Privileged.Operation.{
  invalid_unit, invalid_package, validate_unit, validate_package, strip_suffix, is_unit_byte,
  is_package_byte, first_byte,
}

-- `strip_suffix` takes apart exactly the texts that are something and the suffix.
strip_suffix-append : (t p : Text) → strip_suffix (t ++ p) p ≡ some t
unfolding strip_suffix
strip_suffix-append t p =
    rw (ends_with-append t p)
      (ap some (take-append_length _ t p (omega (arith, length-append t p))))

strip_suffix-cases :
    (s p : Text)
    → (strip_suffix s p ≡ none) ⊎ ((t : Text) × (strip_suffix s p ≡ some t) × (s ≡ t ++ p))
unfolding strip_suffix
strip_suffix-cases s p = elim (Bool-cases (ends_with s p)) [
  | inl e ↦
      let (t, split) = ends_with-split s p e in
      inr (t, subst (λ r. strip_suffix r p ≡ some t) (sym split) (strip_suffix-append t p), split)
  | inr e ↦ inl (rw e)
]

-- The grammar of unit names that the broker accepts.
pub record UnitName (unit : Text) : Type 0 where
  pub stem : Text
  pub suffix : unit ≡ stem ++ codes ".service"
  pub first : first_byte is_ascii_alphanumeric stem ≡ true
  pub bytes : all is_unit_byte stem ≡ true
  pub short : length unit ≤ 255
  pub no_dots : contains unit (codes "..") ≡ false

-- The five tests of `validate_unit` after the suffix, as facts.
unit_tests :
    (long empty first bytes dots : Bool)
    → reject (long || empty || not first || not bytes || dots) invalid_unit ≡ ok tt
    → (long ≡ false) × (first ≡ true) × (bytes ≡ true) × (dots ≡ false)
unit_tests long empty first bytes dots h = ground arith

first_byte-nonempty : (p : ℕ → Bool) (s : Text) → first_byte p s ≡ true → is_empty s ≡ false
first_byte-nonempty p [] h = cc
first_byte-nonempty p (c ∷ s) h = refl

validate_unit-UnitName :
    (unit stem : Text)
    → strip_suffix unit (codes ".service") ≡ some stem
    → unit ≡ stem ++ codes ".service"
    → validate_unit unit ≡ ok tt
    → UnitName unit
unfolding validate_unit
validate_unit-UnitName unit stem e split h =
    let (long, first, bytes, dots) =
      unit_tests (ltb 255 (length unit)) (is_empty stem) (first_byte is_ascii_alphanumeric stem)
        (all is_unit_byte stem) (contains unit (codes "..")) (rw (e, validate_unit) at h) in
    record {
      stem = stem;
      suffix = split;
      first = first;
      bytes = bytes;
      short = ground arith;
      no_dots = dots;
    }

UnitName-validate_unit :
    (unit : Text) (u : UnitName unit)
    → strip_suffix unit (codes ".service") ≡ some u.stem
    → validate_unit unit ≡ ok tt
unfolding validate_unit
UnitName-validate_unit unit u e =
    rw (e, validate_unit) (ground (arith, first_byte-nonempty is_ascii_alphanumeric u.stem u.first))

-- A unit name is accepted exactly if it is in the grammar.
pub validate_unit_iff : (unit : Text) → (validate_unit unit ≡ ok tt) ↔ UnitName unit
unfolding validate_unit
validate_unit_iff unit = (
  λ h. elim (strip_suffix-cases unit (codes ".service")) [
    | inl e ↦ absurd (cc (rw (e, validate_unit) at h))
    | inr (t, e, split) ↦ validate_unit-UnitName unit t e split h
  ],
  λ u. UnitName-validate_unit unit u (
      subst (λ r. strip_suffix r (codes ".service") ≡ some u.stem) (sym u.suffix)
        (strip_suffix-append u.stem (codes ".service"))),
)

package_tests :
    (short long lower digit bytes : Bool)
    → reject (short || long || (not lower && not digit) || not bytes) invalid_package ≡ ok tt
    → (short ≡ false) × (long ≡ false) × ((lower ≡ true) ⊎ (digit ≡ true)) × (bytes ≡ true)
package_tests short long lower digit bytes h = ground arith

-- The grammar of package names that the broker accepts.
pub record PackageName (name : Text) : Type 0 where
  pub long_enough : 2 ≤ length name
  pub short : length name ≤ 128
  pub first : (first_byte is_ascii_lowercase name ≡ true) ⊎ (first_byte is_ascii_digit name ≡ true)
  pub bytes : all is_package_byte name ≡ true

-- A package name is accepted exactly if it is in the grammar.
pub validate_package_iff : (name : Text) → (validate_package name ≡ ok tt) ↔ PackageName name
unfolding validate_package
validate_package_iff name = (
  λ h.
      let (short, long, first, bytes) =
        package_tests (ltb (length name) 2) (ltb 128 (length name))
          (first_byte is_ascii_lowercase name) (first_byte is_ascii_digit name)
          (all is_package_byte name) h in
      record { long_enough = ground arith; short = ground arith; first = first; bytes = bytes },
  λ p. ground (arith, p.first),
)

-- What a helper program could take for an option, a path or a second word.
abbrev pub is_hostile_byte : ℕ → Bool
is_hostile_byte c = c == b'/' || leb c b' ' || c == 127

unit_byte-not_hostile : (c : ℕ) → is_unit_byte c ≡ true → is_hostile_byte c ≡ false
unit_byte-not_hostile c h = ground arith

package_byte-not_hostile : (c : ℕ) → is_package_byte c ≡ true → is_hostile_byte c ≡ false
package_byte-not_hostile c h = ground arith

-- A text that starts with no dash and holds no slash, space or control byte (below 32, or DEL).
abbrev pub IsInert : Text → Type 0
IsInert s = (first_byte (λ c. c == b'-') s ≡ false) × All (λ c. is_hostile_byte c ≡ false) s

first_byte-append :
    (p q : ℕ → Bool) (s t : Text)
    → ((c : ℕ) → p c ≡ true → q c ≡ false)
    → first_byte p s ≡ true
    → first_byte q (s ++ t) ≡ false
first_byte-append p q [] t f h = cc
first_byte-append p q (c ∷ s) t f h = f c h

first_byte_excludes :
    (p q : ℕ → Bool) (s : Text)
    → ((c : ℕ) → p c ≡ true → q c ≡ false)
    → first_byte p s ≡ true
    → first_byte q s ≡ false
first_byte_excludes p q [] f h = cc
first_byte_excludes p q (c ∷ s) f h = f c h

alphanumeric-not_dash : (c : ℕ) → is_ascii_alphanumeric c ≡ true → (c == b'-') ≡ false
alphanumeric-not_dash c h = ground arith

lowercase-not_dash : (c : ℕ) → is_ascii_lowercase c ≡ true → (c == b'-') ≡ false
lowercase-not_dash c h = ground arith

digit-not_dash : (c : ℕ) → is_ascii_digit c ≡ true → (c == b'-') ≡ false
digit-not_dash c h = ground arith

pub UnitName-IsInert : (unit : Text) → UnitName unit → IsInert unit
UnitName-IsInert unit u = subst IsInert (sym u.suffix) (
  first_byte-append is_ascii_alphanumeric (λ c. c == b'-') u.stem (codes ".service")
      alphanumeric-not_dash u.first,
  All-append (λ c. is_hostile_byte c ≡ false) u.stem (codes ".service")
      (All-map_imp (λ c. is_unit_byte c ≡ true) (λ c. is_hostile_byte c ≡ false) u.stem
        unit_byte-not_hostile (all-All is_unit_byte u.stem u.bytes))
      (ground arith),
)

pub PackageName-IsInert : (name : Text) → PackageName name → IsInert name
PackageName-IsInert name p = (
  elim p.first [
    | inl lower ↦ first_byte_excludes is_ascii_lowercase _ name lowercase-not_dash lower
    | inr digit ↦ first_byte_excludes is_ascii_digit _ name digit-not_dash digit
  ],
  All-map_imp (λ c. is_package_byte c ≡ true) (λ c. is_hostile_byte c ≡ false) name
      package_byte-not_hostile (all-All is_package_byte name p.bytes),
)
