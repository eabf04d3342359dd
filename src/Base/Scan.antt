-- ===== src/Base/Scan.antt =====
-- The text functions of Rust's standard library that the program calls, on the bytes of UTF-8.
-- `is_whitespace` is the white space of ASCII; `split_whitespace` and `is_blank` read all of Unicode's.
use Prim.Native.Nat.{ℕ, ◌+◌, ◌-◌, ◌*◌, ◌≤◌}
use mathlib.Core.Path.{◌≡◌, ap}
use mathlib.Core.Logic.{inl, inr}
use mathlib.Core.Bool.{Bool, true, false, ◌&&◌, ◌||◌}
use mathlib.Core.Option.{Option, none, some}
use mathlib.Core.List.{List, [], ◌∷◌, ◌++◌, map}
use native.Mathlib.Omega.{arith}
use sentia_linux.Base.Tests.{◌==◌, if◌then◌else◌, leb, ltb, Bool-cases, Option-cases, ==_iff}
use sentia_linux.Base.Lists.{All, any, is_empty}
use sentia_linux.Base.Keys.{Text, is_ascii_digit, text_eq, mem, starts_with}

abbrev pub is_whitespace : ℕ → Bool
is_whitespace c = c == 32 || (leb 9 c && leb c 13)

-- `str::split_once(char)`
unfoldable pub split_once : ℕ → Text → Option (Text × Text)
split_once d [] = none
split_once d (c ∷ s) =
    if c == d
    then some ([], s)
    else elim (split_once d s) [ none ↦ none | some (a, b) ↦ some (c ∷ a, b) ]

-- `str::rsplit_once(char)`
unfoldable pub rsplit_once : ℕ → Text → Option (Text × Text)
rsplit_once d [] = none
rsplit_once d (c ∷ s) = elim (rsplit_once d s) [
  | some (a, b) ↦ some (c ∷ a, b)
  | none ↦ if c == d then some ([], s) else none
]

-- The pieces between separators; `cur` is the piece that was begun.
unfoldable pub split_from : (ℕ → Bool) → Text → Text → List Text
split_from is_sep cur [] = cur ∷ []
split_from is_sep cur (c ∷ s) = elim (is_sep c) [
  | true ↦ cur ∷ split_from is_sep [] s
  | false ↦ split_from is_sep (cur ++ c ∷ []) s
]

abbrev pub nonempty : List Text → List Text
nonempty [] = []
nonempty ([] ∷ ps) = nonempty ps
nonempty ((c ∷ p) ∷ ps) = (c ∷ p) ∷ nonempty ps

-- The characters of white space that UTF-8 writes in several bytes.
abbrev pub wide_white_space : List Text
wide_white_space =
    (194 ∷ 133 ∷ [])
    ∷ (194 ∷ 160 ∷ [])
    ∷ (225 ∷ 154 ∷ 128 ∷ [])
    ∷ (226 ∷ 128 ∷ 168 ∷ [])
    ∷ (226 ∷ 128 ∷ 169 ∷ [])
    ∷ (226 ∷ 128 ∷ 175 ∷ [])
    ∷ (226 ∷ 129 ∷ 159 ∷ [])
    ∷ (227 ∷ 128 ∷ 128 ∷ [])
    ∷ map (λ n. 226 ∷ 128 ∷ n ∷ [])
        (128 ∷ 129 ∷ 130 ∷ 131 ∷ 132 ∷ 133 ∷ 134 ∷ 135 ∷ 136 ∷ 137 ∷ 138 ∷ [])

abbrev pub is_white : Text → Bool
is_white (c ∷ []) = is_whitespace c
is_white character = mem character wide_white_space

-- What has been read of a character, after one more byte; `none` if it is no white space.
abbrev pub read_byte : Text → ℕ → Option Text
read_byte pending c =
    let character = pending ++ (c ∷ []) in
    if is_white character
    then some []
    else if any (λ w. starts_with w character) wide_white_space
    then some character
    else none

-- Whether a UTF-8 text is white space alone; `pending` is what has been read of a character.
abbrev pub is_blank : (pending : Text) → Text → Bool
is_blank pending [] = is_empty pending
is_blank pending (c ∷ s) = elim (read_byte pending c) [ none ↦ false | some more ↦ is_blank more s ]

-- The pieces between characters of white space; `piece` was begun, and `pending` is what has been
-- read of a character that may be white space.
unfoldable pub split_white : (piece pending : Text) → Text → List Text
split_white piece pending [] = (piece ++ pending) ∷ []
split_white piece pending (c ∷ s) = elim (read_byte pending c) [
  | none ↦ split_white (piece ++ (pending ++ (c ∷ []))) [] s
  | some [] ↦ piece ∷ split_white [] [] s
  | some (b ∷ more) ↦ split_white piece (b ∷ more) s
]

-- `str::split_whitespace`
unfoldable pub split_whitespace : Text → List Text
unfolding split_white
split_whitespace s = nonempty (split_white [] [] s)

-- A line without its carriage return.
abbrev pub strip_cr : Text → Text
strip_cr [] = []
strip_cr (c ∷ []) = if c == 13 then [] else c ∷ []
strip_cr (c ∷ d ∷ s) = c ∷ strip_cr (d ∷ s)

-- `str::lines`: a last line may lack its line feed, and is then left as it is.
unfoldable pub lines_from : Text → Text → List Text
lines_from [] [] = []
lines_from (c ∷ cur) [] = (c ∷ cur) ∷ []
lines_from cur (c ∷ s) = elim (c == 10) [
  | true ↦ strip_cr cur ∷ lines_from [] s
  | false ↦ lines_from (cur ++ c ∷ []) s
]

-- Decimal digits, read from the left.
unfoldable pub parse_digits : ℕ → Text → Option ℕ
parse_digits acc [] = some acc
parse_digits acc (c ∷ s) =
    let rest = parse_digits (acc * 10 + (c - b'0')) s in if is_ascii_digit c then rest else none

unfoldable pub parse_nonempty : Text → Option ℕ
unfolding parse_digits
parse_nonempty [] = none
parse_nonempty (c ∷ s) = parse_digits 0 (c ∷ s)

abbrev pub strip_plus : Text → Text
strip_plus [] = []
strip_plus (c ∷ s) = if c == b'+' then s else c ∷ s

-- `str::parse` at an unsigned integer type whose largest value is `max`.
unfoldable pub parse_unsigned : ℕ → Text → Option ℕ
unfolding parse_nonempty
parse_unsigned max s = elim (parse_nonempty (strip_plus s)) [
  | none ↦ none
  | some n ↦ if ltb max n then none else some n
]

some_pair :
    (a c b d : Text)
    → ◌≡◌ {A = Option (Text × Text)} (some (a, b)) (some (c, d))
    → (a ≡ c) × (b ≡ d)
some_pair a c b d h = (cc, cc)

-- Both parts of a split, and the separator between them, make the text; the first part of
-- `split_once` and the second of `rsplit_once` hold no separator.
pub split_once-eq-some :
    (d : ℕ) (s a b : Text)
    → split_once d s ≡ some (a, b)
    → (s ≡ a ++ d ∷ b) × All (λ c. (c == d) ≡ false) a
unfolding split_once
split_once-eq-some d [] a b h = absurd (ground arith)
split_once-eq-some d (c ∷ s) a b h = elim (Bool-cases (c == d)) [
  | inl hit ↦
      let (ea, eb) = some_pair [] a s b (rw (hit, split_once) at h) in
      rw (← ea, ← eb) (ap (λ x. x ∷ s) ((==_iff c d).0 hit), tt)
  | inr miss ↦ elim (Option-cases (split_once d s)) [
    | inl e ↦ absurd (cc (rw (miss, e, split_once) at h))
    | inr ((a', b'), e) ↦
        let (ea, eb) = some_pair (c ∷ a') a b' b (rw (miss, e, split_once) at h) in
        let (whole, clear) = split_once-eq-some d s a' b' e in
        rw (← ea, ← eb) (ap (λ t. c ∷ t) whole, (miss, clear))
  ]
]

pub parse_unsigned-le : (max : ℕ) (s : Text) (n : ℕ) → parse_unsigned max s ≡ some n → n ≤ max
unfolding parse_unsigned
parse_unsigned-le max s n h = ground arith
