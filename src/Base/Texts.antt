-- ===== src/Base/Texts.antt =====
-- Laws of the tests on texts.
use Prim.Native.Nat.{ℕ, zero, suc, ◌≤◌}
use mathlib.Core.Path.{◌≡◌, refl, ap}
use mathlib.Core.Logic.{inl, inr}
use mathlib.Core.Bool.{Bool, true, false}
use mathlib.Core.List.{List, [], ◌∷◌, ◌++◌}
use mathlib.Core.Option.{Option, none, some}
use native.Mathlib.Omega.{arith}
use sentia_linux.Base.Tests.{Bool-cases}
use sentia_linux.Base.Lists.{length, take, All}
use sentia_linux.Base.Keys.{Text, text_beq, text_beq_iff, ends_with, Eq, mem, starts_with, contains}

pub take-append_length {ℓ} :
    {A : Type ℓ} (n : ℕ) (s p : List A) → n ≡ length s → take n (s ++ p) ≡ s
take-append_length zero [] p h = refl
take-append_length zero (c ∷ s) p h = absurd (omega arith)
take-append_length (suc n) [] p h = absurd (omega arith)
take-append_length (suc n) (c ∷ s) p h = ap (λ t. c ∷ t) (take-append_length n s p (omega arith))

pub text_beq_refl : (s : Text) → text_beq s s ≡ true
text_beq_refl s = (text_beq_iff s s).1 refl

pub ends_with-length : (s p : Text) → ends_with s p ≡ true → length p ≤ length s
ends_with-length [] p h = ground (arith, text_beq_iff [] p)
ends_with-length (c ∷ s) p h = ground (arith, text_beq_iff (c ∷ s) p, ends_with-length s p)

-- A text with a suffix is what stands before the suffix, and the suffix.
pub ends_with-split : (s p : Text) → ends_with s p ≡ true → (t : Text) × (s ≡ t ++ p)
ends_with-split [] p h = ([], (text_beq_iff [] p).0 h)
ends_with-split (c ∷ s) p h = elim (Bool-cases (text_beq (c ∷ s) p)) [
  | inl same ↦ ([], (text_beq_iff (c ∷ s) p).0 same)
  | inr other ↦ let (t, e) = ends_with-split s p (ground arith) in (c ∷ t, ap (λ r. c ∷ r) e)
]

pub ends_with-append : (t p : Text) → ends_with (t ++ p) p ≡ true
ends_with-append [] [] = refl
ends_with-append [] (c ∷ p) = ground (arith, text_beq_refl (c ∷ p))
ends_with-append (c ∷ t) p = ground (arith, ends_with-append t p)

pub mem-All {ℓ κ} :
    {A : Type ℓ} ⦃e : Eq A⦄ (P : A → Type κ) (a : A) (xs : List A)
    → mem a xs ≡ true
    → All P xs
    → P a
mem-All P a [] h ps = absurd (ground arith)
mem-All ⦃e⦄ P a (x ∷ xs) h ps = ground (arith, e.beq_iff a x, mem-All P a xs)

-- `Option<&str> == Option<&str>`
abbrev pub option_text_beq : Option Text → Option Text → Bool
option_text_beq none none = true
option_text_beq (some s) (some t) = text_beq s t
option_text_beq _ _ = false

pub option_text_beq-some :
    (o : Option Text) (t : Text) → option_text_beq o (some t) ≡ true → o ≡ some t
option_text_beq-some none t h = absurd (ground arith)
option_text_beq-some (some s) t h = ap some ((text_beq_iff s t).0 h)

pub starts_with-append : (p y : Text) → starts_with (p ++ y) p ≡ true
starts_with-append [] [] = refl
starts_with-append [] (c ∷ y) = refl
starts_with-append (c ∷ p) y = ground (arith, starts_with-append p y)

pub contains-append : (x p y : Text) → contains (x ++ (p ++ y)) p ≡ true
contains-append [] [] [] = refl
contains-append [] [] (c ∷ y) = refl
contains-append [] (c ∷ p) y = ground (arith, starts_with-append (c ∷ p) y)
contains-append (c ∷ x) p y = ground (arith, contains-append x p y)

pub true_or_false : {A : Type 0} (b : Bool) → b ≡ true → b ≡ false → A
true_or_false b h k = cc
