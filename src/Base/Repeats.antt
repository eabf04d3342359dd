-- ===== src/Base/Repeats.antt =====
-- Lists without repetition, and the loop that checks it with the set of what it has seen.
use mathlib.Core.Path.{◌≡◌, refl}
use mathlib.Core.Logic.{◌≢◌}
use mathlib.Core.Bool.{false}
use mathlib.Core.List.{List, [], ◌∷◌}
use native.Mathlib.Omega.{arith}
use sentia_linux.Base.Tests.{or_false}
use sentia_linux.Base.Lists.{All, All-map_imp}
use sentia_linux.Base.Keys.{Eq, mem}

-- No element stands twice in the list.
abbrev pub Distinct {ℓ} : {A : Type ℓ} → List A → Type ℓ
Distinct [] = Unit
Distinct (x ∷ xs) = All (λ y. y ≢ x) xs × Distinct xs

pub All-both {ℓ κ ι} :
    {A : Type ℓ} (P : A → Type κ) (Q : A → Type ι) (xs : List A)
    → All P xs
    → All Q xs
    → All (λ x. P x × Q x) xs
All-both P Q [] p q = tt
All-both P Q (x ∷ xs) p q = ((p.0, q.0), All-both P Q xs p.1 q.1)

module _ {ℓ} {A : Type ℓ} ⦃e : Eq A⦄ where
  -- The loop's view of it: each element is new when it is met.
  abbrev pub Fresh : List A → List A → Type 0
  Fresh seen [] = Unit
  Fresh seen (x ∷ xs) = (mem x seen ≡ false) × Fresh (x ∷ seen) xs

  mem-cons-false : (y x : A) (seen : List A) → mem y (x ∷ seen) ≡ false → y ≢ x
  mem-cons-false y x seen h q = ground (arith, e.beq_iff y x)

  mem-cons-new : (y x : A) (seen : List A) → y ≢ x → mem y seen ≡ false → mem y (x ∷ seen) ≡ false
  mem-cons-new y x seen n h = ground (arith, e.beq_iff y x)

  Fresh-All : (seen xs : List A) → Fresh seen xs → All (λ y. mem y seen ≡ false) xs
  Fresh-All seen [] f = tt
  Fresh-All seen (x ∷ xs) f = (
    f.0,
    All-map_imp (λ y. mem y (x ∷ seen) ≡ false) (λ y. mem y seen ≡ false) xs
        (λ y h. (or_false _ (mem y seen) h).1) (Fresh-All (x ∷ seen) xs f.1),
  )

  pub Fresh-Distinct : (seen xs : List A) → Fresh seen xs → Distinct xs
  Fresh-Distinct seen [] f = tt
  Fresh-Distinct seen (x ∷ xs) f = (
    All-map_imp (λ y. mem y (x ∷ seen) ≡ false) (λ y. y ≢ x) xs (λ y h. mem-cons-false y x seen h)
        (Fresh-All (x ∷ seen) xs f.1),
    Fresh-Distinct (x ∷ seen) xs f.1,
  )

  pub Distinct-Fresh :
      (seen xs : List A) → All (λ y. mem y seen ≡ false) xs → Distinct xs → Fresh seen xs
  Distinct-Fresh seen [] h d = tt
  Distinct-Fresh seen (x ∷ xs) h d = (
    h.0,
    Distinct-Fresh (x ∷ seen) xs
        (All-map_imp (λ y. (y ≢ x) × (mem y seen ≡ false)) (λ y. mem y (x ∷ seen) ≡ false) xs
          (λ y b. mem-cons-new y x seen b.0 b.1)
          (All-both (λ y. y ≢ x) (λ y. mem y seen ≡ false) xs d.0 h.1))
        d.1,
  )

  pub none_seen : (xs : List A) → All (λ y. mem y [] ≡ false) xs
  none_seen [] = tt
  none_seen (x ∷ xs) = (refl, none_seen xs)
