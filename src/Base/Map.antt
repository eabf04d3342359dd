-- ===== src/Base/Map.antt =====
-- Finite maps: association lists with the operations of the hash maps that the program keeps.
use Prim.Native.Nat.{suc, ◌+◌, ◌≤◌}
use mathlib.Core.Path.{◌≡◌, refl}
use mathlib.Core.Bool.{Bool}
use mathlib.Core.List.{List, [], ◌∷◌}
use mathlib.Core.Option.{Option, none, some}
use native.Mathlib.Omega.{arith}
use sentia_linux.Base.Tests.{if◌then◌else◌}
use sentia_linux.Base.Lists.{length, count_if, All, retain}
use sentia_linux.Base.Keys.{Eq}

module _ {ℓ κ} {K : Type ℓ} {V : Type κ} ⦃e : Eq K⦄ where
  abbrev pub lookup : K → List (K × V) → Option V
  lookup k [] = none
  lookup k ((j, v) ∷ m) = if e.beq j k then some v else lookup k m

  abbrev pub insert : K → V → List (K × V) → List (K × V)
  insert k v [] = (k, v) ∷ []
  insert k v ((j, w) ∷ m) = if e.beq j k then (k, v) ∷ m else (j, w) ∷ insert k v m

  abbrev pub remove : K → List (K × V) → List (K × V)
  remove k [] = []
  remove k ((j, w) ∷ m) = if e.beq j k then remove k m else (j, w) ∷ remove k m

  pub lookup-insert :
      (k j : K) (v : V) (m : List (K × V))
      → lookup j (insert k v m) ≡ (if e.beq k j then some v else lookup j m)
  lookup-insert k j v [] = refl
  lookup-insert k j v ((i, w) ∷ m) =
      ground (arith, e.beq_iff k j, e.beq_iff i k, e.beq_iff i j, lookup-insert k j v m)

  pub lookup-retain :
      (p : K × V → Bool) (k : K) (m : List (K × V))
      → lookup k m ≡ none
      → lookup k (retain p m) ≡ none
  lookup-retain p k [] h = refl
  lookup-retain p k ((j, v) ∷ m) h = ground (arith, lookup-retain p k m)

  pub lookup-remove :
      (k j : K) (m : List (K × V))
      → lookup j (remove k m) ≡ (if e.beq k j then none else lookup j m)
  lookup-remove k j [] = ground arith
  lookup-remove k j ((i, w) ∷ m) =
      ground (arith, e.beq_iff k j, e.beq_iff i k, e.beq_iff i j, lookup-remove k j m)

  pub length-insert-le : (k : K) (v : V) (m : List (K × V)) → length (insert k v m) ≤ suc (length m)
  length-insert-le k v [] = omega arith
  length-insert-le k v ((j, w) ∷ m) = ground (arith, length-insert-le k v m)

  pub length-remove-le : (k : K) (m : List (K × V)) → length (remove k m) ≤ length m
  length-remove-le k [] = omega arith
  length-remove-le k ((j, w) ∷ m) = ground (arith, length-remove-le k m)

  -- What holds of the bindings of a map holds after its operations.
  module _ {ι} (P : K × V → Type ι) where
    pub All-insert : (k : K) (v : V) (m : List (K × V)) → P (k, v) → All P m → All P (insert k v m)
    All-insert k v [] p h = (p, tt)
    All-insert k v ((j, w) ∷ m) p h = ground (arith, All-insert k v m p h.1)

    pub All-remove : (k : K) (m : List (K × V)) → All P m → All P (remove k m)
    All-remove k [] h = h
    All-remove k ((j, w) ∷ m) h = ground (arith, All-remove k m h.1)

    pub All-lookup : (k : K) (m : List (K × V)) (v : V) → lookup k m ≡ some v → All P m → P (k, v)
    All-lookup k [] v q h = absurd (ground arith)
    All-lookup k ((j, w) ∷ m) v q h = ground (arith, e.beq_iff j k, All-lookup k m v)

module _ {ℓ κ} {K : Type ℓ} {V : Type κ} ⦃e : Eq K⦄ where
  -- A binding adds at most itself to what passes a test.
  pub count_if-insert-le :
      (p : K × V → Bool) (k : K) (v : V) (m : List (K × V))
      → count_if p (insert k v m) ≤ (if p (k, v) then 1 else 0) + count_if p m
  count_if-insert-le p k v [] = ground arith
  count_if-insert-le p k v ((j, w) ∷ m) = ground (arith, count_if-insert-le p k v m)

  pub count_if-remove-le :
      (p : K × V → Bool) (k : K) (m : List (K × V)) → count_if p (remove k m) ≤ count_if p m
  count_if-remove-le p k [] = omega arith
  count_if-remove-le p k ((j, w) ∷ m) = ground (arith, count_if-remove-le p k m)
