-- ===== src/LocalBroker/Queue/Counting.antt =====
-- Counting reservations, and the counters per user (queue.rs).
use sentia_linux.Base.{
  ℕ, ◌+◌, ◌-◌, ◌≡◌, Bool, List, [], ◌∷◌, ◌++◌, arith, ◌==◌, if◌then◌else◌, count_if, lookup, insert,
  nat_eq, ==_iff, lookup-insert, lookup-remove,
}
use sentia_linux.LocalBroker.Queue.{or_zero, forget}

pub count_if-append {ℓ} :
    {A : Type ℓ} (p : A → Bool) (xs ys : List A)
    → count_if p (xs ++ ys) ≡ count_if p xs + count_if p ys
count_if-append p [] ys = omega arith
count_if-append p (x ∷ xs) ys = ground (arith, count_if-append p xs ys)

-- One element in the middle counts for itself.
pub count_if-middle {ℓ} :
    {A : Type ℓ} (p : A → Bool) (xs : List A) (x : A) (ys : List A)
    → count_if p (xs ++ x ∷ ys) ≡ (if p x then 1 else 0) + count_if p (xs ++ ys)
count_if-middle p xs x ys = ground (arith, count_if-append p xs (x ∷ ys), count_if-append p xs ys)

-- The counter of a user after one more reservation of `uid`, and after one less.
pub or_zero-insert :
    (uid j n : ℕ) (m : List (ℕ × ℕ))
    → or_zero (lookup j (insert uid n m)) ≡ (if uid == j then n else or_zero (lookup j m))
or_zero-insert uid j n m = ground (arith, lookup-insert uid j n m)

pub or_zero-forget :
    (uid j : ℕ) (m : List (ℕ × ℕ))
    → or_zero (lookup j (forget uid m))
      ≡ (if uid == j then or_zero (lookup uid m) - 1 else or_zero (lookup j m))
unfolding forget
or_zero-forget uid j m = ground (
  arith,
  lookup-remove uid j m,
  or_zero-insert uid j (or_zero (lookup uid m) - 1) m,
  ==_iff uid j,
)
