-- ===== src/Privileged/Executor/Effects.antt =====
-- What the broker does to the system, as a value: a step gives the list of its effects, in order,
-- with its result. An effect that was made stays in the list when a later step fails.
use sentia_linux.Base.{
  ℕ, ◌≡◌, refl, ◌⊎◌, inl, Option, List, [], ◌∷◌, ◌++◌, Text, Result, ok, err, All, All-append,
}
use sentia_linux.Privileged.Operation.{Error}

pub data Effect : Type 0 where
  -- a helper program with its arguments and its input
  spawn : (executable : Text) (arguments : List Text) (input : Option Text) → Effect
  -- SIGTERM and SIGKILL to the process group of a helper that failed or took too long
  terminate_group kill_group : Effect
  -- SIGTERM to the process that a pidfd was opened for
  terminate : (pid : ℕ) → Effect

abbrev pub Act : Type 0 → Type 0
Act A = List Effect × Result Error A

infixl 5 ◌>>=◌ ◌>>◌
abbrev pub ◌>>=◌ : {A B : Type 0} → Act A → (A → Act B) → Act B
(es, ok a) >>= f = (es ++ (f a).0, (f a).1)
(es, err e) >>= f = (es, err e)

abbrev pub ◌>>◌ : {B : Type 0} → Act (Unit {0}) → Act B → Act B
m >> k = m >>= λ _. k

-- A step that only looks.
abbrev pub look : {A : Type 0} → Result Error A → Act A
look r = ([], r)

abbrev pub effect : Effect → Act (Unit {0})
effect e = (e ∷ [], ok tt)

-- What holds of the effects of both parts holds of those of a sequence.
pub All-bind :
    {A B : Type 0} (P : Effect → Type 0) (m : Act A) (f : A → Act B)
    → All P m.0
    → ((a : A) → m.1 ≡ ok a → All P (f a).0)
    → All P (m >>= f).0
All-bind P (es, ok a) f h k = All-append P es (f a).0 h (k a refl)
All-bind P (es, err e) f h k = h

-- A sequence that succeeds is two steps that succeed.
pub seq-eq-ok :
    {A B : Type 0} (m : Act A) (f : A → Act B) {b : B}
    → (m >>= f).1 ≡ ok b
    → (a : A) × (m.1 ≡ ok a) × ((f a).1 ≡ ok b)
seq-eq-ok (es, ok a) f h = (a, refl, h)
seq-eq-ok (es, err e) f h = absurd (cc)

-- A step has no effect, or what stands behind its effects holds.
abbrev pub Only : {A : Type 0} → Type 0 → (Effect → Type 0) → Act A → Type 0
Only G P m = (m.0 ≡ []) ⊎ (G × All P m.0)

pub Only-look :
    {A B : Type 0} (G : Type 0) (P : Effect → Type 0) (r : Result Error A) (f : A → Act B)
    → ((a : A) → r ≡ ok a → Only G P (f a))
    → Only G P (look r >>= f)
Only-look G P (ok a) f h = h a refl
Only-look G P (err e) f h = inl refl
