-- ===== src/Health/Alert/Hysteresis.antt =====
-- When a condition becomes active, and when it is resolved (alert.rs, eval_numeric).
use sentia_linux.Base.{
  ℕ, zero, suc, ◌≤◌, ◌≡◌, sym, subst, ◌⊎◌, Bool, true, false, List, [], ◌∷◌, arith, Text, length,
  take, All, inl, inr, Bool-cases,
}
use sentia_linux.Health.Floats.{Floats}
use sentia_linux.Health.Alert.{ThresholdRule, ConditionState, step, saturating_suc}

All-take_le :
    {A : Type 0} (P : A → Type 0) (m n : ℕ) (xs : List A)
    → m ≤ n
    → All P (take n xs)
    → All P (take m xs)
All-take_le P zero n xs h a = tt
All-take_le P (suc m) zero xs h a = absurd (omega arith)
All-take_le P (suc m) (suc n) [] h a = tt
All-take_le P (suc m) (suc n) (x ∷ xs) h a = (a.0, All-take_le P m n xs (omega arith) a.1)

-- The latest `n` of at least `n` values pass a test.
abbrev pub Lately : {A : Type 0} → (A → Bool) → ℕ → List A → Type 0
Lately p n xs = (n ≤ length xs) × All (λ x. p x ≡ true) (take n xs)

Lately-le :
    {A : Type 0} (p : A → Bool) (m n : ℕ) (xs : List A) → m ≤ n → Lately p n xs → Lately p m xs
Lately-le p m n xs h l = (omega (arith, l.0), All-take_le (λ x. p x ≡ true) m n xs h l.1)

saturating_suc-le : (n : ℕ) → saturating_suc n ≤ suc n
saturating_suc-le n = ground arith

Lately-suc :
    {A : Type 0} (p : A → Bool) (n : ℕ) (x : A) (xs : List A)
    → p x ≡ true
    → Lately p n xs
    → Lately p (saturating_suc n) (x ∷ xs)
Lately-suc p n x xs h l =
    Lately-le p (saturating_suc n) (suc n) (x ∷ xs) (saturating_suc-le n)
      (omega (arith, l.0), (h, l.1))

module _ (f : Floats) (rule : ThresholdRule f) (message_fn : f.F → Text) where
  open f use {F, le}

  abbrev pub is_high : F → Bool
  is_high v = le rule.activate_at v

  abbrev pub is_low : F → Bool
  is_low v = le v rule.clear_below

  -- A condition and the values that it was sampled with, the latest first.
  abbrev pub run : ConditionState f → List (F × ℕ) → ConditionState f
  run s [] = s
  run s ((value, now) ∷ earlier) = (step f rule message_fn (run s earlier) value now).0

  abbrev pub values : List (F × ℕ) → List F
  values [] = []
  values ((value, now) ∷ earlier) = value ∷ values earlier

  -- What one sample does to the counter that matters afterwards, and when it flips the condition.
  module _ (s : ConditionState f) (value : F) (now : ℕ) where
    abbrev after : ConditionState f
    after = (step f rule message_fn s value now).0

    stays_active :
        s.active ≡ true
        → after.active ≡ true
        → ((is_low value ≡ true) × (after.below_samples ≡ saturating_suc s.below_samples))
          ⊎ (after.below_samples ≡ 0)
    unfolding step
    stays_active h k = ground arith

    starts_over : s.active ≡ false → after.active ≡ true → after.below_samples ≡ 0
    unfolding step
    starts_over h k = ground arith

    ends_over : s.active ≡ true → after.active ≡ false → after.above_samples ≡ 0
    unfolding step
    ends_over h k = ground arith

    stays_inactive :
        s.active ≡ false
        → after.active ≡ false
        → ((is_high value ≡ true) × (after.above_samples ≡ saturating_suc s.above_samples))
          ⊎ (after.above_samples ≡ 0)
    unfolding step
    stays_inactive h k = ground arith

    activates :
        s.active ≡ false
        → after.active ≡ true
        → (is_high value ≡ true) × (rule.required_samples ≤ saturating_suc s.above_samples)
    unfolding step
    activates h k = (ground arith, ground arith)

    resolves :
        s.active ≡ true
        → after.active ≡ false
        → ((is_low value ≡ true) × (rule.required_samples ≤ saturating_suc s.below_samples))
          ⊎ (rule.required_samples ≡ 0)
    unfolding step
    resolves h k = ground arith

  -- The counter of a condition is of values just seen.
  record IsCounting (s : ConditionState f) (vs : List F) : Type 0 where
    low : s.active ≡ true → Lately is_low s.below_samples vs
    high : s.active ≡ false → Lately is_high s.above_samples vs

  nothing_lately : (p : F → Bool) (n : ℕ) (vs : List F) → n ≡ 0 → Lately p n vs
  nothing_lately p zero vs h = (omega arith, tt)
  nothing_lately p (suc n) vs h = absurd (omega arith)

  counted :
      (p : F → Bool) (n m : ℕ) (v : F) (vs : List F)
      → ((p v ≡ true) × (m ≡ saturating_suc n)) ⊎ (m ≡ 0)
      → Lately p n vs
      → Lately p m (v ∷ vs)
  counted p n m v vs (inl (h, e)) l =
      subst (λ k. Lately p k (v ∷ vs)) (sym e) (Lately-suc p n v vs h l)
  counted p n m v vs (inr e) l = nothing_lately p m (v ∷ vs) e

  step-IsCounting :
      (s : ConditionState f) (vs : List F) (value : F) (now : ℕ)
      → IsCounting s vs
      → IsCounting (step f rule message_fn s value now).0 (value ∷ vs)
  step-IsCounting s vs value now c = record {
    low = λ k. elim (Bool-cases s.active) [
      | inl was ↦
          counted is_low s.below_samples (after s value now).below_samples value vs
            (stays_active s value now was k) (c.low was)
      | inr was ↦ nothing_lately is_low _ (value ∷ vs) (starts_over s value now was k)
    ];
    high = λ k. elim (Bool-cases s.active) [
      | inl was ↦ nothing_lately is_high _ (value ∷ vs) (ends_over s value now was k)
      | inr was ↦
          counted is_high s.above_samples (after s value now).above_samples value vs
            (stays_inactive s value now was k) (c.high was)
    ];
  }

  run-IsCounting :
      (s : ConditionState f) (samples : List (F × ℕ))
      → s.active ≡ false
      → s.above_samples ≡ 0
      → IsCounting (run s samples) (values samples)
  run-IsCounting s [] h e = record {
    low = λ k. absurd (cc);
    high = λ k. nothing_lately is_high s.above_samples [] e;
  }
  run-IsCounting s ((value, now) ∷ earlier) h e =
      step-IsCounting (run s earlier) (values earlier) value now (run-IsCounting s earlier h e)

  -- Whatever a new condition was sampled with: if a sample makes it active, the latest
  -- `required_samples` values, this one included, were all at or above the activation threshold.
  pub run_activates :
      (s : ConditionState f) (value : F) (now : ℕ) (earlier : List (F × ℕ))
      → s.active ≡ false
      → s.above_samples ≡ 0
      → (run s earlier).active ≡ false
      → (run s ((value, now) ∷ earlier)).active ≡ true
      → Lately is_high rule.required_samples (value ∷ values earlier)
  run_activates s value now earlier h e was k =
      let (high, enough) = activates (run s earlier) value now was k in
      Lately-le is_high rule.required_samples (saturating_suc (run s earlier).above_samples)
        (value ∷ values earlier) enough
        (Lately-suc is_high (run s earlier).above_samples value (values earlier) high
          ((run-IsCounting s earlier h e).high was))

  -- If a sample resolves it, the latest `required_samples` values, this one included, were all at or
  -- below the clearing threshold.
  pub run_resolves :
      (s : ConditionState f) (value : F) (now : ℕ) (earlier : List (F × ℕ))
      → s.active ≡ false
      → s.above_samples ≡ 0
      → (run s earlier).active ≡ true
      → (run s ((value, now) ∷ earlier)).active ≡ false
      → Lately is_low rule.required_samples (value ∷ values earlier)
  run_resolves s value now earlier h e was k = elim (resolves (run s earlier) value now was k) [
    | inl (low, enough) ↦
        Lately-le is_low rule.required_samples (saturating_suc (run s earlier).below_samples)
          (value ∷ values earlier) enough
          (Lately-suc is_low (run s earlier).below_samples value (values earlier) low
            ((run-IsCounting s earlier h e).low was))
    | inr nothing ↦ nothing_lately is_low rule.required_samples (value ∷ values earlier) nothing
  ]
