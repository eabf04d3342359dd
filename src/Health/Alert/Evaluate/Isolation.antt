-- ===== src/Health/Alert/Evaluate/Isolation.antt =====
-- Each condition lives its own life, and the log stays within its capacity (alert.rs).
use sentia_linux.Base.{ℕ, ◌≡◌, false, some, List, [], ◌∷◌, Text, lookup, text_eq, All}
use sentia_linux.Health.Floats.{Floats}
use sentia_linux.Health.Alert.{AlertEngine, step, current_state}
use sentia_linux.Health.Alert.Evaluate.{Condition}

module _ (f : Floats) where
  -- No condition of the list has this id.
  abbrev IsOther : Text → List (Condition f) → Type 0
  IsOther id cs = All (λ c. text_eq.beq c.id id ≡ false) cs

  -- The ids of the conditions differ.
  abbrev AreApart : List (Condition f) → Type 0
  AreApart [] = Unit
  AreApart (c ∷ cs) = IsOther c.id cs × All (λ d. text_eq.beq c.id d.id ≡ false) cs × AreApart cs

  -- Every condition of the list ends in the step of the state that it began with.
  abbrev pub Stepped : AlertEngine f → AlertEngine f → ℕ → Condition f → Type 0
  Stepped e e' now c =
      lookup c.id e'.states
      ≡ some (step f c.rule c.message (current_state f e c.id c.rule c.value now) c.value now).0
