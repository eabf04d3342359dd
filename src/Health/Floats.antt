-- ===== src/Health/Floats.antt =====
-- What the health daemon uses of `f64`, as an interface: the values with their comparisons and
-- operations. Nothing is assumed of them, so NaN and rounding are covered.
use sentia_linux.Base.{ℕ, Bool, Text}

pub record Floats : Type 1 where
  pub F : Type 0
  -- `a <= b`; `a >= b` is `le b a`
  pub le : F → F → Bool
  -- `a == b` and `a > b`
  pub eq : F → F → Bool
  pub gt : F → F → Bool
  pub add : F → F → F
  pub sub : F → F → F
  pub abs : F → F
  -- `n as f64`, and the literal n / d
  pub of_nat : ℕ → F
  pub ratio : ℕ → ℕ → F
  -- `{:.1}`, `{:.2}` and `{}` of `v as usize`
  pub show_tenths : F → Text
  pub show_hundredths : F → Text
  pub show_usize : F → Text
