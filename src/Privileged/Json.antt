-- ===== src/Privileged/Json.antt =====
-- What the broker uses of serde_json's `Value`, as an interface: the values, their equality, and the
-- operations that the code calls. Nothing is assumed of them.
use sentia_linux.Base.{Bool, Option, List, ℕ, Text, Eq}

pub record Json : Type 1 where
  pub Value : Type 0
  pub equality : Eq Value
  -- `json!` on objects, texts, lists, flags and numbers
  pub object : List (Text × Value) → Value
  pub string : Text → Value
  pub array : List Value → Value
  pub boolean : Bool → Value
  pub number : ℕ → Value
  -- `value["key"] = v`
  pub assign : Value → Text → Value → Value
  -- `value.get("key")`, `value.as_str()`, `value.is_object()`
  pub get : Value → Text → Option Value
  pub as_str : Value → Option Text
  pub is_object : Value → Bool
  -- `serde_json::to_vec` and `serde_json::from_slice`
  pub encode : Value → Option Text
  pub decode : Text → Option Value
