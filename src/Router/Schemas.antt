-- ===== src/Router/Schemas.antt =====
-- crates/sentia-router/src/tools.rs, validate_schema: the check of a tool's arguments against the
-- schema of its definition. The set of required keys is read in the order of the array.

use sentia_linux.Base.{
  ℕ, Bool, false, not, Option, none, some, List, [], ◌∷◌, ◌++◌, Text, codes, ltb, text_beq,
  if◌then◌else◌, Result, ok, err, ◌>>◌, reject,
}
use sentia_linux.Router.Redaction.{len}
use sentia_linux.Router.Values.{
  Value, Fields, end, field, object, text, get, contains_key, as_str, as_bool, as_u64, as_object,
  as_strings, keys, json_type,
}

pub data ToolError : Type 0 where
  unknown : ToolError
  invalid_arguments unavailable failed : Text → ToolError

abbrev pub or_type : Option Text → Text
or_type none = codes "object"
or_type (some s) = s

abbrev pub or_no_fields : Option Fields → Fields
or_no_fields none = end
or_no_fields (some fields) = fields

check_required : Fields → List Text → Result ToolError (Unit {0})
check_required fields [] = ok tt
check_required fields (key ∷ keys) = do
  reject (not (contains_key key fields))
      (invalid_arguments (codes "missing required property " ++ key))
  check_required fields keys

check_known : Fields → List Text → Result ToolError (Unit {0})
check_known properties [] = ok tt
check_known properties (key ∷ keys) = do
  reject (not (contains_key key properties))
      (invalid_arguments (codes "unexpected property " ++ key))
  check_known properties keys

check_closed : Option Bool → Fields → List Text → Result ToolError (Unit {0})
unfolding check_known
check_closed (some false) properties names = check_known properties names
check_closed _ properties names = ok tt

check_type : Text → Value → Option Text → Result ToolError (Unit {0})
check_type name value none = ok tt
check_type name value (some expected) =
    reject (not (text_beq expected (json_type value)))
      (invalid_arguments (codes "property " ++ (name ++ (codes " must be " ++ expected))))

-- The length of a text; any other value has none.
abbrev pub text_len : Value → ℕ
text_len (text s) = len s
text_len _ = 0

check_length : Text → Value → Option ℕ → Result ToolError (Unit {0})
check_length name value none = ok tt
check_length name value (some maximum) =
    reject (ltb maximum (text_len value))
      (invalid_arguments (codes "property " ++ (name ++ codes " exceeds maxLength")))

-- A value against the schema of its property, where there is one.
check_property : Text → Value → Option Fields → Result ToolError (Unit {0})
unfolding check_type check_length
check_property name value none = ok tt
check_property name value (some property) = do
  check_type name value (as_str (get (codes "type") property))
  check_length name value (as_u64 (get (codes "maxLength") property))

check_properties : Fields → Fields → Result ToolError (Unit {0})
unfolding check_property
check_properties properties end = ok tt
check_properties properties (field name value fields) = do
  check_property name value (as_object (get name properties))
  check_properties properties fields

pub validate_object : Fields → Fields → Result ToolError (Unit {0})
unfolding check_required check_closed check_properties
validate_object schema fields =
    let properties = or_no_fields (as_object (get (codes "properties") schema)) in
    do
      check_required fields (as_strings (get (codes "required") schema))
      check_closed (as_bool (get (codes "additionalProperties") schema)) properties (keys fields)
      check_properties properties fields

validate_fields : Text → Fields → Value → Result ToolError (Unit {0})
unfolding validate_object
validate_fields expected schema (object fields) = validate_object schema fields
validate_fields expected schema value = err (invalid_arguments (codes "expected object"))

pub validate_schema : Value → Value → Result ToolError (Unit {0})
unfolding validate_fields
validate_schema (object schema) value =
    let expected = or_type (as_str (get (codes "type") schema)) in
    do
      reject (not (text_beq expected (json_type value))) (
          invalid_arguments
            (codes "expected " ++ (expected ++ (codes ", got " ++ json_type value))))
      if text_beq expected (codes "object") then validate_fields expected schema value else ok tt
validate_schema schema value = err (invalid_arguments (codes "tool schema must be an object"))
