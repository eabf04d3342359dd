-- ===== src/Router/Values.antt =====
-- The values of serde_json, as the router reads them: texts are code points, an object is its entries
-- in the order of the map, and a number is one of `u64`, another integer, or neither.
use sentia_linux.Base.{
  ℕ, Bool, true, false, Option, none, some, List, [], ◌∷◌, Text, codes, text_beq, if◌then◌else◌,
}

mutual
  pub data Value : Type 0 where
    null : Value
    boolean : Bool → Value
    natural : ℕ → Value
    negative : ℕ → Value
    fraction : Text → Value
    text : Text → Value
    array : Items → Value
    object : Fields → Value

  pub data Items : Type 0 where
    nil : Items
    item : Value → Items → Items

  pub data Fields : Type 0 where
    end : Fields
    field : Text → Value → Fields → Fields

-- `Map::get`, `Map::contains_key`
pub get : Text → Fields → Option Value
get key end = none
get key (field name value fields) = if text_beq name key then some value else get key fields

pub contains_key : Text → Fields → Bool
contains_key key end = false
contains_key key (field name value fields) =
    if text_beq name key then true else contains_key key fields

abbrev pub as_str : Option Value → Option Text
as_str (some (text s)) = some s
as_str _ = none

abbrev pub as_bool : Option Value → Option Bool
as_bool (some (boolean b)) = some b
as_bool _ = none

abbrev pub as_u64 : Option Value → Option ℕ
as_u64 (some (natural n)) = some n
as_u64 _ = none

abbrev pub as_object : Option Value → Option Fields
as_object (some (object fields)) = some fields
as_object _ = none

abbrev pub string_items : Items → List Text
string_items nil = []
string_items (item (text s) items) = s ∷ string_items items
string_items (item _ items) = string_items items

-- The texts of an array, or nothing.
abbrev pub as_strings : Option Value → List Text
as_strings (some (array items)) = string_items items
as_strings _ = []

abbrev pub keys : Fields → List Text
keys end = []
keys (field name value fields) = name ∷ keys fields

abbrev pub json_type : Value → Text
json_type null = codes "null"
json_type (boolean b) = codes "boolean"
json_type (natural n) = codes "integer"
json_type (negative n) = codes "integer"
json_type (fraction s) = codes "number"
json_type (text s) = codes "string"
json_type (array items) = codes "array"
json_type (object fields) = codes "object"
