-- ===== src/Pool/JsonCpp.antt =====
-- The part of the jsoncpp library that libpool and libapi call, as an interface over a type of values:
-- the library's code is not here, so each function is a parameter. `none` stands for an exception.
use etcminer.Prelude.{ℕ, Bool, List, [], ◌∷◌, ◌++◌, Option, some, none, Text, codes, if◌then◌else◌}
use etcminer.Dev.Float.{Float}

pub record JsonCpp (J : Type 0) : Type 0 where
  -- isMember, get and operator[] by a name: the member, if there is one.
  pub member : J → Text → Option (Option J)
  -- get and operator[] by a position.
  pub element : J → ℕ → Option (Option J)
  pub size : J → ℕ
  pub null_value : J
  pub is_null : J → Bool
  pub is_empty_value : J → Bool  -- empty()
  pub is_array : J → Bool
  pub is_object : J → Bool
  pub is_string : J → Bool
  pub is_bool : J → Bool
  pub is_uint : J → Bool
  pub is_object_like : J → Bool  -- isConvertibleTo(objectValue)
  pub as_string : J → Option Text
  pub as_bool : J → Option Bool
  pub as_uint : J → Option ℕ
  pub as_double : J → Option Float
  pub is_string_like : J → Bool  -- isConvertibleTo(stringValue)
  pub is_bool_like : J → Bool  -- isConvertibleTo(booleanValue)
  pub is_array_like : J → Bool  -- isConvertibleTo(arrayValue)
  -- What a loop over an array or an object visits.
  pub elements : J → List J
  pub members : J → List (Text × J)

-- What a program writes into a message: a value of a member.
pub data Field : Type 0 where
  number : ℕ → Field
  text : Text → Field
  texts : List Text → Field
  named : List (Text × Text) → Field
  nothing : Field

module _ {J : Type 0} (json : JsonCpp J) where
  -- get(name, ""), and then asString().
  unfoldable pub member_text : J → Text → Option Text
  member_text v name = elim (json.member v name) [
    | none ↦ none
    | some none ↦ some []
    | some (some x) ↦ json.as_string x
  ]

  -- get(position, ""), and then asString().
  unfoldable pub element_text : J → ℕ → Option Text
  element_text v i = elim (json.element v i) [
    | none ↦ none
    | some none ↦ some []
    | some (some x) ↦ json.as_string x
  ]

  -- retVar += i.asString() + " " for each element
  unfoldable pub join_elements : List J → Option Text
  join_elements [] = some []
  join_elements (x ∷ xs) = elim (json.as_string x) [
    | none ↦ none
    | some t ↦ elim (join_elements xs) [ none ↦ none | some rest ↦ some (t ++ codes " " ++ rest) ]
  ]

  -- retVar += name + ":" + v.asString() + " " for each member
  unfoldable pub join_members : List (Text × J) → Option Text
  join_members [] = some []
  join_members ((name, x) ∷ xs) = elim (json.as_string x) [
    | none ↦ none
    | some t ↦ elim (join_members xs) [
      | none ↦ none
      | some rest ↦ some (name ++ codes ":" ++ t ++ codes " " ++ rest)
    ]
  ]

  -- The text of a member "error" that is not null.
  unfoldable pub error_text : J → Option Text
  error_text e =
      if json.is_string_like e
      then json.as_string e
      else (if json.is_array_like e
          then join_elements (json.elements e)
          else (if json.is_object_like e then join_members (json.members e) else some []))

  -- processError of the stratum and the getwork client.
  unfoldable pub process_error : J → Option Text
  process_error v = elim (json.member v (codes "error")) [
    | none ↦ none
    | some none ↦ some (codes "Unknown error")
    | some (some e) ↦ if json.is_null e then some (codes "Unknown error") else error_text e
  ]
