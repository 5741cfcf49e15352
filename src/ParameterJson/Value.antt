-- ===== src/ParameterJson/Value.antt =====
-- The values on both sides: those of nlohmann::json, and those of rclcpp.
use vehicle_detection_system.Common.{
  ℕ, Bool, Option, none, some, List, [], ◌∷◌, Bytes, ◌≟◌, get_elem?, if◌then◌else◌,
}
use vehicle_detection_system.Common.Results.{Result}
use vehicle_detection_system.Common.Int.{ℤ}
use vehicle_detection_system.Common.Order.{le_bytes}

-- A number is of the kind that nlohmann::json keeps for it. The members of an object are in the order of
-- their keys.
mutual
  pub data Json (D : Type 0) : Type 0 where
    null : Json D
    boolean : Bool → Json D
    number_integer : ℤ → Json D
    number_unsigned : ℕ → Json D
    number_float : D → Json D
    string : Bytes → Json D
    array : Elements D → Json D
    object : Members D → Json D

  pub data Elements (D : Type 0) : Type 0 where
    nil : Elements D
    cons : Json D → Elements D → Elements D

  pub data Members (D : Type 0) : Type 0 where
    end : Members D
    member : Bytes → Json D → Members D → Members D

-- The text of a value (or what `dump` throws for a string that is not UTF-8), and the value of a text (or
-- what `parse` throws).
pub record Nlohmann (D : Type 0) : Type 0 where
  pub dump : Json D → Result Bytes
  pub parse : Bytes → Result (Json D)

module _ {D : Type 0} where
  abbrev pub elements : Elements D → List (Json D)
  elements nil = []
  elements (cons v vs) = v ∷ elements vs

  abbrev pub of_list : List (Json D) → Elements D
  of_list [] = nil
  of_list (v ∷ vs) = cons v (of_list vs)

  abbrev pub members : Members D → List (Bytes × Json D)
  members end = []
  members (member key v ms) = (key, v) ∷ members ms

  -- Assignment to a member: it is replaced, or put where its key belongs.
  unfoldable pub set_member : Bytes → Json D → Members D → Members D
  unfolding le_bytes
  set_member key v end = member key v end
  set_member key v (member k w ms) =
      let rest = set_member key v ms in
      if key ≟ k
      then member key v ms
      else if le_bytes key k
      then member key v (member k w ms)
      else member k w rest

  abbrev pub get_member : Bytes → Members D → Option (Json D)
  get_member key end = none
  get_member key (member k w ms) = if key ≟ k then some w else get_member key ms

  -- `out[key] = v`, where `out` is an object, or the null that it is at first.
  unfoldable pub assign : Bytes → Json D → Json D → Json D
  assign key v (object ms) = object (set_member key v ms)
  assign key v out = object (member key v end)

  -- The object of a list of pairs.
  unfoldable pub make_object : List (Bytes × Json D) → Members D
  make_object [] = end
  make_object ((key, v) ∷ pairs) = set_member key v (make_object pairs)

-- The types of parameters, and their numbers.
pub data ParameterType : Type 0 where
  parameter_not_set parameter_bool parameter_integer parameter_double parameter_string :
      ParameterType
  parameter_byte_array parameter_bool_array parameter_integer_array : ParameterType
  parameter_double_array parameter_string_array : ParameterType

abbrev parameter_types : List ParameterType
parameter_types =
    parameter_not_set ∷ parameter_bool ∷ parameter_integer ∷ parameter_double ∷ parameter_string
    ∷ parameter_byte_array ∷ parameter_bool_array ∷ parameter_integer_array ∷ parameter_double_array
    ∷ parameter_string_array ∷ []

-- `static_cast<ParameterType>`; `none` for a number that is no enumerator.
abbrev pub parameter_type : ℕ → Option ParameterType
parameter_type n = get_elem? parameter_types n

pub data ParameterValue (D : Type 0) : Type 0 where
  not_set : ParameterValue D
  bool_value : Bool → ParameterValue D
  integer_value : ℤ → ParameterValue D
  double_value : D → ParameterValue D
  string_value : Bytes → ParameterValue D
  byte_array_value : List ℕ → ParameterValue D
  bool_array_value : List Bool → ParameterValue D
  integer_array_value : List ℤ → ParameterValue D
  double_array_value : List D → ParameterValue D
  string_array_value : List Bytes → ParameterValue D

pub record Parameter (D : Type 0) : Type 0 where
  pub name : Bytes
  pub value : ParameterValue D

-- `get_type`, as its number.
abbrev pub type_number : {D : Type 0} → ParameterValue D → ℕ
type_number not_set = 0
type_number (bool_value v) = 1
type_number (integer_value v) = 2
type_number (double_value v) = 3
type_number (string_value v) = 4
type_number (byte_array_value v) = 5
type_number (bool_array_value v) = 6
type_number (integer_array_value v) = 7
type_number (double_array_value v) = 8
type_number (string_array_value v) = 9
