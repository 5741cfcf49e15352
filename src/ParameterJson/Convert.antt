-- ===== src/ParameterJson/Convert.antt =====
-- The conversions. An exception is an `error` with its text.
use vehicle_detection_system.Common.{
  ℕ, ◌^◌, ◌-◌, Bool, true, false, not, ◌||◌, none, some, List, [], ◌∷◌, ◌++◌, map, Bytes, codes,
  ◌≟◌, ltb, if◌then◌else◌,
}
use vehicle_detection_system.Common.Results.{Result, ok, error, ◌>>=◌}
use vehicle_detection_system.Common.Int.{ℤ, pos, negsuc}
use vehicle_detection_system.Common.Double.{Double}
use vehicle_detection_system.ParameterJson.Value.{
  Json, null, boolean, number_integer, number_unsigned, number_float, string, array, elements,
  of_list, Nlohmann, assign, parameter_type, parameter_not_set, parameter_bool, parameter_integer,
  parameter_double, parameter_string, parameter_byte_array, parameter_bool_array,
  parameter_integer_array, parameter_double_array, parameter_string_array, ParameterValue, not_set,
  bool_value, integer_value, double_value, string_value, byte_array_value, bool_array_value,
  integer_array_value, double_array_value, string_array_value, Parameter, type_number,
}

unfoldable pub parameter_type_name : ℕ → Bytes
parameter_type_name type = elim (parameter_type type) [
  | none ↦ codes "unknown"
  | some parameter_not_set ↦ codes "not_set"
  | some parameter_bool ↦ codes "bool"
  | some parameter_integer ↦ codes "integer"
  | some parameter_double ↦ codes "double"
  | some parameter_string ↦ codes "string"
  | some parameter_byte_array ↦ codes "byte_array"
  | some parameter_bool_array ↦ codes "bool_array"
  | some parameter_integer_array ↦ codes "integer_array"
  | some parameter_double_array ↦ codes "double_array"
  | some parameter_string_array ↦ codes "string_array"
]

-- The loop that fills an array; an exception ends it.
abbrev pub convert_all : {A B : Type 0} → (A → Result B) → List A → Result (List B)
convert_all f [] = ok []
convert_all f (v ∷ vs) = f v >>= λ b. convert_all f vs >>= λ bs. ok (b ∷ bs)

module _ {D : Type 0} where
  -- The member "value" of `parameter_to_json`.
  unfoldable pub value_to_json : ParameterValue D → Json D
  value_to_json not_set = null
  value_to_json (bool_value v) = boolean v
  value_to_json (integer_value v) = number_integer v
  value_to_json (double_value v) = number_float v
  value_to_json (string_value v) = string v
  value_to_json (byte_array_value v) = array (of_list (map number_unsigned v))
  value_to_json (bool_array_value v) = array (of_list (map boolean v))
  value_to_json (integer_array_value v) = array (of_list (map number_integer v))
  value_to_json (double_array_value v) = array (of_list (map number_float v))
  value_to_json (string_array_value v) = array (of_list (map string v))

  unfoldable pub parameter_to_json : Parameter D → Json D
  unfolding parameter_type_name value_to_json
  parameter_to_json param =
      let named = assign (codes "name") (string param.name) null in
      let typed =
        assign (codes "type") (string (parameter_type_name (type_number param.value))) named in
      assign (codes "value") (value_to_json param.value) typed

module _ {D : Type 0} ⦃d : Double D⦄ where
  -- -2^63 as a double.
  abbrev pub min_d : D
  min_d = d.of_ℤ (negsuc (2 ^ 63 - 1))

  abbrev pub upper_exclusive : D
  upper_exclusive = d.neg min_d

  -- `value != 0.0`.
  abbrev is_nonzero : D → Bool
  is_nonzero x = not (d.eq x (d.literal (codes "0.0")))

module _ {D : Type 0} ⦃d : Double D⦄ (nlohmann : Nlohmann D) where
  -- What `dump` throws comes before the message.
  unfoldable pub throw_conversion : {A : Type 0} → Json D → Bytes → Result A
  throw_conversion value target_type = nlohmann.dump value >>= λ text. error (
      codes "cannot convert JSON value '"
      ++ (text ++ (codes "' to parameter type '" ++ (target_type ++ codes "'"))))

  unfoldable pub json_to_double : Json D → Result D
  json_to_double (number_integer i) = ok (d.of_ℤ i)
  json_to_double (number_unsigned u) = ok (d.of_ℤ (pos u))
  json_to_double (number_float x) = ok x
  json_to_double (boolean b) = ok (if b then d.literal (codes "1.0") else d.literal (codes "0.0"))
  json_to_double value = throw_conversion value (codes "double")

  unfoldable pub json_to_int : Json D → Result ℤ
  json_to_int (number_unsigned u) =
      if ltb (2 ^ 63 - 1) u
      then throw_conversion (number_unsigned u) (codes "integer")
      else ok (pos u)
  json_to_int (number_integer i) = ok i
  json_to_int (number_float x) =
      if not (d.is_finite x) || not (d.eq (d.trunc x) x)
      then throw_conversion (number_float x) (codes "integer")
      else if d.lt x min_d || d.le upper_exclusive x
      then throw_conversion (number_float x) (codes "integer")
      else ok (d.to_ℤ x)
  json_to_int (boolean b) = ok (if b then pos 1 else pos 0)
  json_to_int value = throw_conversion value (codes "integer")

  unfoldable pub json_to_bool : Json D → Result Bool
  json_to_bool (boolean b) = ok b
  json_to_bool (number_integer i) = ok (is_nonzero (d.of_ℤ i))
  json_to_bool (number_unsigned u) = ok (is_nonzero (d.of_ℤ (pos u)))
  json_to_bool (number_float x) = ok (is_nonzero x)
  json_to_bool (string s) =
      if s ≟ codes "true" || s ≟ codes "1"
      then ok true
      else if s ≟ codes "false" || s ≟ codes "0"
      then ok false
      else throw_conversion (string s) (codes "bool")
  json_to_bool value = throw_conversion value (codes "bool")

  unfoldable pub json_to_string : Json D → Result Bytes
  json_to_string (string s) = ok s
  json_to_string (number_integer i) = nlohmann.dump (number_integer i)
  json_to_string (number_unsigned u) = nlohmann.dump (number_unsigned u)
  json_to_string (number_float x) = nlohmann.dump (number_float x)
  json_to_string (boolean b) = nlohmann.dump (boolean b)
  json_to_string value = throw_conversion value (codes "string")

  -- The cases of arrays: no array is an exception that names the type.
  unfoldable pub json_to_array :
      {A : Type 0} → (Json D → Result A) → Bytes → Json D → Result (List A)
  json_to_array f target_type (array vs) = convert_all f (elements vs)
  json_to_array f target_type value = throw_conversion value target_type

  unfoldable pub json_to_parameter_value : Json D → ℕ → Result (ParameterValue D)
  unfolding json_to_bool json_to_int json_to_double json_to_string json_to_array
  json_to_parameter_value value expected_type = elim (parameter_type expected_type) [
    | some parameter_bool ↦ json_to_bool value >>= λ v. ok (bool_value v)
    | some parameter_integer ↦ json_to_int value >>= λ v. ok (integer_value v)
    | some parameter_double ↦ json_to_double value >>= λ v. ok (double_value v)
    | some parameter_string ↦ json_to_string value >>= λ v. ok (string_value v)
    | some parameter_bool_array ↦
        json_to_array json_to_bool (codes "bool_array") value >>= λ arr. ok (bool_array_value arr)
    | some parameter_integer_array ↦
        json_to_array json_to_int (codes "integer_array") value >>= λ arr.
        ok (integer_array_value arr)
    | some parameter_double_array ↦
        json_to_array json_to_double (codes "double_array") value >>= λ arr.
        ok (double_array_value arr)
    | some parameter_string_array ↦
        json_to_array json_to_string (codes "string_array") value >>= λ arr.
        ok (string_array_value arr)
    | some parameter_byte_array ↦
        error (codes "byte_array parameters are not supported via the GUI bridge")
    | some parameter_not_set ↦ error (codes "target parameter is not declared on the remote node")
    | none ↦ error (codes "unknown parameter type")
  ]
