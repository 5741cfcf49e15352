-- ===== src/Samples/ParameterJsonRuns.antt =====
-- The conversions at an array of integers.
use vehicle_detection_system.Common.{
  ◌≡◌, refl, true, [], ◌∷◌, ◌++◌, Bytes, codes, ◌≟◌, if◌then◌else◌, arith,
}
use vehicle_detection_system.Common.Results.{ok, error, ◌>>=◌, Then}
use vehicle_detection_system.Common.Int.{pos, negsuc, show_ℤ}
use vehicle_detection_system.ParameterJson.Value.{
  Json, null, boolean, number_integer, number_unsigned, number_float, string, array, object,
  Elements, nil, cons, member, end, Nlohmann, ParameterValue, integer_array_value, type_number,
}
use vehicle_detection_system.ParameterJson.Convert.{value_to_json, json_to_parameter_value}
use vehicle_detection_system.ParameterJson.RoundTrip.{
  reread, IsReread, json_to_parameter_value-value_to_json,
}
use vehicle_detection_system.ParameterJson.Typed.{IsOf, json_to_parameter_value-IsOf}
use vehicle_detection_system.Samples.Numbers.{
  Number, num, number_double, number_show, number-CastsWithin,
}

-- The texts of values without objects.
mutual
  pub write : Json Number → Bytes
  write null = codes "null"
  write (boolean b) = if b then codes "true" else codes "false"
  write (number_integer i) = show_ℤ i
  write (number_unsigned n) = show_ℤ (pos n)
  write (number_float x) = number_show x
  write (string s) = codes "'" ++ (s ++ codes "'")
  write (array vs) = codes "[" ++ (write_all vs ++ codes "]")
  write (object ms) = codes "{}"

  pub write_all : Elements Number → Bytes
  write_all nil = []
  write_all (cons v nil) = write v
  write_all (cons v (cons w vs)) = write v ++ (codes "," ++ write_all (cons w vs))

-- A request with two parameters, one of which its node has not declared.
abbrev pub request : Bytes
request = codes "{node:/d,parameters:{gain:2,zeal:true}}"

abbrev pub request_value : Json Number
request_value = object (
    member (codes "node") (string (codes "/d")) (
      member (codes "parameters")
        (object
          (member (codes "gain") (number_unsigned 2) (member (codes "zeal") (boolean true) end)))
        end))

-- A reader of two texts.
abbrev pub nlohmann : Nlohmann Number
nlohmann = record {
  dump = λ value. ok (write value);
  parse = λ text.
      if text ≟ codes "[3,-5]"
      then ok (array (cons (number_unsigned 3) (cons (number_integer (negsuc 4)) nil)))
      else if text ≟ request
      then ok request_value
      else error (codes "parse error");
}

abbrev gains : ParameterValue Number
gains = integer_array_value (pos 3 ∷ negsuc 4 ∷ [])

gains-IsReread : IsReread nlohmann (value_to_json gains) (codes "[3,-5]")
unfolding write value_to_json reread show_ℤ
gains-IsReread = record { dumped = refl; parsed = refl }

json_to_parameter_value-value_to_json_example :
    (nlohmann.parse (codes "[3,-5]") >>= λ value.
    json_to_parameter_value nlohmann value (type_number gains))
    ≡ ok gains
json_to_parameter_value-value_to_json_example =
    json_to_parameter_value-value_to_json nlohmann gains (codes "[3,-5]") (omega arith)
      gains-IsReread

abbrev mixed : Json Number
mixed = array (cons (number_float (num (pos 7))) (cons (number_integer (negsuc 4)) nil))

json_to_parameter_value-IsOf_example : Then (IsOf 7) (json_to_parameter_value nlohmann mixed 7)
json_to_parameter_value-IsOf_example =
    json_to_parameter_value-IsOf number-CastsWithin nlohmann mixed 7 (omega arith)
