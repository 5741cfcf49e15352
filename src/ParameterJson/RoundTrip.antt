-- ===== src/ParameterJson/RoundTrip.antt =====
-- A parameter that is sent as JSON text and comes back.
use vehicle_detection_system.Common.{
  ◌≡◌, refl, Bool, true, List, [], ◌∷◌, map, All, Bytes, if◌then◌else◌, arith,
}
use vehicle_detection_system.Common.Results.{Result, ok, ◌>>=◌}
use vehicle_detection_system.Common.Int.{ℤ, pos, negsuc, IsInt64}
use vehicle_detection_system.Common.Double.{Double}
use vehicle_detection_system.ParameterJson.Value.{
  Json, null, boolean, number_integer, number_unsigned, number_float, string, array, object,
  Elements, nil, cons, Members, end, member, elements, of_list, Nlohmann, ParameterValue, not_set,
  bool_value, integer_value, double_value, string_value, byte_array_value, bool_array_value,
  integer_array_value, double_array_value, string_array_value, type_number,
}
use vehicle_detection_system.ParameterJson.Convert.{
  convert_all, value_to_json, json_to_bool, json_to_int, json_to_double, json_to_string,
  json_to_array, json_to_parameter_value,
}

module _ {D : Type 0} ⦃d : Double D⦄ where
  -- What nlohmann::json reads from the text of a value: an integer that is not negative comes back as
  -- unsigned, a number that is not finite is written as null, and all else comes back as it was.
  unfoldable mutual
    pub reread : Json D → Json D
    reread null = null
    reread (boolean b) = boolean b
    reread (number_integer (pos n)) = number_unsigned n
    reread (number_integer (negsuc n)) = number_integer (negsuc n)
    reread (number_unsigned n) = number_unsigned n
    reread (number_float x) = if d.is_finite x then number_float x else null
    reread (string s) = string s
    reread (array vs) = array (reread_elements vs)
    reread (object ms) = object (reread_members ms)

    reread_elements : Elements D → Elements D
    reread_elements nil = nil
    reread_elements (cons v vs) = cons (reread v) (reread_elements vs)

    reread_members : Members D → Members D
    reread_members end = end
    reread_members (member key v ms) = member key (reread v) (reread_members ms)

  -- A value of a type that the conversion supports, its integers within 64 bits and its doubles finite.
  abbrev pub IsSettable : ParameterValue D → Type 0
  IsSettable not_set = ⊥
  IsSettable (bool_value v) = Unit
  IsSettable (integer_value v) = IsInt64 v
  IsSettable (double_value v) = d.is_finite v ≡ true
  IsSettable (string_value v) = Unit
  IsSettable (byte_array_value v) = ⊥
  IsSettable (bool_array_value v) = Unit
  IsSettable (integer_array_value v) = All IsInt64 v
  IsSettable (double_array_value v) = All (λ x. d.is_finite x ≡ true) v
  IsSettable (string_array_value v) = Unit

  module _ (nlohmann : Nlohmann D) where
    -- The text of this value is read back.
    pub record IsReread (value : Json D) (text : Bytes) : Type 0 where
      pub dumped : nlohmann.dump value ≡ ok text
      pub parsed : nlohmann.parse text ≡ ok (reread value)

    bool_lem : (b : Bool) → json_to_bool nlohmann (reread (boolean b)) ≡ ok b
    unfolding reread json_to_bool
    bool_lem b = refl

    int_lem : (i : ℤ) → IsInt64 i → json_to_int nlohmann (reread (number_integer i)) ≡ ok i
    unfolding reread json_to_int
    int_lem (pos n) h = ground arith
    int_lem (negsuc n) h = refl

    double_lem :
        (x : D) → d.is_finite x ≡ true → json_to_double nlohmann (reread (number_float x)) ≡ ok x
    unfolding reread json_to_double
    double_lem x h = rw h refl

    string_lem : (s : Bytes) → json_to_string nlohmann (reread (string s)) ≡ ok s
    unfolding reread json_to_string
    string_lem s = refl

    -- An array, from a conversion of its elements.
    array_lem :
        {A : Type 0} (P : A → Type 0) (f : Json D → Result A) (g : A → Json D)
        → ((a : A) → P a → f (reread (g a)) ≡ ok a)
        → (as' : List A) → All P as'
        → convert_all f (elements (reread_elements (of_list (map g as')))) ≡ ok as'
    unfolding reread
    array_lem P f g back [] h = refl
    array_lem P f g back (a ∷ as') (h, hs) = rw (back a h, array_lem P f g back as' hs) refl

    All-trivial : {A : Type 0} (as' : List A) → All (λ a. Unit {0}) as'
    All-trivial [] = tt
    All-trivial (a ∷ as') = (tt, All-trivial as')

    back_lem :
        (v : ParameterValue D)
        → IsSettable v
        → json_to_parameter_value nlohmann (reread (value_to_json v)) (type_number v) ≡ ok v
    unfolding json_to_parameter_value value_to_json reread json_to_array json_to_bool json_to_string
    back_lem not_set h = elim h [ ]
    back_lem (bool_value v) h = refl
    back_lem (integer_value v) h = rw (int_lem v h) refl
    back_lem (double_value v) h = rw (double_lem v h) refl
    back_lem (string_value v) h = refl
    back_lem (byte_array_value v) h = elim h [ ]
    back_lem (bool_array_value v) h =
        rw
          (array_lem (λ b. Unit) (json_to_bool nlohmann) boolean (λ b t. bool_lem b) v
            (All-trivial v))
          refl
    back_lem (integer_array_value v) h =
        rw (array_lem IsInt64 (json_to_int nlohmann) number_integer int_lem v h) refl
    back_lem (double_array_value v) h =
        rw
          (array_lem (λ x. d.is_finite x ≡ true) (json_to_double nlohmann) number_float double_lem v
            h)
          refl
    back_lem (string_array_value v) h =
        rw
          (array_lem (λ s. Unit) (json_to_string nlohmann) string (λ s t. string_lem s) v
            (All-trivial v))
          refl

    -- A value that is not of the types "not set" and "byte array", whose integers are of 64 bits and whose
    -- doubles are finite, and whose text nlohmann::json reads back as it documents: the JSON text of the
    -- value, read and converted to the value's own type, is the value.
    pub json_to_parameter_value-value_to_json :
        (v : ParameterValue D) (text : Bytes)
        → IsSettable v
        → IsReread (value_to_json v) text
        → (nlohmann.parse text >>= λ value. json_to_parameter_value nlohmann value (type_number v))
          ≡ ok v
    json_to_parameter_value-value_to_json v text h k = rw k.parsed (back_lem v h)
