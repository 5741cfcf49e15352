-- ===== src/ParameterJson/Typed.antt =====
-- Of what type and range a converted value is.
use vehicle_detection_system.Common.{
  if_ind, ltb, not, ◌||◌, ◌≡◌, refl, ℕ, zero, suc, ◌^◌, ◌-◌, true, false, List, [], ◌∷◌, All, Bytes,
  codes, inl, inr, arith,
}
use vehicle_detection_system.Common.Results.{Result, ok, error, ◌>>=◌, Result-cases, Then, >>=-Then}
use vehicle_detection_system.Common.Int.{ℤ, pos, negsuc, ◌≤ℤ◌, IsInt64}
use vehicle_detection_system.Common.Double.{Double}
use vehicle_detection_system.ParameterJson.Value.{
  Json, null, boolean, number_integer, number_unsigned, number_float, string, array, object,
  elements, Nlohmann, ParameterValue, not_set, bool_value, integer_value, double_value,
  string_value, byte_array_value, bool_array_value, integer_array_value, double_array_value,
  string_array_value, type_number,
}
use vehicle_detection_system.ParameterJson.Convert.{
  convert_all, throw_conversion, json_to_int, json_to_array, json_to_parameter_value, min_d,
  upper_exclusive,
}

-- The cast of a whole number to an integer keeps it above -2^63 and below 2^63, which are doubles.
pub record CastsWithin (D : Type 0) ⦃d : Double D⦄ : Type 0 where
  pub at_least :
      (x : D)
      → d.is_finite x ≡ true
      → d.eq (d.trunc x) x ≡ true
      → d.lt x min_d ≡ false
      → negsuc (2 ^ 63 - 1) ≤ℤ d.to_ℤ x
  pub below :
      (x : D)
      → d.is_finite x ≡ true
      → d.eq (d.trunc x) x ≡ true
      → d.le upper_exclusive x ≡ false
      → d.to_ℤ x ≤ℤ pos (2 ^ 63 - 1)

module _ {D : Type 0} ⦃d : Double D⦄ where
  -- The integers of a value, and those right inside an array, are of 64 bits, as nlohmann::json stores
  -- them.
  abbrev IsScalar : Json D → Type 0
  IsScalar (number_integer i) = IsInt64 i
  IsScalar value = Unit

  abbrev pub IsStored : Json D → Type 0
  IsStored (number_integer i) = IsInt64 i
  IsStored (array vs) = All IsScalar (elements vs)
  IsStored value = Unit

  -- A value that a parameter is set to: not "not set" and no byte array, and its integers of 64 bits.
  abbrev pub IsInRange : ParameterValue D → Type 0
  IsInRange not_set = ⊥
  IsInRange (byte_array_value v) = ⊥
  IsInRange (integer_value v) = IsInt64 v
  IsInRange (integer_array_value v) = All IsInt64 v
  IsInRange value = Unit

  -- The value is of a type, and one that a parameter is set to.
  abbrev pub IsOf : ℕ → ParameterValue D → Type 0
  IsOf type v = (type_number v ≡ type) × IsInRange v

  module _ (casts : CastsWithin D) (nlohmann : Nlohmann D) where
    throw_conversion-Then :
        {A : Type 0} (P : A → Type 0) (value : Json D) (target_type : Bytes)
        → Then P (throw_conversion nlohmann value target_type)
    unfolding throw_conversion
    throw_conversion-Then P value target_type = elim (Result-cases (nlohmann.dump value)) [
      | inl (text, e) ↦ rw (throw_conversion, e) tt
      | inr (message, e) ↦ rw (throw_conversion, e) tt
    ]

    int64_lem : (i : ℤ) → negsuc (2 ^ 63 - 1) ≤ℤ i → i ≤ℤ pos (2 ^ 63 - 1) → IsInt64 i
    int64_lem (pos n) h k = omega arith
    int64_lem (negsuc n) h k = omega arith

    json_to_int-IsInt64 :
        (value : Json D) → IsScalar value → Then IsInt64 (json_to_int nlohmann value)
    unfolding json_to_int
    json_to_int-IsInt64 null h = throw_conversion-Then IsInt64 null _
    json_to_int-IsInt64 (boolean true) h = omega arith
    json_to_int-IsInt64 (boolean false) h = omega arith
    json_to_int-IsInt64 (number_integer i) h = h
    json_to_int-IsInt64 (number_unsigned n) h =
        if_ind (Then IsInt64) (ltb (2 ^ 63 - 1) n) _ _
          (λ e. throw_conversion-Then IsInt64 (number_unsigned n) _) (λ e. ground arith)
    json_to_int-IsInt64 (number_float x) h =
        if_ind (Then IsInt64) (not (d.is_finite x) || not (d.eq (d.trunc x) x)) _ _
          (λ e. throw_conversion-Then IsInt64 (number_float x) _)
          (λ whole.
            if_ind (Then IsInt64) (d.lt x min_d || d.le upper_exclusive x) _ _
              (λ e. throw_conversion-Then IsInt64 (number_float x) _)
              (λ within.
                int64_lem (d.to_ℤ x) (casts.at_least x (ground arith) (ground arith) (ground arith))
                  (casts.below x (ground arith) (ground arith) (ground arith))))
    json_to_int-IsInt64 (string s) h = throw_conversion-Then IsInt64 (string s) _
    json_to_int-IsInt64 (array vs) h = throw_conversion-Then IsInt64 (array vs) _
    json_to_int-IsInt64 (object ms) h = throw_conversion-Then IsInt64 (object ms) _

    scalar_lem : (value : Json D) → IsStored value → IsScalar value
    scalar_lem null h = tt
    scalar_lem (boolean b) h = tt
    scalar_lem (number_integer i) h = h
    scalar_lem (number_unsigned n) h = tt
    scalar_lem (number_float x) h = tt
    scalar_lem (string s) h = tt
    scalar_lem (array vs) h = tt
    scalar_lem (object ms) h = tt

    convert_all-IsInt64 :
        (values : List (Json D))
        → All IsScalar values
        → Then (All IsInt64) (convert_all (json_to_int nlohmann) values)
    convert_all-IsInt64 [] h = tt
    convert_all-IsInt64 (v ∷ vs) (h, hs) =
        >>=-Then IsInt64 (All IsInt64) (json_to_int nlohmann v) _ (json_to_int-IsInt64 v h) (λ i k.
          >>=-Then (All IsInt64) (All IsInt64) (convert_all (json_to_int nlohmann) vs) _
            (convert_all-IsInt64 vs hs) (λ is ks. (k, ks)))

    json_to_array-IsInt64 :
        (target_type : Bytes) (value : Json D)
        → IsStored value
        → Then (All IsInt64) (json_to_array nlohmann (json_to_int nlohmann) target_type value)
    unfolding json_to_array
    json_to_array-IsInt64 t null h = throw_conversion-Then (All IsInt64) null t
    json_to_array-IsInt64 t (boolean b) h = throw_conversion-Then (All IsInt64) (boolean b) t
    json_to_array-IsInt64 t (number_integer i) h =
        throw_conversion-Then (All IsInt64) (number_integer i) t
    json_to_array-IsInt64 t (number_unsigned n) h =
        throw_conversion-Then (All IsInt64) (number_unsigned n) t
    json_to_array-IsInt64 t (number_float x) h =
        throw_conversion-Then (All IsInt64) (number_float x) t
    json_to_array-IsInt64 t (string s) h = throw_conversion-Then (All IsInt64) (string s) t
    json_to_array-IsInt64 t (array vs) h = convert_all-IsInt64 (elements vs) h
    json_to_array-IsInt64 t (object ms) h = throw_conversion-Then (All IsInt64) (object ms) t

    -- A conversion whose values all are of the type.
    bind_lem :
        {A : Type 0} (type : ℕ) (m : Result A) (f : A → ParameterValue D)
        → ((a : A) → IsOf type (f a))
        → Then (IsOf type) (m >>= λ a. ok (f a))
    bind_lem type (ok a) f h = h a
    bind_lem type (error e) f h = tt

    -- With the casts of doubles within 64 bits, and a JSON value whose integers are of 64 bits: a
    -- conversion to a type, if it does not throw, gives a value of that very type, its integers of 64
    -- bits, and never "not set" or a byte array; so these two and unknown types always throw.
    pub json_to_parameter_value-IsOf :
        (value : Json D) (expected_type : ℕ)
        → IsStored value
        → Then (IsOf expected_type) (json_to_parameter_value nlohmann value expected_type)
    unfolding json_to_parameter_value
    json_to_parameter_value-IsOf v zero h = tt
    json_to_parameter_value-IsOf v (suc zero) h = bind_lem 1 _ bool_value (λ a. (refl, tt))
    json_to_parameter_value-IsOf v (suc (suc zero)) h =
        >>=-Then IsInt64 (IsOf 2) (json_to_int nlohmann v) _
          (json_to_int-IsInt64 v (scalar_lem v h)) (λ i k. (refl, k))
    json_to_parameter_value-IsOf v (suc (suc (suc zero))) h =
        bind_lem 3 _ double_value (λ a. (refl, tt))
    json_to_parameter_value-IsOf v (suc (suc (suc (suc zero)))) h =
        bind_lem 4 _ string_value (λ a. (refl, tt))
    json_to_parameter_value-IsOf v (suc (suc (suc (suc (suc zero))))) h = tt
    json_to_parameter_value-IsOf v (suc (suc (suc (suc (suc (suc zero)))))) h =
        bind_lem 6 _ bool_array_value (λ a. (refl, tt))
    json_to_parameter_value-IsOf v (suc (suc (suc (suc (suc (suc (suc zero))))))) h =
        >>=-Then (All IsInt64) (IsOf 7)
          (json_to_array nlohmann (json_to_int nlohmann) (codes "integer_array") v) _
          (json_to_array-IsInt64 (codes "integer_array") v h) (λ is k. (refl, k))
    json_to_parameter_value-IsOf v (suc (suc (suc (suc (suc (suc (suc (suc zero)))))))) h =
        bind_lem 8 _ double_array_value (λ a. (refl, tt))
    json_to_parameter_value-IsOf v (suc (suc (suc (suc (suc (suc (suc (suc (suc zero))))))))) h =
        bind_lem 9 _ string_array_value (λ a. (refl, tt))
    json_to_parameter_value-IsOf v (suc (suc (suc (suc (suc (suc (suc (suc (suc (suc n)))))))))) h =
        tt
