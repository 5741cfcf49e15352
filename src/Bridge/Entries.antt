-- ===== src/Bridge/Entries.antt =====
-- The members of an overview: what stands in an entry, in a failure and in a list.
use vehicle_detection_system.Common.{
  ◌≡◌, refl, inl, inr, ℕ, suc, true, false, Option, none, some, List, [], ◌∷◌, Bytes, codes,
  is_empty, get_elem?, Bool-cases,
}
use vehicle_detection_system.ParameterJson.Value.{
  Json, boolean, string, array, object, of_list, get_member, set_member, make_object, assign,
  Parameter,
}
use vehicle_detection_system.ParameterJson.Convert.{parameter_to_json, value_to_json}
use vehicle_detection_system.Bridge.Client.{ParameterDescriptor}
use vehicle_detection_system.Bridge.Overview.{
  describe, entries, unavailable, with_error, with_parameters,
}

module _ {D : Type 0} where
  -- A member of an object.
  abbrev pub member_of : Bytes → Json D → Option (Json D)
  member_of key (object ms) = get_member key ms
  member_of key value = none

  -- The entry has the name and the value of the parameter.
  abbrev pub IsEntry : Parameter D → Json D → Type 0
  IsEntry p entry =
      (member_of (codes "name") entry ≡ some (string p.name))
      × (member_of (codes "value") entry ≡ some (value_to_json p.value))

  describe-IsEntry :
      (o : Option ParameterDescriptor) (p : Parameter D)
      → IsEntry p (describe o (parameter_to_json p))
  unfolding describe parameter_to_json assign set_member
  describe-IsEntry none p = (refl, refl)
  describe-IsEntry (some desc) p = elim (Bool-cases (is_empty desc.description)) [
    | inl e ↦ elim (Bool-cases (is_empty desc.additional_constraints)) [
      | inl f ↦ rw (describe, e, f) (refl, refl)
      | inr f ↦ rw (describe, e, f) (refl, refl)
    ]
    | inr e ↦ elim (Bool-cases (is_empty desc.additional_constraints)) [
      | inl f ↦ rw (describe, e, f) (refl, refl)
      | inr f ↦ rw (describe, e, f) (refl, refl)
    ]
  ]

  -- One entry for each parameter, in their order.
  abbrev pub AreEntries : List (Parameter D) → List (Json D) → Type 0
  AreEntries [] [] = Unit
  AreEntries (p ∷ ps) (entry ∷ rest) = IsEntry p entry × AreEntries ps rest
  AreEntries _ _ = ⊥

  pub entries-AreEntries :
      (descriptors : List ParameterDescriptor) (i : ℕ) (values : List (Parameter D))
      → AreEntries values (entries descriptors i values)
  unfolding entries
  entries-AreEntries ds i [] = tt
  entries-AreEntries ds i (p ∷ values) =
      (describe-IsEntry (get_elem? ds i) p, entries-AreEntries ds (suc i) values)

  -- The overview of a node that gives an error.
  pub record IsFailure (node_name : Bytes) (out : Json D) : Type 0 where
    pub name : member_of (codes "name") out ≡ some (string node_name)
    pub available : member_of (codes "available") out ≡ some (boolean false)
    pub parameters : member_of (codes "parameters") out ≡ some (array (of_list []))
    pub error : (message : Bytes) × (member_of (codes "error") out ≡ some (string message))

  -- The overview of a node with its parameters.
  pub record IsList (node_name : Bytes) (values : List (Parameter D)) (out : Json D) : Type 0 where
    pub name : member_of (codes "name") out ≡ some (string node_name)
    pub available : member_of (codes "available") out ≡ some (boolean true)
    pub error : member_of (codes "error") out ≡ none
    pub parameters :
        (params : List (Json D)) × (member_of (codes "parameters") out
          ≡ some (array (of_list params)))
        × AreEntries values params

  pub with_error-IsFailure :
      (node_name message : Bytes) → IsFailure node_name (with_error node_name message)
  unfolding with_error set_member
  with_error-IsFailure node_name message = record {
    name = refl;
    available = refl;
    parameters = refl;
    error = (message, refl);
  }

  pub none-IsList :
      (node_name : Bytes)
      → IsList node_name [] (assign (codes "available") (boolean true) (unavailable node_name))
  unfolding assign unavailable set_member make_object
  none-IsList node_name = record {
    name = refl;
    available = refl;
    error = refl;
    parameters = ([], refl, tt);
  }

  pub with_parameters-IsList :
      (node_name : Bytes) (values : List (Parameter D)) (params : List (Json D))
      → AreEntries values params
      → IsList node_name values (with_parameters node_name params)
  unfolding with_parameters set_member
  with_parameters-IsList node_name values params h = record {
    name = refl;
    available = refl;
    error = refl;
    parameters = (params, refl, h);
  }
